-- ===== src/Registry/Renewals.antt =====
-- job_registry.py: what a heartbeat and a retry make of the job that they read.
use my_ops.Prelude.{
  ℕ, suc, ◌≡◌, refl, sym, subst, ◌∙◌, true, false, not, inl, inr, Option, none, some, ok, >>=-eq-ok,
  >>-eq-ok, raise_if-eq-ok, ◌&&◌, leb, ltb,
}
use my_ops.Review.Trace.{not-eq-false}
use my_ops.Contract.{ErrorCode, integer, fail_if, fenced, receipt_pending, job_timeout, lease_lost}
use my_ops.Job.{
  JobState, retry_wait, committed, cancelled, revoked, expired, failed, is_terminal, Job,
}
use my_ops.Registry.{Registry, Written, save_job, same_state, transition_job}
use my_ops.Registry.Authority.{check_job_authorization, check_claim}
use my_ops.Registry.Leases.{
  AcquisitionPort, check_source, is_leased, is_held, is_claimed_or_fetching, next_lease,
  heartbeat_job, put_off, later_of, put_off_job, schedule_retry_job,
}
use my_ops.Registry.Moves.{IsLater, IsLater-refl, save_job-eq-ok, transition_job-IsLater}
use my_ops.Registry.Steps.{IsStep, written, true-neq-false}

abbrev renewed : Option ℕ → Job → Job
renewed lease j = record j { lease_until = lease }

leased-not_terminal : (s : JobState) → is_leased s ≡ true → is_terminal s ≡ false
unfolding is_leased is_terminal
leased-not_terminal committed e = cc
leased-not_terminal cancelled e = cc
leased-not_terminal revoked e = cc
leased-not_terminal expired e = cc
leased-not_terminal failed e = cc
leased-not_terminal _ e = refl

held-not_terminal : (s : JobState) → is_held s ≡ true → is_terminal s ≡ false
unfolding is_held is_terminal
held-not_terminal committed e = cc
held-not_terminal cancelled e = cc
held-not_terminal revoked e = cc
held-not_terminal expired e = cc
held-not_terminal failed e = cc
held-not_terminal _ e = refl

held-not_waiting : (s : JobState) → is_held s ≡ true → same_state retry_wait s ≡ false
unfolding is_held
held-not_waiting retry_wait e = cc
held-not_waiting _ e = refl

-- A renewed lease changes nothing that a job keeps.
renewed-IsLater :
    (j : Job) (lease : Option ℕ) → is_terminal j.state ≡ false → IsLater j (renewed lease j)
renewed-IsLater j lease open_job =
    let r = IsLater-refl (renewed lease j) in
    record {
      id = r.id;
      settled = λ t. absurd (true-neq-false (sym t ∙ open_job));
      pinned = r.pinned;
      path = r.path;
    }

put_off-IsLater :
    (j j' : Job) (code : ErrorCode) (lease : Option ℕ) (at : ℕ)
    → is_terminal j.state ≡ false
    → IsLater (put_off_job code lease at j) j'
    → IsLater j j'
put_off-IsLater j j' code lease at open_job later = record {
  id = later.id;
  settled = λ t. absurd (true-neq-false (sym t ∙ open_job));
  pinned = later.pinned;
  path = later.path;
}

pub heartbeat_job-IsStep :
    (reg : Registry) (port : AcquisitionPort) (now : ℕ) (j : Job) (w : Written)
    → heartbeat_job reg port now j ≡ ok w
    → IsStep j w.job
unfolding heartbeat_job
heartbeat_job-IsStep reg port now j w h =
    let (_, h1) = >>-eq-ok (check_job_authorization reg j now) _ h in
    let (leased, h2) = >>-eq-ok (fail_if (not (is_leased j.state)) fenced) _ h1 in
    let (c, _, h3) =
      >>=-eq-ok (check_claim j (port.lookup_claim j.batch_id j.source_id) now) _ h2 in
    let (_, h4) = >>-eq-ok (fail_if (not (is_claimed_or_fetching c.state)) lease_lost) _ h3 in
    let (s, _, h5) = >>=-eq-ok (port.inspect_source j.task_id j.batch_id j.source_id) _ h4 in
    let (_, h6) = >>-eq-ok (check_source j s) _ h5 in
    let (a, _, h7) = >>=-eq-ok (port.heartbeat c (next_lease now j)) _ h6 in
    let (u, _, h8) = >>=-eq-ok (check_claim j (some a) now) _ h7 in
    let (j', saved, same) = >>=-eq-ok (save_job (renewed (some u.lease_until) j)) _ h8 in
    let (valid, e) = save_job-eq-ok (renewed (some u.lease_until) j) j' saved in
    let open_job = leased-not_terminal j.state (not-eq-false _ (raise_if-eq-ok _ _ leased)) in
    subst (IsStep j) (written _ w same) (record {
      later = subst (IsLater j) (sym e) (renewed-IsLater j (some u.lease_until) open_job);
      valid = λ v. valid;
    })

pub schedule_retry_job-IsStep :
    (reg : Registry) (code : ErrorCode) (retry_at : ℕ) (port : AcquisitionPort) (now : ℕ) (j : Job)
    (w : Written)
    → schedule_retry_job reg code retry_at port now j ≡ ok w
    → IsStep j w.job
unfolding schedule_retry_job
schedule_retry_job-IsStep reg code retry_at port now j w h =
    let (_, h1) = >>-eq-ok (check_job_authorization reg j now) _ h in
    let (held, h2) = >>-eq-ok (fail_if (not (is_held j.state)) receipt_pending) _ h1 in
    let (_, h3) =
      >>-eq-ok (fail_if (not (leb now retry_at && ltb retry_at j.deadline)) job_timeout) _ h2 in
    let (c, _, h4) =
      >>=-eq-ok (check_claim j (port.lookup_claim j.batch_id j.source_id) now) _ h3 in
    let (lease, _, h5) = >>=-eq-ok (put_off port c c.state retry_at j.lease_until) _ h4 in
    let (at, _, h6) = >>=-eq-ok (later_of retry_at lease) _ h5 in
    let (_, h7) = >>-eq-ok (integer (suc j.failure_count)) _ h6 in
    let m = put_off_job code lease at j in
    let (j', moved, same) = >>=-eq-ok (transition_job m retry_wait now false none) _ h7 in
    let (later, made) = transition_job-IsLater m retry_wait now false none j' moved in
    let is_held_now = not-eq-false (is_held j.state) (raise_if-eq-ok _ _ held) in
    subst (IsStep j) (written _ w same) (record {
      later = put_off-IsLater j j' code lease at (held-not_terminal j.state is_held_now) later;
      valid = λ v. elim made [
        | inl (e, _) ↦ absurd (true-neq-false (sym e ∙ held-not_waiting j.state is_held_now))
        | inr valid ↦ valid
      ];
    })
