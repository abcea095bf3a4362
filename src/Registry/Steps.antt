-- ===== src/Registry/Steps.antt =====
-- job_registry.py: what each call makes of the job that it read.
use my_ops.Prelude.{
  ℕ, ◌≡◌, ◌≢◌, refl, sym, subst, ap, ◌∙◌, Bool, true, false, not, inl, inr, Option, none, some,
  Result, ok, ◌>>=◌, ◌>>◌, Bool-cases, >>=-eq-ok, >>-eq-ok, raise_if-eq-ok, ok-injective, nat_eq,
  if◌then◌else◌,
}
use my_ops.Review.Trace.{not-eq-false}
use my_ops.Contract.{ErrorCode, JobError, fail_if, digest_conflict}
use my_ops.Job.{
  JobState, fetching, prepared, submitting, reconciling, committed, is_terminal, Receipt, Job,
  is_given, is_committed, validate_job, requested,
}
use my_ops.Registry.{
  Claim, OutboxEvent, Registry, same_state, transition_job, save_job, Written, only, sealed,
}
use my_ops.Registry.Authority.{check_job_authorization, check_claim}
use my_ops.Registry.Calls.{
  Package, pin_new, pin_again, pin_job, begin_submit_job, uncertain_job, accept_ack_job, marked,
  is_job_cancelled, safe_target, stop_job, consume_job, event_receipt, same_receipt, receive,
  with_package,
}
use my_ops.Registry.Moves.{IsLater, IsLater-refl, save_job-eq-ok, transition_job-IsLater}

-- A job that was valid comes to a valid one.
pub record IsStep (j j' : Job) : Type 0 where
  pub later : IsLater j j'
  pub valid : validate_job j ≡ ok tt → validate_job j' ≡ ok tt

pub IsStep-refl : (j : Job) → IsStep j j
IsStep-refl j = record { later = IsLater-refl j; valid = λ v. v }

IsStep-same : (j j' : Job) → ◌≡◌ {A = Result JobError Job} (ok j) (ok j') → IsStep j j'
IsStep-same j j' h = subst (IsStep j) (ok-injective h) (IsStep-refl j)

transition_job-IsStep :
    (j : Job) (target : JobState) (now : ℕ) (nc : Bool) (r : Option Receipt) (j' : Job)
    → transition_job j target now nc r ≡ ok j'
    → IsStep j j'
transition_job-IsStep j target now nc r j' h =
    let (later, made) = transition_job-IsLater j target now nc r j' h in
    record {
      later = later;
      valid = λ v. elim made [
        | inl (_, same) ↦ subst (λ x. validate_job x ≡ ok tt) (sym same) v
        | inr valid ↦ valid
      ];
    }

-- The job that an operation writes is the one that it made.
pub written :
    (made w : Written) → ◌≡◌ {A = Result JobError Written} (ok made) (ok w) → made.job ≡ w.job
written made w h = ap (λ (x : Written). x.job) (ok-injective h)

pub uncertain_job-IsStep :
    (now : ℕ) (j : Job) (w : Written) → uncertain_job now j ≡ ok w → IsStep j w.job
unfolding uncertain_job
uncertain_job-IsStep now j w h =
    let (j', moved, same) = >>=-eq-ok (transition_job j reconciling now false none) _ h in
    subst (IsStep j) (written _ w same)
      (transition_job-IsStep j reconciling now false none j' moved)

pub begin_submit_job-IsStep :
    (reg : Registry) (claim : Option Claim) (now : ℕ) (j : Job) (w : Written)
    → begin_submit_job reg claim now j ≡ ok w
    → IsStep j w.job
unfolding begin_submit_job
begin_submit_job-IsStep reg claim now j w h =
    let (_, h1) = >>-eq-ok (check_job_authorization reg j now) _ h in
    let (c, _, h2) = >>=-eq-ok (check_claim j claim now) _ h1 in
    let (_, h3) = >>-eq-ok _ _ h2 in
    let (_, h4) = >>-eq-ok _ _ h3 in
    let (j', moved, same) = >>=-eq-ok (transition_job j submitting now false none) _ h4 in
    subst (IsStep j) (written _ w same) (transition_job-IsStep j submitting now false none j' moved)

receive-IsStep : (r : Receipt) (now : ℕ) (j j' : Job) → receive r now j ≡ ok j' → IsStep j j'
unfolding receive
receive-IsStep r now j j' h = elim (Bool-cases (is_committed j.state)) [
  | inl done ↦ kept (rw (done, receive) at h)
  | inr waits ↦ transition_job-IsStep j committed now false (some r) j' (rw (waits, receive) at h)
]
  where
    kept : (fail_if (not (same_receipt j.receipt r)) digest_conflict >> ok j) ≡ ok j' → IsStep j j'
    kept g =
        IsStep-same j j'
          (>>-eq-ok (fail_if (not (same_receipt j.receipt r)) digest_conflict) (ok j) g).1

pub accept_ack_job-IsStep :
    (r : Receipt) (now : ℕ) (j : Job) (w : Written) → accept_ack_job r now j ≡ ok w → IsStep j w.job
unfolding accept_ack_job
accept_ack_job-IsStep r now j w h = elim (Bool-cases (is_committed j.state)) [
  | inl done ↦ kept (rw (done, accept_ack_job) at h)
  | inr waits ↦ sent (rw (waits, accept_ack_job) at h)
]
  where
    kept :
        (fail_if (not (same_receipt j.receipt r)) digest_conflict >> ok (only j)) ≡ ok w
        → IsStep j w.job
    kept g =
        let (_, same) =
          >>-eq-ok (fail_if (not (same_receipt j.receipt r)) digest_conflict) (ok (only j)) g in
        subst (IsStep j) (written (only j) w same) (IsStep-refl j)

    sent :
        (transition_job j committed now false (some r)
            >>= (λ j'. ok (record { job = j'; attempt = some (sealed, now) })))
          ≡ ok w
        → IsStep j w.job
    sent g =
        let (j', moved, same) = >>=-eq-ok (transition_job j committed now false (some r)) _ g in
        subst (IsStep j) (written _ w same)
          (transition_job-IsStep j committed now false (some r) j' moved)

pub consume_job-IsStep :
    (e : OutboxEvent) (seen : Bool) (now : ℕ) (j : Job) (w : Written)
    → consume_job e seen now j ≡ ok w
    → IsStep j w.job
unfolding consume_job
consume_job-IsStep e seen now j w h =
    let (_, h1) = >>-eq-ok _ _ h in
    let (j', made, same) = >>=-eq-ok (receive (event_receipt e) now j) _ h1 in
    subst (IsStep j) (written _ w same) (receive-IsStep (event_receipt e) now j j' made)

pin_again-IsStep : (p : Package) (now : ℕ) (j j' : Job) → pin_again p now j ≡ ok j' → IsStep j j'
unfolding pin_again
pin_again-IsStep p now j j' h = again (>>-eq-ok _ _ h).1
  where
    again :
        (if same_state j.state fetching then transition_job j prepared now false none else ok j)
          ≡ ok j'
        → IsStep j j'
    again g = elim (Bool-cases (same_state j.state fetching)) [
      | inl e ↦ transition_job-IsStep j prepared now false none j' (rw e at g)
      | inr e ↦ IsStep-same j j' (rw e at g)
    ]

fetching_state : (s : JobState) → same_state s fetching ≡ true → s ≡ fetching
fetching_state fetching e = refl
fetching_state _ e = cc

not_terminal : (s : JobState) → s ≡ fetching → is_terminal s ≡ true → ⊥
unfolding is_terminal
not_terminal s e t = cc (rw e at t)

not_prepared : (s : JobState) → s ≡ fetching → same_state prepared s ≡ true → ⊥
not_prepared s e t = cc (rw e at t)

pub true-neq-false : true ≢ false
true-neq-false e = cc

pub pin_new-IsStep :
    (reg : Registry) (p : Package) (now : ℕ) (j j' : Job)
    → is_given j.package_id ≡ false
    → pin_new reg p now j ≡ ok j'
    → IsStep j j'
unfolding pin_new is_terminal
pin_new-IsStep reg p now j j' unpinned h =
    let (state, h1) = >>-eq-ok _ _ h in
    let (_, h2) = >>-eq-ok _ _ h1 in
    let s = fetching_state j.state (not-eq-false _ (raise_if-eq-ok _ _ state)) in
    let (later, made) = transition_job-IsLater (with_package p j) prepared now false none j' h2 in
    record {
      later = record {
        id = later.id;
        settled = λ t. absurd (not_terminal j.state s t);
        pinned = λ g. absurd (true-neq-false (sym g ∙ unpinned));
        path = later.path;
      };
      valid = λ v. elim made [ inl (e, _) ↦ absurd (not_prepared j.state s e) | inr valid ↦ valid ];
    }

pin_either-IsStep :
    (reg : Registry) (p : Package) (now : ℕ) (j j' : Job)
    → (if is_given j.package_id then pin_again p now j else pin_new reg p now j) ≡ ok j'
    → IsStep j j'
pin_either-IsStep reg p now j j' h = elim (Bool-cases (is_given j.package_id)) [
  | inl e ↦ pin_again-IsStep p now j j' (rw e at h)
  | inr e ↦ pin_new-IsStep reg p now j j' e (rw e at h)
]

pub pin_job-IsStep :
    (reg : Registry) (p : Package) (now : ℕ) (j : Job) (w : Written)
    → pin_job reg p now j ≡ ok w
    → IsStep j w.job
unfolding pin_job
pin_job-IsStep reg p now j w h =
    let (_, h1) = >>-eq-ok (check_job_authorization reg j now) _ h in
    let (j', made, same) =
      >>=-eq-ok (if is_given j.package_id then pin_again p now j else pin_new reg p now j) _ h1 in
    subst (IsStep j) (written (only j') w same) (pin_either-IsStep reg p now j j' made)

-- The mark of a reason leaves alone what a job keeps, while it has not ended.
marked_if-IsLater :
    (b : Bool) (reason : ErrorCode) (now : ℕ) (j j' : Job)
    → is_terminal j.state ≡ false
    → IsLater
        (if b
          then record j { cancel_state = requested; cancel_at = some now; last_error = some reason }
          else record j { last_error = some reason })
        j'
    → IsLater j j'
marked_if-IsLater true reason now j j' open_job later = record {
  id = later.id;
  settled = λ t. cc (t, open_job);
  pinned = later.pinned;
  path = later.path;
}
marked_if-IsLater false reason now j j' open_job later = record {
  id = later.id;
  settled = λ t. cc (t, open_job);
  pinned = later.pinned;
  path = later.path;
}

pub stop_job-IsStep :
    (reason : ErrorCode) (target : JobState) (now : ℕ) (j : Job) (w : Written)
    → stop_job reason target now j ≡ ok w
    → IsStep j w.job
unfolding stop_job
stop_job-IsStep reason target now j w h = elim (Bool-cases (is_terminal j.state)) [
  | inl done ↦ subst (IsStep j) (written (only j) w (rw (done, stop_job) at h)) (IsStep-refl j)
  | inr open_job ↦ stopped open_job (rw (open_job, stop_job) at h)
]
  where
    stopped :
        is_terminal j.state ≡ false
        → (transition_job (marked reason now j) (safe_target j.state target) now false none
            >>= (λ j'. save_job j' >>= (λ j''. ok (only j''))))
          ≡ ok w
        → IsStep j w.job
    stopped open_job g =
        let (j', moved, h1) =
          >>=-eq-ok
            (transition_job (marked reason now j) (safe_target j.state target) now false none) _
            g in
        let (j'', saved, same) = >>=-eq-ok (save_job j') _ h1 in
        let (valid, e) = save_job-eq-ok j' j'' saved in
        let (later, _) = transition_job-IsLater (marked reason now j) _ now false none j' moved in
        subst (IsStep j) (written (only j'') w same) (record {
          later =
              marked_if-IsLater (is_job_cancelled reason) reason now j j'' open_job
                (subst (IsLater (marked reason now j)) (sym e) later);
          valid = λ v. valid;
        })
