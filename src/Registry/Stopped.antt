-- ===== src/Registry/Stopped.antt =====
-- job_registry.py, `stop`: a job that may have been sent is not ended.
use my_ops.Prelude.{
  ℕ, ◌≡◌, refl, sym, ap, ◌∙◌, String, true, false, not, inl, inr, Option, none, some, ok,
  Bool-cases, nat_eq, string_eq, option_eq,
}
use my_ops.Contract.{
  ErrorCode, integer, job_cancelled, policy_revoked, job_timeout, internal_failure,
}
use my_ops.Job.{
  JobState, submitting, reconciling, cancelled, revoked, expired, failed, is_terminal, edge,
  CancelState, requested, is_no_cancel, is_given, agree, if_given, Job, validate_job,
}
use my_ops.Registry.{
  Registry, Digests, get_job, save_job, attach_receipt, cross_edge, transition_job, on_job, only,
  write_registry,
}
use my_ops.Registry.Calls.{stop, stop_target, stop_job, is_job_cancelled, safe_target}
use my_ops.Registry.Valid.{rewritten, validate_job-kept, kept_fields, get_job-valid}

-- A job that was submitted and may be on its way.
pub data IsOnItsWay : JobState → Type 0 where
  is_submitting : IsOnItsWay submitting
  is_reconciling : IsOnItsWay reconciling

-- A job that a stop sent to reconciliation, with the reason.
pub record IsStopped (reason : ErrorCode) (j k : Job) : Type 0 where
  pub state : k.state ≡ reconciling
  pub last_error : k.last_error ≡ some reason
  pub receipt : k.receipt ≡ j.receipt
  pub pinned : k.package_id ≡ j.package_id
  pub cancel : reason ≡ job_cancelled → k.cancel_state ≡ requested

-- The transition of a marked job, and its two writes.
module _ (j : Job) (now : ℕ) (cs : CancelState) (at : Option ℕ) (last : Option ErrorCode)
    (level : integer now ≡ ok tt) (level' : if_given integer at ≡ ok tt)
    (both : agree (is_no_cancel cs) (not (is_given at)) ≡ true)
    (valid : validate_job j ≡ ok tt) where
  marked_job : Job
  marked_job = rewritten j j.state j.updated_at cs at last

  reconciles :
      {s : JobState}
      → j.state ≡ s
      → IsOnItsWay s
      → (u : ℕ) × (transition_job marked_job reconciling now false none
          ≡ ok (rewritten j reconciling u cs at last))
        × (save_job (rewritten j reconciling u cs at last)
            ≡ ok (rewritten j reconciling u cs at last))
  unfolding marked_job transition_job cross_edge save_job attach_receipt edge
  reconciles e is_submitting =
      let good = validate_job-kept j reconciling now cs at last level level' both refl valid in
      (now, rw (level, e, good) refl, rw good refl)
  reconciles e is_reconciling =
      let (old, _, _) = kept_fields j valid in
      let good =
        validate_job-kept j reconciling j.updated_at cs at last old level' both refl valid in
      (j.updated_at, rw (level, e) refl, rw good refl)

on_way-open : {s : JobState} → IsOnItsWay s → is_terminal s ≡ false
unfolding is_terminal
on_way-open is_submitting = refl
on_way-open is_reconciling = refl

on_way-target : {s : JobState} (t : JobState) → IsOnItsWay s → safe_target s t ≡ reconciling
on_way-target t is_submitting = refl
on_way-target t is_reconciling = refl

is_cancel : (reason : ErrorCode) → is_job_cancelled reason ≡ true → reason ≡ job_cancelled
is_cancel job_cancelled e = refl
is_cancel _ e = cc

no_cancel : (reason : ErrorCode) → is_job_cancelled reason ≡ false → reason ≡ job_cancelled → ⊥
no_cancel reason e same = wrong (ap is_job_cancelled (sym same) ∙ e)
  where
    wrong : is_job_cancelled job_cancelled ≡ false → ⊥
    wrong g = cc

stop_job-IsStopped :
    (reason : ErrorCode) (target : JobState) (now : ℕ) (j : Job)
    → IsOnItsWay j.state
    → integer now ≡ ok tt
    → validate_job j ≡ ok tt
    → (k : Job) × (stop_job reason target now j ≡ ok (only k)) × IsStopped reason j k
unfolding stop_job marked_job
stop_job-IsStopped reason target now j on_way level valid =
    elim (Bool-cases (is_job_cancelled reason)) [
      | inl e ↦
          let (u, moved_on, saved) =
            reconciles j now requested (some now) (some reason) level level refl valid refl
              on_way in
          (
            rewritten j reconciling u requested (some now) (some reason),
            rw (on_way-open on_way, on_way-target target on_way, e, moved_on, saved) refl,
            record {
              state = refl;
              last_error = refl;
              receipt = refl;
              pinned = refl;
              cancel = λ same. refl;
            },
          )
      | inr e ↦
          let (_, level', both) = kept_fields j valid in
          let (u, moved_on, saved) =
            reconciles j now j.cancel_state j.cancel_at (some reason) level level' both valid refl
              on_way in
          (
            rewritten j reconciling u j.cancel_state j.cancel_at (some reason),
            rw (on_way-open on_way, on_way-target target on_way, e, moved_on, saved) refl,
            record {
              state = refl;
              last_error = refl;
              receipt = refl;
              pinned = refl;
              cancel = λ same. absurd (no_cancel reason e same);
            },
          )
    ]

-- The reasons for which a job is stopped.
pub data IsReason : ErrorCode → Type 0 where
  by_cancel : IsReason job_cancelled
  by_policy : IsReason policy_revoked
  by_timeout : IsReason job_timeout
  by_failure : IsReason internal_failure

has_target : {reason : ErrorCode} → IsReason reason → (t : JobState) × (stop_target reason ≡ ok t)
unfolding stop_target
has_target by_cancel = (cancelled, refl)
has_target by_policy = (revoked, refl)
has_target by_timeout = (expired, refl)
has_target by_failure = (failed, refl)

-- Stopping a job of the registry that is submitting or reconciling, for one of the four reasons and
-- at a time that is a valid number, succeeds: it leaves the job reconciling, never ended, as it may
-- have been committed already, with the reason as its last error, the receipt and package it had, and
-- a cancellation requested where this is the reason; and this job is written.
pub stop-reconciles :
    (digests : Digests) (reg : Registry) (id : String) (reason : ErrorCode) (now : ℕ) (j : Job)
    → get_job digests reg id ≡ ok j
    → IsOnItsWay j.state
    → IsReason reason
    → integer now ≡ ok tt
    → (k : Job) × (stop digests reg id reason now ≡ ok (k, write_registry reg (only k)))
      × IsStopped reason j k
unfolding stop on_job
stop-reconciles digests reg id reason now j read on_way why level =
    let (target, leads) = has_target why in
    let (k, done, stopped) =
      stop_job-IsStopped reason target now j on_way level (get_job-valid digests reg id j read) in
    (k, rw (leads, read, done) refl, stopped)
