-- ===== src/Registry.antt =====
-- tg_testcase/job_registry.py and authorization.py: the table of jobs, and the operations that are
-- one transaction. The guard is held throughout, so operations come one after another. Columns of
-- the table are fields of its payload. `authority` is what the call of that name answers.
pub mod Authority
pub mod Leases
pub mod Calls
pub mod Moves
pub mod Steps
pub mod Renewals
pub mod Life
pub mod Commits
pub mod Valid
pub mod Stopped
use my_ops.Prelude.{
  ℕ, ◌+◌, ◌++◌, String, Bool, true, false, not, ◌&&◌, ◌||◌, Option, none, some, List, [], ◌∷◌, map,
  Result, ok, err, ◌>>=◌, ◌>>◌, any, get_by, is_empty, leb, ltb, ◌==◌, nat_eq, string_eq, option_eq,
  if◌then◌else◌,
}
use my_ops.Contract.{
  ErrorCode, policy_invalid, credential_stale, policy_revoked, scope_denied, job_cancelled,
  job_timeout, fenced, lease_lost, digest_conflict, receipt_pending, internal_failure, JobError,
  contract_error, contract_value_error, fail_if, fail_all, require, integer, integer_in, max_i63,
  identifier, sha, ref_name,
}
use my_ops.Job.{
  JobState, registered, claim_pending, claimed, fetching, retry_wait, prepared, submitting,
  reconciling, committed, cancelled, revoked, expired, failed, is_terminal, is_stop, edge, RootType,
  page, database, data_source, CancelState, no_cancel, requested, SpoolState, pinned, retained,
  ReceiptState, committed_receipt, Receipt, Job, is_given, is_no_cancel, is_conflicting,
  is_committed, check_names_of, receipt_matches, validate_job,
}
use my_ops.Policy.{Policy, ScopeBinding, resolve}

-- `credential_head`
pub record Head : Type 0 where
  pub credential_ref : String
  pub generation : ℕ
  pub enabled : Bool
  pub deleted : Bool

-- The states of an acquisition claim, and of an attempt.
pub data ClaimState : Type 0 where
  claim_claimed claim_fetching claim_retry_wait sealed abandoned lost : ClaimState

pub record Claim : Type 0 where
  pub batch_id : String
  pub source_id : String
  pub revision : ℕ
  pub worker_id : String
  pub attempt : ℕ
  pub fencing_token : ℕ
  pub lease_until : ℕ
  pub state : ClaimState

-- Table `job_attempts`.
pub record Attempt : Type 0 where
  pub job_id : String
  pub attempt : ℕ
  pub state : ClaimState
  pub lease_until : Option ℕ
  pub ended_at : Option ℕ

pub record OutboxEvent : Type 0 where
  pub event_id : String
  pub job_id : String
  pub task_id : String
  pub batch_id : String
  pub source_id : String
  pub revision : ℕ
  pub attempt : ℕ
  pub fencing_token : ℕ
  pub policy_epoch : ℕ
  pub policy_digest : String
  pub credential_ref : String
  pub credential_generation : ℕ
  pub package_id : String
  pub package_digest : String
  pub content_fingerprint : String
  pub committed_at : ℕ

-- Table `consumed_events`.
pub record ConsumedEvent : Type 0 where
  pub event_id : String
  pub event_digest : String

pub record Registry : Type 0 where
  pub jobs : List Job
  pub attempts : List Attempt
  pub consumed_events : List ConsumedEvent
  pub authority : Result JobError (Policy × List Head)

-- A value of the list whose digest is the semantic key.
pub data Field : Type 0 where
  text_field : String → Field
  number_field : ℕ → Field

-- `digest`: SHA-256 of the canonical JSON, of such a list and of an event.
pub record Digests : Type 0 where
  pub of_fields : List Field → String
  pub of_event : OutboxEvent → String

abbrev pub root_name : RootType → String
root_name page = "page"
root_name database = "database"
root_name data_source = "data_source"

-- `['job-v1'] + [j[k] for k in SEMANTIC] + ['acquire']`
unfoldable pub semantic : Job → List Field
semantic j =
    text_field "job-v1"
    ∷ text_field j.principal
    ∷ text_field j.task_id
    ∷ text_field j.batch_id
    ∷ text_field j.source_id
    ∷ number_field j.revision
    ∷ text_field j.workspace_ref
    ∷ text_field j.grant_ref
    ∷ text_field (root_name j.root_type)
    ∷ text_field j.canonical_root_id
    ∷ number_field j.policy_epoch
    ∷ text_field j.policy_digest
    ∷ text_field j.credential_ref
    ∷ number_field j.credential_generation
    ∷ text_field "acquire"
    ∷ []

abbrev pub job_key : Job → String
job_key j = j.job_id

-- `except (ValueError, ...): fail(code)`
abbrev pub or_fail : ErrorCode → Result JobError (Unit {0}) → Result JobError (Unit {0})
or_fail code (ok x) = ok x
or_fail code (err e) = err (contract_error code)

-- The row that `get_job` found, or none.
unfoldable pub sound_job : Digests → Option Job → Result JobError Job
unfolding validate_job semantic require
sound_job digests none = err (contract_error fenced)
sound_job digests (some job) = do
  or_fail policy_invalid
      (validate_job job >> require (job.semantic_key == digests.of_fields (semantic job)))
  ok job

unfoldable pub get_job : Digests → Registry → String → Result JobError Job
unfolding identifier sound_job
get_job digests reg id = do identifier id; sound_job digests (get_by job_key id reg.jobs)

-- `_save`: the check of the job that is written
unfoldable pub save_job : Job → Result JobError Job
unfolding validate_job
save_job job = do validate_job job; ok job

-- `UPDATE jobs ... WHERE job_id=?`
unfoldable pub write_job : Job → List Job → List Job
write_job job [] = []
write_job job (j ∷ jobs) = (if j.job_id == job.job_id then job else j) ∷ write_job job jobs

abbrev pub state_index : JobState → ℕ
state_index registered = 0
state_index claim_pending = 1
state_index claimed = 2
state_index fetching = 3
state_index retry_wait = 4
state_index prepared = 5
state_index submitting = 6
state_index reconciling = 7
state_index committed = 8
state_index cancelled = 9
state_index revoked = 10
state_index expired = 11
state_index failed = 12

-- `a == b` of two states
abbrev pub same_state : JobState → JobState → Bool
same_state a b = state_index a == state_index b

-- `_validate_receipt`
unfoldable pub validate_receipt : Job → Receipt → Result JobError (Unit {0})
unfolding check_names_of receipt_matches
validate_receipt job r = do check_names_of r; fail_if (not (receipt_matches job r)) digest_conflict

-- `if target == 'committed'`
unfoldable pub attach_receipt : Job → JobState → Option Receipt → Result JobError Job
unfolding validate_receipt
attach_receipt job committed none = err (contract_error receipt_pending)
attach_receipt job committed (some r) = do
  validate_receipt job r
  ok (record job { receipt_state = committed_receipt; receipt = some r })
attach_receipt job _ receipt = ok job

-- `_transition` to another state
unfoldable pub cross_edge : Job → JobState → ℕ → Bool → Option Receipt → Result JobError Job
unfolding edge is_stop attach_receipt save_job
cross_edge job target now no_commit receipt = do
  fail_if (not (edge job.state target)) fenced
  fail_if
      (same_state job.state reconciling
        && (is_stop target || same_state target retry_wait)
        && not no_commit)
      receipt_pending
  job' ← attach_receipt job target receipt
  save_job (record job' { state = target; updated_at = now })

-- `_transition`
unfoldable pub transition_job : Job → JobState → ℕ → Bool → Option Receipt → Result JobError Job
unfolding integer_in cross_edge
transition_job job target now no_commit receipt = do
  integer now
  if same_state target job.state then ok job else cross_edge job target now no_commit receipt

-- What an operation writes: the job, and the state that `_attempt_state` gives its attempt.
pub record Written : Type 0 where
  pub job : Job
  pub attempt : Option (ClaimState × ℕ)

abbrev pub ends_attempt : ClaimState → Bool
ends_attempt sealed = true
ends_attempt abandoned = true
ends_attempt lost = true
ends_attempt _ = false

-- `_attempt_state`
unfoldable pub attempt_state : Job → Option (ClaimState × ℕ) → List Attempt → List Attempt
attempt_state job none attempts = attempts
attempt_state job (some (state, now)) [] = []
attempt_state job (some (state, now)) (a ∷ attempts) =
    (if a.job_id == job.job_id && a.attempt == job.attempt
      then record a {
        state = state;
        lease_until = job.lease_until;
        ended_at = if ends_attempt state then some now else a.ended_at;
      }
      else a)
    ∷ attempt_state job (some (state, now)) attempts

unfoldable pub write_registry : Registry → Written → Registry
write_registry reg w = record reg {
  jobs = write_job w.job reg.jobs;
  attempts = attempt_state w.job w.attempt reg.attempts;
}

-- A transaction on one job. An operation that returns the job it read writes the row it has.
unfoldable pub on_job :
    Digests → Registry → String → (Job → Result JobError Written) → Result JobError (Job × Registry)
unfolding write_registry
on_job digests reg id operation = do
  job ← get_job digests reg id
  w ← operation job
  ok (w.job, write_registry reg w)

abbrev pub only : Job → Written
only job = record { job = job; attempt = none }
