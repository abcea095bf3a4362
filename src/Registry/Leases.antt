-- ===== src/Registry/Leases.antt =====
-- tg_testcase/job_registry.py: the calls that keep a lease or put a job off, with the port of the
-- acquisition that they ask; and the column `retryable` of internal_errors.py.
use Prim.Native.String.{◌++◌}
use my_ops.Prelude.{
  ℕ, ◌+◌, suc, String, Bool, true, false, not, ◌&&◌, ◌||◌, Option, none, some, Result, ok, err,
  ◌>>=◌, ◌>>◌, leb, ltb, ◌==◌, nat_eq, string_eq, if◌then◌else◌,
}
use my_ops.Contract.{
  ErrorCode, attachment_expired, upstream_unavailable, storage_failure, receipt_pending,
  owner_mismatch, job_cancelled, job_timeout, fenced, lease_lost, JobError, contract_error,
  contract_value_error, fail_if, integer, integer_in,
}
use my_ops.Job.{JobState, claimed, fetching, retry_wait, prepared, submitting, Job}
use my_ops.Registry.{
  ClaimState, claim_claimed, claim_fetching, claim_retry_wait, Claim, Registry, Digests, save_job,
  transition_job, Written, on_job,
}
use my_ops.Registry.Authority.{check_job_authorization, check_claim}

-- `SourceSnapshot`
pub record SourceSnapshot : Type 0 where
  pub task_id : String
  pub batch_id : String
  pub source_id : String
  pub owner : String
  pub revision : ℕ
  pub root_id : String
  pub finalized : Bool
  pub sealed : Bool
  pub cancelled : Bool

-- `AcquisitionPort`: what its methods answer in one call.
pub record AcquisitionPort : Type 0 where
  pub inspect_source : String → String → String → Result JobError SourceSnapshot
  pub lookup_claim : String → String → Option Claim
  pub transition : Claim → ClaimState → Option ℕ → Result JobError (Unit {0})
  pub heartbeat : Claim → ℕ → Result JobError Claim

-- `_check_source`
unfoldable pub check_source : Job → SourceSnapshot → Result JobError (Unit {0})
check_source job s = do
  fail_if (not ("telegram:" ++ s.owner == job.principal)) owner_mismatch
  fail_if s.cancelled job_cancelled
  fail_if
      (not s.finalized
        || (s.sealed
            || (not (s.revision == job.revision)
                || (not (s.root_id == job.root_id)
                    || (not (s.task_id == job.task_id)
                        || (not (s.batch_id == job.batch_id)
                            || not (s.source_id == job.source_id)))))))
      fenced

-- `{'claimed', 'fetching', 'prepared', 'submitting'}`
unfoldable pub is_leased : JobState → Bool
is_leased claimed = true
is_leased fetching = true
is_leased prepared = true
is_leased submitting = true
is_leased _ = false

-- `{'claimed', 'fetching'}`
unfoldable pub is_held : JobState → Bool
is_held claimed = true
is_held fetching = true
is_held _ = false

abbrev pub is_claimed_or_fetching : ClaimState → Bool
is_claimed_or_fetching claim_claimed = true
is_claimed_or_fetching claim_fetching = true
is_claimed_or_fetching _ = false

-- `min(now_ms + DEFAULT_CLAIM_LEASE_MS, job['deadline'])`
abbrev pub next_lease : ℕ → Job → ℕ
next_lease now job = if ltb job.deadline (now + 60000) then job.deadline else now + 60000

unfoldable pub heartbeat_job : Registry → AcquisitionPort → ℕ → Job → Result JobError Written
unfolding check_job_authorization is_leased check_claim check_source save_job
heartbeat_job reg port now job = do
  check_job_authorization reg job now
  fail_if (not (is_leased job.state)) fenced
  claim ← check_claim job (port.lookup_claim job.batch_id job.source_id) now
  fail_if (not (is_claimed_or_fetching claim.state)) lease_lost
  source ← port.inspect_source job.task_id job.batch_id job.source_id
  check_source job source
  answer ← port.heartbeat claim (next_lease now job)
  updated ← check_claim job (some answer) now
  job' ← save_job (record job { lease_until = some updated.lease_until })
  ok (record { job = job'; attempt = some (updated.state, now) })

unfoldable pub heartbeat :
    Digests → Registry → String → AcquisitionPort → ℕ → Result JobError (Job × Registry)
unfolding on_job heartbeat_job
heartbeat digests reg id port now = on_job digests reg id (heartbeat_job reg port now)

-- `ERROR_INFO[code][1]`
unfoldable pub retryable : ErrorCode → Bool
retryable attachment_expired = true
retryable upstream_unavailable = true
retryable storage_failure = true
retryable receipt_pending = true
retryable _ = false

-- The lease after the port was told, by the state of the claim.
unfoldable pub put_off :
    AcquisitionPort → Claim → ClaimState → ℕ → Option ℕ → Result JobError (Option ℕ)
put_off port claim claim_fetching retry_at lease = do
  port.transition claim claim_retry_wait (some retry_at)
  ok (some retry_at)
put_off port claim claim_claimed retry_at lease = ok lease
put_off port claim _ retry_at lease = err (contract_error lease_lost)

-- `max(retry_at, lease)`; a job that holds a claim has a lease, and without one `max` raises.
unfoldable pub later_of : ℕ → Option ℕ → Result JobError ℕ
later_of retry_at none = err contract_value_error
later_of retry_at (some lease) = ok (if ltb retry_at lease then lease else retry_at)

-- The job as `job.update` leaves it.
abbrev pub put_off_job : ErrorCode → Option ℕ → ℕ → Job → Job
put_off_job code lease at job = record job {
  lease_until = lease;
  retry_at = some at;
  last_error = some code;
  failure_count = suc job.failure_count;
}

unfoldable pub schedule_retry_job :
    Registry → ErrorCode → ℕ → AcquisitionPort → ℕ → Job → Result JobError Written
unfolding check_job_authorization is_held check_claim put_off later_of integer_in transition_job
schedule_retry_job reg code retry_at port now job = do
  check_job_authorization reg job now
  fail_if (not (is_held job.state)) receipt_pending
  fail_if (not (leb now retry_at && ltb retry_at job.deadline)) job_timeout
  claim ← check_claim job (port.lookup_claim job.batch_id job.source_id) now
  lease ← put_off port claim claim.state retry_at job.lease_until
  at ← later_of retry_at lease
  integer (suc job.failure_count)
  job' ← transition_job (put_off_job code lease at job) retry_wait now false none
  ok (record { job = job'; attempt = some (claim_retry_wait, now) })

unfoldable pub schedule_retry :
    Digests
    → Registry
    → String
    → ErrorCode
    → ℕ
    → AcquisitionPort
    → ℕ
    → Result JobError (Job × Registry)
unfolding integer_in retryable on_job schedule_retry_job
schedule_retry digests reg id code retry_at port now = do
  integer retry_at
  integer now
  fail_if (not (retryable code)) code
  on_job digests reg id (schedule_retry_job reg code retry_at port now)
