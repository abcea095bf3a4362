-- ===== src/Registry/Calls.antt =====
-- tg_testcase/job_registry.py: the calls that are one transaction on one job. What the acquisition
-- port answers in a call is an argument.
use my_ops.Prelude.{
  ℕ, ◌++◌, String, Bool, true, false, not, ◌&&◌, ◌||◌, Option, none, some, List, [], ◌∷◌, Result,
  ok, err, ◌>>=◌, ◌>>◌, each, any, get_by, ◌==◌, nat_eq, string_eq, option_eq, if◌then◌else◌,
}
use my_ops.Contract.{
  ErrorCode, policy_revoked, job_cancelled, job_timeout, fenced, lease_lost, digest_conflict,
  internal_failure, JobError, contract_value_error, fail_if, integer, integer_in, max_i63,
  identifier, sha, ref_name,
}
use my_ops.Job.{
  JobState, fetching, prepared, submitting, reconciling, committed, cancelled, revoked, expired,
  failed, is_terminal, requested, SpoolState, pinned, retained, Receipt, Job, is_given,
  is_committed,
}
use my_ops.Registry.{
  sealed, Claim, OutboxEvent, ConsumedEvent, Registry, Digests, save_job, same_state,
  transition_job, Written, on_job, only,
}
use my_ops.Registry.Leases.{AcquisitionPort, heartbeat, schedule_retry}
use my_ops.Registry.Authority.{check_job_authorization, check_claim, is_fetching_or_sealed}

-- What `pin` is given.
pub record Package : Type 0 where
  pub package_id : String
  pub package_digest : String
  pub package_length : ℕ
  pub spool_ref : String

unfoldable pub same_package : Job → Package → Bool
same_package job p =
    job.package_id == some p.package_id
    && (job.package_digest == some p.package_digest
        && (job.package_length == some p.package_length && job.spool_ref == some p.spool_ref))

-- `SELECT 1 FROM jobs WHERE package_id=?`
abbrev pub is_used : Registry → Package → Bool
is_used reg p = any (λ (j : Job). j.package_id == some p.package_id) reg.jobs

-- `job.update(values, spool_state='pinned')`
abbrev pub with_package : Package → Job → Job
with_package p job = record job {
  package_id = some p.package_id;
  package_digest = some p.package_digest;
  package_length = some p.package_length;
  spool_ref = some p.spool_ref;
  spool_state = pinned;
}

unfoldable pub pin_new : Registry → Package → ℕ → Job → Result JobError Job
unfolding transition_job
pin_new reg p now job = do
  fail_if (not (same_state job.state fetching)) fenced
  fail_if (is_used reg p) digest_conflict
  transition_job (with_package p job) prepared now false none

unfoldable pub pin_again : Package → ℕ → Job → Result JobError Job
unfolding same_package transition_job
pin_again p now job = do
  fail_if (not (same_package job p)) digest_conflict
  if same_state job.state fetching then transition_job job prepared now false none else ok job

unfoldable pub pin_job : Registry → Package → ℕ → Job → Result JobError Written
unfolding check_job_authorization pin_again pin_new
pin_job reg p now job = do
  check_job_authorization reg job now
  job' ← if is_given job.package_id then pin_again p now job else pin_new reg p now job
  ok (only job')

abbrev pub check_package : Package → Result JobError (Unit {0})
check_package p = do
  identifier p.package_id
  sha p.package_digest
  integer_in 0 16777216 p.package_length
  identifier p.spool_ref

unfoldable pub pin : Digests → Registry → String → Package → ℕ → Result JobError (Job × Registry)
unfolding on_job pin_job
pin digests reg id p now = do check_package p; on_job digests reg id (pin_job reg p now)

abbrev pub has_spool : SpoolState → Bool
has_spool pinned = true
has_spool retained = true
has_spool _ = false

-- `not job['package_id']`: the empty text counts as none
abbrev pub lacks_package : Option String → Bool
lacks_package none = true
lacks_package (some p) = p == ""

unfoldable pub begin_submit_job : Registry → Option Claim → ℕ → Job → Result JobError Written
unfolding check_job_authorization check_claim transition_job
begin_submit_job reg claim now job = do
  check_job_authorization reg job now
  c ← check_claim job claim now
  fail_if (not (is_fetching_or_sealed c.state)) lease_lost
  fail_if (lacks_package job.package_id || not (has_spool job.spool_state)) digest_conflict
  job' ← transition_job job submitting now false none
  ok (only job')

-- `begin_submit`, for the claim that `port.lookup_claim` answers
unfoldable pub begin_submit :
    Digests → Registry → String → Option Claim → ℕ → Result JobError (Job × Registry)
unfolding on_job begin_submit_job
begin_submit digests reg id claim now = on_job digests reg id (begin_submit_job reg claim now)

unfoldable pub uncertain_job : ℕ → Job → Result JobError Written
unfolding transition_job
uncertain_job now job = do job' ← transition_job job reconciling now false none; ok (only job')

unfoldable pub uncertain : Digests → Registry → String → ℕ → Result JobError (Job × Registry)
unfolding on_job uncertain_job
uncertain digests reg id now = on_job digests reg id (uncertain_job now)

-- `job['receipt'] == receipt`
abbrev pub same_receipt : Option Receipt → Receipt → Bool
same_receipt none r = false
same_receipt (some s) r =
    s.package_id == r.package_id
    && (s.package_digest == r.package_digest && s.content_fingerprint == r.content_fingerprint)

unfoldable pub accept_ack_job : Receipt → ℕ → Job → Result JobError Written
unfolding transition_job
accept_ack_job receipt now job =
    if is_committed job.state
    then (do fail_if (not (same_receipt job.receipt receipt)) digest_conflict; ok (only job))
    else (do
      job' ← transition_job job committed now false (some receipt)
      ok (record { job = job'; attempt = some (sealed, now) }))

unfoldable pub accept_ack :
    Digests → Registry → String → Receipt → ℕ → Result JobError (Job × Registry)
unfolding on_job accept_ack_job
accept_ack digests reg id receipt now = on_job digests reg id (accept_ack_job receipt now)

-- The state that a reason leads to; other codes are refused.
unfoldable pub stop_target : ErrorCode → Result JobError JobState
stop_target job_cancelled = ok cancelled
stop_target policy_revoked = ok revoked
stop_target job_timeout = ok expired
stop_target internal_failure = ok failed
stop_target _ = err contract_value_error

abbrev pub is_job_cancelled : ErrorCode → Bool
is_job_cancelled job_cancelled = true
is_job_cancelled _ = false

-- A job that may have been sent is not stopped: it must reconcile first.
abbrev pub safe_target : JobState → JobState → JobState
safe_target submitting target = reconciling
safe_target reconciling target = reconciling
safe_target _ target = target

abbrev pub marked : ErrorCode → ℕ → Job → Job
marked reason now job =
    if is_job_cancelled reason
    then record job { cancel_state = requested; cancel_at = some now; last_error = some reason }
    else record job { last_error = some reason }

unfoldable pub stop_job : ErrorCode → JobState → ℕ → Job → Result JobError Written
unfolding is_terminal transition_job save_job
stop_job reason target now job = if is_terminal job.state then ok (only job) else (do
  job' ← transition_job (marked reason now job) (safe_target job.state target) now false none
  job'' ← save_job job'
  ok (only job''))

unfoldable pub stop : Digests → Registry → String → ErrorCode → ℕ → Result JobError (Job × Registry)
unfolding on_job stop_job stop_target
stop digests reg id reason now = do
  target ← stop_target reason
  on_job digests reg id (stop_job reason target now)

-- `outbox_event`
unfoldable pub outbox_event : OutboxEvent → Result JobError (Unit {0})
unfolding identifier integer_in sha ref_name
outbox_event e = do
  each identifier (e.event_id ∷ e.job_id ∷ e.task_id ∷ e.batch_id ∷ e.source_id ∷ e.package_id ∷ [])
  each (integer_in 1 max_i63)
      (e.revision ∷ e.attempt ∷ e.fencing_token ∷ e.policy_epoch ∷ e.credential_generation ∷ [])
  each sha (e.policy_digest ∷ e.package_digest ∷ e.content_fingerprint ∷ [])
  ref_name e.credential_ref
  integer e.committed_at

-- `event[key] == job[key]` for the twelve fields that they share
unfoldable pub event_agrees : Job → OutboxEvent → Bool
event_agrees job e =
    e.task_id == job.task_id
    && (e.batch_id == job.batch_id
        && (e.source_id == job.source_id
            && (e.revision == job.revision
                && (e.attempt == job.attempt
                    && (e.fencing_token == job.fencing_token
                        && (e.policy_epoch == job.policy_epoch
                            && (e.policy_digest == job.policy_digest
                                && (e.credential_ref == job.credential_ref
                                    && (e.credential_generation == job.credential_generation
                                        && (some e.package_id == job.package_id
                                            && some e.package_digest == job.package_digest))))))))))

abbrev pub event_receipt : OutboxEvent → Receipt
event_receipt e = record {
  package_id = e.package_id;
  package_digest = e.package_digest;
  content_fingerprint = e.content_fingerprint;
}

abbrev pub find_event : Registry → String → Option ConsumedEvent
find_event reg id = get_by (λ (c : ConsumedEvent). c.event_id) id reg.consumed_events

abbrev pub differs : Option ConsumedEvent → String → Bool
differs none digest = false
differs (some c) digest = not (c.event_digest == digest)

-- The receipt of an event, for a job that is committed or comes to be.
unfoldable pub receive : Receipt → ℕ → Job → Result JobError Job
unfolding transition_job
receive receipt now job =
    if is_committed job.state
    then (do fail_if (not (same_receipt job.receipt receipt)) digest_conflict; ok job)
    else transition_job job committed now false (some receipt)

-- The job's part of `consume_outbox`; `seen` says that the event was consumed before.
unfoldable pub consume_job : OutboxEvent → Bool → ℕ → Job → Result JobError Written
unfolding event_agrees receive
consume_job e seen now job = do
  fail_if (not (event_agrees job e)) digest_conflict
  job' ← receive (event_receipt e) now job
  ok (record { job = job'; attempt = if seen then none else some (sealed, e.committed_at) })

abbrev pub record_event : Digests → OutboxEvent → Bool → Registry → Registry
record_event digests e seen reg = if seen then reg else record reg {
  consumed_events =
      reg.consumed_events
      ++ record { event_id = e.event_id; event_digest = digests.of_event e } ∷ [];
}

unfoldable pub consume_outbox :
    Digests → Registry → OutboxEvent → ℕ → Result JobError (Job × Registry)
unfolding outbox_event on_job consume_job
consume_outbox digests reg e now = do
  outbox_event e
  let old = find_event reg e.event_id
  fail_if (differs old (digests.of_event e)) digest_conflict
  (job, reg') ← on_job digests reg e.job_id (consume_job e (is_given old) now)
  ok (job, record_event digests e (is_given old) reg')

-- The calls of the registry that are one transaction.
pub data Call : Type 0 where
  pin_call : String → Package → ℕ → Call
  begin_submit_call : String → Option Claim → ℕ → Call
  uncertain_call : String → ℕ → Call
  accept_ack_call : String → Receipt → ℕ → Call
  stop_call : String → ErrorCode → ℕ → Call
  consume_outbox_call : OutboxEvent → ℕ → Call
  heartbeat_call : String → AcquisitionPort → ℕ → Call
  schedule_retry_call : String → ErrorCode → ℕ → AcquisitionPort → ℕ → Call

unfoldable pub run_call : Digests → Registry → Call → Result JobError (Job × Registry)
unfolding pin begin_submit uncertain accept_ack stop consume_outbox heartbeat schedule_retry
run_call digests reg (pin_call id p now) = pin digests reg id p now
run_call digests reg (begin_submit_call id claim now) = begin_submit digests reg id claim now
run_call digests reg (uncertain_call id now) = uncertain digests reg id now
run_call digests reg (accept_ack_call id receipt now) = accept_ack digests reg id receipt now
run_call digests reg (stop_call id reason now) = stop digests reg id reason now
run_call digests reg (consume_outbox_call e now) = consume_outbox digests reg e now
run_call digests reg (heartbeat_call id port now) = heartbeat digests reg id port now
run_call digests reg (schedule_retry_call id code retry_at port now) =
    schedule_retry digests reg id code retry_at port now

-- A transaction that raises leaves the registry as it was.
abbrev pub after_call : Registry → Result JobError (Job × Registry) → Registry
after_call reg (ok (job, reg')) = reg'
after_call reg (err e) = reg

-- The registry after calls, one after another.
unfoldable pub run_calls : Digests → Registry → List Call → Registry
unfolding run_call
run_calls digests reg [] = reg
run_calls digests reg (c ∷ cs) = run_calls digests (after_call reg (run_call digests reg c)) cs
