-- ===== src/Registry/Authority.antt =====
-- tg_testcase/authorization.py: `check_job_authorization` and `authorize_commit`; with the checks of
-- claims of controller_ports.py and job_registry.py.
use my_ops.Prelude.{
  ℕ, ◌++◌, String, Bool, true, false, not, ◌&&◌, ◌||◌, Option, none, some, List, [], ◌∷◌, Result,
  ok, err, ◌>>=◌, ◌>>◌, each, get_by, leb, ltb, ◌==◌, nat_eq, string_eq, option_eq, if◌then◌else◌,
}
use my_ops.Contract.{
  ErrorCode, credential_stale, policy_revoked, scope_denied, job_cancelled, job_timeout, fenced,
  lease_lost, digest_conflict, internal_failure, JobError, contract_error, fail_if, fail_all,
  integer, integer_in, max_i63, identifier, sha,
}
use my_ops.Job.{
  JobState, submitting, reconciling, committed, cancelled, revoked, expired, failed, Job,
  is_no_cancel, is_conflicting,
}
use my_ops.Policy.{Policy, ScopeBinding, resolve}
use my_ops.Registry.{
  Head, ClaimState, claim_fetching, sealed, Claim, Registry, Digests, get_job, root_name,
}

-- `if test: errors.append(code)`
abbrev pub error : Bool → ErrorCode → List ErrorCode
error test code = if test then code ∷ [] else []

-- `not head or head['deleted'] or not head['enabled'] or ...`
unfoldable pub is_stale : Job → Option Head → Bool
is_stale job none = true
is_stale job (some head) =
    head.deleted || (not head.enabled || not (head.generation == job.credential_generation))

unfoldable pub standing_errors : Job → Policy → List Head → List ErrorCode
unfolding is_stale
standing_errors job policy heads =
    error (is_stale job (get_by (λ (h : Head). h.credential_ref) job.credential_ref heads))
      credential_stale
    ++ error (not (policy.epoch == job.policy_epoch) || not (policy.digest == job.policy_digest))
        policy_revoked

-- One error for each field in which the binding differs from the job.
unfoldable pub binding_errors : Job → ScopeBinding → List ErrorCode
binding_errors job b =
    error (not (b.workspace_ref == job.workspace_ref)) scope_denied
    ++ (error (not (b.grant_ref == job.grant_ref)) scope_denied
        ++ (error (not (b.credential_ref == job.credential_ref)) scope_denied
            ++ (error (not (b.credential_generation == job.credential_generation)) scope_denied
                ++ (error (not (root_name b.root_type == root_name job.root_type)) scope_denied
                    ++ error (not (b.root_id == job.root_id)) scope_denied))))

unfoldable pub scope_errors : Job → Policy → List ErrorCode → Result JobError (List ErrorCode)
unfolding resolve binding_errors
scope_errors job policy [] = do
  binding ← resolve policy job.principal "acquire" job.root_id
  ok (binding_errors job binding)
scope_errors job policy (e ∷ es) = ok (e ∷ es)

-- `job['last_error'] in {...}`
unfoldable pub last_errors : Option ErrorCode → List ErrorCode
last_errors (some internal_failure) = internal_failure ∷ []
last_errors (some policy_revoked) = policy_revoked ∷ []
last_errors (some job_timeout) = job_timeout ∷ []
last_errors _ = []

unfoldable pub state_errors : JobState → List ErrorCode
state_errors cancelled = job_cancelled ∷ []
state_errors revoked = policy_revoked ∷ []
state_errors expired = job_timeout ∷ []
state_errors failed = fenced ∷ []
state_errors _ = []

unfoldable pub job_errors : Job → ℕ → List ErrorCode
unfolding last_errors state_errors
job_errors job now =
    error (not (is_no_cancel job.cancel_state)) job_cancelled
    ++ (error (is_conflicting job.receipt_state) digest_conflict
        ++ (last_errors job.last_error
            ++ (error (leb job.deadline now) job_timeout ++ state_errors job.state)))

unfoldable pub check_job_authorization : Registry → Job → ℕ → Result JobError (Unit {0})
unfolding integer_in standing_errors scope_errors job_errors fail_all
check_job_authorization reg job now = do
  integer now
  (policy, heads) ← reg.authority
  scope ← scope_errors job policy (standing_errors job policy heads)
  fail_all (scope ++ job_errors job now)

-- `claim_record`; membership of the state in its set holds by type.
unfoldable pub claim_record : Claim → Result JobError (Unit {0})
unfolding identifier integer_in
claim_record c = do
  each identifier (c.batch_id ∷ c.source_id ∷ c.worker_id ∷ [])
  each (integer_in 1 max_i63) (c.revision ∷ c.attempt ∷ c.fencing_token ∷ [])
  integer c.lease_until

-- `claim[k] == job[k]` for the six fields that a claim and a job share
unfoldable pub claim_agrees : Job → Claim → Bool
claim_agrees job c =
    c.batch_id == job.batch_id
    && (c.source_id == job.source_id
        && (c.revision == job.revision
            && (c.attempt == job.attempt
                && (c.fencing_token == job.fencing_token && some c.worker_id == job.worker_id))))

-- `_check_claim` of a claim
unfoldable pub check_held : Job → Claim → ℕ → Result JobError (Unit {0})
unfolding claim_record claim_agrees
check_held job c now = do
  claim_record c
  fail_if (not (claim_agrees job c)) fenced
  fail_if (not (ltb now c.lease_until && leb c.lease_until job.deadline)) lease_lost

-- `_check_claim`
unfoldable pub check_claim : Job → Option Claim → ℕ → Result JobError Claim
unfolding check_held
check_claim job none now = err (contract_error lease_lost)
check_claim job (some c) now = do check_held job c now; ok c

abbrev pub is_fetching_or_sealed : ClaimState → Bool
is_fetching_or_sealed claim_fetching = true
is_fetching_or_sealed sealed = true
is_fetching_or_sealed _ = false

-- `{'submitting', 'reconciling', 'committed'}`
abbrev pub is_sent : JobState → Bool
is_sent submitting = true
is_sent reconciling = true
is_sent committed = true
is_sent _ = false

-- `job['lease_until'] is None or job['lease_until'] <= now_ms`
abbrev pub is_over : Option ℕ → ℕ → Bool
is_over none now = true
is_over (some t) now = leb t now

-- The checks of `authorize_commit` on the job that it read.
unfoldable pub authorize_job :
    Registry → Job → Claim → String → String → ℕ → Result JobError (Unit {0})
unfolding check_job_authorization claim_agrees
authorize_job reg job claim package_id package_digest now = do
  check_job_authorization reg job now
  fail_if (not (is_sent job.state)) fenced
  fail_if (not (claim_agrees job claim)) fenced
  fail_if (not (is_fetching_or_sealed claim.state) || leb claim.lease_until now) lease_lost
  fail_if (is_over job.lease_until now) lease_lost
  fail_if (not (job.package_id == some package_id && job.package_digest == some package_digest))
      digest_conflict

-- `authorize_commit`; the token that it issues says nothing more.
unfoldable pub authorize_commit :
    Digests → Registry → String → Claim → String → String → ℕ → Result JobError (Unit {0})
unfolding identifier sha claim_record authorize_job
authorize_commit digests reg id claim package_id package_digest now = do
  identifier package_id
  sha package_digest
  claim_record claim
  job ← get_job digests reg id
  authorize_job reg job claim package_id package_digest now
