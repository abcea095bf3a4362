-- ===== src/Job.antt =====
-- tg_testcase/job_contract.py: the record of a job and `validate_job`, which every write of a job
-- passes; with the states and edges of job_registry.py. Words from fixed sets are data types here, so
-- the membership tests on them hold by type.
use my_ops.Prelude.{
  ℕ, ◌+◌, String, Bool, true, false, not, ◌&&◌, ◌||◌, Option, none, some, [], ◌∷◌, Result, ok, ◌>>◌,
  each, ◌==◌, nat_eq, string_eq, option_eq, if◌then◌else◌,
}
use my_ops.Contract.{
  ErrorCode, JobError, require, integer, integer_in, max_i63, identifier, id32, sha, ref_name,
  principal_name,
}

pub data JobState : Type 0 where
  registered claim_pending claimed fetching retry_wait prepared submitting : JobState
  reconciling committed cancelled revoked expired failed : JobState

-- `TERMINAL`
unfoldable pub is_terminal : JobState → Bool
is_terminal committed = true
is_terminal cancelled = true
is_terminal revoked = true
is_terminal expired = true
is_terminal failed = true
is_terminal _ = false

-- `_STOP`
unfoldable pub is_stop : JobState → Bool
is_stop cancelled = true
is_stop revoked = true
is_stop expired = true
is_stop failed = true
is_stop _ = false

-- `EDGES`
unfoldable pub edge : JobState → JobState → Bool
unfolding is_stop
edge registered claim_pending = true
edge registered target = is_stop target
edge claim_pending claimed = true
edge claim_pending reconciling = true
edge claim_pending target = is_stop target
edge claimed fetching = true
edge claimed retry_wait = true
edge claimed reconciling = true
edge claimed target = is_stop target
edge fetching prepared = true
edge fetching retry_wait = true
edge fetching reconciling = true
edge fetching target = is_stop target
edge retry_wait claim_pending = true
edge retry_wait reconciling = true
edge retry_wait target = is_stop target
edge prepared submitting = true
edge prepared reconciling = true
edge prepared target = is_stop target
edge submitting committed = true
edge submitting reconciling = true
edge submitting target = false
edge reconciling committed = true
edge reconciling submitting = true
edge reconciling retry_wait = true
edge reconciling target = is_stop target
edge _ _ = false

pub data RootType : Type 0 where
  page database data_source : RootType

pub data CancelState : Type 0 where
  no_cancel requested effective : CancelState

pub data SpoolState : Type 0 where
  no_spool pinned retained removed : SpoolState

pub data ReceiptState : Type 0 where
  unknown_receipt committed_receipt not_committed conflicting : ReceiptState

pub record Receipt : Type 0 where
  pub package_id : String
  pub package_digest : String
  pub content_fingerprint : String

pub record Job : Type 0 where
  pub job_id : String
  pub principal : String
  pub request_id : String
  pub intent_digest : String
  pub semantic_key : String
  pub task_id : String
  pub batch_id : String
  pub source_id : String
  pub task_expected_version : ℕ
  pub revision : ℕ
  pub workspace_ref : String
  pub grant_ref : String
  pub credential_ref : String
  pub policy_epoch : ℕ
  pub credential_generation : ℕ
  pub policy_digest : String
  pub root_type : RootType
  pub root_id : String
  pub canonical_root_id : String
  pub state : JobState
  pub attempt : ℕ
  pub fencing_token : ℕ
  pub worker_id : Option String
  pub created_at : ℕ
  pub updated_at : ℕ
  pub deadline : ℕ
  pub lease_until : Option ℕ
  pub retry_at : Option ℕ
  pub cancel_state : CancelState
  pub cancel_at : Option ℕ
  pub package_id : Option String
  pub package_digest : Option String
  pub package_length : Option ℕ
  pub spool_state : SpoolState
  pub spool_ref : Option String
  pub receipt_state : ReceiptState
  pub receipt : Option Receipt
  pub last_error : Option ErrorCode
  pub failure_count : ℕ

-- `x is not None`
abbrev pub is_given {ℓ} : {A : Type ℓ} → Option A → Bool
is_given none = false
is_given (some a) = true

abbrev pub is_no_cancel : CancelState → Bool
is_no_cancel no_cancel = true
is_no_cancel _ = false

abbrev pub is_no_spool : SpoolState → Bool
is_no_spool no_spool = true
is_no_spool _ = false

abbrev pub is_committed_receipt : ReceiptState → Bool
is_committed_receipt committed_receipt = true
is_committed_receipt _ = false

abbrev pub is_conflicting : ReceiptState → Bool
is_conflicting conflicting = true
is_conflicting _ = false

abbrev pub is_committed : JobState → Bool
is_committed committed = true
is_committed _ = false

-- `a == b` of two tests
abbrev pub agree : Bool → Bool → Bool
agree true b = b
agree false b = not b

-- `if x is not None: check(x)`
abbrev pub if_given {ℓ} :
    {A : Type ℓ} → (A → Result JobError (Unit {0})) → Option A → Result JobError (Unit {0})
if_given check none = ok tt
if_given check (some a) = check a

unfoldable pub check_names : Job → Result JobError (Unit {0})
unfolding identifier principal_name sha ref_name
check_names j = do
  each identifier (j.job_id ∷ j.request_id ∷ j.task_id ∷ j.batch_id ∷ j.source_id ∷ [])
  principal_name j.principal
  each sha (j.intent_digest ∷ j.semantic_key ∷ j.policy_digest ∷ [])
  each ref_name (j.workspace_ref ∷ j.grant_ref ∷ j.credential_ref ∷ [])

unfoldable pub check_numbers : Job → Result JobError (Unit {0})
unfolding integer_in
check_numbers j = do
  each (integer_in 1 max_i63)
      (j.task_expected_version ∷ j.revision ∷ j.policy_epoch ∷ j.credential_generation ∷ [])
  each integer (
      j.attempt ∷ j.fencing_token ∷ j.created_at ∷ j.updated_at ∷ j.deadline ∷ j.failure_count ∷ [])
  if_given integer j.lease_until
  if_given integer j.retry_at
  if_given integer j.cancel_at

unfoldable pub check_attempt : Job → Result JobError (Unit {0})
unfolding require identifier
check_attempt j = do
  require (agree (is_no_cancel j.cancel_state) (not (is_given j.cancel_at)))
  require (agree (j.attempt == 0) (j.fencing_token == 0))
  if_given identifier j.worker_id
  require (j.attempt == 0 || (is_given j.worker_id && is_given j.lease_until))

-- The three fields of a pin are all set or all unset, and the spool goes with them.
unfoldable pub check_pin : Job → Result JobError (Unit {0})
unfolding require identifier sha integer_in
check_pin j = do
  require (
      agree (is_given j.package_id) (is_given j.package_digest)
      && agree (is_given j.package_id) (is_given j.package_length))
  if_given identifier j.package_id
  if_given sha j.package_digest
  if_given (integer_in 0 16777216) j.package_length
  require (
      if is_given j.package_id
      then is_given j.spool_ref && not (is_no_spool j.spool_state)
      else not (is_given j.spool_ref) && is_no_spool j.spool_state)
  if_given identifier j.spool_ref

-- `all(receipt[k] == j[k] for k in ('package_id', 'package_digest'))`
unfoldable pub receipt_matches : Job → Receipt → Bool
receipt_matches j r = some r.package_id == j.package_id && some r.package_digest == j.package_digest

unfoldable pub check_names_of : Receipt → Result JobError (Unit {0})
unfolding identifier sha
check_names_of r = do identifier r.package_id; sha r.package_digest; sha r.content_fingerprint

unfoldable pub check_receipt : Job → Receipt → Result JobError (Unit {0})
unfolding require check_names_of receipt_matches
check_receipt j r = do
  check_names_of r
  require (is_committed_receipt j.receipt_state && receipt_matches j r)

-- The root, the deadline, the pin and the receipt are checked in the source's order.
unfoldable pub validate_job : Job → Result JobError (Unit {0})
unfolding check_names check_numbers require id32 check_attempt check_pin check_receipt
validate_job j = do
  check_names j
  check_numbers j
  id32 j.root_id
  id32 j.canonical_root_id
  require (j.root_id == j.canonical_root_id)
  require (j.deadline == j.created_at + 900000)
  check_attempt j
  check_pin j
  if_given (check_receipt j) j.receipt
  require (agree (is_committed_receipt j.receipt_state) (is_given j.receipt))
  require (not (is_committed j.state) || is_committed_receipt j.receipt_state)
