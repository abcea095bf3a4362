-- ===== src/Processor.antt =====
-- tg_testcase/processor.py: the lease on a finalized batch, the parsing of its inputs, and the
-- publication of the results. Threads are not modelled: heartbeats are calls of their own.
pub mod Parse
pub mod Publish
pub mod Checked
pub mod First
pub mod Replay
pub mod Sound
pub mod Tokens
pub mod Growth
pub mod Calls
pub mod Stale
pub mod Open
use my_ops.Prelude.{
  ℕ, suc, ◌+◌, ◌++◌, String, Bool, true, false, not, ◌&&◌, ◌||◌, Option, none, some, List, [], ◌∷◌,
  map, Result, ok, err, ◌>>=◌, ◌>>◌, raise_if, any, all, select, contains, length, is_empty, first,
  update_where, get_by, leb, ltb, ◌==◌, nat_eq, string_eq, option_eq, if◌then◌else◌,
}
use my_ops.Task.{
  Error, value_error, key_error, lease_lost, integrity_error, Task, Source, Barrier, review,
}
use my_ops.Store.{
  Db, Batch, SourceInput, SourcePackage, ProcessingRun, Staging, ContentRow, ManifestRow, read,
  is_cancelled, transact, update_task, insert_history,
}
use my_ops.Acquisition.{batch_id, input_at, present, valid_lease}
use my_ops.Acquisition.Seal.{Hashing, seal_inputs, bound_package, is_text}
use my_ops.Content.{Envelope, Block, Parsers, parse_content, failed_content}

-- `TERMINAL`
unfoldable pub is_done : String → Bool
is_done status = contains ("completed" ∷ "partial" ∷ "failed" ∷ []) status

pub record ProcessClaim : Type 0 where
  pub batch_id : String
  pub worker_id : String
  pub fencing_token : ℕ
  pub attempt : ℕ

abbrev pub find_process : Db → String → Option ProcessingRun
find_process db bid = first (λ r. r.batch_id == bid) db.processing_runs

-- `_inputs`, for one row: a source of Notion has the fingerprint and length of its package.
unfoldable pub with_package : SourceInput → Option SourcePackage → SourceInput
with_package i none = i
with_package i (some p) = record i {
  sha256 = some p.content_fingerprint;
  byte_length = some p.byte_length;
}

unfoldable pub inputs_of : Db → String → List SourceInput
unfolding with_package bound_package
inputs_of db bid =
    map (λ i. if i.kind == "notion" then with_package i (bound_package db bid i) else i)
      (select (λ (i : SourceInput). i.batch_id == bid) db.inputs)

-- What the module asks of files and of `hashlib`: the bytes that `_read` finds and verifies, their
-- digest, and a digest that stands for bytes that could not be read.
pub record Files : Type 0 where
  pub read_bytes : SourceInput → Option (List ℕ)
  pub hash : List ℕ → String
  pub unavailable : String

abbrev pub is_unpinned : SourceInput → Bool
is_unpinned i = not (i.kind == "notion") && i.sha256 == none

abbrev pub pin_bytes : Files → List ℕ → SourceInput → SourceInput
pin_bytes files bytes i = record i {
  sha256 = some (files.hash bytes);
  byte_length = some (length bytes);
}

-- The pin of a legacy input at a claim, by what was read.
unfoldable pub pin_input : Files → Option (List ℕ) → SourceInput → SourceInput
pin_input files none i = record i { sha256 = some files.unavailable; byte_length = some 0 }
pin_input files (some bytes) i = pin_bytes files bytes i

unfoldable pub pin_all : Files → String → List SourceInput → List SourceInput → List SourceInput
unfolding pin_input
pin_all files bid [] inputs = inputs
pin_all files bid (s ∷ ss) inputs = pin_all files bid ss (
    if is_unpinned s
    then update_where (input_at bid s.source_id) (pin_input files (files.read_bytes s)) inputs
    else inputs)

abbrev pub next_attempt : Option ProcessingRun → ℕ
next_attempt none = 1
next_attempt (some r) = suc r.attempt

abbrev pub next_token : Option ProcessingRun → ℕ
next_token none = 1
next_token (some r) = suc r.fencing_token

abbrev pub new_claim : String → String → Option ProcessingRun → ProcessClaim
new_claim bid worker old = record {
  batch_id = bid;
  worker_id = worker;
  fencing_token = next_token old;
  attempt = next_attempt old;
}

abbrev pub claimed_run : ProcessClaim → ℕ → ProcessingRun
claimed_run c lease = record {
  batch_id = c.batch_id;
  worker_id = c.worker_id;
  attempt = c.attempt;
  fencing_token = c.fencing_token;
  lease_until = lease;
  status = "claimed";
  result_digest = none;
}

-- The upsert: every column of the row is set.
unfoldable pub put_process :
    ProcessClaim → ℕ → Option ProcessingRun → List ProcessingRun → List ProcessingRun
put_process c lease none runs = runs ++ claimed_run c lease ∷ []
put_process c lease (some old) runs =
    update_where (λ r. r.batch_id == c.batch_id) (λ r. claimed_run c lease) runs

-- `UPDATE collection_batches SET processing_status=?`
abbrev pub set_processing : String → String → Db → Db
set_processing bid status db = record db {
  batches =
      update_where (λ (b : Batch). b.id == bid) (λ b. record b { processing_status = status })
        db.batches;
}

abbrev pub is_leased : ℕ → Option ProcessingRun → Bool
is_leased now none = false
is_leased now (some r) = ltb now r.lease_until

unfoldable pub take_batch :
    Db → String → String → ℕ → ℕ → Option ProcessingRun → Option ProcessClaim × Db
unfolding put_process
take_batch db bid worker lease now old = if is_leased now old then (none, db) else (
  some (new_claim bid worker old),
  set_processing bid "claimed" (record db {
    staging = select (λ s. not (s.batch_id == bid)) db.staging;
    processing_runs = put_process (new_claim bid worker old) (now + lease) old db.processing_runs;
  }),
)

abbrev pub is_sealed : Option Batch → Bool
is_sealed none = false
is_sealed (some b) = is_text b.input_manifest_digest

unfoldable pub claim_sealed : Db → String → String → ℕ → ℕ → Option ProcessClaim × Db
unfolding take_batch
claim_sealed db bid worker lease now =
    if is_sealed (get_by batch_id bid db.batches)
    then take_batch db bid worker lease now (find_process db bid)
    else (none, db)

unfoldable pub claim_batch :
    Hashing
    → Files
    → Db
    → String
    → String
    → ℕ
    → ℕ
    → Option Batch
    → Result Error (Option ProcessClaim × Db)
unfolding is_done pin_all inputs_of seal_inputs claim_sealed
claim_batch h files db bid worker lease now none = err (key_error bid)
claim_batch h files db bid worker lease now (some b) = do
  task ← read db b.task_id
  if not (b.status == "finalized") || (is_cancelled task.state || is_done b.processing_status)
      then ok (none, db)
      else do
        db' ←
            seal_inputs h (record db { inputs = pin_all files bid (inputs_of db bid) db.inputs })
              bid
        ok (claim_sealed db' bid worker lease now)

-- `claim`
unfoldable pub claim_processing :
    Hashing → Files → Db → String → String → ℕ → ℕ → Result Error (Option ProcessClaim) × Db
unfolding claim_batch
claim_processing h files db bid worker lease now = transact db (
    raise_if (worker == "" || not (valid_lease lease)) (value_error "Invalid worker or lease")
    >> claim_batch h files db bid worker lease now (get_by batch_id bid db.batches))

abbrev pub process_holds : ProcessClaim → Option ProcessingRun → Bool
process_holds c none = false
process_holds c (some r) =
    r.worker_id == c.worker_id && (r.fencing_token == c.fencing_token && r.attempt == c.attempt)

-- `_check`
unfoldable pub check_process : Db → ProcessClaim → Bool → ℕ → Result Error (ProcessingRun × Task)
unfolding is_done
check_process db c terminal now = do
  raise_if (not (process_holds c (find_process db c.batch_id)))
      (lease_lost "Fencing token or worker mismatch")
  run ← present (find_process db c.batch_id)
  batch ← present (get_by batch_id c.batch_id db.batches)
  task ← read db batch.task_id
  raise_if (is_cancelled task.state) (lease_lost "Task cancelled")
  raise_if (not (terminal && is_done run.status) && (leb run.lease_until now || is_done run.status))
      (lease_lost "Lease expired or run terminal")
  ok (run, task)

abbrev pub with_process : Db → String → (ProcessingRun → ProcessingRun) → Db
with_process db bid f = record db {
  processing_runs = update_where (λ r. r.batch_id == bid) f db.processing_runs;
}

-- `heartbeat`
unfoldable pub beat_process : Db → ProcessClaim → ℕ → ℕ → ℕ → Result Error (Unit {0}) × Db
unfolding check_process
beat_process db c lease now now' = transact db (
    raise_if (not (valid_lease lease)) (value_error "Invalid lease")
    >> (check_process db c false now >>= (λ found.
        ok (tt, with_process db c.batch_id (λ r. record r { lease_until = now' + lease })))))
