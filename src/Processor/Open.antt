-- ===== src/Processor/Open.antt =====
-- processor.py: batches that wait for a processor.
use my_ops.Prelude.{
  ℕ, suc, ◌≤◌, ◌<◌, ◌≢◌, inl, inr, Option, none, Bool-cases, ==→eq, arith, ◌≡◌, refl, String, true,
  false, some, ok, get_by, ◌==◌, string_eq, nat_eq,
}
use my_ops.Task.{Task}
use my_ops.Store.{Db, Batch, ProcessingRun, read, is_cancelled}
use my_ops.Acquisition.{batch_id, valid_lease}
use my_ops.Acquisition.Seal.{Hashing, seal_inputs, seal_batch, is_text}
use my_ops.Processor.{
  is_done, find_process, ProcessClaim, Files, inputs_of, pin_all, new_claim, is_leased, take_batch,
  claim_sealed, claim_batch, claim_processing,
}
use my_ops.Processor.Tokens.{token}
use my_ops.Processor.Growth.{claim_processing-IsClaim}

-- A batch that is sealed and not yet processed, whose task is not cancelled.
pub record IsOpen (db : Db) (bid : String) : Type 0 where
  pub batch : Batch
  pub task : Task
  pub found : get_by batch_id bid db.batches ≡ some batch
  pub finalized : batch.status ≡ "finalized"
  pub waiting : is_done batch.processing_status ≡ false
  pub sealed : is_text batch.input_manifest_digest ≡ true
  pub task_read : read db batch.task_id ≡ ok task
  pub alive : is_cancelled task.state ≡ false

-- A batch that is sealed stays as it is.
seal_inputs-sealed :
    (h : Hashing) (db : Db) (bid : String) (b : Batch)
    → get_by batch_id bid db.batches ≡ some b
    → b.status ≡ "finalized"
    → is_text b.input_manifest_digest ≡ true
    → seal_inputs h db bid ≡ ok db
unfolding seal_inputs seal_batch
seal_inputs-sealed h db bid b found finalized sealed =
    rw (found, seal_batch, finalized, sealed) refl

granted :
    (h : Hashing) (files : Files) (db : Db) (bid worker : String) (lease now : ℕ)
    → IsOpen db bid
    → (worker == "") ≡ false
    → valid_lease lease ≡ true
    → is_leased now (find_process db bid) ≡ false
    → (claim_processing h files db bid worker lease now).0
      ≡ ok (some (new_claim bid worker (find_process db bid)))
unfolding claim_processing claim_batch claim_sealed take_batch
granted h files db bid worker lease now p named valid free =
    let pinned : Db = record db { inputs = pin_all files bid (inputs_of db bid) db.inputs } in
    rw
      (
        named,
        valid,
        p.found,
        claim_batch,
        p.task_read,
        p.finalized,
        p.alive,
        p.waiting,
        seal_inputs-sealed h pinned bid p.batch p.found p.finalized p.sealed,
        claim_sealed,
        p.found,
        p.sealed,
        free,
      )
      refl

-- The run that a batch has, if it has one, is over.
abbrev pub IsFree : Db → String → ℕ → Type 0
IsFree db bid now = (r : ProcessingRun) → find_process db bid ≡ some r → r.lease_until ≤ now

not_leased :
    (now : ℕ) (o : Option ProcessingRun)
    → ((r : ProcessingRun) → o ≡ some r → r.lease_until ≤ now)
    → is_leased now o ≡ false
not_leased now none over = refl
not_leased now (some r) over = ground (arith, over r refl)

-- A claim that is given on a batch: its names, and a token that is the next one of the batch and
-- that the batch has from then on.
pub record IsGiven (db : Db) (bid worker : String) (c : ProcessClaim) (db' : Db) : Type 0 where
  pub at_batch : c.batch_id ≡ bid
  pub own_worker : c.worker_id ≡ worker
  pub next : c.fencing_token ≡ suc (token db bid)
  pub stored : token db' bid ≡ c.fencing_token

-- An open batch whose run, if any, is over is given to the next worker who claims it, with a name and
-- for up to an hour: the claim is for this batch and worker, its token is one more than the token of
-- the batch before (0 without a run), and it is the token of the batch after the claim.
pub claim_processing-open :
    (h : Hashing) (files : Files) (db : Db) (bid worker : String) (lease now : ℕ)
    → IsOpen db bid
    → worker ≢ ""
    → 0 < lease
    → lease ≤ 3600
    → IsFree db bid now
    → let (answer, db') = claim_processing h files db bid worker lease now in
      (c : ProcessClaim) × (answer ≡ ok (some c)) × IsGiven db bid worker c db'
claim_processing-open h files db bid worker lease now p named some_time short free =
    let c = new_claim bid worker (find_process db bid) in
    let given =
      granted h files db bid worker lease now p unnamed in_bounds
        (not_leased now (find_process db bid) free) in
    let t = claim_processing-IsClaim h files db bid worker lease now c given in
    (c, given, record { at_batch = t.at_batch; own_worker = refl; next = t.next; stored = t.own })
  where
    unnamed : (worker == "") ≡ false
    unnamed = elim (Bool-cases (worker == "")) [
      | inl e ↦ absurd (named (==→eq worker "" e))
      | inr e ↦ e
    ]

    in_bounds : valid_lease lease ≡ true
    in_bounds = ground arith
