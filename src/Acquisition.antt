-- ===== src/Acquisition.antt =====
-- tg_testcase/acquisition.py: leases on the sources of a batch, as rows of `source_fetch_runs`. The
-- clock is read where the source reads it: each reading is an argument. Times are whole numbers.
pub mod Tokens
pub mod Stale
pub mod Seal
pub mod Entries
pub mod Sealed
pub mod Calls
pub mod Committed
use my_ops.Prelude.{
  ℕ, suc, ◌+◌, ◌++◌, String, Bool, true, false, not, ◌&&◌, ◌||◌, Option, none, some, List, [], ◌∷◌,
  Result, ok, err, ◌>>=◌, ◌>>◌, raise_if, contains, first, update_where, get_by, leb, ltb, ◌==◌,
  nat_eq, string_eq, if◌then◌else◌,
}
use my_ops.Task.{Error, value_error, key_error, lease_lost, type_error, Task}
use my_ops.Store.{Db, Batch, FetchRun, SourceInput, read, is_cancelled, transact}

-- What `claim` hands to a worker.
pub record FetchClaim : Type 0 where
  pub batch_id : String
  pub source_id : String
  pub revision : ℕ
  pub worker_id : String
  pub attempt : ℕ
  pub fencing_token : ℕ

-- `WHERE batch_id=? AND source_id=?`
abbrev pub run_at : String → String → FetchRun → Bool
run_at bid sid r = r.batch_id == bid && r.source_id == sid

abbrev pub input_at : String → String → SourceInput → Bool
input_at bid sid i = i.batch_id == bid && i.source_id == sid

abbrev pub batch_id : Batch → String
batch_id b = b.id

-- `source_inputs i JOIN collection_batches b` for a source of Notion
unfoldable pub joined : Db → String → String → Option (SourceInput × Batch)
joined db bid sid = elim (first (λ i. input_at bid sid i && i.kind == "notion") db.inputs) [
  | none ↦ none
  | some i ↦ elim (get_by batch_id bid db.batches) [ none ↦ none | some b ↦ some (i, b) ]
]

-- `self.store._read(conn, task_id).state == 'cancelled'`
unfoldable pub task_cancelled : Db → String → Result Error Bool
task_cancelled db tid = do task ← read db tid; ok (is_cancelled task.state)

-- `row[2] != 'finalized' or ...`: the task is read only when the batch is finalized.
unfoldable pub is_closed : Db → SourceInput → Batch → Result Error Bool
unfolding task_cancelled
is_closed db i b = if not (b.status == "finalized") then ok true else task_cancelled db i.task_id

-- `old and (old[3] in {'sealed', 'abandoned'} or old[2] > self.clock())`
unfoldable pub is_taken : ℕ → Option FetchRun → Bool
is_taken now none = false
is_taken now (some r) = contains ("sealed" ∷ "abandoned" ∷ []) r.status || ltb now r.lease_until

abbrev pub next_attempt : Option FetchRun → ℕ
next_attempt none = 1
next_attempt (some r) = suc r.attempt

abbrev pub next_token : Option FetchRun → ℕ
next_token none = 1
next_token (some r) = suc r.fencing_token

-- `ON CONFLICT ... DO UPDATE`: the revision and the outcome of the row stay.
abbrev pub reclaim : FetchClaim → ℕ → FetchRun → FetchRun
reclaim c lease r = record r {
  worker_id = c.worker_id;
  attempt = c.attempt;
  fencing_token = c.fencing_token;
  lease_until = lease;
  status = "claimed";
}

abbrev pub new_run : FetchClaim → ℕ → FetchRun
new_run c lease = record {
  batch_id = c.batch_id;
  source_id = c.source_id;
  revision = c.revision;
  worker_id = c.worker_id;
  attempt = c.attempt;
  fencing_token = c.fencing_token;
  lease_until = lease;
  status = "claimed";
  outcome = none;
}

-- The upsert of a claim, by the row that was found.
unfoldable pub put_run : FetchClaim → ℕ → Option FetchRun → List FetchRun → List FetchRun
put_run c lease none runs = runs ++ new_run c lease ∷ []
put_run c lease (some old) runs =
    update_where (run_at c.batch_id c.source_id) (reclaim c lease) runs

abbrev pub find_run : Db → String → String → Option FetchRun
find_run db bid sid = first (run_at bid sid) db.fetch_runs

abbrev pub new_claim : SourceInput → String → String → String → Option FetchRun → FetchClaim
new_claim i bid sid worker old = record {
  batch_id = bid;
  source_id = sid;
  revision = i.revision;
  worker_id = worker;
  attempt = next_attempt old;
  fencing_token = next_token old;
}

-- The claim of a source that is open, by the run that it has; `now'` is the later reading.
unfoldable pub take :
    Db
    → String
    → String
    → String
    → ℕ
    → ℕ
    → ℕ
    → SourceInput
    → Option FetchRun
    → Option FetchClaim × Db
unfolding is_taken put_run
take db bid sid worker lease now now' i old = if is_taken now old then (none, db) else (
  some (new_claim i bid sid worker old),
  record db {
    fetch_runs = put_run (new_claim i bid sid worker old) (now' + lease) old db.fetch_runs;
    batches =
        update_where (λ b. b.id == bid) (λ b. record b { acquisition_status = "acquiring" })
          db.batches;
  },
)

unfoldable pub claim_body :
    Db
    → String
    → String
    → String
    → ℕ
    → ℕ
    → ℕ
    → Option (SourceInput × Batch)
    → Result Error (Option FetchClaim × Db)
unfolding is_closed take
claim_body db bid sid worker lease now now' none = err (key_error sid)
claim_body db bid sid worker lease now now' (some (i, b)) = do
  closed ← is_closed db i b
  if closed
      then ok (none, db)
      else ok (take db bid sid worker lease now now' i (find_run db bid sid))

abbrev pub valid_lease : ℕ → Bool
valid_lease lease = ltb 0 lease && leb lease 3600

-- `require(condition, message)`
abbrev pub demand : Bool → String → Result Error (Unit {0})
demand condition message = raise_if (not condition) (value_error message)

-- `claim`; `protected` says that the store takes protected acquisition only.
unfoldable pub claim :
    Bool → Db → String → String → String → ℕ → ℕ → ℕ → Result Error (Option FetchClaim) × Db
unfolding joined claim_body
claim protected db bid sid worker lease now now' = transact db (
    demand (not protected) "Protected acquisition adapter required"
    >> (demand (not (worker == "") && valid_lease lease) "Invalid acquisition lease"
        >> claim_body db bid sid worker lease now now' (joined db bid sid)))

-- `row[:4] != tuple(claim[k] ...) or row[4] <= now or row[5] not in expected`
unfoldable pub run_holds : FetchClaim → List String → ℕ → Option FetchRun → Bool
run_holds c expected now none = false
run_holds c expected now (some r) =
    r.revision == c.revision
    && (r.worker_id == c.worker_id
        && (r.attempt == c.attempt
            && (r.fencing_token == c.fencing_token
                && (ltb now r.lease_until && contains expected r.status))))

-- A row that is missing is `None`, which has no items.
abbrev pub present {ℓ} : {A : Type ℓ} → Option A → Result Error A
present none = err type_error
present (some a) = ok a

-- `_check`
unfoldable pub check_claim : Db → FetchClaim → List String → ℕ → Result Error SourceInput
unfolding run_holds task_cancelled
check_claim db c expected now = do
  raise_if (not (run_holds c expected now (find_run db c.batch_id c.source_id)))
      (lease_lost "Acquisition lease lost")
  source ← present (first (input_at c.batch_id c.source_id) db.inputs)
  raise_if (not (source.revision == c.revision)) (lease_lost "Acquisition binding invalid")
  cancelled ← task_cancelled db source.task_id
  raise_if cancelled (lease_lost "Acquisition binding invalid")
  ok source

-- `allowed`
unfoldable pub allowed_from : String → List String
allowed_from target =
    if target == "fetching"
    then "claimed" ∷ []
    else if target == "retry_wait"
    then "fetching" ∷ []
    else if target == "abandoned"
    then "claimed" ∷ "fetching" ∷ "retry_wait" ∷ []
    else []

abbrev pub move_run : String → ℕ → FetchRun → FetchRun
move_run target lease r = record r {
  status = target;
  lease_until = if target == "retry_wait" then lease else r.lease_until;
}

abbrev pub with_runs : Db → FetchClaim → (FetchRun → FetchRun) → Db
with_runs db c f = record db {
  fetch_runs = update_where (run_at c.batch_id c.source_id) f db.fetch_runs;
}

-- `_check`, then `UPDATE source_fetch_runs`
unfoldable pub update_run :
    Db → FetchClaim → List String → ℕ → (FetchRun → FetchRun) → Result Error (Unit {0} × Db)
unfolding check_claim
update_run db c expected now f = do
  source ← check_claim db c expected now
  ok (tt, with_runs db c f)

abbrev pub is_target : String → Bool
is_target target = contains ("fetching" ∷ "retry_wait" ∷ "abandoned" ∷ []) target

-- `transition`
unfoldable pub transition_run :
    Bool → Db → FetchClaim → String → ℕ → ℕ → ℕ → Result Error (Unit {0}) × Db
unfolding allowed_from update_run
transition_run protected db c target delay now now' = transact db (
    demand (not protected) "Protected acquisition adapter required"
    >> (demand (is_target target && leb delay 3600) "Invalid acquisition transition"
        >> update_run db c (allowed_from target) now (move_run target (now' + delay))))

abbrev pub renew_run : ℕ → FetchRun → FetchRun
renew_run lease r = record r { lease_until = lease }

-- `heartbeat`
unfoldable pub beat : Bool → Db → FetchClaim → ℕ → ℕ → ℕ → Result Error (Unit {0}) × Db
unfolding update_run
beat protected db c lease now now' = transact db (
    demand (not protected) "Protected acquisition adapter required"
    >> (demand (valid_lease lease) "Invalid lease"
        >> update_run db c ("claimed" ∷ "fetching" ∷ []) now (renew_run (now' + lease))))
