-- ===== src/Store.antt =====
-- tg_testcase/store.py: the tables of tasks and of their history, and the one way to change a task.
-- A transaction that raises leaves the database as it was. File locks, directories and the JSON
-- snapshots, which the source calls a disposable cache, are not modelled.
pub mod Rows
pub mod Save
pub mod Changes
pub mod Create
pub mod Created
use my_ops.Prelude.{
  ℕ, suc, ◌+◌, ◌++◌, String, Bool, true, false, not, ◌&&◌, ◌||◌, Option, none, some, List, [], ◌∷◌,
  map, Result, ok, err, ◌>>=◌, ◌>>◌, raise_if, any, contains, get_by, ◌==◌, nat_eq, string_eq,
  if◌then◌else◌, select,
}
use my_ops.Task.{
  State, ready, generating, cancelled, Error, value_error, key_error, permission_error,
  version_conflict, integrity_error, Output, Barrier, Task, new_task, transition,
}
use my_ops.Storage.{safe_name}

-- Table `tasks`.
pub record Row : Type 0 where
  pub id : String
  pub user_id : String
  pub state : State
  pub version : ℕ
  pub payload : Task

-- Table `history`, with primary key (task_id, version).
pub record HistoryRow : Type 0 where
  pub task_id : String
  pub version : ℕ
  pub payload : Task

-- Table `collection_batches`.
pub record Batch : Type 0 where
  pub id : String
  pub task_id : String
  pub status : String
  pub source_ids : List String
  pub finalized_version : Option ℕ
  pub processing_status : String
  pub acquisition_status : String
  pub input_manifest_digest : Option String

-- Table `source_inputs`, with primary key (batch_id, source_id).
pub record SourceInput : Type 0 where
  pub batch_id : String
  pub source_id : String
  pub task_id : String
  pub locator : String
  pub kind : String
  pub origin : String
  pub sha256 : Option String
  pub byte_length : Option ℕ
  pub revision : ℕ

-- Table `source_packages`, whose rows never change; its text and the fingerprint of its reference
-- are not read here.
pub record SourcePackage : Type 0 where
  pub id : String
  pub task_id : String
  pub batch_id : String
  pub source_id : String
  pub revision : ℕ
  pub content_fingerprint : String
  pub package_digest : String
  pub byte_length : ℕ
  pub outcome : String

-- An entry of an input manifest.
pub record ManifestEntry : Type 0 where
  pub source_id : String
  pub revision : ℕ
  pub input_fingerprint : String

-- Table `batch_input_manifests`, whose rows never change.
pub record InputManifest : Type 0 where
  pub batch_id : String
  pub digest : String
  pub task_id : String
  pub sources : List ManifestEntry

-- Table `processing_runs`, with primary key batch_id.
pub record ProcessingRun : Type 0 where
  pub batch_id : String
  pub worker_id : String
  pub attempt : ℕ
  pub fencing_token : ℕ
  pub lease_until : ℕ
  pub status : String
  pub result_digest : Option String

-- Table `source_fetch_runs`; times are whole numbers here.
pub record FetchRun : Type 0 where
  pub batch_id : String
  pub source_id : String
  pub revision : ℕ
  pub worker_id : String
  pub attempt : ℕ
  pub fencing_token : ℕ
  pub lease_until : ℕ
  pub status : String
  pub outcome : Option String

-- Table `processing_staging`.
pub record Staging : Type 0 where
  pub batch_id : String
  pub fencing_token : ℕ
  pub payload : String

-- Table `artifacts`; `key` is what its identifier is hashed from, the task and the file.
pub record Artifact : Type 0 where
  pub task_id : String
  pub owner_id : String
  pub relative_path : String
  pub version : ℕ
  pub mode : String

-- Table `sanitized_contents`, with primary key (batch_id, source_id); the payload is JSON text.
pub record ContentRow : Type 0 where
  pub batch_id : String
  pub source_id : String
  pub payload : String

-- Table `batch_manifests`, with primary key batch_id; the payload is JSON text.
pub record ManifestRow : Type 0 where
  pub batch_id : String
  pub payload : String

pub record Db : Type 0 where
  pub tasks : List Row
  pub history : List HistoryRow
  pub batches : List Batch
  pub fetch_runs : List FetchRun
  pub staging : List Staging
  pub artifacts : List Artifact
  pub inputs : List SourceInput
  pub packages : List SourcePackage
  pub input_manifests : List InputManifest
  pub processing_runs : List ProcessingRun
  pub contents : List ContentRow
  pub manifests : List ManifestRow

abbrev pub row_id : Row → String
row_id r = r.id

abbrev pub is_cancelled : State → Bool
is_cancelled cancelled = true
is_cancelled _ = false

abbrev pub barrier : Batch → Barrier
barrier b = record {
  batch_id = b.id;
  status = if b.status == "open" then "open" else b.processing_status;
}

-- `_project_processing`
unfoldable pub project_processing : Db → Task → Task
project_processing db task = record task {
  processing_barrier =
      map barrier (select (λ b. b.task_id == task.id && not (b.status == "abandoned")) db.batches);
}

-- `_read`
unfoldable pub read : Db → String → Result Error Task
unfolding project_processing
read db task_id = elim (get_by row_id task_id db.tasks) [
  | none ↦ err (key_error task_id)
  | some row ↦ ok (project_processing db row.payload)
]

-- `SELECT id FROM collection_batches WHERE task_id=?`
abbrev pub batches_of : Db → String → List String
batches_of db task_id = map (λ (b : Batch). b.id) (select (λ b. b.task_id == task_id) db.batches)

abbrev pub abandon_run : List String → FetchRun → FetchRun
abandon_run ids run =
    if not (run.status == "sealed") && contains ids run.batch_id
    then record run { status = "abandoned" }
    else run

abbrev pub abandon_batch : String → Batch → Batch
abandon_batch task_id b =
    if not (b.acquisition_status == "sealed") && b.task_id == task_id
    then record b { acquisition_status = "abandoned" }
    else b

-- `_discard_cancelled_staging`
unfoldable pub discard_cancelled_staging : Db → Task → Db
discard_cancelled_staging db task =
    if is_cancelled task.state
    then record db {
      fetch_runs = map (abandon_run (batches_of db task.id)) db.fetch_runs;
      batches = map (abandon_batch task.id) db.batches;
      staging = select (λ s. not (contains (batches_of db task.id) s.batch_id)) db.staging;
    }
    else db

-- `INSERT OR IGNORE INTO artifacts`: the identifier is a hash of the task and the file, which
-- the table also keeps unique, so a file that is there is left alone.
unfoldable pub register_outputs : Task → List Output → List Artifact → List Artifact
register_outputs task [] artifacts = artifacts
register_outputs task (o ∷ outputs) artifacts = register_outputs task outputs (
    if any (λ a. a.task_id == task.id && a.relative_path == o.file) artifacts
    then artifacts
    else artifacts
      ++ record {
        task_id = task.id;
        owner_id = task.user_id;
        relative_path = o.file;
        version = o.version;
        mode = o.mode;
      }
        ∷ [])

-- The columns that `UPDATE tasks` sets.
abbrev pub write : Task → Row → Row
write task r = record r { state = task.state; version = task.version; payload = task }

unfoldable pub update_rows : Task → List Row → List Row
update_rows task [] = []
update_rows task (r ∷ rows) = (if r.id == task.id then write task r else r) ∷ update_rows task rows

-- The index `one_active_user`: another row of the user that is not cancelled.
abbrev pub other_active : Task → String → List Row → Bool
other_active task user rows =
    any (λ r. r.user_id == user && (not (r.id == task.id) && not (is_cancelled r.state))) rows

unfoldable pub update_task : Db → Task → Result Error Db
update_task db task = elim (get_by row_id task.id db.tasks) [
  | none ↦ ok db
  | some row ↦ do
    raise_if (not (is_cancelled task.state) && other_active task row.user_id db.tasks)
        (integrity_error "one_active_user")
    ok (record db { tasks = update_rows task db.tasks })
]

unfoldable pub insert_history : Db → Task → Result Error Db
insert_history db task = do
  raise_if (any (λ h. h.task_id == task.id && h.version == task.version) db.history)
      (integrity_error "history")
  ok (record db {
    history =
        db.history ++ record { task_id = task.id; version = task.version; payload = task } ∷ [];
  })

-- A transaction: what it raises leaves the tables as they were.
abbrev pub transact {ℓ} : {A : Type ℓ} → Db → Result Error (A × Db) → Result Error A × Db
transact db (ok (a, db')) = (ok a, db')
transact db (err e) = (err e, db)

-- The task as `change` stores it.
abbrev pub bump : Db → Task → Task
bump db task = record (project_processing db task) { version = suc task.version }

-- The tables before the row and the history are written.
abbrev pub prepared : Db → Task → Db
prepared db task =
    let db' = discard_cancelled_staging db task in
    record db' { artifacts = register_outputs task task.outputs db'.artifacts }

-- The write of a task that an action has changed.
unfoldable pub save : Db → Task → Result Error (Task × Db)
save db task = do
  let task' = bump db task
  db1 ← update_task (prepared db task') task'
  db2 ← insert_history db1 task'
  ok (task', db2)

unfoldable pub change_body :
    Db → String → String → ℕ → (Task → Result Error Task) → Result Error (Task × Db)
change_body db task_id user_id version action = do
  task ← read db task_id
  raise_if (not (task.user_id == user_id)) (permission_error "Task owner mismatch")
  raise_if (not (task.version == version)) version_conflict
  task' ← action task
  save db task'

unfoldable pub change :
    Db → String → String → ℕ → (Task → Result Error Task) → Result Error Task × Db
change db task_id user_id version action =
    transact db (safe_name task_id >> change_body db task_id user_id version action)

unfoldable pub get : Db → String → Result Error Task
get db task_id = do safe_name task_id; read db task_id

abbrev pub new_row : String → String → Row
new_row id user_id = record {
  id = id;
  user_id = user_id;
  state = (new_task id user_id).state;
  version = 1;
  payload = new_task id user_id;
}

abbrev pub new_entry : String → String → HistoryRow
new_entry id user_id = record { task_id = id; version = 1; payload = new_task id user_id }

-- The two inserts of `create`, by what the constraints of the tables say: the identifier is taken,
-- the user has an active task, the history has the first version.
unfoldable pub create_rows :
    Db → String → String → (taken busy used : Bool) → Result Error (Task × Db)
create_rows db id user_id taken busy used = do
  raise_if (taken || busy) (integrity_error "tasks")
  raise_if used (integrity_error "history")
  ok (
    new_task id user_id,
    record db {
      tasks = db.tasks ++ new_row id user_id ∷ [];
      history = db.history ++ new_entry id user_id ∷ [];
    },
  )

-- `create`, for the identifier that `uuid4` gave
unfoldable pub create : Db → String → String → Result Error Task × Db
create db id user_id = transact db (
    create_rows db id user_id (contains (map row_id db.tasks) id)
      (other_active (new_task id user_id) user_id db.tasks)
      (any (λ h. h.task_id == id && h.version == 1) db.history))

abbrev pub is_generating_state : State → Bool
is_generating_state generating = true
is_generating_state _ = false

-- What `recover` makes of an interrupted generation.
unfoldable pub requeue : Task → Result Error Task
requeue task = do
  task' ← transition ready task
  ok (record task' {
    confirmation = none;
    recovery_note = "Interrupted generation; explicit confirmation required again";
    version = suc task.version;
  })

unfoldable pub recover_task : Db → Task → Result Error (Task × Db)
recover_task db task =
    if is_generating_state task.state
    then (do
      task' ← requeue task
      db1 ← update_task db task'
      db2 ← insert_history db1 task'
      ok (task', db2))
    else ok (task, db)

-- The loop of `recover`: what was committed before an error stays.
unfoldable pub recover_all : Db → List String → Result Error (List Task) × Db
recover_all db [] = (ok [], db)
recover_all db (id ∷ ids) =
    let step = transact db (read db id >>= λ task. recover_task db task) in
    let rest = recover_all step.1 ids in
    elim (step.0) [
      | err e ↦ (err e, step.1)
      | ok task ↦ (rest.0 >>= (λ tasks. ok (task ∷ tasks)), rest.1)
    ]

unfoldable pub recover : Db → Result Error (List Task) × Db
recover db = recover_all db (map row_id db.tasks)
