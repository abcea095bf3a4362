-- ===== src/Processor/Checked.antt =====
-- processor.py: what `_check` finds, and what the writing of a task leaves alone.
use my_ops.Prelude.{
  ℕ, ◌≡◌, refl, sym, subst, ap, ◌∙◌, String, Bool, true, false, ◌⊎◌, inl, inr, Option, none, some,
  List, ok, Bool-cases, Option-cases, >>=-eq-ok, >>-eq-ok, raise_if-eq-ok, ok-injective, get_by,
  ◌==◌, nat_eq, string_eq, option_eq,
}
use my_ops.Review.Trace.{not-eq-false}
use my_ops.Task.{Task}
use my_ops.Store.{
  Db, Batch, ProcessingRun, Row, row_id, read, is_cancelled, project_processing, update_task,
  update_rows, insert_history,
}
use my_ops.Store.Rows.{rewritten, get_by-update_rows}
use my_ops.Acquisition.{batch_id, present}
use my_ops.Processor.{is_done, ProcessClaim, find_process, process_holds, check_process}

-- What `_check` found: the run of the claim, its batch, and its task, which is not cancelled.
pub record IsChecked (db : Db) (c : ProcessClaim) (run : ProcessingRun) (task : Task) : Type 0 where
  pub found : find_process db c.batch_id ≡ some run
  pub holds : process_holds c (some run) ≡ true
  pub batch : Batch
  pub batch_found : get_by batch_id c.batch_id db.batches ≡ some batch
  pub task_read : read db batch.task_id ≡ ok task
  pub alive : is_cancelled task.state ≡ false

present-eq-ok {ℓ} : {A : Type ℓ} (o : Option A) (a : A) → present o ≡ ok a → o ≡ some a
present-eq-ok none a h = cc
present-eq-ok (some b) a h = ap some (ok-injective h)

pub check_process-IsChecked :
    (db : Db) (c : ProcessClaim) (terminal : Bool) (now : ℕ) (run : ProcessingRun) (task : Task)
    → check_process db c terminal now ≡ ok (run, task)
    → IsChecked db c run task
unfolding check_process
check_process-IsChecked db c terminal now run task h =
    let (held, h1) = >>-eq-ok _ _ h in
    let (run', there, h2) = >>=-eq-ok (present (find_process db c.batch_id)) _ h1 in
    let (b, with_batch, h3) = >>=-eq-ok (present (get_by batch_id c.batch_id db.batches)) _ h2 in
    let (task', with_task, h4) = >>=-eq-ok (read db b.task_id) _ h3 in
    let (alive, h5) = >>-eq-ok _ _ h4 in
    let (_, h6) = >>-eq-ok _ _ h5 in
    let e : (run', task') ≡ (run, task) = ok-injective h6 in
    let run_same : run' ≡ run = ap (λ (p : ProcessingRun × Task). p.0) e in
    let task_same : task' ≡ task = ap (λ (p : ProcessingRun × Task). p.1) e in
    let found : find_process db c.batch_id ≡ some run =
      present-eq-ok _ run' there ∙ ap some run_same in
    record {
      found = found;
      holds = ap (process_holds c) (sym found) ∙ not-eq-false _ (raise_if-eq-ok _ _ held);
      batch = b;
      batch_found = present-eq-ok _ b with_batch;
      task_read = with_task ∙ ap ok task_same;
      alive = ap (λ (t : Task). is_cancelled t.state) (sym task_same) ∙ raise_if-eq-ok _ _ alive;
    }

-- The run of a batch that is published answers `_check` at any time.
pub check_process-done :
    (db : Db) (c : ProcessClaim) (run : ProcessingRun) (task : Task) (now : ℕ)
    → IsChecked db c run task
    → is_done run.status ≡ true
    → check_process db c true now ≡ ok (run, task)
unfolding check_process
check_process-done db c run task now p done =
    rw (p.found, p.holds, p.batch_found, p.task_read, p.alive, done)

-- The tables that the writing of a task leaves alone.
pub record KeepsRest (db db' : Db) : Type 0 where
  pub batches : db'.batches ≡ db.batches
  pub processing_runs : db'.processing_runs ≡ db.processing_runs
  pub contents : db'.contents ≡ db.contents
  pub manifests : db'.manifests ≡ db.manifests

keeps_rest : (db db' : Db) (rows : List Row) → record db { tasks = rows } ≡ db' → KeepsRest db db'
keeps_rest db db' rows e = record {
  batches = sym (ap (λ (d : Db). d.batches) e);
  processing_runs = sym (ap (λ (d : Db). d.processing_runs) e);
  contents = sym (ap (λ (d : Db). d.contents) e);
  manifests = sym (ap (λ (d : Db). d.manifests) e);
}

pub update_task-IsWritten :
    (db db' : Db) (t : Task)
    → update_task db t ≡ ok db'
    → ((db'.tasks ≡ db.tasks) ⊎ (db'.tasks ≡ update_rows t db.tasks)) × KeepsRest db db'
unfolding update_task
update_task-IsWritten db db' t h = elim (Option-cases (get_by row_id t.id db.tasks)) [
  | inl missing ↦
      let e : db ≡ db' = ok-injective (rw (missing, update_task) at h) in
      (inl (sym (ap (λ (d : Db). d.tasks) e)), keeps_rest db db' db.tasks e)
  | inr (row, found) ↦
      let (_, g) = >>-eq-ok _ _ (rw (found, update_task) at h) in
      let e = ok-injective g in
      (inr (sym (ap (λ (d : Db). d.tasks) e)), keeps_rest db db' (update_rows t db.tasks) e)
]

pub insert_history-IsWritten :
    (db db' : Db) (t : Task)
    → insert_history db t ≡ ok db'
    → (db'.tasks ≡ db.tasks) × KeepsRest db db'
unfolding insert_history
insert_history-IsWritten db db' t h =
    let (_, g) = >>-eq-ok _ _ h in
    let e = ok-injective g in
    (
      sym (ap (λ (d : Db). d.tasks) e),
      record {
        batches = sym (ap (λ (d : Db). d.batches) e);
        processing_runs = sym (ap (λ (d : Db). d.processing_runs) e);
        contents = sym (ap (λ (d : Db). d.contents) e);
        manifests = sym (ap (λ (d : Db). d.manifests) e);
      },
    )

-- Reading a task, by what is looked up.
read-by :
    (db : Db) (tid : String) (task : Task)
    → read db tid ≡ ok task
    → (row : Row) × (get_by row_id tid db.tasks ≡ some row) × (task.state ≡ row.payload.state)
unfolding read project_processing
read-by db tid task h = elim (Option-cases (get_by row_id tid db.tasks)) [
  | inl missing ↦ cc (rw (missing, read) at h)
  | inr (row, found) ↦
      let e = ok-injective (rw (found, read) at h) in
      (row, found, sym (ap (λ (t : Task). t.state) e))
]

read-found :
    (db : Db) (tid : String) (row : Row)
    → get_by row_id tid db.tasks ≡ some row
    → (task : Task) × (read db tid ≡ ok task) × (task.state ≡ row.payload.state)
unfolding read project_processing
read-found db tid row found = (project_processing db row.payload, rw (found, read) refl, refl)

rewritten-alive :
    (t : Task) (r : Row)
    → is_cancelled t.state ≡ false
    → is_cancelled r.payload.state ≡ false
    → is_cancelled (rewritten t r).payload.state ≡ false
rewritten-alive t r new old = elim (Bool-cases (r.id == t.id)) [
  | inl e ↦ rw e new
  | inr e ↦ rw e old
]

-- Writing a task that is not cancelled cancels none.
pub read-after_write :
    (db db' : Db) (t : Task) (tid : String) (task : Task)
    → (db'.tasks ≡ db.tasks) ⊎ (db'.tasks ≡ update_rows t db.tasks)
    → is_cancelled t.state ≡ false
    → read db tid ≡ ok task
    → is_cancelled task.state ≡ false
    → (task' : Task) × (read db' tid ≡ ok task') × (is_cancelled task'.state ≡ false)
read-after_write db db' t tid task written new found old =
    let (row, there, same) = read-by db tid task found in
    let live : is_cancelled row.payload.state ≡ false =
      subst (λ s. is_cancelled s ≡ false) same old in
    elim written [
      | inl e ↦
          let (task', found', state) = read-found db' tid row (rw e there) in
          (task', found', subst (λ s. is_cancelled s ≡ false) (sym state) live)
      | inr e ↦
          let (task', found', state) =
            read-found db' tid (rewritten t row)
              (rw e (get_by-update_rows t tid db.tasks ∙ rw there refl)) in
          (
            task',
            found',
            subst (λ s. is_cancelled s ≡ false) (sym state) (rewritten-alive t row new live),
          )
    ]
