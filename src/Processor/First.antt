-- ===== src/Processor/First.antt =====
-- processor.py: the tables after a publication.
use my_ops.Prelude.{
  ◌++◌, ◌≡◌, refl, ap, ◌∙◌, String, true, false, not, ◌⊎◌, inl, inr, none, some, List, [], ◌∷◌, ok,
  ◌>>=◌, raise_if, Bool-cases, >>=-eq-ok, >>-eq-ok, raise_if-eq-ok, ok-injective, first, first-Mem,
  first-append, first-update_where, update_where, updated, get_by, length, select,
  get_by-update_where, any, ◌==◌, nat_eq, string_eq, option_eq, ==_refl,
}
use my_ops.Task.{Task, Source}
use my_ops.Store.{
  Db, Batch, ProcessingRun, ContentRow, ManifestRow, read, update_task, update_rows, insert_history,
}
use my_ops.Acquisition.{batch_id}
use my_ops.Content.{Envelope}
use my_ops.Processor.{is_done, ProcessClaim}
use my_ops.Processor.Parse.{Encoder}
use my_ops.Processor.Publish.{
  ManifestOf, overall_status, stored_manifest, publish_rows, publish_stored, published_db,
  write_task, store_results, reviewed, manifest_of,
}
use my_ops.Processor.Checked.{
  IsChecked, KeepsRest, update_task-IsWritten, insert_history-IsWritten, read-after_write,
}

-- A publication's status is final.
pub overall_status-IsDone : (results : List Envelope) → is_done (overall_status results) ≡ true
unfolding overall_status is_done
overall_status-IsDone results =
    elim (Bool-cases (length (select (λ e. e.status == "completed") results) == length results)) [
      | inl e ↦ rw e refl
      | inr e ↦ rw e (elim (Bool-cases (any (λ e. not (e.status == "failed")) results)) [
        | inl f ↦ rw f refl
        | inr f ↦ rw f refl
      ])
    ]

-- The run as `publish` leaves it.
abbrev pub published_run : Encoder → List Envelope → ProcessingRun → ProcessingRun
published_run enc results r = record r {
  status = overall_status results;
  result_digest = some (enc.sha256 (enc.of_results results));
}

-- What the rows of a publication are.
pub record IsFirst (enc : Encoder) (db : Db) (c : ProcessClaim) (task : Task)
    (results : List Envelope) (text : String) (db' : Db) : Type 0 where
  pub sources : List Source
  pub rows : List ContentRow
  pub stored : store_results enc c.batch_id results db.contents task.sources ≡ ok (rows, sources)
  pub contents : db'.contents ≡ rows
  pub manifests :
      db'.manifests ≡ db.manifests ++ record { batch_id = c.batch_id; payload = text } ∷ []
  pub fresh : any (λ (m : ManifestRow). m.batch_id == c.batch_id) db.manifests ≡ false
  pub runs :
      db'.processing_runs
      ≡ update_where (λ r. r.batch_id == c.batch_id) (published_run enc results) db.processing_runs
  pub batches :
      db'.batches
      ≡ update_where
          (λ (b : Batch). b.id == c.batch_id)
          (λ b. record b { processing_status = overall_status results })
          db.batches
  pub tasks :
      let t = reviewed c.batch_id (overall_status results) sources task in
      (db'.tasks ≡ db.tasks) ⊎ (db'.tasks ≡ update_rows t db.tasks)

write_task-IsWritten :
    (db db' : Db) (t : Task)
    → write_task db t ≡ ok db'
    → ((db'.tasks ≡ db.tasks) ⊎ (db'.tasks ≡ update_rows t db.tasks)) × KeepsRest db db'
unfolding write_task
write_task-IsWritten db db' t h =
    let (d, up, ins) = >>=-eq-ok (update_task db t) (λ x. insert_history x t) h in
    let (w, kept) = update_task-IsWritten db d t up in
    let (same, kept') = insert_history-IsWritten d db' t ins in
    (
      rw same w,
      record {
        batches = kept'.batches ∙ kept.batches;
        processing_runs = kept'.processing_runs ∙ kept.processing_runs;
        contents = kept'.contents ∙ kept.contents;
        manifests = kept'.manifests ∙ kept.manifests;
      },
    )

pub publish_rows-IsFirst :
    (enc : Encoder) (manifest_text : ManifestOf → String) (db : Db) (c : ProcessClaim) (task : Task)
    (results : List Envelope) (text : String) (db' : Db)
    → publish_rows enc manifest_text db c task results ≡ ok (text, db')
    → IsFirst enc db c task results text db'
unfolding publish_rows publish_stored
publish_rows-IsFirst enc manifest_text db c task results text db' h =
    let text' =
      manifest_text (manifest_of db c task results (get_by batch_id c.batch_id db.batches)) in
    let ((rows, sources), stored, h1) =
      >>=-eq-ok (store_results enc c.batch_id results db.contents task.sources)
        (publish_stored enc text' db c task results) h in
    let t = reviewed c.batch_id (overall_status results) sources task in
    let db1 = published_db enc text' c results rows db in
    let write = write_task db1 t >>= (λ (d : Db). ok (text', d)) in
    let (fresh, h2) = >>-eq-ok (raise_if _ _) write h1 in
    let (d, written, h3) = >>=-eq-ok (write_task db1 t) (λ (d : Db). ok (text', d)) h2 in
    let e : (text', d) ≡ (text, db') = ok-injective h3 in
    let text_same : text' ≡ text = ap (λ (p : String × Db). p.0) e in
    let db_same : d ≡ db' = ap (λ (p : String × Db). p.1) e in
    let (tasks, kept) = write_task-IsWritten db1 db' t (written ∙ ap ok db_same) in
    record {
      sources = sources;
      rows = rows;
      stored = stored;
      contents = kept.contents;
      manifests =
          kept.manifests
          ∙ ap (λ x. db.manifests ++ record { batch_id = c.batch_id; payload = x } ∷ []) text_same;
      fresh = raise_if-eq-ok _ _ fresh;
      runs = kept.processing_runs;
      batches = kept.batches;
      tasks = tasks;
    }

-- The run of a batch after a publication.
find_process-published :
    (enc : Encoder) (results : List Envelope) (bid : String) (runs : List ProcessingRun)
    (run : ProcessingRun)
    → first (λ r. r.batch_id == bid) runs ≡ some run
    → first
        (λ r. r.batch_id == bid)
        (update_where (λ r. r.batch_id == bid) (published_run enc results) runs)
      ≡ some (published_run enc results run)
find_process-published enc results bid runs run found =
    let (m, own) = first-Mem (λ r. r.batch_id == bid) runs run found in
    first-update_where (λ r. r.batch_id == bid) (λ r. r.batch_id == bid) (published_run enc results)
      runs (λ x. ap (λ b. b == bid) (keeps x))
    ∙ rw found (rw own refl)
  where
    keeps :
        (x : ProcessingRun)
        → (updated (λ r. r.batch_id == bid) (published_run enc results) x).batch_id ≡ x.batch_id
    keeps x = elim (Bool-cases (x.batch_id == bid)) [ inl e ↦ rw e refl | inr e ↦ rw e refl ]

abbrev processed : String → Batch → Batch
processed status b = record b { processing_status = status }

-- A batch after its status was set.
batch-processed :
    (status bid : String) (batches : List Batch) (b : Batch)
    → get_by batch_id bid batches ≡ some b
    → (b' : Batch) × (get_by batch_id bid
          (update_where (λ (x : Batch). x.id == bid) (processed status) batches)
        ≡ some b')
      × (b'.task_id ≡ b.task_id)
batch-processed status bid batches b found = (
  updated (λ (x : Batch). x.id == bid) (processed status) b,
  get_by-update_where batch_id bid (λ (x : Batch). x.id == bid) (processed status) batches same
      ∙ rw found refl,
  kept b,
)
  where
    same : (x : Batch) → (updated (λ (y : Batch). y.id == bid) (processed status) x).id ≡ x.id
    same x = elim (Bool-cases (x.id == bid)) [ inl e ↦ rw e refl | inr e ↦ rw e refl ]

    kept :
        (x : Batch)
        → (updated (λ (y : Batch). y.id == bid) (processed status) x).task_id ≡ x.task_id
    kept x = elim (Bool-cases (x.id == bid)) [ inl e ↦ rw e refl | inr e ↦ rw e refl ]

-- A run that is published still belongs to its claim.
pub published-IsChecked :
    (enc : Encoder) (db : Db) (c : ProcessClaim) (run : ProcessingRun) (task : Task)
    (results : List Envelope) (text : String) (db' : Db)
    → IsChecked db c run task
    → IsFirst enc db c task results text db'
    → (task' : Task) × IsChecked db' c (published_run enc results run) task'
published-IsChecked enc db c run task results text db' p q =
    let t = reviewed c.batch_id (overall_status results) q.sources task in
    let (b', found', same_task) =
      batch-processed (overall_status results) c.batch_id db.batches p.batch p.batch_found in
    let (task', read', alive') =
      read-after_write db db' t p.batch.task_id task q.tasks refl p.task_read p.alive in
    (
      task',
      record {
        found =
            ap (first (λ (r : ProcessingRun). r.batch_id == c.batch_id)) q.runs
            ∙ find_process-published enc results c.batch_id db.processing_runs run p.found;
        holds = p.holds;
        batch = b';
        batch_found = ap (get_by batch_id c.batch_id) q.batches ∙ found';
        task_read = ap (read db') same_task ∙ read';
        alive = alive';
      },
    )

any-first :
    (bid : String) (ms : List ManifestRow)
    → any (λ (m : ManifestRow). m.batch_id == bid) ms ≡ false
    → first (λ (m : ManifestRow). m.batch_id == bid) ms ≡ none
any-first bid [] h = refl
any-first bid (m ∷ ms) h = elim (Bool-cases (m.batch_id == bid)) [
  | inl e ↦ cc (rw e at h)
  | inr e ↦ rw e (any-first bid ms (rw e at h))
]

-- The manifest that was inserted is the one that is stored.
pub stored_manifest-published :
    (db db' : Db) (bid text : String)
    → any (λ (m : ManifestRow). m.batch_id == bid) db.manifests ≡ false
    → db'.manifests ≡ db.manifests ++ record { batch_id = bid; payload = text } ∷ []
    → stored_manifest db' bid ≡ ok text
unfolding stored_manifest
stored_manifest-published db db' bid text fresh e =
    let row : ManifestRow = record { batch_id = bid; payload = text } in
    let there : first (λ (m : ManifestRow). m.batch_id == bid) db'.manifests ≡ some row =
      ap (first (λ (m : ManifestRow). m.batch_id == bid)) e
      ∙ first-append (λ (m : ManifestRow). m.batch_id == bid) db.manifests row
      ∙ rw (any-first bid db.manifests fresh, ==_refl bid) refl in
    rw (there, stored_manifest) refl
