-- ===== src/Processor/Publish.antt =====
-- processor.py: `publish`.
use Prim.Native.String.{◌++◌ as str_append}
use my_ops.Prelude.{
  ℕ, suc, ◌++◌, String, Bool, true, false, not, ◌&&◌, ◌||◌, Option, none, some, List, [], ◌∷◌, map,
  Result, ok, err, ◌>>=◌, ◌>>◌, raise_if, any, select, length, is_empty, first, get_by, ◌==◌,
  nat_eq, string_eq, option_eq, if◌then◌else◌,
}
use my_ops.Task.{Error, value_error, key_error, integrity_error, Task, Source, Barrier, review}
use my_ops.Store.{
  Db, Batch, SourceInput, ProcessingRun, Staging, ContentRow, ManifestRow, transact, update_task,
  insert_history,
}
use my_ops.Acquisition.{batch_id}
use my_ops.Content.{
  Envelope, Block, content_schema_version, untrusted, parser_version, policy_version,
}
use my_ops.Processor.{is_done, ProcessClaim, inputs_of, set_processing, check_process, with_process}
use my_ops.Processor.Parse.{Encoder}

-- `result.get(key) != expected[key]` for the keys that say what was parsed
unfoldable pub same_identity : SourceInput → Envelope → Bool
same_identity i e =
    e.schema == content_schema_version
    && (e.trust == untrusted
        && (e.source_id == i.source_id
            && (e.origin == i.origin
                && (e.sha256 == i.sha256
                    && (e.byte_length == i.byte_length
                        && (e.revision == i.revision
                            && (e.parser == parser_version
                                && (e.policy == policy_version && e.path == i.locator))))))))

-- `a == b` of two tests
abbrev pub agree : Bool → Bool → Bool
agree true b = b
agree false b = not b

unfoldable pub valid_status : Envelope → Bool
unfolding is_done
valid_status e = is_done e.status && agree (e.status == "completed") (e.completeness == "complete")

-- The loop over `zip(inputs, results)`.
unfoldable pub check_results : List SourceInput → List Envelope → Result Error (Unit {0})
unfolding same_identity valid_status
check_results [] results = ok tt
check_results (i ∷ is) [] = ok tt
check_results (i ∷ is) (e ∷ es) = do
  raise_if (not (same_identity i e)) (value_error "Result identity mismatch")
  raise_if (not (valid_status e)) (value_error "Invalid result status")
  check_results is es

unfoldable pub overall_status : List Envelope → String
overall_status results =
    if length (select (λ e. e.status == "completed") results) == length results
    then "completed"
    else if any (λ e. not (e.status == "failed")) results
    then "partial"
    else "failed"

unfoldable pub join : List ℕ → List (List ℕ) → List ℕ
join sep [] = []
join sep (l ∷ []) = l
join sep (l ∷ m ∷ ls) = l ++ (sep ++ join sep (m ∷ ls))

unfoldable pub join_texts : String → List String → String
join_texts sep [] = ""
join_texts sep (t ∷ []) = t
join_texts sep (t ∷ u ∷ ts) = str_append t (str_append sep (join_texts sep (u ∷ ts)))

-- The source of a task, by the result of its input.
unfoldable pub apply_result : Encoder → Envelope → Source → Source
unfolding join join_texts
apply_result enc e s = record s {
  status = if not (e.status == "failed") then "parsed" else "failed";
  complete = e.completeness == "complete";
  content = enc.text_of (join (10 ∷ []) (map (λ (b : Block). b.text) e.blocks));
  failure = join_texts "," e.issues;
  input_sha256 = e.sha256;
  byte_length = e.byte_length;
}

-- `by_id[source_id]`: of two sources with one identifier the dictionary has the last.
unfoldable pub set_source : String → (Source → Source) → List Source → Result Error (List Source)
set_source id f [] = err (key_error id)
set_source id f (s ∷ ss) = elim (set_source id f ss) [
  | ok ss' ↦ ok (s ∷ ss')
  | err e ↦ if s.id == id then ok (f s ∷ ss) else err e
]

-- The loop over the results: their rows, and the sources of the task.
unfoldable pub store_results :
    Encoder
    → String
    → List Envelope
    → List ContentRow
    → List Source
    → Result Error (List ContentRow × List Source)
unfolding apply_result set_source
store_results enc bid [] rows sources = ok (rows, sources)
store_results enc bid (e ∷ es) rows sources = do
  raise_if (any (λ (r : ContentRow). r.batch_id == bid && r.source_id == e.source_id) rows)
      (integrity_error "sanitized_contents")
  sources' ← set_source e.source_id (apply_result enc e) sources
  store_results enc bid es
      (rows ++ record { batch_id = bid; source_id = e.source_id; payload = enc.of_result e } ∷ [])
      sources'

abbrev pub settle_barrier : String → String → Barrier → Barrier
settle_barrier bid status b = if b.batch_id == bid then record b { status = status } else b

-- The task as `publish` writes it.
abbrev pub reviewed : String → String → List Source → Task → Task
reviewed bid status sources task = record task {
  sources = sources;
  state = review;
  confirmation = none;
  version = suc task.version;
  processing_barrier = map (settle_barrier bid status) task.processing_barrier;
}

-- The text of the manifest: what it is made of.
pub record ManifestOf : Type 0 where
  pub batch_id : String
  pub task_id : String
  pub status : String
  pub batch_input_fingerprint : Option String
  pub finalized_version : Option ℕ
  pub processing_run : ProcessClaim
  pub results : List Envelope

unfoldable pub manifest_of : Db → ProcessClaim → Task → List Envelope → Option Batch → ManifestOf
unfolding overall_status
manifest_of db c task results o = record {
  batch_id = c.batch_id;
  task_id = task.id;
  status = overall_status results;
  batch_input_fingerprint = elim o [ none ↦ none | some b ↦ b.input_manifest_digest ];
  finalized_version = elim o [ none ↦ none | some b ↦ b.finalized_version ];
  processing_run = c;
  results = results;
}

-- `_manifest`: the stored text
unfoldable pub stored_manifest : Db → String → Result Error String
stored_manifest db bid = elim (first (λ (m : ManifestRow). m.batch_id == bid) db.manifests) [
  | none ↦ err (key_error bid)
  | some m ↦ ok m.payload
]

-- The tables of a publication, before its task is written.
abbrev pub published_db :
    Encoder → String → ProcessClaim → List Envelope → List ContentRow → Db → Db
published_db enc text c results rows db = set_processing c.batch_id (overall_status results) (
    with_process
      (record db {
        contents = rows;
        staging = select (λ s. not (s.batch_id == c.batch_id)) db.staging;
        manifests = db.manifests ++ record { batch_id = c.batch_id; payload = text } ∷ [];
      })
      c.batch_id
      (λ r. record r {
        status = overall_status results;
        result_digest = some (enc.sha256 (enc.of_results results));
      }))

-- `UPDATE tasks`, and its entry of the history
unfoldable pub write_task : Db → Task → Result Error Db
unfolding update_task insert_history
write_task db task = update_task db task >>= (λ db'. insert_history db' task)

-- The rows of the results are stored; then the manifest and the task.
unfoldable pub publish_stored :
    Encoder
    → String
    → Db
    → ProcessClaim
    → Task
    → List Envelope
    → List ContentRow × List Source
    → Result Error (String × Db)
unfolding write_task
publish_stored enc text db c task results (rows, sources) = do
  raise_if (any (λ (m : ManifestRow). m.batch_id == c.batch_id) db.manifests)
      (integrity_error "batch_manifests")
  db' ←
      write_task (published_db enc text c results rows db)
        (reviewed c.batch_id (overall_status results) sources task)
  ok (text, db')

-- The writes of `publish`, when all its checks went through.
unfoldable pub publish_rows :
    Encoder
    → (ManifestOf → String)
    → Db
    → ProcessClaim
    → Task
    → List Envelope
    → Result Error (String × Db)
unfolding store_results manifest_of publish_stored
publish_rows enc manifest_text db c task results =
    store_results enc c.batch_id results db.contents task.sources
    >>= publish_stored enc
        (manifest_text (manifest_of db c task results (get_by batch_id c.batch_id db.batches))) db c
        task results

abbrev pub is_staged : Encoder → ProcessClaim → List Envelope → Option Staging → Bool
is_staged enc c results none = false
is_staged enc c results (some s) =
    s.fencing_token == c.fencing_token && s.payload == enc.of_results results

-- The checks of `publish` on a run that is not done.
unfoldable pub publish_new :
    Encoder
    → (ManifestOf → String)
    → Db
    → ProcessClaim
    → ProcessingRun
    → Task
    → List Envelope
    → Result Error (String × Db)
unfolding check_results publish_rows inputs_of
publish_new enc manifest_text db c run task results = do
  raise_if (not (run.status == "processing")) (value_error "Run must be processing")
  raise_if
      (not (is_staged enc c results (first (λ (s : Staging). s.batch_id == c.batch_id) db.staging)))
      (value_error "Result does not match staged parser output")
  raise_if
      (is_empty (inputs_of db c.batch_id)
        || not (length results == length (inputs_of db c.batch_id)))
      (value_error "Incomplete result set")
  check_results (inputs_of db c.batch_id) results
  publish_rows enc manifest_text db c task results

-- A run that is done: the same results are answered with the stored manifest.
unfoldable pub publish_again :
    Encoder → Db → ProcessClaim → ProcessingRun → List Envelope → Result Error (String × Db)
unfolding stored_manifest
publish_again enc db c run results = do
  raise_if (not (run.result_digest == some (enc.sha256 (enc.of_results results))))
      (value_error "Conflicting terminal replay")
  text ← stored_manifest db c.batch_id
  ok (text, db)

unfoldable pub publish_body :
    Encoder
    → (ManifestOf → String)
    → Db
    → ProcessClaim
    → List Envelope
    → ℕ
    → Result Error (String × Db)
unfolding check_process is_done publish_again publish_new
publish_body enc manifest_text db c results now = do
  (run, task) ← check_process db c true now
  if is_done run.status
      then publish_again enc db c run results
      else publish_new enc manifest_text db c run task results

-- `publish`: it answers with the text of the manifest.
unfoldable pub publish :
    Encoder
    → (ManifestOf → String)
    → Db
    → ProcessClaim
    → List Envelope
    → ℕ
    → Result Error String × Db
unfolding publish_body
publish enc manifest_text db c results now =
    transact db (publish_body enc manifest_text db c results now)

-- The rows of a batch, in the order in which they came.
abbrev pub contents_of : Db → String → List String
contents_of db bid =
    map (λ (r : ContentRow). r.payload) (select (λ (r : ContentRow). r.batch_id == bid) db.contents)

-- `result`
unfoldable pub result : Db → String → Result Error (String × List String)
unfolding stored_manifest
result db bid = do text ← stored_manifest db bid; ok (text, contents_of db bid)
