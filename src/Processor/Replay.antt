-- ===== src/Processor/Replay.antt =====
-- processor.py: `publish` on a run that is done, and after a publication.
use my_ops.Prelude.{
  ℕ, ◌≡◌, refl, sym, subst, ap, ◌∙◌, String, true, false, not, ◌||◌, inl, inr, some, List, Result,
  ok, ◌>>=◌, Bool-cases, >>=-eq-ok, >>-eq-ok, raise_if-eq-ok, ok-injective, first, length, is_empty,
  ◌==◌, nat_eq, string_eq, option_eq, ==→eq, ==_refl, if◌then◌else◌,
}
use my_ops.Review.Trace.{not-eq-false}
use my_ops.Task.{Error, Task}
use my_ops.Store.{Db, ProcessingRun, Staging}
use my_ops.Acquisition.Tokens.{transact-answer}
use my_ops.Content.{Envelope}
use my_ops.Processor.{is_done, ProcessClaim, inputs_of, check_process}
use my_ops.Processor.Parse.{Encoder}
use my_ops.Processor.Publish.{
  ManifestOf, stored_manifest, publish_again, publish_new, is_staged, check_results, publish_body,
  publish,
}
use my_ops.Processor.Checked.{IsChecked, check_process-IsChecked, check_process-done}
use my_ops.Processor.First.{
  IsFirst, overall_status-IsDone, published_run, publish_rows-IsFirst, published-IsChecked,
  stored_manifest-published,
}

-- The results of a claim are published, under a text.
pub record IsPublished (enc : Encoder) (db : Db) (c : ProcessClaim) (results : List Envelope)
    (text : String) : Type 0 where
  pub run : ProcessingRun
  pub task : Task
  pub checked : IsChecked db c run task
  pub done : is_done run.status ≡ true
  pub digest : run.result_digest ≡ some (enc.sha256 (enc.of_results results))
  pub stored : stored_manifest db c.batch_id ≡ ok text

pub publish-published :
    (enc : Encoder) (manifest_text : ManifestOf → String) (db : Db) (c : ProcessClaim)
    (results : List Envelope) (text : String) (now : ℕ)
    → IsPublished enc db c results text
    → publish enc manifest_text db c results now ≡ (ok text, db)
unfolding publish publish_body publish_again
publish-published enc manifest_text db c results text now p = rw (
  check_process-done db c p.run p.task now p.checked p.done,
  p.done,
  p.digest,
  ==_refl (enc.sha256 (enc.of_results results)),
  p.stored,
)

first-IsPublished :
    (enc : Encoder) (db : Db) (c : ProcessClaim) (run : ProcessingRun) (task : Task)
    (results : List Envelope) (text : String) (db' : Db)
    → IsChecked db c run task
    → IsFirst enc db c task results text db'
    → IsPublished enc db' c results text
first-IsPublished enc db c run task results text db' p q =
    let (task', checked) = published-IsChecked enc db c run task results text db' p q in
    record {
      run = published_run enc results run;
      task = task';
      checked = checked;
      done = overall_status-IsDone results;
      digest = refl;
      stored = stored_manifest-published db db' c.batch_id text q.fresh q.manifests;
    }

publish_again-same :
    (enc : Encoder) (db : Db) (c : ProcessClaim) (run : ProcessingRun) (results : List Envelope)
    (text : String) (db' : Db)
    → publish_again enc db c run results ≡ ok (text, db')
    → db' ≡ db
unfolding publish_again
publish_again-same enc db c run results text db' h =
    let (agrees, h1) = >>-eq-ok _ (stored_manifest db c.batch_id >>= (λ t. ok (t, db))) h in
    let (t, stored, h2) = >>=-eq-ok (stored_manifest db c.batch_id) (λ t. ok (t, db)) h1 in
    sym (ap (λ (x : String × Db). x.1) (ok-injective h2))

again-IsPublished :
    (enc : Encoder) (db : Db) (c : ProcessClaim) (run : ProcessingRun) (task : Task)
    (results : List Envelope) (text : String) (db' : Db)
    → IsChecked db c run task
    → is_done run.status ≡ true
    → publish_again enc db c run results ≡ ok (text, db')
    → IsPublished enc db' c results text
unfolding publish_again
again-IsPublished enc db c run task results text db' p done h =
    let (agrees, h1) = >>-eq-ok _ (stored_manifest db c.batch_id >>= (λ t. ok (t, db))) h in
    let (t, stored, h2) = >>=-eq-ok (stored_manifest db c.batch_id) (λ t. ok (t, db)) h1 in
    let e : (t, db) ≡ (text, db') = ok-injective h2 in
    let db_same : db ≡ db' = ap (λ (x : String × Db). x.1) e in
    subst (λ d. IsPublished enc d c results text) db_same
      (record {
        run = run;
        task = task;
        checked = p;
        done = done;
        digest = ==→eq run.result_digest _ (not-eq-false _ (raise_if-eq-ok _ _ agrees));
        stored = stored ∙ ap ok (ap (λ (x : String × Db). x.0) e);
      })

-- What the results had to meet, when they are published first.
pub record IsAccepted (enc : Encoder) (db : Db) (c : ProcessClaim) (run : ProcessingRun)
    (results : List Envelope) : Type 0 where
  pub processing : run.status ≡ "processing"
  pub staged :
      is_staged enc c results (first (λ (s : Staging). s.batch_id == c.batch_id) db.staging) ≡ true
  pub whole :
      (is_empty (inputs_of db c.batch_id)
        || not (length results == length (inputs_of db c.batch_id)))
      ≡ false
  pub sound : check_results (inputs_of db c.batch_id) results ≡ ok tt

pub publish_new-IsFirst :
    (enc : Encoder) (manifest_text : ManifestOf → String) (db : Db) (c : ProcessClaim)
    (run : ProcessingRun) (task : Task) (results : List Envelope) (text : String) (db' : Db)
    → publish_new enc manifest_text db c run task results ≡ ok (text, db')
    → IsAccepted enc db c run results × IsFirst enc db c task results text db'
unfolding publish_new
publish_new-IsFirst enc manifest_text db c run task results text db' h =
    let (going, h1) = >>-eq-ok _ _ h in
    let (staged, h2) = >>-eq-ok _ _ h1 in
    let (whole, h3) = >>-eq-ok _ _ h2 in
    let (sound, h4) = >>-eq-ok (check_results (inputs_of db c.batch_id) results) _ h3 in
    (
      record {
        processing = ==→eq run.status "processing" (not-eq-false _ (raise_if-eq-ok _ _ going));
        staged = not-eq-false _ (raise_if-eq-ok _ _ staged);
        whole = raise_if-eq-ok _ _ whole;
        sound = sound;
      },
      publish_rows-IsFirst enc manifest_text db c task results text db' h4,
    )

-- What `publish` does: it answers a run that is done, or it publishes first.
pub data Published (enc : Encoder) (db : Db) (c : ProcessClaim) (results : List Envelope)
    (text : String) (db' : Db) : Type 0 where
  replayed : db' ≡ db → Published enc db c results text db'
  newly :
      (run : ProcessingRun) (task : Task)
      → IsChecked db c run task
      → IsAccepted enc db c run results
      → IsFirst enc db c task results text db'
      → Published enc db c results text db'

pub publish_body-Published :
    (enc : Encoder) (manifest_text : ManifestOf → String) (db : Db) (c : ProcessClaim)
    (results : List Envelope) (now : ℕ) (text : String) (db' : Db)
    → publish_body enc manifest_text db c results now ≡ ok (text, db')
    → Published enc db c results text db' × IsPublished enc db' c results text
unfolding publish_body
publish_body-Published enc manifest_text db c results now text db' h =
    let ((run, task), checked, h1) = >>=-eq-ok (check_process db c true now) _ h in
    at_run run task (check_process-IsChecked db c true now run task checked) h1
  where
    at_run :
        (run : ProcessingRun) (task : Task)
        → IsChecked db c run task
        → ◌≡◌ {A = Result Error (String × Db)}
            (if is_done run.status
              then publish_again enc db c run results
              else publish_new enc manifest_text db c run task results)
            (ok (text, db'))
        → Published enc db c results text db' × IsPublished enc db' c results text
    at_run run task p g = elim (Bool-cases (is_done run.status)) [
      | inl done ↦
          let answered : publish_again enc db c run results ≡ ok (text, db') = rw done at g in
          (
            replayed (publish_again-same enc db c run results text db' answered),
            again-IsPublished enc db c run task results text db' p done answered,
          )
      | inr going ↦
          let (accepted, q) =
            publish_new-IsFirst enc manifest_text db c run task results text db' (rw going at g) in
          (newly run task p accepted q, first-IsPublished enc db c run task results text db' p q)
    ]

-- What `publish` answers, it answers under one of these, and it is published after it.
pub publish-Published :
    (enc : Encoder) (manifest_text : ManifestOf → String) (db : Db) (c : ProcessClaim)
    (results : List Envelope) (now : ℕ) (text : String)
    → (publish enc manifest_text db c results now).0 ≡ ok text
    → let db' = (publish enc manifest_text db c results now).1 in
      Published enc db c results text db' × IsPublished enc db' c results text
unfolding publish
publish-Published enc manifest_text db c results now text h =
    publish_body-Published enc manifest_text db c results now text _
      (transact-answer db (publish_body enc manifest_text db c results now) text h)

-- A publication that went through is answered again with the same text, by the same results under the
-- same claim, at any later or earlier time, and then nothing changes.
pub publish-publish :
    (enc : Encoder) (manifest_text : ManifestOf → String) (db : Db) (c : ProcessClaim)
    (results : List Envelope) (now again : ℕ) (text : String)
    → (publish enc manifest_text db c results now).0 ≡ ok text
    → let db' = (publish enc manifest_text db c results now).1 in
      publish enc manifest_text db' c results again ≡ (ok text, db')
publish-publish enc manifest_text db c results now again text h =
    publish-published enc manifest_text (publish enc manifest_text db c results now).1 c results
      text again ((publish-Published enc manifest_text db c results now text h).1)
