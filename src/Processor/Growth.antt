-- ===== src/Processor/Growth.antt =====
-- processor.py: fencing tokens under the calls of processors.
use my_ops.Prelude.{
  ℕ, suc, ◌+◌, ◌≤◌, ◌≡◌, refl, sym, subst, ap, ◌∙◌, String, Bool, true, false, not, ◌||◌, inl, inr,
  Option, none, some, List, map, arith, Result, ok, err, ◌>>=◌, ◌>>◌, raise_if, >>=-eq-ok, >>-eq-ok,
  ok-injective, first, update_where, get_by, ◌==◌, nat_eq, string_eq, option_eq, list_eq,
  if◌then◌else◌,
}
use my_ops.Task.{Error, value_error}
use my_ops.Store.{Db, Batch, SourceInput, ProcessingRun, read, is_cancelled, transact}
use my_ops.Acquisition.{batch_id, valid_lease}
use my_ops.Acquisition.Tokens.{after_transact, transact-answer}
use my_ops.Acquisition.Seal.{Hashing, seal_inputs}
use my_ops.Content.{Envelope, Parsers}
use my_ops.Processor.{
  is_done, ProcessClaim, Files, inputs_of, pin_all, claim_sealed, claim_batch, claim_processing,
  check_process, with_process, beat_process,
}
use my_ops.Processor.Parse.{NotionParser, Encoder, parse_begin, parse_end, parse, parse_source}
use my_ops.Processor.Publish.{ManifestOf, publish, publish_body}
use my_ops.Processor.First.{published_run}
use my_ops.Processor.Replay.{replayed, newly, publish_body-Published}
use my_ops.Processor.Tokens.{
  token_of, token, KeepsBatch, with_process-token, seal_inputs-runs, IsClaim, Taken,
  claim_sealed-Taken,
}

-- The tokens of all batches, together.
unfoldable pub Grows : Db → Db → Type 0
Grows db db' = (b : String) → token db b ≤ token db' b

pub same_runs : (db db' : Db) → db'.processing_runs ≡ db.processing_runs → Grows db db'
unfolding Grows token
same_runs db db' e b = rw e (omega arith)

Taken-Grows :
    (db db' : Db) (bid : String) (o : Option ProcessClaim) → Taken db bid o db' → Grows db db'
unfolding Grows
Taken-Grows db db' bid o t = elim t [ inl (_, e) ↦ same_runs db db' e | inr (c, _, p) ↦ p.grows ]

pub Grows-trans : (db db' db'' : Db) → Grows db db' → Grows db' db'' → Grows db db''
unfolding Grows
Grows-trans db db' db'' g h b = omega (arith, g b, h b)

-- The sealing before a claim changes no token.
Taken-moved :
    (db d : Db) (bid : String) (o : Option ProcessClaim) (db' : Db)
    → d.processing_runs ≡ db.processing_runs
    → Taken d bid o db'
    → Taken db bid o db'
unfolding token
Taken-moved db d bid o db' same t = elim t [
  | inl (none_given, runs) ↦ inl (none_given, runs ∙ same)
  | inr (c, given, p) ↦ inr (
    c,
    given,
    record {
      at_batch = p.at_batch;
      next = p.next ∙ ap suc (tokens bid);
      own = p.own;
      grows = λ b. omega (arith, p.grows b, tokens b);
    },
  )
]
  where
    tokens : (b : String) → token d b ≡ token db b
    tokens b = ap (λ runs. token_of (first (λ (r : ProcessingRun). r.batch_id == b) runs)) same

-- A claim of a batch that went through.
claim_batch-Taken :
    (h : Hashing) (files : Files) (db : Db) (bid worker : String) (lease now : ℕ) (o : Option Batch)
    (a : Option ProcessClaim) (db' : Db)
    → claim_batch h files db bid worker lease now o ≡ ok (a, db')
    → Taken db bid a db'
unfolding claim_batch
claim_batch-Taken h files db bid worker lease now none a db' e = cc
claim_batch-Taken h files db bid worker lease now (some batch) a db' e =
    let (task, _, e1) = >>=-eq-ok (read db batch.task_id) _ e in
    opened
      (not (batch.status == "finalized")
        || (is_cancelled task.state || is_done batch.processing_status))
      e1
  where
    pinned : Db
    pinned = record db { inputs = pin_all files bid (inputs_of db bid) db.inputs }

    opened :
        (closed : Bool)
        → ◌≡◌ {A = Result Error (Option ProcessClaim × Db)}
            (if closed
              then ok (none, db)
              else (do d ← seal_inputs h pinned bid; ok (claim_sealed d bid worker lease now)))
            (ok (a, db'))
        → Taken db bid a db'
    opened true g =
        let c = ok-injective g in
        inl (
          sym (ap (λ (p : Option ProcessClaim × Db). p.0) c),
          sym (ap (λ (p : Option ProcessClaim × Db). p.1.processing_runs) c),
        )
    opened false g =
        let (d, sealed, g1) = >>=-eq-ok (seal_inputs h pinned bid) _ g in
        let same = seal_inputs-runs h pinned bid d sealed in
        let done : claim_sealed d bid worker lease now ≡ (a, db') = ok-injective g1 in
        subst (λ (r : Option ProcessClaim × Db). Taken db bid r.0 r.1) done
          (Taken-moved db d bid _ _ same (claim_sealed-Taken d bid worker lease now))

-- What `claim` does, whatever it answers.
module _ (h : Hashing) (files : Files) (db : Db) (bid worker : String) (lease now : ℕ) where
  claim_processing-Taken :
      (a : Option ProcessClaim) (db' : Db)
      → (raise_if (worker == "" || not (valid_lease lease)) (value_error "Invalid worker or lease")
          >> claim_batch h files db bid worker lease now (get_by batch_id bid db.batches))
        ≡ ok (a, db')
      → Taken db bid a db'
  claim_processing-Taken a db' e =
      claim_batch-Taken h files db bid worker lease now (get_by batch_id bid db.batches) a db'
        (>>-eq-ok _ _ e).1

  pub claim_processing-IsClaim :
      (c : ProcessClaim)
      → (claim_processing h files db bid worker lease now).0 ≡ ok (some c)
      → IsClaim db bid c (claim_processing h files db bid worker lease now).1
  unfolding claim_processing
  claim_processing-IsClaim c e =
      elim (claim_processing-Taken (some c) _ (transact-answer db _ (some c) e)) [
        | inl (none_given, _) ↦ cc
        | inr (c', given, p) ↦
            let same : c' ≡ c = cc in
            subst (λ x. IsClaim db bid x (claim_processing h files db bid worker lease now).1) same
              p
      ]

  pub claim_processing-Grows : Grows db (claim_processing h files db bid worker lease now).1
  unfolding claim_processing
  claim_processing-Grows =
      after_transact (Grows db) db _ (same_runs db db refl)
        (λ a db' e. Taken-Grows db db' bid a (claim_processing-Taken a db' e))

-- Where a call keeps every run's batch and token, no token shrinks.
kept-Grows :
    (db db' : Db) (bid : String) (f : ProcessingRun → ProcessingRun)
    → KeepsBatch f
    → ((r : ProcessingRun) → (f r).fencing_token ≡ r.fencing_token)
    → db'.processing_runs ≡ update_where (λ r. r.batch_id == bid) f db.processing_runs
    → Grows db db'
unfolding Grows token
kept-Grows db db' bid f keeps same e b =
    rw e (omega (arith, with_process-token db bid f b keeps same))

pub beat-Grows :
    (db : Db) (c : ProcessClaim) (lease now now' : ℕ)
    → Grows db (beat_process db c lease now now').1
unfolding beat_process
beat-Grows db c lease now now' =
    after_transact (Grows db) db
      (raise_if (not (valid_lease lease)) (value_error "Invalid lease") >> renew)
      (same_runs db db refl) grown
  where
    renew : Result Error (Unit {0} × Db)
    renew = check_process db c false now >>= (λ found.
        ok (tt, with_process db c.batch_id (λ r. record r { lease_until = now' + lease })))

    grown :
        (a : Unit {0}) (db' : Db)
        → (raise_if (not (valid_lease lease)) (value_error "Invalid lease") >> renew) ≡ ok (a, db')
        → Grows db db'
    grown a db' e =
        let (_, e1) =
          >>-eq-ok (raise_if (not (valid_lease lease)) (value_error "Invalid lease")) renew e in
        let (_, _, e2) = >>=-eq-ok (check_process db c false now) _ e1 in
        kept-Grows db db' c.batch_id (λ r. record r { lease_until = now' + lease }) (λ r. refl)
          (λ r. refl) (sym (ap (λ (p : Unit {0} × Db). p.1.processing_runs) (ok-injective e2)))

parse_begin-Grows :
    (files : Files) (db : Db) (c : ProcessClaim) (now : ℕ) (is : List SourceInput) (db' : Db)
    → parse_begin files db c now ≡ ok (is, db')
    → Grows db db'
unfolding parse_begin
parse_begin-Grows files db c now is db' e =
    let (_, _, e1) = >>=-eq-ok (check_process db c false now) _ e in
    kept-Grows db db' c.batch_id (λ r. record r { status = "processing" }) (λ r. refl) (λ r. refl)
      (sym (ap (λ (p : List SourceInput × Db). p.1.processing_runs) (ok-injective e1)))

parse_end-Grows :
    (enc : Encoder) (db : Db) (c : ProcessClaim) (results : List Envelope) (now : ℕ)
    → Grows db (transact db (parse_end enc db c results now)).1
unfolding parse_end
parse_end-Grows enc db c results now =
    after_transact (Grows db) db (parse_end enc db c results now) (same_runs db db refl) staged
  where
    staged :
        (a : List Envelope) (db' : Db) → parse_end enc db c results now ≡ ok (a, db') → Grows db db'
    staged a db' e =
        let (_, _, e1) = >>=-eq-ok (check_process db c false now) _ e in
        same_runs db db'
          (sym (ap (λ (p : List Envelope × Db). p.1.processing_runs) (ok-injective e1)))

pub parse-Grows :
    (files : Files) (parsers : Parsers) (notion : NotionParser) (enc : Encoder) (db : Db)
    (c : ProcessClaim) (now now' : ℕ)
    → Grows db (parse files parsers notion enc db c now now').1
unfolding parse
parse-Grows files parsers notion enc db c now now' =
    begun (parse_begin files db c now) (parse_begin-Grows files db c now)
  where
    begun :
        (r : Result Error (List SourceInput × Db))
        → ((is : List SourceInput) (db' : Db) → r ≡ ok (is, db') → Grows db db')
        → Grows db
            (elim ((transact db r).0) as (λ _. Result Error (List Envelope) × Db) [
              | err e ↦ (err e, (transact db r).1)
              | ok inputs ↦ transact (transact db r).1 (
                  parse_end enc
                    (transact db r).1
                    c
                    (map (parse_source files parsers notion) inputs)
                    now')
            ]).1
    begun (err e) grown = same_runs db db refl
    begun (ok (is, db')) grown =
        Grows-trans db db'
          (transact db' (parse_end enc db' c (map (parse_source files parsers notion) is) now')).1
          (grown is db' refl)
          (parse_end-Grows enc db' c (map (parse_source files parsers notion) is) now')

pub publish-Grows :
    (enc : Encoder) (manifest_text : ManifestOf → String) (db : Db) (c : ProcessClaim)
    (results : List Envelope) (now : ℕ)
    → Grows db (publish enc manifest_text db c results now).1
unfolding publish
publish-Grows enc manifest_text db c results now =
    after_transact (Grows db) db (publish_body enc manifest_text db c results now)
      (same_runs db db refl) grown
  where
    grown :
        (text : String) (db' : Db)
        → publish_body enc manifest_text db c results now ≡ ok (text, db')
        → Grows db db'
    grown text db' e =
        elim ((publish_body-Published enc manifest_text db c results now text db' e).0) [
          | replayed same ↦ same_runs db db' (ap (λ (d : Db). d.processing_runs) same)
          | newly run task checked accepted q ↦
              kept-Grows db db' c.batch_id (published_run enc results) (λ r. refl) (λ r. refl)
                q.runs
        ]
