-- ===== src/Processor/Sound.antt =====
-- processor.py: what `publish` publishes.
use my_ops.Prelude.{
  Bool-cases, refl, ℕ, ◌++◌, ◌≡◌, ◌≢◌, subst, sym, ap, ◌∙◌, String, Bool, true, false, not, ◌||◌,
  ◌⊎◌, inl, inr, append-nil, append_assoc, List, [], ◌∷◌, map, Memᴰ, ok, raise_if, Option-cases,
  >>=-eq-ok, >>-eq-ok, raise_if-eq-ok, ok-injective, first, first-Mem, length, is_empty, ◌==◌,
  nat_eq, string_eq, option_eq, ==→eq, ==_refl, select, arith,
}
use my_ops.Review.Trace.{not-eq-false}
use my_ops.Task.{value_error, Source}
use my_ops.Store.{Db, SourceInput, Staging, ContentRow}
use my_ops.Acquisition.Tokens.{and-eq-true}
use my_ops.Content.{Envelope}
use my_ops.Processor.{is_done, ProcessClaim, inputs_of}
use my_ops.Processor.Parse.{Encoder}
use my_ops.Content.{content_schema_version, untrusted, parser_version, policy_version}
use my_ops.Processor.Publish.{
  ManifestOf, same_identity, valid_status, agree, check_results, is_staged, store_results,
  set_source, apply_result, publish, result, contents_of,
}
use my_ops.Processor.Replay.{replayed, newly, publish-Published}

-- A result is that of an input: the same source, bytes, revision and place, by the parser, policy and
-- schema in force, and marked as untrusted; it says that it is complete when it is completed, and only then.
pub record IsResultOf (i : SourceInput) (e : Envelope) : Type 0 where
  pub schema : e.schema ≡ content_schema_version
  pub trust : e.trust ≡ untrusted
  pub parser : e.parser ≡ parser_version
  pub policy : e.policy ≡ policy_version
  pub source : e.source_id ≡ i.source_id
  pub origin : e.origin ≡ i.origin
  pub bytes : e.sha256 ≡ i.sha256
  pub byte_length : e.byte_length ≡ i.byte_length
  pub revision : e.revision ≡ i.revision
  pub place : e.path ≡ i.locator
  pub status : is_done e.status ≡ true
  pub complete : (e.status == "completed") ≡ (e.completeness == "complete")

-- Each result is that of the input at its place, and there are no more of either.
abbrev pub AreResults : List SourceInput → List Envelope → Type 0
AreResults [] [] = Unit
AreResults [] (e ∷ es) = ⊥
AreResults (i ∷ is) [] = ⊥
AreResults (i ∷ is) (e ∷ es) = IsResultOf i e × AreResults is es

result-IsResultOf :
    (i : SourceInput) (e : Envelope)
    → same_identity i e ≡ true
    → valid_status e ≡ true
    → IsResultOf i e
unfolding same_identity valid_status
result-IsResultOf i e same valid =
    let (schema, s0) = and-eq-true (e.schema == content_schema_version) _ same in
    let (trust, s0') = and-eq-true (e.trust == untrusted) _ s0 in
    let (source, s1) = and-eq-true (e.source_id == i.source_id) _ s0' in
    let (origin, s2) = and-eq-true (e.origin == i.origin) _ s1 in
    let (bytes, s3) = and-eq-true (e.sha256 == i.sha256) _ s2 in
    let (byte_length, s4) = and-eq-true (e.byte_length == i.byte_length) _ s3 in
    let (revision, s5) = and-eq-true (e.revision == i.revision) _ s4 in
    let (parser, s6) = and-eq-true (e.parser == parser_version) _ s5 in
    let (policy, place) = and-eq-true (e.policy == policy_version) _ s6 in
    let (done, complete) = and-eq-true (is_done e.status) _ valid in
    record {
      schema = ==→eq e.schema content_schema_version schema;
      trust = ==→eq e.trust untrusted trust;
      parser = ==→eq e.parser parser_version parser;
      policy = ==→eq e.policy policy_version policy;
      source = ==→eq e.source_id i.source_id source;
      origin = ==→eq e.origin i.origin origin;
      bytes = ==→eq e.sha256 i.sha256 bytes;
      byte_length = ==→eq e.byte_length i.byte_length byte_length;
      revision = ==→eq e.revision i.revision revision;
      place = ==→eq e.path i.locator place;
      status = done;
      complete = agree-eq (e.status == "completed") (e.completeness == "complete") complete;
    }
  where
    agree-eq : (a b : Bool) → agree a b ≡ true → a ≡ b
    agree-eq true b h = sym h
    agree-eq false b h = ground arith

check_results-AreResults :
    (is : List SourceInput) (es : List Envelope)
    → length es ≡ length is
    → check_results is es ≡ ok tt
    → AreResults is es
unfolding check_results
check_results-AreResults [] [] len h = tt
check_results-AreResults [] (e ∷ es) len h = ground arith
check_results-AreResults (i ∷ is) [] len h = ground arith
check_results-AreResults (i ∷ is) (e ∷ es) len h =
    let (same, h1) = >>-eq-ok (raise_if (not (same_identity i e)) _) _ h in
    let (valid, h2) =
      >>-eq-ok (raise_if (not (valid_status e)) (value_error "Invalid result status"))
        (check_results is es) h1 in
    (
      result-IsResultOf i e (not-eq-false _ (raise_if-eq-ok _ _ same))
          (not-eq-false _ (raise_if-eq-ok _ _ valid)),
      check_results-AreResults is es (omega (arith, len)) h2,
    )

abbrev pub content_row : Encoder → String → Envelope → ContentRow
content_row enc bid e = record {
  batch_id = bid;
  source_id = e.source_id;
  payload = enc.of_result e;
}

-- The rows of the results come after those that were there.
store_results-rows :
    (enc : Encoder) (bid : String) (es : List Envelope) (rows : List ContentRow)
    (sources : List Source) (rows' : List ContentRow) (sources' : List Source)
    → store_results enc bid es rows sources ≡ ok (rows', sources')
    → rows' ≡ rows ++ map (content_row enc bid) es
unfolding store_results
store_results-rows enc bid [] rows sources rows' sources' h =
    let e : (rows, sources) ≡ (rows', sources') = ok-injective h in
    ap (λ (p : List ContentRow × List Source). p.0) (sym e) ∙ sym (append-nil rows)
store_results-rows enc bid (e ∷ es) rows sources rows' sources' h =
    let (_, h1) = >>-eq-ok _ _ h in
    let (next, _, h2) = >>=-eq-ok (set_source e.source_id (apply_result enc e) sources) _ h1 in
    store_results-rows enc bid es (rows ++ content_row enc bid e ∷ []) next rows' sources' h2
    ∙ append_assoc rows (content_row enc bid e ∷ []) (map (content_row enc bid) es)

is_staged-eq-true :
    (enc : Encoder) (c : ProcessClaim) (results : List Envelope) (staging : List Staging)
    → is_staged enc c results (first (λ (s : Staging). s.batch_id == c.batch_id) staging) ≡ true
    → Memᴰ
        (record {
          batch_id = c.batch_id;
          fencing_token = c.fencing_token;
          payload = enc.of_results results;
        })
        staging
is_staged-eq-true enc c results staging h =
    elim (Option-cases (first (λ (s : Staging). s.batch_id == c.batch_id) staging)) [
      | inl missing ↦ cc (rw missing at h)
      | inr (s, found) ↦
          let (m, own) = first-Mem (λ (s : Staging). s.batch_id == c.batch_id) staging s found in
          let (token, payload) =
            and-eq-true (s.fencing_token == c.fencing_token) _ (rw found at h) in
          subst (λ x. Memᴰ x staging)
            (staging-eq s c.batch_id c.fencing_token (enc.of_results results)
              (==→eq s.batch_id c.batch_id own) (==→eq s.fencing_token c.fencing_token token)
              (==→eq s.payload (enc.of_results results) payload))
            m
    ]
  where
    staging-eq :
        (s : Staging) (b : String) (t : ℕ) (p : String)
        → s.batch_id ≡ b
        → s.fencing_token ≡ t
        → s.payload ≡ p
        → ◌≡◌ {A = Staging} s (record { batch_id = b; fencing_token = t; payload = p })
    staging-eq s b t p eb et ep = cc

-- A publication of results that were staged under the token of the claim.
pub record IsSound (enc : Encoder) (db : Db) (c : ProcessClaim) (results : List Envelope) (db' : Db)
    : Type 0 where
  pub staged :
      Memᴰ
        (record {
          batch_id = c.batch_id;
          fencing_token = c.fencing_token;
          payload = enc.of_results results;
        })
        db.staging
  pub results_of : AreResults (inputs_of db c.batch_id) results
  pub some_result : results ≢ []
  pub contents : db'.contents ≡ db.contents ++ map (content_row enc c.batch_id) results

accepted-whole :
    (results : List Envelope) (inputs : List SourceInput)
    → (is_empty inputs || not (length results == length inputs)) ≡ false
    → (length results ≡ length inputs) × (results ≢ [])
accepted-whole results [] h = cc
accepted-whole [] (i ∷ is) h = (ground arith, λ e. ground arith)
accepted-whole (e ∷ es) (i ∷ is) h = (ground arith, λ p. cc)

-- Where `publish` goes through it changes nothing, or the results were staged for the batch under the
-- token of the claim, there is one for each input of the batch, in their order and at least one, with
-- the identity of the input, and their contents are added to the table of contents, and nothing else.
pub publish-IsSound :
    (enc : Encoder) (manifest_text : ManifestOf → String) (db : Db) (c : ProcessClaim)
    (results : List Envelope) (now : ℕ) (text : String)
    → (publish enc manifest_text db c results now).0 ≡ ok text
    → let db' = (publish enc manifest_text db c results now).1 in
      (db' ≡ db) ⊎ IsSound enc db c results db'
publish-IsSound enc manifest_text db c results now text h =
    elim ((publish-Published enc manifest_text db c results now text h).0) [
      | replayed same ↦ inl same
      | newly run task checked accepted q ↦
          let (len, filled) = accepted-whole results (inputs_of db c.batch_id) accepted.whole in
          inr (record {
            staged = is_staged-eq-true enc c results db.staging accepted.staged;
            results_of =
                check_results-AreResults (inputs_of db c.batch_id) results len accepted.sound;
            some_result = filled;
            contents =
                q.contents
                ∙ store_results-rows enc c.batch_id results db.contents task.sources q.rows
                    q.sources q.stored;
          })
    ]

contents-append :
    (enc : Encoder) (bid : String) (rows : List ContentRow) (results : List Envelope)
    → map
        (λ (r : ContentRow). r.payload)
        (select (λ (r : ContentRow). r.batch_id == bid) (rows ++ map (content_row enc bid) results))
      ≡ map (λ (r : ContentRow). r.payload) (select (λ (r : ContentRow). r.batch_id == bid) rows)
        ++ map enc.of_result results
contents-append enc bid [] [] = refl
contents-append enc bid [] (e ∷ es) =
    rw (==_refl bid) (ap (λ x. enc.of_result e ∷ x) (contents-append enc bid [] es))
contents-append enc bid (r ∷ rows) results = elim (Bool-cases (r.batch_id == bid)) [
  | inl e ↦ rw e (ap (λ x. r.payload ∷ x) (contents-append enc bid rows results))
  | inr e ↦ rw e (contents-append enc bid rows results)
]

-- What was published is what `result` answers: the text of the manifest, and the contents that the
-- batch had before, followed by those of the results, in their order; or, where `publish` changed
-- nothing, the contents that it had.
pub result-publish :
    (enc : Encoder) (manifest_text : ManifestOf → String) (db : Db) (c : ProcessClaim)
    (results : List Envelope) (now : ℕ) (text : String)
    → (publish enc manifest_text db c results now).0 ≡ ok text
    → let db' = (publish enc manifest_text db c results now).1 in
      ((db' ≡ db) × (result db' c.batch_id ≡ ok (text, contents_of db c.batch_id)))
      ⊎ (result db' c.batch_id ≡ ok (text, contents_of db c.batch_id ++ map enc.of_result results))
unfolding result
result-publish enc manifest_text db c results now text h =
    let db' = (publish enc manifest_text db c results now).1 in
    let (how, p) = publish-Published enc manifest_text db c results now text h in
    let stored : result db' c.batch_id ≡ ok (text, contents_of db' c.batch_id) =
      rw (p.stored) refl in
    elim how [
      | replayed same ↦
          inl (same, stored ∙ ap (λ (d : Db). ok (text, contents_of d c.batch_id)) same)
      | newly run task checked accepted q ↦
          let rows =
            q.contents
            ∙ store_results-rows enc c.batch_id results db.contents task.sources q.rows q.sources
                q.stored in
          inr (
            stored
            ∙ ap
                (λ (rs : List ContentRow). ok (
                  text,
                  map (λ (r : ContentRow). r.payload)
                      (select (λ (r : ContentRow). r.batch_id == c.batch_id) rs),
                ))
                rows
            ∙ ap (λ x. ok (text, x)) (contents-append enc c.batch_id db.contents results))
    ]
