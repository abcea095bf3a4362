-- ===== src/Acquisition/Sealed.antt =====
-- acquisition.py: what a sealed batch holds, and the limit on its bytes.
use my_ops.Prelude.{
  ℕ, ◌+◌, ◌*◌, ◌≤◌, ◌≡◌, get_by-update_where, update_where, updated, ==_refl, refl, sym, subst, ap,
  ◌∙◌, String, Bool, true, false, not, ◌||◌, ◌⊎◌, inl, inr, Option, none, some, List, [], ◌∷◌, ◌++◌,
  arith, Result, ok, ◌>>=◌, ◌>>◌, Bool-cases, Option-cases, >>=-eq-ok, >>-eq-ok, raise_if-eq-ok,
  ok-injective, get_by, length, leb, ◌==◌, string_eq, nat_eq, list_eq, ==→eq, if◌then◌else◌,
}
use my_ops.Review.Trace.{not-eq-false}
use my_ops.Task.{Error}
use my_ops.Store.{Db, Batch, SourcePackage, ManifestEntry}
use my_ops.Acquisition.{FetchClaim, batch_id, demand, check_claim, with_runs}
use my_ops.Acquisition.Tokens.{and-eq-true, after_transact}
use my_ops.Acquisition.Seal.{
  Hashing, sealed_as, entries_of, write_manifest, is_text, seal_batch, seal_inputs, Package,
  used_bytes, remaining_sources, max_batch_bytes, insert_package, seal_run, commit_body,
  commit_staged,
}
use my_ops.Acquisition.Entries.{AreEntries, entries_of-AreEntries}

-- A batch that `seal_inputs` seals.
pub record IsSealing (h : Hashing) (db : Db) (bid : String) (db' : Db) : Type 0 where
  pub batch : Batch
  pub entries : List ManifestEntry
  pub found : get_by batch_id bid db.batches ≡ some batch
  pub finalized : batch.status ≡ "finalized"
  pub limit : length batch.source_ids ≤ 50
  pub complete : AreEntries db batch.id batch.source_ids entries
  pub manifest :
      db'.input_manifests
      ≡ db.input_manifests
        ++ record {
          batch_id = batch.id;
          digest = h.of_entries entries;
          task_id = batch.task_id;
          sources = entries;
        }
          ∷ []
  pub sealed :
      get_by batch_id bid db'.batches
      ≡ some (record batch {
        acquisition_status = "sealed";
        input_manifest_digest = some (h.of_entries entries);
      })
  pub packages : db'.packages ≡ db.packages

sealing :
    (h : Hashing) (db : Db) (bid : String) (b : Batch) (o : Option (List ManifestEntry)) (db' : Db)
    → get_by batch_id bid db.batches ≡ some b
    → (not (b.status == "finalized") || is_text b.input_manifest_digest) ≡ false
    → leb (length b.source_ids) 50 ≡ true
    → entries_of db b.id b.source_ids ≡ ok o
    → write_manifest h db b o ≡ ok db'
    → (db' ≡ db) ⊎ IsSealing h db bid db'
unfolding write_manifest
sealing h db bid b none db' found ready few entries written = inl (sym (ok-injective written))
sealing h db bid b (some es) db' found ready few entries written =
    let (_, same) = >>-eq-ok _ _ written in
    let e = ok-injective same in
    inr (record {
      batch = b;
      entries = es;
      found = found;
      finalized = ==→eq b.status "finalized" (is_final (b.status == "finalized") _ ready);
      limit = few_enough (length b.source_ids) few;
      complete = entries_of-AreEntries db b.id b.source_ids es entries;
      manifest = sym (ap (λ (d : Db). d.input_manifests) e);
      sealed = now_sealed (sym (ap (λ (d : Db). d.batches) e));
      packages = sym (ap (λ (d : Db). d.packages) e);
    })
  where
    same_id : (c : Batch) → (updated (λ x. x.id == b.id) (sealed_as (h.of_entries es)) c).id ≡ c.id
    same_id c = elim (Bool-cases (c.id == b.id)) [ inl e ↦ rw e refl | inr e ↦ rw e refl ]

    now_sealed :
        db'.batches ≡ update_where (λ c. c.id == b.id) (sealed_as (h.of_entries es)) db.batches
        → get_by batch_id bid db'.batches ≡ some (sealed_as (h.of_entries es) b)
    now_sealed g =
        rw
          (
            g,
            get_by-update_where batch_id bid (λ (c : Batch). c.id == b.id)
                (sealed_as (h.of_entries es)) db.batches same_id,
            found,
            ==_refl b.id,
          )
          refl

    is_final : (x y : Bool) → (not x || y) ≡ false → x ≡ true
    is_final x y g = ground arith

    few_enough : (n : ℕ) → leb n 50 ≡ true → n ≤ 50
    few_enough n g = ground arith

-- Where `seal_inputs` goes through it changes nothing, or it seals a finalized batch of at most fifty
-- sources under a manifest with one entry for each of its sources, in their order; the entry has the
-- revision of the input and the fingerprint of its package, or the digest of its bytes where it is no
-- source of Notion. The manifest is stored, the batch is then sealed, with the digest of the manifest,
-- and otherwise as it was; the packages stay as they were.
pub seal_inputs-IsSealing :
    (h : Hashing) (db : Db) (bid : String) (db' : Db)
    → seal_inputs h db bid ≡ ok db'
    → (db' ≡ db) ⊎ IsSealing h db bid db'
unfolding seal_inputs seal_batch
seal_inputs-IsSealing h db bid db' sealed = elim (Option-cases (get_by batch_id bid db.batches)) [
  | inl missing ↦ inl (sym (ok-injective (rw (missing, seal_batch) at sealed)))
  | inr (b, found) ↦ at_batch b found (rw (found, seal_batch) at sealed)
]
  where
    at_batch :
        (b : Batch)
        → get_by batch_id bid db.batches ≡ some b
        → ◌≡◌ {A = Result Error Db}
            (if not (b.status == "finalized") || is_text b.input_manifest_digest then ok db else (do
              demand (leb (length b.source_ids) 50) "Batch source limit"
              entries ← entries_of db b.id b.source_ids
              write_manifest h db b entries))
            (ok db')
        → (db' ≡ db) ⊎ IsSealing h db bid db'
    at_batch b found g =
        elim (Bool-cases (not (b.status == "finalized") || is_text b.input_manifest_digest)) [
          | inl closed ↦ inl (sym (ok-injective (rw closed at g)))
          | inr ready ↦
              let (few, g1) =
                >>-eq-ok (demand (leb (length b.source_ids) 50) "Batch source limit")
                  (entries_of db b.id b.source_ids >>= write_manifest h db b) (rw ready at g) in
              let (o, entries, written) =
                >>=-eq-ok (entries_of db b.id b.source_ids) (write_manifest h db b) g1 in
              sealing h db bid b o db' found ready (not-eq-false _ (raise_if-eq-ok _ _ few)) entries
                written
        ]

-- No batch has more bytes than the limit.
unfoldable pub IsWithinLimit : Db → Type 0
IsWithinLimit db = (bid : String) → used_bytes bid db.packages ≤ max_batch_bytes

used_bytes-append :
    (bid : String) (ps : List SourcePackage) (p : SourcePackage)
    → used_bytes bid (ps ++ p ∷ [])
      ≡ used_bytes bid ps + (if p.batch_id == bid then p.byte_length else 0)
unfolding used_bytes
used_bytes-append bid [] p = omega arith
used_bytes-append bid (q ∷ ps) p = omega (arith, used_bytes-append bid ps p)

insert_package-used :
    (db : Db) (p : Package) (db' : Db) (bid : String)
    → insert_package db p ≡ ok db'
    → used_bytes bid db'.packages
      ≡ used_bytes bid db.packages + (if p.batch_id == bid then p.size else 0)
unfolding insert_package
insert_package-used db p db' bid h =
    let (_, same) = >>-eq-ok _ _ h in
    let e = ok-injective same in rw (← e) (used_bytes-append bid db.packages _)

-- The packages are as after the insert, whether or not the batch was sealed.
sealed-packages :
    (h : Hashing) (db : Db) (bid : String) (db' : Db)
    → seal_inputs h db bid ≡ ok db'
    → db'.packages ≡ db.packages
sealed-packages h db bid db' sealed = elim (seal_inputs-IsSealing h db bid db' sealed) [
  | inl same ↦ ap (λ (d : Db). d.packages) same
  | inr s ↦ s.packages
]

commit_body-IsWithinLimit :
    (h : Hashing) (db : Db) (c : FetchClaim) (p : Package) (now : ℕ) (db' : Db)
    → IsWithinLimit db
    → commit_body h db c p now ≡ ok db'
    → IsWithinLimit db'
unfolding commit_body IsWithinLimit
commit_body-IsWithinLimit h db c p now db' within committed bid =
    let (source, _, h1) = >>=-eq-ok (check_claim db c ("fetching" ∷ []) now) _ committed in
    let (bound, h2) = >>-eq-ok _ _ h1 in
    let (_, h3) = >>-eq-ok _ _ h2 in
    let (fits, h4) = >>-eq-ok _ _ h3 in
    let (db1, inserted, sealed) = >>=-eq-ok (insert_package db p) _ h4 in
    let (_, b1) =
      and-eq-true (p.task_id == source.task_id) _ (not-eq-false _ (raise_if-eq-ok _ _ bound)) in
    let own = ==→eq p.batch_id c.batch_id (and-eq-true (p.batch_id == c.batch_id) _ b1).0 in
    let kept = sealed-packages h (with_runs db1 c (seal_run p.outcome)) c.batch_id db' sealed in
    rw (kept, insert_package-used db p db1 bid inserted)
      (bounded own (below _ _ (not-eq-false _ (raise_if-eq-ok _ _ fits))))
  where
    below : (a b : ℕ) → leb a b ≡ true → a ≤ b
    below a b e = ground arith

    bounded :
        p.batch_id ≡ c.batch_id
        → used_bytes c.batch_id db.packages
            + p.size
            + remaining_sources db c.batch_id c.source_id * 4096
          ≤ max_batch_bytes
        → used_bytes bid db.packages + (if p.batch_id == bid then p.size else 0) ≤ max_batch_bytes
    bounded own fits = elim (Bool-cases (p.batch_id == bid)) [
      | inl here ↦
          let e : c.batch_id ≡ bid = sym own ∙ ==→eq p.batch_id bid here in
          let fits' : used_bytes bid db.packages
                + p.size
                + remaining_sources db c.batch_id c.source_id * 4096
              ≤ max_batch_bytes =
            subst
              (λ x.
                used_bytes x db.packages
                  + p.size
                  + remaining_sources db c.batch_id c.source_id * 4096
                ≤ max_batch_bytes)
              e fits in
          rw here (omega arith)
      | inr other ↦ rw other (omega (arith, within bid))
    ]

-- Whether or not a package is committed, no batch comes to have more bytes of packages than
-- `MAX_BATCH_BYTES`, when none had.
pub commit_staged-IsWithinLimit :
    (h : Hashing) (db : Db) (c : FetchClaim) (p : Package) (now : ℕ)
    → IsWithinLimit db
    → IsWithinLimit (commit_staged h db c p now).1
unfolding commit_staged
commit_staged-IsWithinLimit h db c p now within = after_transact IsWithinLimit db _ within committed
  where
    committed :
        (a : Unit {0}) (db' : Db)
        → ◌≡◌ {A = Result Error (Unit {0} × Db)}
            (commit_body h db c p now >>= (λ d. ok (tt {0}, d)))
            (ok (a, db'))
        → IsWithinLimit db'
    committed a db' g =
        let (d, done, same) = >>=-eq-ok (commit_body h db c p now) _ g in
        let e : d ≡ db' = ap (λ (x : Unit {0} × Db). x.1) (ok-injective same) in
        subst IsWithinLimit e (commit_body-IsWithinLimit h db c p now d within done)
