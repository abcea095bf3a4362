-- ===== src/Acquisition/Committed.antt =====
-- acquisition.py: what a commit does to the fencing tokens.
use my_ops.Prelude.{
  ℕ, ◌+◌, ◌*◌, list_eq, ◌≤◌, ◌≡◌, refl, sym, ap, String, Bool, true, false, not, Option, none, some,
  List, [], ◌∷◌, ◌>>=◌, ◌∙◌, ◌||◌, length, get_by, first, arith, Result, ok, ◌>>◌, >>=-eq-ok,
  >>-eq-ok, ok-injective, ◌==◌, string_eq, nat_eq, leb, if◌then◌else◌,
}
use my_ops.Task.{Error}
use my_ops.Store.{Db, ManifestEntry, Batch}
use my_ops.Acquisition.Tokens.{token, token_of, after_transact, with_runs-token}
use my_ops.Acquisition.{FetchClaim, run_at, batch_id, demand, check_claim, with_runs}
use my_ops.Acquisition.Seal.{
  Hashing, Package, seal_inputs, seal_batch, entries_of, write_manifest, is_text, insert_package,
  seal_run, commit_body, commit_staged, same_binding, reference_id, used_bytes, remaining_sources,
  max_batch_bytes,
}

-- Sealing leaves the runs alone.
seal_inputs-fetch_runs :
    (h : Hashing) (db : Db) (bid : String) (db' : Db)
    → seal_inputs h db bid ≡ ok db'
    → db'.fetch_runs ≡ db.fetch_runs
unfolding seal_inputs seal_batch write_manifest
seal_inputs-fetch_runs h db bid db' e = at_batch (get_by batch_id bid db.batches) e
  where
    manifest :
        (b : Batch) (o : Option (List ManifestEntry))
        → write_manifest h db b o ≡ ok db'
        → db'.fetch_runs ≡ db.fetch_runs
    manifest b none g = sym (ap (λ (d : Db). d.fetch_runs) (ok-injective g))
    manifest b (some es) g =
        let (_, same) = >>-eq-ok _ _ g in sym (ap (λ (d : Db). d.fetch_runs) (ok-injective same))

    opened :
        (b : Batch) (closed : Bool)
        → ◌≡◌ {A = Result Error Db}
            (if closed then ok db else (do
              demand (leb (length b.source_ids) 50) "Batch source limit"
              entries ← entries_of db b.id b.source_ids
              write_manifest h db b entries))
            (ok db')
        → db'.fetch_runs ≡ db.fetch_runs
    opened b true g = sym (ap (λ (d : Db). d.fetch_runs) (ok-injective g))
    opened b false g =
        let (_, g1) =
          >>-eq-ok (demand (leb (length b.source_ids) 50) "Batch source limit")
            (entries_of db b.id b.source_ids >>= write_manifest h db b) g in
        let (o, _, g2) = >>=-eq-ok (entries_of db b.id b.source_ids) (write_manifest h db b) g1 in
        manifest b o g2

    at_batch : (o : Option Batch) → seal_batch h db o ≡ ok db' → db'.fetch_runs ≡ db.fetch_runs
    at_batch none g = sym (ap (λ (d : Db). d.fetch_runs) (ok-injective g))
    at_batch (some b) g =
        opened b (not (b.status == "finalized") || is_text b.input_manifest_digest) g

insert_package-fetch_runs :
    (db : Db) (p : Package) (db' : Db)
    → insert_package db p ≡ ok db'
    → db'.fetch_runs ≡ db.fetch_runs
unfolding insert_package
insert_package-fetch_runs db p db' e =
    let (_, same) = >>-eq-ok _ _ e in sym (ap (λ (d : Db). d.fetch_runs) (ok-injective same))

same_runs-token :
    (db db' : Db) (b s : String) → db'.fetch_runs ≡ db.fetch_runs → token db' b s ≡ token db b s
unfolding token
same_runs-token db db' b s same = ap (λ runs. token_of (first (run_at b s) runs)) same

-- A commit keeps the token of every source.
commit_body-token :
    (h : Hashing) (db : Db) (c : FetchClaim) (p : Package) (now : ℕ) (db' : Db) (b s : String)
    → commit_body h db c p now ≡ ok db'
    → token db' b s ≡ token db b s
unfolding commit_body
commit_body-token h db c p now db' b s committed =
    let (source, _, h1) = >>=-eq-ok (check_claim db c ("fetching" ∷ []) now) _ committed in
    let (_, h2) = >>-eq-ok (demand (same_binding p c source) "Package binding mismatch") _ h1 in
    let (_, h3) =
      >>-eq-ok
        (demand (reference_id h p.root_id == reference_id h source.locator)
          "Root reference mismatch")
        _ h2 in
    let (_, h4) =
      >>-eq-ok
        (demand
          (leb
            (used_bytes c.batch_id db.packages
              + p.size
              + remaining_sources db c.batch_id c.source_id * 4096)
            max_batch_bytes)
          "Batch package limit")
        _ h3 in
    let (db1, inserted, sealed) =
      >>=-eq-ok (insert_package db p)
        (λ d. seal_inputs h (with_runs d c (seal_run p.outcome)) c.batch_id) h4 in
    let db2 = with_runs db1 c (seal_run p.outcome) in
    same_runs-token db2 db' b s (seal_inputs-fetch_runs h db2 c.batch_id db' sealed)
    ∙ with_runs-token db1 c (seal_run p.outcome) b s (λ r. (refl, refl)) (λ r. refl)
    ∙ same_runs-token db db1 b s (insert_package-fetch_runs db p db1 inserted)

pub commit_staged-grows :
    (h : Hashing) (db : Db) (c : FetchClaim) (p : Package) (now : ℕ) (b s : String)
    → token db b s ≤ token (commit_staged h db c p now).1 b s
unfolding commit_staged
commit_staged-grows h db c p now b s =
    after_transact (λ x. token db b s ≤ token x b s) db _ (omega arith) grown
  where
    grown :
        (a : Unit {0}) (db' : Db)
        → ◌≡◌ {A = Result Error (Unit {0} × Db)}
            (commit_body h db c p now >>= (λ d. ok (tt {0}, d)))
            (ok (a, db'))
        → token db b s ≤ token db' b s
    grown a db' g =
        let (d, done, same) = >>=-eq-ok (commit_body h db c p now) _ g in
        let e : d ≡ db' = ap (λ (x : Unit {0} × Db). x.1) (ok-injective same) in
        rw (← e) (omega (arith, commit_body-token h db c p now d b s done))
