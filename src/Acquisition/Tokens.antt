-- ===== src/Acquisition/Tokens.antt =====
-- acquisition.py: the fencing token of a source.
use my_ops.Prelude.{
  ℕ, suc, ◌+◌, ◌≤◌, ◌≡◌, refl, sym, subst, ap, ◌∙◌, String, Bool, true, false, ◌&&◌, inl, inr,
  Option, none, some, List, arith, Result, ok, err, Bool-cases, Option-cases, ok-injective, first,
  update_where, updated, first-update_where, first-append, first-Mem, eq_iff, ◌==◌, string_eq,
  nat_eq, ==→eq,
}
use my_ops.Task.{Error}
use my_ops.Store.{Db, FetchRun, SourceInput, transact}
use my_ops.Acquisition.{
  FetchClaim, run_at, find_run, is_taken, next_token, reclaim, new_run, put_run, new_claim, take,
  with_runs,
}

abbrev pub token_of : Option FetchRun → ℕ
token_of none = 0
token_of (some r) = r.fencing_token

-- The fencing token of a source; 0 if it was never claimed.
unfoldable pub token : Db → String → String → ℕ
token db bid sid = token_of (find_run db bid sid)

-- A change of a row that keeps its key.
abbrev pub KeepsKey : (FetchRun → FetchRun) → Type 0
KeepsKey f = (r : FetchRun) → ((f r).batch_id ≡ r.batch_id) × ((f r).source_id ≡ r.source_id)

updated-run_at :
    (f : FetchRun → FetchRun) (q : FetchRun → Bool) (b s : String)
    → KeepsKey f
    → (r : FetchRun) → run_at b s (updated q f r) ≡ run_at b s r
updated-run_at f q b s keeps r = elim (Bool-cases (q r)) [
  | inl e ↦ let (b_same, s_same) = keeps r in rw (e, b_same, s_same)
  | inr e ↦ rw e
]

-- Looking a run up after a change of runs.
find_run-update :
    (runs : List FetchRun) (q : FetchRun → Bool) (f : FetchRun → FetchRun) (b s : String)
    → KeepsKey f
    → first (run_at b s) (update_where q f runs)
      ≡ elim (first (run_at b s) runs) [ none ↦ none | some r ↦ some (updated q f r) ]
find_run-update runs q f b s keeps =
    first-update_where (run_at b s) q f runs (updated-run_at f q b s keeps)

same_token :
    (o : Option FetchRun) (q : FetchRun → Bool) (f : FetchRun → FetchRun)
    → ((r : FetchRun) → (f r).fencing_token ≡ r.fencing_token)
    → token_of (elim o as (λ _. Option FetchRun) [ none ↦ none | some r ↦ some (updated q f r) ])
      ≡ token_of o
same_token none q f keeps = refl
same_token (some r) q f keeps = elim (Bool-cases (q r)) [ inl e ↦ rw (e, keeps r) | inr e ↦ rw e ]

-- A change that keeps keys and tokens keeps the token of every source.
pub with_runs-token :
    (db : Db) (c : FetchClaim) (f : FetchRun → FetchRun) (b s : String)
    → KeepsKey f
    → ((r : FetchRun) → (f r).fencing_token ≡ r.fencing_token)
    → token (with_runs db c f) b s ≡ token db b s
unfolding token
with_runs-token db c f b s keys keeps =
    rw (find_run-update db.fetch_runs (run_at c.batch_id c.source_id) f b s keys)
      (same_token (find_run db b s) (run_at c.batch_id c.source_id) f keeps)

pub and-eq-true : (a b : Bool) → (a && b) ≡ true → (a ≡ true) × (b ≡ true)
and-eq-true true b h = (refl, h)
and-eq-true false b h = cc

run_at-eq :
    (b s : String) (r : FetchRun) → run_at b s r ≡ true → (r.batch_id ≡ b) × (r.source_id ≡ s)
run_at-eq b s r h =
    let (p, q) = and-eq-true (r.batch_id == b) (r.source_id == s) h in
    (==→eq r.batch_id b p, ==→eq r.source_id s q)

run_at_self : (b s : String) → (b == b && s == s) ≡ true
run_at_self b s = ground (arith, eq_iff b b, eq_iff s s)

-- The claim of a worker on a source, by the run that the source has.
module _ (c : FetchClaim) (lease : ℕ) (runs : List FetchRun) where
  put_run-own :
      (o : Option FetchRun)
      → first (run_at c.batch_id c.source_id) runs ≡ o
      → token_of (first (run_at c.batch_id c.source_id) (put_run c lease o runs)) ≡ c.fencing_token
  unfolding put_run
  put_run-own none found = rw (
    first-append (run_at c.batch_id c.source_id) runs (new_run c lease),
    found,
    run_at_self c.batch_id c.source_id,
  )
  put_run-own (some r) found =
      let (_, own) = first-Mem (run_at c.batch_id c.source_id) runs r found in
      rw (
        find_run-update runs (run_at c.batch_id c.source_id) (reclaim c lease) c.batch_id
            c.source_id (λ r. (refl, refl)),
        found,
        own,
      )

  put_run-grows :
      (b s : String) (o : Option FetchRun)
      → first (run_at c.batch_id c.source_id) runs ≡ o
      → token_of o ≤ c.fencing_token
      → token_of (first (run_at b s) runs) ≤ token_of (first (run_at b s) (put_run c lease o runs))
  unfolding put_run
  put_run-grows b s none found up = elim (Option-cases (first (run_at b s) runs)) [
    | inl e ↦ rw e (omega arith)
    | inr (x, e) ↦ rw (first-append (run_at b s) runs (new_run c lease), e) (omega arith)
  ]
  put_run-grows b s (some r) found up =
      rw
        (find_run-update runs (run_at c.batch_id c.source_id) (reclaim c lease) b s
          (λ r. (refl, refl)))
        (elim (Option-cases (first (run_at b s) runs)) [
          | inl e ↦ rw e (omega arith)
          | inr (x, e) ↦ rw e (elim (Bool-cases (run_at c.batch_id c.source_id x)) [
            | inr other ↦ rw other (omega arith)
            | inl same ↦
                let (xb, xs) = run_at-eq c.batch_id c.source_id x same in
                let (yb, ys) = run_at-eq b s x (first-Mem (run_at b s) runs x e).1 in
                let bs : b ≡ c.batch_id = sym yb ∙ xb in
                let ss : s ≡ c.source_id = sym ys ∙ xs in
                let here : first (run_at c.batch_id c.source_id) runs ≡ some x =
                  rw (← bs, ← ss) e in
                let it : some r ≡ some x = sym found ∙ here in
                let eq : r.fencing_token ≡ x.fencing_token = cc in rw same (omega arith)
          ])
        ])

next_token-suc : (o : Option FetchRun) → next_token o ≡ suc (token_of o)
next_token-suc none = omega arith
next_token-suc (some r) = refl

-- After a transaction either it succeeded, or nothing changed.
pub after_transact :
    {A : Type 0} (P : Db → Type 0) (db : Db) (r : Result Error (A × Db))
    → P db
    → ((a : A) (db' : Db) → r ≡ ok (a, db') → P db')
    → P (transact db r).1
after_transact P db (ok (a, db')) h k = k a db' refl
after_transact P db (err e) h k = h

pub transact-answer :
    {A : Type 0} (db : Db) (r : Result Error (A × Db)) (a : A)
    → (transact db r).0 ≡ ok a
    → r ≡ ok (a, (transact db r).1)
transact-answer db (ok (b, db')) a h = rw (ok-injective h)
transact-answer db (err e) a h = cc

-- What a claim that is given does to the tokens.
pub record IsClaim (db : Db) (bid sid : String) (c : FetchClaim) (db' : Db) : Type 0 where
  pub at_batch : c.batch_id ≡ bid
  pub at_source : c.source_id ≡ sid
  pub next : c.fencing_token ≡ suc (token db bid sid)
  pub own : token db' bid sid ≡ c.fencing_token
  pub grows : (b s : String) → token db b s ≤ token db' b s

pub take-IsClaim :
    (db : Db) (bid sid worker : String) (lease now now' : ℕ) (i : SourceInput) (c : FetchClaim)
    (db' : Db)
    → take db bid sid worker lease now now' i (find_run db bid sid) ≡ (some c, db')
    → IsClaim db bid sid c db'
unfolding take token
take-IsClaim db bid sid worker lease now now' i c db' h =
    elim (Bool-cases (is_taken now (find_run db bid sid))) [
      | inl e ↦ cc (ap (λ (p : Option FetchClaim × Db). p.0) (rw (e, take) at h))
      | inr e ↦ given (rw (e, take) at h)
    ]
  where
    made : FetchClaim
    made = new_claim i bid sid worker (find_run db bid sid)

    after : Db
    after = record db {
      fetch_runs = put_run made (now' + lease) (find_run db bid sid) db.fetch_runs;
      batches =
          update_where (λ b. b.id == bid) (λ b. record b { acquisition_status = "acquiring" })
            db.batches;
    }

    up : token_of (find_run db bid sid) ≤ made.fencing_token
    up = omega (arith, next_token-suc (find_run db bid sid))

    given :
        ◌≡◌ {A = Option FetchClaim × Db} (some made, after) (some c, db') → IsClaim db bid sid c db'
    given g =
        let e1 : some made ≡ some c = ap (λ (p : Option FetchClaim × Db). p.0) g in
        let e : made ≡ c = cc in
        let e2 : after ≡ db' = ap (λ (p : Option FetchClaim × Db). p.1) g in
        subst (λ x. IsClaim db bid sid c x) e2
          (subst (λ x. IsClaim db bid sid x after) e
            (record {
              at_batch = refl;
              at_source = refl;
              next = next_token-suc (find_run db bid sid);
              own = put_run-own made (now' + lease) db.fetch_runs (find_run db bid sid) refl;
              grows = λ b s.
                  put_run-grows made (now' + lease) db.fetch_runs b s (find_run db bid sid) refl up;
            }))
