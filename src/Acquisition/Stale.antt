-- ===== src/Acquisition/Stale.antt =====
-- acquisition.py: claims that another has overtaken.
use my_ops.Prelude.{
  ℕ, ◌+◌, ◌≤◌, ◌<◌, ◌≡◌, refl, sym, ap, String, Bool, true, false, not, ◌&&◌, ◌⊎◌, inl, inr, Option,
  none, some, List, [], ◌∷◌, arith, Result, ok, err, ◌>>◌, Bool-cases, >>=-eq-ok, >>-eq-ok,
  ok-injective, ◌==◌, string_eq, nat_eq, ==→eq, leb, if◌then◌else◌,
}
use my_ops.Task.{Error, lease_lost}
use my_ops.Store.{Db, Batch, FetchRun, SourceInput, transact}
use my_ops.Acquisition.Tokens.{
  token, token_of, KeepsKey, and-eq-true, IsClaim, take-IsClaim, after_transact, transact-answer,
  with_runs-token,
}
use my_ops.Acquisition.{
  FetchClaim, find_run, joined, is_closed, is_taken, take, claim_body, claim, demand, valid_lease,
  run_holds, check_claim, allowed_from, move_run, with_runs, update_run, renew_run, is_target,
  transition_run, beat,
}
use my_ops.Acquisition.Seal.{Hashing}
use my_ops.Acquisition.Calls.{
  FetchCall, claim_call, transition_call, beat_call, commit_call, serve, serve_all,
}
use my_ops.Acquisition.Committed.{commit_staged-grows}

take-none :
    (db : Db) (bid sid worker : String) (lease now now' : ℕ) (i : SourceInput) (o : Option FetchRun)
    (db' : Db)
    → take db bid sid worker lease now now' i o ≡ (none, db')
    → db' ≡ db
unfolding take
take-none db bid sid worker lease now now' i o db' h = elim (Bool-cases (is_taken now o)) [
  | inl e ↦ sym (ap (λ (p : Option FetchClaim × Db). p.1) (rw (e, take) at h))
  | inr e ↦ cc (ap (λ (p : Option FetchClaim × Db). p.0) (rw (e, take) at h))
]

claim_body-take :
    (db : Db) (bid sid worker : String) (lease now now' : ℕ) (o : Option (SourceInput × Batch))
    (a : Option FetchClaim) (db' : Db)
    → claim_body db bid sid worker lease now now' o ≡ ok (a, db')
    → ((a ≡ none) × (db' ≡ db))
      ⊎ ((i : SourceInput) × (take db bid sid worker lease now now' i (find_run db bid sid)
            ≡ (a, db')))
unfolding claim_body
claim_body-take db bid sid worker lease now now' none a db' h = cc
claim_body-take db bid sid worker lease now now' (some (i, b)) a db' h =
    let (closed, _, h1) = >>=-eq-ok (is_closed db i b) _ h in closing closed h1
  where
    closing :
        (closed : Bool)
        → ◌≡◌ {A = Result Error (Option FetchClaim × Db)}
            (if closed
              then ok (none, db)
              else ok (take db bid sid worker lease now now' i (find_run db bid sid)))
            (ok (a, db'))
        → ((a ≡ none) × (db' ≡ db))
          ⊎ ((i : SourceInput) × (take db bid sid worker lease now now' i (find_run db bid sid)
                ≡ (a, db')))
    closing true g =
        let e = ok-injective g in
        inl (
          sym (ap (λ (p : Option FetchClaim × Db). p.0) e),
          sym (ap (λ (p : Option FetchClaim × Db). p.1) e),
        )
    closing false g = inr (i, ok-injective g)

-- What `claim` does, whatever it answers.
module _ (protected : Bool) (db : Db) (bid sid worker : String) (lease now now' : ℕ) where
  claim-body :
      (a : Option FetchClaim) (db' : Db)
      → (demand (not protected) "Protected acquisition adapter required"
          >> (demand (not (worker == "") && valid_lease lease) "Invalid acquisition lease"
              >> claim_body db bid sid worker lease now now' (joined db bid sid)))
        ≡ ok (a, db')
      → claim_body db bid sid worker lease now now' (joined db bid sid) ≡ ok (a, db')
  claim-body a db' h = (>>-eq-ok _ _ (>>-eq-ok _ _ h).1).1

  pub claim-IsClaim :
      (c : FetchClaim)
      → (claim protected db bid sid worker lease now now').0 ≡ ok (some c)
      → IsClaim db bid sid c (claim protected db bid sid worker lease now now').1
  unfolding claim
  claim-IsClaim c h =
      elim (claim_body-take db bid sid worker lease now now' (joined db bid sid) (some c) _
        (claim-body (some c) _ (transact-answer db _ (some c) h))) [
          | inl (e, _) ↦ cc
          | inr (i, e) ↦ take-IsClaim db bid sid worker lease now now' i c _ e
        ]

  claim-grows :
      (b s : String) → token db b s ≤ token (claim protected db bid sid worker lease now now').1 b s
  unfolding claim
  claim-grows b s = after_transact (λ x. token db b s ≤ token x b s) db _ (omega arith) grown
    where
      from_take :
          (a : Option FetchClaim) (db' : Db) (i : SourceInput)
          → take db bid sid worker lease now now' i (find_run db bid sid) ≡ (a, db')
          → token db b s ≤ token db' b s
      from_take none db' i e =
          rw (take-none db bid sid worker lease now now' i (find_run db bid sid) db' e)
            (omega arith)
      from_take (some c) db' i e =
          (take-IsClaim db bid sid worker lease now now' i c db' e).grows b s

      grown :
          (a : Option FetchClaim) (db' : Db)
          → (demand (not protected) "Protected acquisition adapter required"
              >> (demand (not (worker == "") && valid_lease lease) "Invalid acquisition lease"
                  >> claim_body db bid sid worker lease now now' (joined db bid sid)))
            ≡ ok (a, db')
          → token db b s ≤ token db' b s
      grown a db' h =
          elim (claim_body-take db bid sid worker lease now now' (joined db bid sid) a db'
            (claim-body a db' h)) [
              | inl (_, e) ↦ rw e (omega arith)
              | inr (i, e) ↦ from_take a db' i e
            ]

run_holds-token :
    (c : FetchClaim) (expected : List String) (now : ℕ) (o : Option FetchRun)
    → run_holds c expected now o ≡ true
    → token_of o ≡ c.fencing_token
unfolding run_holds
run_holds-token c expected now none h = cc
run_holds-token c expected now (some r) h =
    let (_, h1) = and-eq-true (r.revision == c.revision) _ h in
    let (_, h2) = and-eq-true (r.worker_id == c.worker_id) _ h1 in
    let (_, h3) = and-eq-true (r.attempt == c.attempt) _ h2 in
    ==→eq r.fencing_token c.fencing_token (and-eq-true (r.fencing_token == c.fencing_token) _ h3).0

-- A claim whose token is behind is refused.
check_claim-lost :
    (db : Db) (c : FetchClaim) (expected : List String) (now : ℕ)
    → c.fencing_token < token db c.batch_id c.source_id
    → check_claim db c expected now ≡ err (lease_lost "Acquisition lease lost")
unfolding check_claim token
check_claim-lost db c expected now behind =
    elim (Bool-cases (run_holds c expected now (find_run db c.batch_id c.source_id))) [
      | inl e ↦
          let same = run_holds-token c expected now (find_run db c.batch_id c.source_id) e in
          absurd (omega arith)
      | inr e ↦ rw e
    ]

-- An update of the run of a claim, behind the checks of its call.
update-grows :
    (db : Db) (c : FetchClaim) (f : FetchRun → FetchRun) (one two : Result Error (Unit {0}))
    (expected : List String) (now : ℕ) (b s : String)
    → KeepsKey f
    → ((r : FetchRun) → (f r).fencing_token ≡ r.fencing_token)
    → token db b s ≤ token (transact db (one >> (two >> update_run db c expected now f))).1 b s
unfolding update_run
update-grows db c f one two expected now b s keys keeps =
    after_transact (λ x. token db b s ≤ token x b s) db
      (one >> (two >> update_run db c expected now f)) (omega arith) grown
  where
    open_run :
        (a : Unit {0}) (db' : Db)
        → update_run db c expected now f ≡ ok (a, db')
        → with_runs db c f ≡ db'
    open_run a db' h =
        let (_, _, done) = >>=-eq-ok (check_claim db c expected now) _ h in
        ap (λ (p : Unit {0} × Db). p.1) (ok-injective done)

    grown :
        (a : Unit {0}) (db' : Db)
        → one >> (two >> update_run db c expected now f) ≡ ok (a, db')
        → token db b s ≤ token db' b s
    grown a db' h =
        let (_, h1) = >>-eq-ok one _ h in
        let (_, h2) = >>-eq-ok two _ h1 in
        let e = open_run a db' h2 in
        let t = with_runs-token db c f b s keys keeps in rw (← e) (omega arith)

serve-grows :
    (h : Hashing) (protected : Bool) (db : Db) (call : FetchCall) (b s : String)
    → token db b s ≤ token (serve h protected db call) b s
unfolding serve transition_run beat
serve-grows h protected db (claim_call bid sid worker lease now now') b s =
    claim-grows protected db bid sid worker lease now now' b s
serve-grows h protected db (transition_call c target delay now now') b s =
    update-grows db c (move_run target (now' + delay))
      (demand (not protected) "Protected acquisition adapter required")
      (demand (is_target target && leb delay 3600) "Invalid acquisition transition")
      (allowed_from target) now b s (λ r. (refl, refl)) (λ r. refl)
serve-grows h protected db (beat_call c lease now now') b s =
    update-grows db c (renew_run (now' + lease))
      (demand (not protected) "Protected acquisition adapter required")
      (demand (valid_lease lease) "Invalid lease") ("claimed" ∷ "fetching" ∷ []) now b s
      (λ r. (refl, refl)) (λ r. refl)
serve-grows h true db (commit_call c p now) b s = omega arith
serve-grows h false db (commit_call c p now) b s = commit_staged-grows h db c p now b s

serve_all-grows :
    (h : Hashing) (protected : Bool) (db : Db) (calls : List FetchCall) (b s : String)
    → token db b s ≤ token (serve_all h protected db calls) b s
unfolding serve_all
serve_all-grows h protected db [] b s = omega arith
serve_all-grows h protected db (call ∷ calls) b s = omega (
  arith,
  serve-grows h protected db call b s,
  serve_all-grows h protected (serve h protected db call) calls b s,
)

-- Once a source has been claimed again, an earlier claim on it is refused with a lost lease, whatever
-- calls come between the two claims and after them: claims, transitions, heartbeats and commits.
pub stale_claim-IsLost :
    (h : Hashing) (protected : Bool) (db : Db) (bid sid : String) (worker : String)
    (lease now now' : ℕ) (c : FetchClaim)
    → (claim protected db bid sid worker lease now now').0 ≡ ok (some c)
    → (between : List FetchCall) (worker' : String) (lease' later later' : ℕ) (c' : FetchClaim)
    → let db1 = (claim protected db bid sid worker lease now now').1 in
      let db2 = serve_all h protected db1 between in
      (claim protected db2 bid sid worker' lease' later later').0 ≡ ok (some c')
      → (after : List FetchCall) (expected : List String) (time : ℕ)
      → check_claim
          (serve_all h protected (claim protected db2 bid sid worker' lease' later later').1 after)
          c
          expected
          time
        ≡ err (lease_lost "Acquisition lease lost")
stale_claim-IsLost h protected db bid sid worker lease now now' c given between worker' lease' later
      later' c' again after expected time =
    let db1 = (claim protected db bid sid worker lease now now').1 in
    let db2 = serve_all h protected db1 between in
    let db3 = (claim protected db2 bid sid worker' lease' later later').1 in
    let p = claim-IsClaim protected db bid sid worker lease now now' c given in
    let q = claim-IsClaim protected db2 bid sid worker' lease' later later' c' again in
    let g = serve_all-grows h protected db1 between bid sid in
    let g' = serve_all-grows h protected db3 after bid sid in
    let behind : c.fencing_token < token (serve_all h protected db3 after) bid sid =
      omega (arith, p.own, q.own, q.next) in
    check_claim-lost (serve_all h protected db3 after) c expected time
      (rw (p.at_batch, p.at_source) behind)
