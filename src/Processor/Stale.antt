-- ===== src/Processor/Stale.antt =====
-- processor.py: claims that another has overtaken.
use my_ops.Prelude.{
  ℕ, ◌<◌, ◌≡◌, refl, String, Bool, true, Option, none, some, List, [], ◌∷◌, arith, ok, err,
  Bool-cases, inl, inr, ◌==◌, nat_eq, string_eq, ==→eq,
}
use my_ops.Task.{lease_lost}
use my_ops.Store.{Db, ProcessingRun}
use my_ops.Acquisition.Tokens.{and-eq-true}
use my_ops.Content.{Envelope}
use my_ops.Processor.{ProcessClaim, find_process, process_holds, check_process, claim_processing}
use my_ops.Processor.Publish.{publish, publish_body}
use my_ops.Processor.Calls.{
  ProcessCall, claim_call, beat_call, parse_call, publish_call, Setting, process_call,
  process_calls,
}
use my_ops.Processor.Tokens.{token, token_of}
use my_ops.Processor.Growth.{
  Grows, Grows-trans, same_runs, claim_processing-IsClaim, claim_processing-Grows, beat-Grows,
  parse-Grows, publish-Grows,
}

process_call-Grows :
    (s : Setting) (db : Db) (call : ProcessCall) → Grows db (process_call s db call)
unfolding process_call
process_call-Grows s db (claim_call bid worker lease now) =
    claim_processing-Grows s.hashing s.files db bid worker lease now
process_call-Grows s db (beat_call c lease now now') = beat-Grows db c lease now now'
process_call-Grows s db (parse_call c now now') =
    parse-Grows s.files s.parsers s.notion s.encoder db c now now'
process_call-Grows s db (publish_call c results now) =
    publish-Grows s.encoder s.manifest_text db c results now

process_calls-Grows :
    (s : Setting) (db : Db) (calls : List ProcessCall) → Grows db (process_calls s db calls)
unfolding process_calls
process_calls-Grows s db [] = same_runs db db refl
process_calls-Grows s db (call ∷ calls) =
    Grows-trans db (process_call s db call) (process_calls s (process_call s db call) calls)
      (process_call-Grows s db call) (process_calls-Grows s (process_call s db call) calls)

-- A claim whose token is behind holds nothing.
check_process-lost :
    (db : Db) (c : ProcessClaim) (terminal : Bool) (now : ℕ)
    → c.fencing_token < token db c.batch_id
    → check_process db c terminal now ≡ err (lease_lost "Fencing token or worker mismatch")
unfolding check_process token
check_process-lost db c terminal now behind =
    elim (Bool-cases (process_holds c (find_process db c.batch_id))) [
      | inl e ↦ let same = holds (find_process db c.batch_id) e in absurd (omega arith)
      | inr e ↦ rw e refl
    ]
  where
    holds : (o : Option ProcessingRun) → process_holds c o ≡ true → token_of o ≡ c.fencing_token
    holds none h = cc
    holds (some r) h =
        let (_, h1) = and-eq-true (r.worker_id == c.worker_id) _ h in
        ==→eq r.fencing_token c.fencing_token
          (and-eq-true (r.fencing_token == c.fencing_token) _ h1).0

-- Once a batch has been claimed again, an earlier claim on it publishes nothing: whatever calls come
-- between the two claims and after them, and whatever the results, it is told that its lease is lost,
-- and nothing changes.
pub stale_publish-IsLost :
    (s : Setting) (db : Db) (bid worker : String) (lease now : ℕ) (c : ProcessClaim)
    → (claim_processing s.hashing s.files db bid worker lease now).0 ≡ ok (some c)
    → (between : List ProcessCall) (worker' : String) (lease' later : ℕ) (c' : ProcessClaim)
    → let db1 = (claim_processing s.hashing s.files db bid worker lease now).1 in
      let db2 = process_calls s db1 between in
      (claim_processing s.hashing s.files db2 bid worker' lease' later).0 ≡ ok (some c')
      → (after : List ProcessCall) (results : List Envelope) (time : ℕ)
      → let db4 =
          process_calls s
            (claim_processing s.hashing s.files db2 bid worker' lease' later).1
            after in
        publish s.encoder s.manifest_text db4 c results time
        ≡ (err (lease_lost "Fencing token or worker mismatch"), db4)
unfolding publish publish_body Grows
stale_publish-IsLost s db bid worker lease now c given between worker' lease' later c' again after
      results time =
    let db1 = (claim_processing s.hashing s.files db bid worker lease now).1 in
    let db2 = process_calls s db1 between in
    let db3 = (claim_processing s.hashing s.files db2 bid worker' lease' later).1 in
    let db4 = process_calls s db3 after in
    let p = claim_processing-IsClaim s.hashing s.files db bid worker lease now c given in
    let q = claim_processing-IsClaim s.hashing s.files db2 bid worker' lease' later c' again in
    let g = process_calls-Grows s db1 between bid in
    let g' = process_calls-Grows s db3 after bid in
    let behind : c.fencing_token < token db4 bid = omega (arith, p.own, q.own, q.next) in
    let lost = check_process-lost db4 c true time (rw p.at_batch behind) in rw lost refl
