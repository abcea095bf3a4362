-- ===== src/Processor/Tokens.antt =====
-- processor.py: the fencing token of a batch, and what a claim does to it.
use my_ops.Prelude.{
  ℕ, suc, ◌+◌, ◌≤◌, ◌≡◌, refl, sym, ap, ◌∙◌, String, Bool, true, false, not, ◌||◌, ◌⊎◌, inl, inr,
  Option, none, some, List, [], ◌∷◌, arith, Result, ok, ◌>>=◌, ◌>>◌, Bool-cases, Option-cases,
  >>=-eq-ok, >>-eq-ok, ok-injective, first, first-Mem, first-append, first-update_where,
  update_where, updated, get_by, length, leb, ◌==◌, ==_refl, nat_eq, string_eq, option_eq, list_eq,
  ==→eq, if◌then◌else◌,
}
use my_ops.Task.{Error}
use my_ops.Store.{Db, Batch, ProcessingRun, ManifestEntry}
use my_ops.Acquisition.{batch_id, demand}
use my_ops.Acquisition.Seal.{Hashing, seal_inputs, seal_batch, entries_of, write_manifest, is_text}
use my_ops.Processor.{
  ProcessClaim, find_process, next_token, new_claim, claimed_run, put_process, is_leased,
  take_batch, is_sealed, claim_sealed,
}

abbrev pub token_of : Option ProcessingRun → ℕ
token_of none = 0
token_of (some r) = r.fencing_token

-- The fencing token of a batch; 0 if it was never claimed.
unfoldable pub token : Db → String → ℕ
token db bid = token_of (find_process db bid)

-- A change of a run that keeps its batch.
abbrev pub KeepsBatch : (ProcessingRun → ProcessingRun) → Type 0
KeepsBatch f = (r : ProcessingRun) → (f r).batch_id ≡ r.batch_id

find-update :
    (runs : List ProcessingRun) (q : ProcessingRun → Bool) (f : ProcessingRun → ProcessingRun)
    (b : String)
    → KeepsBatch f
    → first (λ r. r.batch_id == b) (update_where q f runs)
      ≡ elim (first (λ (r : ProcessingRun). r.batch_id == b) runs) [
        | none ↦ none
        | some r ↦ some (updated q f r)
      ]
find-update runs q f b keeps =
    first-update_where (λ (r : ProcessingRun). r.batch_id == b) q f runs
      (λ r. ap (λ x. x == b) (same r))
  where
    same : (r : ProcessingRun) → (updated q f r).batch_id ≡ r.batch_id
    same r = elim (Bool-cases (q r)) [ inl e ↦ rw e (keeps r) | inr e ↦ rw e refl ]

-- A change that keeps batches and tokens keeps the token of every batch.
pub with_process-token :
    (db : Db) (bid : String) (f : ProcessingRun → ProcessingRun) (b : String)
    → KeepsBatch f
    → ((r : ProcessingRun) → (f r).fencing_token ≡ r.fencing_token)
    → token_of (
        first
          (λ (r : ProcessingRun). r.batch_id == b)
          (update_where (λ r. r.batch_id == bid) f db.processing_runs))
      ≡ token db b
unfolding token
with_process-token db bid f b keeps same =
    rw (find-update db.processing_runs (λ r. r.batch_id == bid) f b keeps)
      (kept (find_process db b))
  where
    kept :
        (o : Option ProcessingRun)
        → token_of (elim o as (λ _. Option ProcessingRun) [
          | none ↦ none
          | some r ↦ some (updated (λ r. r.batch_id == bid) f r)
        ])
          ≡ token_of o
    kept none = refl
    kept (some r) = elim (Bool-cases (r.batch_id == bid)) [ inl e ↦ rw (e, same r) | inr e ↦ rw e ]

-- Sealing leaves the runs alone.
pub seal_inputs-runs :
    (h : Hashing) (db : Db) (bid : String) (db' : Db)
    → seal_inputs h db bid ≡ ok db'
    → db'.processing_runs ≡ db.processing_runs
unfolding seal_inputs seal_batch write_manifest
seal_inputs-runs h db bid db' e = at_batch (get_by batch_id bid db.batches) e
  where
    manifest :
        (b : Batch) (o : Option (List ManifestEntry))
        → write_manifest h db b o ≡ ok db'
        → db'.processing_runs ≡ db.processing_runs
    manifest b none g = sym (ap (λ (d : Db). d.processing_runs) (ok-injective g))
    manifest b (some es) g =
        let (_, same) = >>-eq-ok _ _ g in
        sym (ap (λ (d : Db). d.processing_runs) (ok-injective same))

    opened :
        (b : Batch) (closed : Bool)
        → ◌≡◌ {A = Result Error Db}
            (if closed then ok db else (do
              demand (leb (length b.source_ids) 50) "Batch source limit"
              entries ← entries_of db b.id b.source_ids
              write_manifest h db b entries))
            (ok db')
        → db'.processing_runs ≡ db.processing_runs
    opened b true g = sym (ap (λ (d : Db). d.processing_runs) (ok-injective g))
    opened b false g =
        let (_, g1) =
          >>-eq-ok (demand (leb (length b.source_ids) 50) "Batch source limit")
            (entries_of db b.id b.source_ids >>= write_manifest h db b) g in
        let (o, _, g2) = >>=-eq-ok (entries_of db b.id b.source_ids) (write_manifest h db b) g1 in
        manifest b o g2

    at_batch :
        (o : Option Batch) → seal_batch h db o ≡ ok db' → db'.processing_runs ≡ db.processing_runs
    at_batch none g = sym (ap (λ (d : Db). d.processing_runs) (ok-injective g))
    at_batch (some b) g =
        opened b (not (b.status == "finalized") || is_text b.input_manifest_digest) g

next_token-suc : (o : Option ProcessingRun) → next_token o ≡ suc (token_of o)
next_token-suc none = omega arith
next_token-suc (some r) = refl

put_process-own :
    (c : ProcessClaim) (lease : ℕ) (runs : List ProcessingRun) (o : Option ProcessingRun)
    → first (λ (r : ProcessingRun). r.batch_id == c.batch_id) runs ≡ o
    → token_of
        (first (λ (r : ProcessingRun). r.batch_id == c.batch_id) (put_process c lease o runs))
      ≡ c.fencing_token
unfolding put_process
put_process-own c lease runs none found = rw (
  first-append (λ (r : ProcessingRun). r.batch_id == c.batch_id) runs (claimed_run c lease),
  found,
  ==_refl c.batch_id,
)
put_process-own c lease runs (some r) found =
    let (_, own) = first-Mem (λ (r : ProcessingRun). r.batch_id == c.batch_id) runs r found in
    rw (
      first-update_where (λ (r : ProcessingRun). r.batch_id == c.batch_id)
          (λ r. r.batch_id == c.batch_id) (λ r. claimed_run c lease) runs keeps,
      found,
      own,
    )
  where
    keeps :
        (r : ProcessingRun)
        → ((updated
              (λ (x : ProcessingRun). x.batch_id == c.batch_id)
              (λ x. claimed_run c lease)
              r).batch_id
            == c.batch_id)
          ≡ (r.batch_id == c.batch_id)
    keeps r = elim (Bool-cases (r.batch_id == c.batch_id)) [
      | inl e ↦ rw e (==_refl c.batch_id)
      | inr e ↦ rw e e
    ]

-- A claim leaves the other batches alone.
update-other :
    (c : ProcessClaim) (lease : ℕ) (runs : List ProcessingRun) (b : String)
    → (c.batch_id == b) ≡ false
    → first
        (λ (r : ProcessingRun). r.batch_id == b)
        (update_where (λ r. r.batch_id == c.batch_id) (λ r. claimed_run c lease) runs)
      ≡ first (λ (r : ProcessingRun). r.batch_id == b) runs
update-other c lease [] b other = refl
update-other c lease (x ∷ runs) b other = elim (Bool-cases (x.batch_id == c.batch_id)) [
  | inl e ↦
      let same : x.batch_id ≡ c.batch_id = ==→eq x.batch_id c.batch_id e in
      let not_b : (x.batch_id == b) ≡ false = ap (λ y. y == b) same ∙ other in
      rw (e, other, not_b) (update-other c lease runs b other)
  | inr e ↦ rw (e, update-other c lease runs b other) refl
]

put_process-other :
    (c : ProcessClaim) (lease : ℕ) (runs : List ProcessingRun) (o : Option ProcessingRun)
    (b : String)
    → (c.batch_id == b) ≡ false
    → first (λ (r : ProcessingRun). r.batch_id == b) (put_process c lease o runs)
      ≡ first (λ (r : ProcessingRun). r.batch_id == b) runs
unfolding put_process
put_process-other c lease runs none b other =
    let appended =
      first-append (λ (r : ProcessingRun). r.batch_id == b) runs (claimed_run c lease) in
    elim (Option-cases (first (λ (r : ProcessingRun). r.batch_id == b) runs)) [
      | inl missing ↦ rw (appended, missing, other) refl
      | inr (r, found) ↦ rw (appended, found) refl
    ]
put_process-other c lease runs (some r) b other = update-other c lease runs b other

put_process-grows :
    (c : ProcessClaim) (lease : ℕ) (runs : List ProcessingRun) (o : Option ProcessingRun)
    (b : String)
    → first (λ (r : ProcessingRun). r.batch_id == c.batch_id) runs ≡ o
    → token_of o ≤ c.fencing_token
    → token_of (first (λ (r : ProcessingRun). r.batch_id == b) runs)
      ≤ token_of (first (λ (r : ProcessingRun). r.batch_id == b) (put_process c lease o runs))
put_process-grows c lease runs o b found up = elim (Bool-cases (c.batch_id == b)) [
  | inl e ↦
      let same : c.batch_id ≡ b = ==→eq c.batch_id b e in
      rw (← same, found, put_process-own c lease runs o found) up
  | inr e ↦ rw (put_process-other c lease runs o b e) (omega arith)
]

-- What a claim that is given does to the tokens.
pub record IsClaim (db : Db) (bid : String) (c : ProcessClaim) (db' : Db) : Type 0 where
  pub at_batch : c.batch_id ≡ bid
  pub next : c.fencing_token ≡ suc (token db bid)
  pub own : token db' bid ≡ c.fencing_token
  pub grows : (b : String) → token db b ≤ token db' b

abbrev pub Taken : Db → String → Option ProcessClaim → Db → Type 0
Taken db bid o db' =
    ((o ≡ none) × (db'.processing_runs ≡ db.processing_runs))
    ⊎ ((c : ProcessClaim) × (o ≡ some c) × IsClaim db bid c db')

pub take_batch-Taken :
    (db : Db) (bid worker : String) (lease now : ℕ)
    → let r = take_batch db bid worker lease now (find_process db bid) in Taken db bid r.0 r.1
unfolding take_batch token
take_batch-Taken db bid worker lease now = elim (Bool-cases (is_leased now (find_process db bid))) [
  | inl e ↦ rw e (inl (refl, refl))
  | inr e ↦ rw e (
      inr (
        new_claim bid worker (find_process db bid),
        refl,
        record {
          at_batch = refl;
          next = next_token-suc (find_process db bid);
          own =
              put_process-own (new_claim bid worker (find_process db bid)) (now + lease)
                db.processing_runs (find_process db bid) refl;
          grows = λ b.
              put_process-grows (new_claim bid worker (find_process db bid)) (now + lease)
                db.processing_runs (find_process db bid) b refl
                (omega (arith, next_token-suc (find_process db bid)));
        },
      ))
]

pub claim_sealed-Taken :
    (db : Db) (bid worker : String) (lease now : ℕ)
    → let r = claim_sealed db bid worker lease now in Taken db bid r.0 r.1
unfolding claim_sealed
claim_sealed-Taken db bid worker lease now =
    elim (Bool-cases (is_sealed (get_by batch_id bid db.batches))) [
      | inl e ↦ rw e (take_batch-Taken db bid worker lease now)
      | inr e ↦ rw e (inl (refl, refl))
    ]
