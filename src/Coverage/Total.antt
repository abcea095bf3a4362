-- ===== src/Coverage/Total.antt =====
-- coverage.py: after `validate` no dictionary lookup of `check_coverage` fails.
use my_ops.Prelude.{
  ◌≡◌, refl, String, Bool, true, false, not, List, [], ◌∷◌, map, Memᴰ, Result, ok, err, ◌>>=◌, All,
  All-map, All-Mem, All-select, get_by-Mem, get_by-some, string_eq, if◌then◌else◌, is_empty,
}
use my_ops.Task.{Error, CriticalPath, Task, readable}
use my_ops.Review.{Unicode, fetch, requirement_id, rule_id, source_id, validate}
use my_ops.Review.Trace.{AllIn, IsTraceable, validate-IsTraceable}
use my_ops.Coverage.{
  Coverage, all_hold, source_readable, requirement_readable, rule_readable, provenance_ok,
  absent_checks, split_paths, business_paths, rules_requirements, business_requirements,
  check_coverage,
}

-- The call returns.
abbrev pub Returns {ℓ} : {A : Type ℓ} → Result Error A → Type ℓ
Returns {A = A} r = (a : A) × (r ≡ ok a)

pub fetch-Mem {ℓ} :
    {A : Type ℓ} (id : A → String) (k : String) (xs : List A)
    → Memᴰ k (map id xs)
    → (x : A) × (fetch id k xs ≡ ok x) × Memᴰ x xs
unfolding fetch
fetch-Mem id k xs m =
    let (x, found) = get_by-some id k xs m in (x, rw (found, fetch), (get_by-Mem id k xs x found).0)

bind-Returns {ℓ κ} :
    {A : Type ℓ} {B : Type κ} (m : Result Error A) (f : A → Result Error B)
    → Returns m
    → ((a : A) → m ≡ ok a → Returns (f a))
    → Returns (m >>= f)
bind-Returns (ok a) f r h = h a refl
bind-Returns (err e) f r h = cc (r.1)

if-Returns {ℓ} :
    {A : Type ℓ} (b : Bool) (m n : Result Error A)
    → Returns m
    → Returns n
    → Returns (if b then m else n)
if-Returns true m n hm hn = hm
if-Returns false m n hm hn = hn

all_hold-Returns {ℓ} :
    {A : Type ℓ} (test : A → Result Error Bool) (xs : List A)
    → All (λ x. Returns (test x)) xs
    → Returns (all_hold test xs)
unfolding all_hold
all_hold-Returns test [] h = (true, refl)
all_hold-Returns test (x ∷ xs) h =
    bind-Returns (test x) _ h.0 (λ b _.
      if-Returns b (all_hold test xs) (ok false) (all_hold-Returns test xs h.1) (false, refl))

module _ (task : Task) (t : IsTraceable task) where
  source_readable-Returns :
      (s : String) → Memᴰ s (map source_id task.sources) → Returns (source_readable task s)
  unfolding source_readable
  source_readable-Returns s m =
      let (source, found, _) = fetch-Mem source_id s task.sources m in (readable source, rw found)

  requirement_readable-Returns :
      (r : String)
      → Memᴰ r (map requirement_id task.requirements)
      → Returns (requirement_readable task r)
  unfolding requirement_readable
  requirement_readable-Returns r m =
      let (req, found, among) = fetch-Mem requirement_id r task.requirements m in
      rw found (
        all_hold-Returns (source_readable task) req.source_ids (
          All-map source_readable-Returns req.source_ids (
            All-Mem (λ r. AllIn r.source_ids (map source_id task.sources)) task.requirements
              t.requirements among)))

  rule_readable-Returns :
      (rid : String) → Memᴰ rid (map rule_id task.rules) → Returns (rule_readable task rid)
  unfolding rule_readable
  rule_readable-Returns rid m =
      let (rule, found, among) = fetch-Mem rule_id rid task.rules m in
      rw found (
        all_hold-Returns (requirement_readable task) rule.requirement_ids (
          All-map requirement_readable-Returns rule.requirement_ids (
            All-Mem (λ r. AllIn r.requirement_ids (map requirement_id task.requirements)) task.rules
              t.rules among)))

  absent_checks-Returns :
      (p : CriticalPath)
      → AllIn p.rule_ids (map rule_id task.rules)
      → Returns (absent_checks task p)
  unfolding absent_checks provenance_ok
  absent_checks-Returns p refs =
      bind-Returns (provenance_ok task p) _
        (all_hold-Returns (rule_readable task) p.rule_ids
          (All-map rule_readable-Returns p.rule_ids refs))
        (λ known _. (_, refl))

  abbrev KnownRules : CriticalPath → Type 0
  KnownRules p = AllIn p.rule_ids (map rule_id task.rules)

  split_paths-Returns : (ps : List CriticalPath) → All KnownRules ps → Returns (split_paths task ps)
  unfolding split_paths
  split_paths-Returns [] h = (_, refl)
  split_paths-Returns (p ∷ ps) h =
      bind-Returns (absent_checks task p) _ (absent_checks-Returns p h.0) (λ absent _.
        bind-Returns (split_paths task ps) _ (split_paths-Returns ps h.1)
          (λ rest _. if-Returns (is_empty absent) _ _ (_, refl) (_, refl)))

  rules_requirements-Returns :
      (rids : List String)
      → AllIn rids (map rule_id task.rules)
      → Returns (rules_requirements task rids)
  unfolding rules_requirements
  rules_requirements-Returns [] h = (_, refl)
  rules_requirements-Returns (rid ∷ rids) h =
      let (rule, found, _) = fetch-Mem rule_id rid task.rules h.0 in
      rw found (
        bind-Returns (rules_requirements task rids) _ (rules_requirements-Returns rids h.1)
          (λ rest _. (_, refl)))

  business_requirements-Returns :
      (ps : List CriticalPath) → All KnownRules ps → Returns (business_requirements task ps)
  unfolding business_requirements
  business_requirements-Returns [] h = (_, refl)
  business_requirements-Returns (p ∷ ps) h =
      bind-Returns (rules_requirements task p.rule_ids) _
        (rules_requirements-Returns p.rule_ids h.0)
        (λ first _.
          bind-Returns (business_requirements task ps) _ (business_requirements-Returns ps h.1)
            (λ rest _. (_, refl)))

-- For a task that `validate` accepts, `check_coverage` returns a report: no lookup of a rule, of a
-- requirement or of a source fails.
pub check_coverage-Returns :
    (u : Unicode) (task : Task) (draft : Bool)
    → validate u task ≡ ok tt
    → (c : Coverage) × (check_coverage u task draft ≡ ok c)
unfolding check_coverage business_paths
check_coverage-Returns u task draft h =
    let t = validate-IsTraceable u task h in
    let known = All-select (KnownRules task t) (λ p. not p.ai) task.paths t.paths in
    rw h (
      bind-Returns (split_paths task (business_paths task)) _ (split_paths-Returns task t _ known)
        (λ split _.
          bind-Returns (business_requirements task (business_paths task)) _
            (business_requirements-Returns task t _ known) (λ reqs _. (_, refl))))
