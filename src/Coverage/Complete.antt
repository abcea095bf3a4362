-- ===== src/Coverage/Complete.antt =====
-- coverage.py: what a report that claims complete coverage stands on.
use my_ops.Prelude.{
  ◌≡◌, refl, sym, subst, ap, String, Bool, true, false, not, inl, inr, List, [], ◌∷◌, ◌++◌, map,
  Memᴰ, arith, ok, All, All-map, Mem-append, Mem-cons, ◌∙◌, ◌≢◌, contains, contains-Mem, select,
  select-eq-nil, map-eq-nil, append-eq-nil, is_empty, is_empty-eq-nil, >>=-eq-ok, >>-eq-ok,
  ok-injective, ==→eq, nat_eq, string_eq, option_eq, ◌==◌, Bool-cases, if◌then◌else◌,
}
use my_ops.Task.{Source, CriticalPath, Evidence, TestCase, Task, readable}
use my_ops.Review.{Unicode, source_id, rule_id, unresolved_p0}
use my_ops.Review.Trace.{IsAnswered, not-eq-false}
use my_ops.Review.Answers.{p0-IsAnswered}
use my_ops.Coverage.{
  Coverage, source_incomplete, open_p0, no_sources, draft_gap, source_gaps, evidence_checks,
  case_checks, unreadable_source, provenance_ok, absent_checks, Split, split_paths, business_paths,
  business_requirements, business_rules, find_gaps, report, check_coverage,
}

-- A check of a path is covered by evidence in a test case that is no AI suggestion.
pub record IsCovered (task : Task) (pid check : String) : Type 0 where
  pub case : TestCase
  pub among : Memᴰ case task.cases
  pub real : case.ai ≡ false
  pub proof : Evidence
  pub within : Memᴰ proof case.evidence
  pub of_path : proof.path_id ≡ pid
  pub of_check : proof.check ≡ check

evidence_checks-Mem :
    (pid k : String) (es : List Evidence)
    → Memᴰ k (evidence_checks pid es)
    → (e : Evidence) × Memᴰ e es × (e.path_id ≡ pid) × (e.check ≡ k)
unfolding evidence_checks
evidence_checks-Mem pid k [] m = elim m [ ]
evidence_checks-Mem pid k (e ∷ es) m = elim (Bool-cases (e.path_id == pid)) [
  | inl same ↦ elim (Mem-cons k e.check (evidence_checks pid es) (rw same at m)) [
    | inl here ↦ (e, Memᴰ.head refl, ==→eq e.path_id pid same, sym here)
    | inr rest ↦ let (e', r, p, c) = evidence_checks-Mem pid k es rest in (e', Memᴰ.tail r, p, c)
  ]
  | inr other ↦
      let (e', r, p, c) = evidence_checks-Mem pid k es (rw other at m) in (e', Memᴰ.tail r, p, c)
]

-- The cases that carry evidence, with the evidence.
abbrev Carried : String → String → List TestCase → Type 0
Carried pid k cases =
    (c : TestCase) × Memᴰ c cases
    × (c.ai ≡ false)
    × ((e : Evidence) × Memᴰ e c.evidence × (e.path_id ≡ pid) × (e.check ≡ k))

Carried-later :
    (pid k : String) (c : TestCase) (cases : List TestCase)
    → Carried pid k cases
    → Carried pid k (c ∷ cases)
Carried-later pid k c cases (c', m, real, proof) = (c', Memᴰ.tail m, real, proof)

case_checks-Mem :
    (pid k : String) (cases : List TestCase) → Memᴰ k (case_checks pid cases) → Carried pid k cases
unfolding case_checks
case_checks-Mem pid k [] m = elim m [ ]
case_checks-Mem pid k (c ∷ cases) m = elim (Bool-cases c.ai) [
  | inl suggested ↦ Carried-later pid k c cases (case_checks-Mem pid k cases (rw suggested at m))
  | inr real ↦
      elim (Mem-append (evidence_checks pid c.evidence) (case_checks pid cases) k (rw real at m)) [
        | inl here ↦ (c, Memᴰ.head refl, real, evidence_checks-Mem pid k c.evidence here)
        | inr rest ↦ Carried-later pid k c cases (case_checks-Mem pid k cases rest)
      ]
]

Carried-IsCovered :
    (task : Task) (pid k : String) → Memᴰ k (case_checks pid task.cases) → IsCovered task pid k
Carried-IsCovered task pid k m =
    let (c, among, real, proof) = case_checks-Mem pid k task.cases m in
    let (e, within, of_path, of_check) = proof in
    record {
      case = c;
      among = among;
      real = real;
      proof = e;
      within = within;
      of_path = of_path;
      of_check = of_check;
    }

append_nonempty :
    (known : Bool) (xs : List String)
    → (if not known then xs ++ unreadable_source ∷ [] else xs) ≡ []
    → xs ≡ []
append_nonempty true xs h = h
append_nonempty false xs h = (append-eq-nil xs _ h).0

absent_none :
    (task : Task) (p : CriticalPath)
    → absent_checks task p ≡ ok []
    → All (IsCovered task p.id) p.checks
unfolding absent_checks
absent_none task p h =
    let (known, _, nothing) = >>=-eq-ok (provenance_ok task p) _ h in
    All-map covered p.checks
      (select-eq-nil _ p.checks (append_nonempty known _ (ok-injective nothing)))
  where
    covered :
        (k : String)
        → not (contains (case_checks p.id task.cases) k) ≡ false
        → IsCovered task p.id k
    covered k e =
        Carried-IsCovered task p.id k (contains-Mem (case_checks p.id task.cases) k (ground arith))

split_none :
    (task : Task) (ps : List CriticalPath) (split : Split)
    → split_paths task ps ≡ ok split
    → split.missing ≡ []
    → All (λ p. All (IsCovered task p.id) p.checks) ps
unfolding split_paths
split_none task [] split h e = tt
split_none task (p ∷ ps) split h e =
    let (absent, first, h1) = >>=-eq-ok (absent_checks task p) _ h in
    let (rest, later, h2) = >>=-eq-ok (split_paths task ps) _ h1 in
    elim (Bool-cases (is_empty absent)) [
      | inl nothing ↦
          let none_missing : rest.missing ≡ [] =
            ap (λ (s : Split). s.missing) (ok-injective (rw nothing at h2)) ∙ e in
          (
            absent_none task p (first ∙ ap ok (is_empty-eq-nil absent nothing)),
            split_none task ps rest later none_missing,
          )
      | inr some_left ↦ cc (ap (λ (s : Split). s.missing) (ok-injective (rw some_left at h2)) ∙ e)
    ]

-- What a complete report promises of the task. A rule is used by a path that is no AI suggestion.
pub record IsComplete (task : Task) : Type 0 where
  pub covered : All (λ p. p.ai ≡ false → All (IsCovered task p.id) p.checks) task.paths
  pub sources : All (λ s. readable s ≡ true) task.sources
  pub some_source : task.sources ≢ []
  pub answers : All (λ q. q.priority ≡ "P0" → IsAnswered task q.id) task.questions
  pub rules : All (λ r. Memᴰ (rule_id r) (business_rules (business_paths task))) task.rules

-- What holds of the paths that are kept holds of every path that passes the test.
All-unselect :
    (P : CriticalPath → Type 0) (ps : List CriticalPath)
    → All P (select (λ p. not p.ai) ps)
    → All (λ p. p.ai ≡ false → P p) ps
All-unselect P [] h = tt
All-unselect P (p ∷ ps) h = elim (Bool-cases p.ai) [
  | inl e ↦ (λ f. cc, All-unselect P ps (rw e at h))
  | inr e ↦ let (x, xs) = kept p.ai p _ e h in (λ f. x, All-unselect P ps xs)
]
  where
    kept :
        (b : Bool) (x : CriticalPath) (rest : List CriticalPath)
        → b ≡ false
        → All P (if not b then x ∷ rest else rest)
        → P x × All P rest
    kept true x rest e g = cc
    kept false x rest e g = g

-- The parts of an empty list of gaps.
no_gaps :
    (task : Task) (draft : Bool) (reqs : List String)
    → find_gaps task draft reqs ≡ []
    → All (λ s. readable s ≡ true) task.sources
      × (unresolved_p0 task ≡ [])
      × All (λ r. Memᴰ (rule_id r) (business_rules (business_paths task))) task.rules
      × (task.sources ≢ [])
      × (draft ≡ false)
unfolding find_gaps source_gaps
no_gaps task draft reqs h =
    let (g1, h1) = append-eq-nil (map source_incomplete (source_gaps task)) _ h in
    let (g2, h2) = append-eq-nil (map open_p0 (unresolved_p0 task)) _ h1 in
    let (g3, h3) = append-eq-nil _ _ h2 in
    let (g4, h4) = append-eq-nil _ _ h3 in
    let (g5, g6) = append-eq-nil _ _ h4 in
    (
      All-map (λ s e. not-eq-false (readable s) e) task.sources
          (select-eq-nil _ task.sources
            (map-eq-nil source_id _ (map-eq-nil source_incomplete _ g1))),
      map-eq-nil open_p0 _ g2,
      All-map (λ r e. contains-Mem _ (rule_id r) (not-eq-false _ e)) task.rules
          (select-eq-nil _ task.rules (map-eq-nil _ _ g4)),
      no_empty task.sources g5,
      no_draft draft g6,
    )
  where
    no_empty :
        (sources : List Source)
        → (if is_empty sources then no_sources ∷ [] else []) ≡ []
        → sources ≢ []
    no_empty [] e p = cc
    no_empty (s ∷ ss) e p = cc

    no_draft : (d : Bool) → (if d then draft_gap ∷ [] else []) ≡ [] → d ≡ false
    no_draft true e = cc
    no_draft false e = refl

report_complete :
    (task : Task) (draft : Bool) (split : Split) (reqs : List String)
    → (report task draft split reqs).overall_complete ≡ true
    → (is_empty split.missing ≡ true) × (is_empty (find_gaps task draft reqs) ≡ true)
unfolding report
report_complete task draft split reqs h = ground arith

-- A report that says `overall_complete` is no draft's, and stands on a task in which every check of
-- every path that is no AI suggestion has evidence in a real test case, every source was read, the
-- owner has answered every P0 question, and every rule is used by a path.
pub overall_complete-IsComplete :
    (u : Unicode) (task : Task) (draft : Bool) (c : Coverage)
    → check_coverage u task draft ≡ ok c
    → c.overall_complete ≡ true
    → IsComplete task × (draft ≡ false)
unfolding check_coverage business_paths
overall_complete-IsComplete u task draft c h full =
    let (valid, h1) = >>-eq-ok _ _ h in
    let (split, split_ok, h2) = >>=-eq-ok (split_paths task (business_paths task)) _ h1 in
    let (reqs, _, h3) = >>=-eq-ok (business_requirements task (business_paths task)) _ h2 in
    let (missing, gaps) =
      report_complete task draft split reqs
        (subst (λ (r : Coverage). r.overall_complete ≡ true) (sym (ok-injective h3)) full) in
    let (sources, p0, rules, some_source, formal) =
      no_gaps task draft reqs (is_empty-eq-nil _ gaps) in
    (
      record {
        covered =
            All-unselect _ task.paths
              (split_none task _ split split_ok (is_empty-eq-nil _ missing));
        sources = sources;
        some_source = some_source;
        answers = p0-IsAnswered u task valid p0;
        rules = rules;
      },
      formal,
    )
