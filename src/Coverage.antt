-- ===== src/Coverage.antt =====
-- tg_testcase/coverage.py: which paths of a task its test cases cover, and what is missing.
pub mod Total
pub mod Complete
use my_ops.Prelude.{
  ℕ, ◌+◌, ◌++◌, String, Bool, true, false, not, ◌&&◌, ◌||◌, Option, none, some, List, [], ◌∷◌, map,
  Result, ok, err, ◌>>=◌, ◌>>◌, length, is_empty, contains, distinct, ◌==◌, nat_eq, string_eq,
  option_eq, if◌then◌else◌, select,
}
use my_ops.Task.{
  Error, Source, Requirement, Question, FinalRule, CriticalPath, Evidence, TestCase, Task, readable,
}
use my_ops.Review.{
  Unicode, fetch, requirement_id, rule_id, source_id, question_id, path_id, unresolved_p0, validate,
}

-- The messages in `gaps`; each has its text.
pub data Gap : Type 0 where
  source_incomplete : String → Gap
  open_p0 : String → Gap
  requirement_without_path : String → Gap
  rule_without_path : String → Gap
  no_sources : Gap
  draft_gap : Gap

pub record Summary : Type 0 where
  pub modules : ℕ
  pub requirements : ℕ
  pub business_paths : ℕ
  pub covered_paths : ℕ
  pub cases : ℕ
  pub ai_cases : ℕ
  pub p0_resolved : List String
  pub p1_resolved : List String
  pub p1_skipped : List String

-- `known_path_percent` is the fraction that the source rounds to a percentage.
pub record Coverage : Type 0 where
  pub covered : List String
  pub uncovered : List String
  pub missing_checks : List (String × List String)
  pub ai_points : List String
  pub known_path_percent : Option (ℕ × ℕ)
  pub overall_complete : Bool
  pub gaps : List Gap
  pub summary : Summary

unfoldable pub source_gaps : Task → List String
source_gaps task = map source_id (select (λ s. not (readable s)) task.sources)

-- `{e.check for e in evidence if e.path_id == pid}`
unfoldable pub evidence_checks : String → List Evidence → List String
evidence_checks pid [] = []
evidence_checks pid (e ∷ es) =
    let rest = evidence_checks pid es in if e.path_id == pid then e.check ∷ rest else rest

-- `{e.check for c in cases if not c.ai for e in c.evidence if e.path_id == pid}`
unfoldable pub case_checks : String → List TestCase → List String
case_checks pid [] = []
case_checks pid (c ∷ cases) =
    let rest = case_checks pid cases in
    if not c.ai then evidence_checks pid c.evidence ++ rest else rest

-- `all(test(x) for x in xs)`, where a test may raise
unfoldable pub all_hold {ℓ} : {A : Type ℓ} → (A → Result Error Bool) → List A → Result Error Bool
all_hold test [] = ok true
all_hold test (x ∷ xs) = do holds ← test x; if holds then all_hold test xs else ok false

unfoldable pub source_readable : Task → String → Result Error Bool
source_readable task s = do source ← fetch source_id s task.sources; ok (readable source)

unfoldable pub requirement_readable : Task → String → Result Error Bool
requirement_readable task r = do
  req ← fetch requirement_id r task.requirements
  all_hold (source_readable task) req.source_ids

unfoldable pub rule_readable : Task → String → Result Error Bool
rule_readable task rid = do
  rule ← fetch rule_id rid task.rules
  all_hold (requirement_readable task) rule.requirement_ids

unfoldable pub provenance_ok : Task → CriticalPath → Result Error Bool
provenance_ok task path = all_hold (rule_readable task) path.rule_ids

abbrev pub unreadable_source : String
unreadable_source = "来源读取不完整"

-- The list `absent` of a path.
unfoldable pub absent_checks : Task → CriticalPath → Result Error (List String)
absent_checks task path = do
  known ← provenance_ok task path
  let absent = select (λ c. not (contains (case_checks path.id task.cases) c)) path.checks
  ok (if not known then absent ++ unreadable_source ∷ [] else absent)

-- What the loop over the paths fills; `missing` has the uncovered paths.
pub record Split : Type 0 where
  pub covered : List String
  pub missing : List (String × List String)

unfoldable pub split_paths : Task → List CriticalPath → Result Error Split
split_paths task [] = ok (record { covered = []; missing = [] })
split_paths task (p ∷ paths) = do
  absent ← absent_checks task p
  rest ← split_paths task paths
  if is_empty absent
      then ok (record rest { covered = p.id ∷ rest.covered })
      else ok (record rest { missing = (p.id, absent) ∷ rest.missing })

-- `[p for p in task.paths if not p.ai]`
unfoldable pub business_paths : Task → List CriticalPath
business_paths task = select (λ p. not p.ai) task.paths

unfoldable pub rules_requirements : Task → List String → Result Error (List String)
rules_requirements task [] = ok []
rules_requirements task (rid ∷ rids) = do
  rule ← fetch rule_id rid task.rules
  rest ← rules_requirements task rids
  ok (rule.requirement_ids ++ rest)

unfoldable pub business_requirements : Task → List CriticalPath → Result Error (List String)
business_requirements task [] = ok []
business_requirements task (p ∷ paths) = do
  first ← rules_requirements task p.rule_ids
  rest ← business_requirements task paths
  ok (first ++ rest)

unfoldable pub business_rules : List CriticalPath → List String
business_rules [] = []
business_rules (p ∷ paths) = p.rule_ids ++ business_rules paths

unfoldable pub find_gaps : Task → Bool → List String → List Gap
find_gaps task draft reqs =
    map source_incomplete (source_gaps task)
    ++ (map open_p0 (unresolved_p0 task)
        ++ (map (λ r. requirement_without_path (requirement_id r))
              (select (λ r. not (contains reqs (requirement_id r))) task.requirements)
            ++ (map (λ r. rule_without_path (rule_id r))
                  (select (λ r. not (contains (business_rules (business_paths task)) (rule_id r)))
                    task.rules)
                ++ ((if is_empty task.sources then no_sources ∷ [] else [])
                    ++ (if draft then draft_gap ∷ [] else [])))))

abbrev pub with_priority : Task → String → List Question
with_priority task p =
    select
      (λ q.
        q.priority == p && contains (map (λ (r : FinalRule). r.question_id) task.rules) (some q.id))
      task.questions

unfoldable pub summarise : Task → Split → Summary
summarise task split = record {
  modules = length (distinct (map (λ (c : TestCase). c.module_name) task.cases));
  requirements = length task.requirements;
  business_paths = length split.covered + length split.missing;
  covered_paths = length split.covered;
  cases = length task.cases;
  ai_cases = length (select (λ (c : TestCase). c.ai) task.cases);
  p0_resolved = map question_id (with_priority task "P0");
  p1_resolved = map question_id (with_priority task "P1");
  p1_skipped = map question_id (select (λ q. q.skipped) task.questions);
}

unfoldable pub report : Task → Bool → Split → List String → Coverage
report task draft split reqs =
    let gaps = find_gaps task draft reqs in
    let total = length split.covered + length split.missing in
    record {
      covered = split.covered;
      uncovered = map (λ (pid, _). pid) split.missing;
      missing_checks = split.missing;
      ai_points = map path_id (select (λ p. p.ai) task.paths);
      known_path_percent =
          if not (total == 0) && is_empty gaps then some (length split.covered, total) else none;
      overall_complete = not (total == 0) && (is_empty split.missing && is_empty gaps);
      gaps = gaps;
      summary = summarise task split;
    }

unfoldable pub check_coverage : Unicode → Task → Bool → Result Error Coverage
check_coverage u task draft = do
  validate u task
  split ← split_paths task (business_paths task)
  reqs ← business_requirements task (business_paths task)
  ok (report task draft split reqs)
