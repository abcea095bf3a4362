-- ===== src/Tests/Review.antt =====
-- Reviews, coverage and the gate, on small inputs.
use my_ops.Prelude.{
  ◌≡◌, refl, true, false, ok, [], ◌∷◌, some, is_blank, each, ℕ, ◌≤◌, All, count, nat_eq,
}
use my_ops.Task.{readable}
use my_ops.Review.{
  validate, check_ids, indexed, check_requirement, require_refs, check_questions, check_question,
  normalized, check_answers, check_answer, check_rule, check_rule_question, check_path,
  check_path_rules, check_case, check_evidence, fetch, unresolved_p0, resolved, count_round,
  check_conflict,
}
use my_ops.Review.Trace.{IsTraceable, IsAnswered, validate-IsTraceable}
use my_ops.Review.Rounds.{p1_rounds, IsWellPosed, validate-rounds}
use my_ops.Review.Answers.{p0-IsAnswered}
use my_ops.Coverage.{
  Coverage, check_coverage, split_paths, business_paths, absent_checks, provenance_ok, all_hold,
  rule_readable, requirement_readable, source_readable, case_checks, evidence_checks,
  business_requirements, rules_requirements, report, find_gaps, source_gaps, business_rules,
  summarise,
}
use my_ops.Coverage.Total.{check_coverage-Returns}
use my_ops.Coverage.Complete.{IsComplete, overall_complete-IsComplete}
use my_ops.Gate.{gate, reasons, formal_reasons, confirmed}
use my_ops.Gate.Laws.{IsCleared, gate-IsCleared}
use my_ops.Tests.Samples.{plain, finished, agreed}

-- Everything that `validate` calls.
unfoldable pub validate_all : Unit {0}
unfolding validate check_ids indexed check_requirement require_refs check_questions check_question
    normalized check_answers check_answer check_rule check_rule_question check_path check_path_rules
    check_case check_evidence fetch is_blank count_round check_conflict each
validate_all = tt

-- Everything that `gate` calls besides.
unfoldable pub gate_all : Unit {0}
unfolding validate_all gate reasons formal_reasons confirmed unresolved_p0 resolved readable
gate_all = tt

coverage_all : Unit {0}
unfolding validate_all check_coverage split_paths business_paths absent_checks provenance_ok
    all_hold rule_readable requirement_readable source_readable case_checks evidence_checks
    business_requirements rules_requirements report find_gaps source_gaps business_rules summarise
    unresolved_p0 resolved readable
coverage_all = tt

finished_valid : validate plain finished ≡ ok tt
unfolding validate_all
finished_valid = refl

agreed_cleared : gate plain agreed "formal" ≡ ok tt
unfolding gate_all
agreed_cleared = refl

p0_closed : unresolved_p0 finished ≡ []
unfolding gate_all
p0_closed = refl

abbrev full_report : Coverage
full_report = record {
  covered = "p1" ∷ [];
  uncovered = [];
  missing_checks = [];
  ai_points = [];
  known_path_percent = some (1, 1);
  overall_complete = true;
  gaps = [];
  summary = record {
    modules = 1;
    requirements = 1;
    business_paths = 1;
    covered_paths = 1;
    cases = 1;
    ai_cases = 0;
    p0_resolved = "q1" ∷ [];
    p1_resolved = [];
    p1_skipped = [];
  };
}

finished_covered : check_coverage plain finished false ≡ ok full_report
unfolding coverage_all
finished_covered = refl

validate-IsTraceable_example : IsTraceable finished
validate-IsTraceable_example = validate-IsTraceable plain finished finished_valid

validate-rounds_example :
    ((n : ℕ) → count n (p1_rounds finished.questions) ≤ 3)
    × All (IsWellPosed finished) finished.questions
validate-rounds_example = validate-rounds plain finished finished_valid

p0-IsAnswered_example : All (λ q. q.priority ≡ "P0" → IsAnswered finished q.id) finished.questions
p0-IsAnswered_example = p0-IsAnswered plain finished finished_valid p0_closed

check_coverage-Returns_example : (c : Coverage) × (check_coverage plain finished true ≡ ok c)
check_coverage-Returns_example = check_coverage-Returns plain finished true finished_valid

overall_complete-IsComplete_example : IsComplete finished × (false ≡ false)
overall_complete-IsComplete_example =
    overall_complete-IsComplete plain finished false full_report finished_covered refl

gate-IsCleared_example : IsCleared agreed "formal"
gate-IsCleared_example = gate-IsCleared plain agreed "formal" agreed_cleared
