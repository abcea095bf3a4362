-- ===== src/Review.antt =====
-- tg_testcase/review.py: the invariants of a review, and its traceability from sources to cases.
pub mod Trace
pub mod Rounds
pub mod Answers
use my_ops.Prelude.{
  ℕ, ◌+◌, ◌++◌, String, Bool, true, false, not, ◌&&◌, ◌||◌, Option, none, some, List, [], ◌∷◌, map,
  Result, ok, err, ◌>>=◌, ◌>>◌, raise_if, each, length, is_empty, any, all, contains, unique,
  distinct, count, get_by, ◌==◌, nat_eq, string_eq, list_eq, ltb, if◌then◌else◌, is_blank, codes,
  select,
}
use my_ops.Task.{
  Error, value_error, key_error, Source, Requirement, Question, Answer, FinalRule, CriticalPath,
  Evidence, TestCase, Task,
}

-- The tables of Python's `unicodedata` and `re`: NFKC with `casefold`, and the class `\w`.
pub record Unicode : Type 0 where
  pub nfkc_casefold : String → String
  pub is_word : ℕ → Bool

-- `normalized(text)`, as code points
unfoldable pub normalized : Unicode → String → List ℕ
normalized u text = select u.is_word (codes (u.nfkc_casefold text))

-- `indexed(items)`: the check of its identifiers
unfoldable pub indexed : List String → Result Error (Unit {0})
indexed ids =
    raise_if (not (unique ids) || any is_blank ids) (value_error "IDs must be nonempty and unique")

-- `index[key]`, for a dictionary `{item.id: item for item in items}`
unfoldable pub fetch {ℓ} : {A : Type ℓ} → (A → String) → String → List A → Result Error A
fetch id k items = elim (get_by id k items) [ none ↦ err (key_error k) | some item ↦ ok item ]

unfoldable pub require_refs : List String → List String → Result Error (Unit {0})
require_refs refs index =
    raise_if (is_empty refs || not (unique refs) || any (λ r. not (contains index r)) refs)
      (value_error "Missing, duplicate or dangling traceability references")

abbrev pub requirement_id : Requirement → String
requirement_id r = r.id

abbrev pub question_id : Question → String
question_id q = q.id

abbrev pub rule_id : FinalRule → String
rule_id r = r.id

abbrev pub path_id : CriticalPath → String
path_id p = p.id

abbrev pub source_id : Source → String
source_id s = s.id

abbrev pub case_id : TestCase → String
case_id c = c.id

unfoldable pub check_requirement : Task → Requirement → Result Error (Unit {0})
check_requirement task req = do
  raise_if (is_blank req.text) (value_error "Empty requirement")
  require_refs req.source_ids (map source_id task.sources)

-- `{s for r in refs for s in requirements[r].source_ids}`, before duplicates go
unfoldable pub sources_of : List Requirement → List String → Result Error (List String)
sources_of requirements [] = ok []
sources_of requirements (r ∷ refs) = do
  req ← fetch requirement_id r requirements
  rest ← sources_of requirements refs
  ok (req.source_ids ++ rest)

-- What the loop over the questions has seen. `rounds` has an entry for each P1 question: the
-- source's counter of a round is the number of its entries.
pub record Seen : Type 0 where
  pub keys : List (List ℕ)
  pub texts : List (List ℕ)
  pub rounds : List ℕ

unfoldable pub check_conflict : Task → Question → Result Error (Unit {0})
check_conflict task q = do
  refs ← sources_of task.requirements q.requirement_ids
  raise_if (not (q.priority == "P0") || ltb (length (distinct refs)) 2)
      (value_error "Critical multi-source conflict must be P0 with two sources")

unfoldable pub count_round : Seen → Question → Result Error Seen
count_round seen q =
    if q.priority == "P1"
    then (do
      raise_if (ltb 3 (count q.round seen.rounds + 1))
          (value_error "At most 3 P1 questions per round")
      ok (record seen { rounds = q.round ∷ seen.rounds }))
    else ok seen

unfoldable pub check_question : Unicode → Task → Seen → Question → Result Error Seen
unfolding check_conflict count_round
check_question u task seen q = do
  let key = normalized u q.key
  let text = normalized u q.text
  raise_if (is_empty key || is_empty text || contains seen.keys key || contains seen.texts text)
      (value_error "Repeated question")
  require_refs q.requirement_ids (map requirement_id task.requirements)
  raise_if (not (q.priority == "P0" || q.priority == "P1") || ltb q.round 1)
      (value_error "Invalid question priority/round")
  if q.conflict then check_conflict task q else ok tt
  raise_if (q.skipped && not (q.priority == "P1")) (value_error "P0 cannot be skipped")
  count_round (record seen { keys = key ∷ seen.keys; texts = text ∷ seen.texts }) q

unfoldable pub check_questions : Unicode → Task → Seen → List Question → Result Error (Unit {0})
check_questions u task seen [] = ok tt
check_questions u task seen (q ∷ qs) = do
  seen' ← check_question u task seen q
  check_questions u task seen' qs

unfoldable pub check_answer : Task → List String → Answer → Result Error (Unit {0})
check_answer task answered a = do
  raise_if
      (not (contains (map question_id task.questions) a.question_id)
        || contains answered a.question_id)
      (value_error "Unknown or already answered question")
  raise_if (not (a.user_id == task.user_id) || is_blank a.text)
      (value_error "Answer must belong to owner and contain text")
  q ← fetch question_id a.question_id task.questions
  raise_if q.skipped (value_error "Skipped question cannot have an answer")

-- The set `answered` after the loop over the answers.
unfoldable pub check_answers : Task → List String → List Answer → Result Error (List String)
check_answers task answered [] = ok answered
check_answers task answered (a ∷ rest) = do
  check_answer task answered a
  check_answers task (a.question_id ∷ answered) rest

unfoldable pub check_rule_question :
    Task → List String → FinalRule → Option String → Result Error (Unit {0})
check_rule_question task answered rule none = ok tt
check_rule_question task answered rule (some qid) = do
  raise_if (not (contains answered qid)) (value_error "Final rule requires a user answer")
  q ← fetch question_id qid task.questions
  raise_if (any (λ r. not (contains q.requirement_ids r)) rule.requirement_ids)
      (value_error "Final rule does not match question requirements")

unfoldable pub check_rule : Task → List String → FinalRule → Result Error (Unit {0})
check_rule task answered rule = do
  require_refs rule.requirement_ids (map requirement_id task.requirements)
  raise_if (is_blank rule.text) (value_error "Empty final rule")
  check_rule_question task answered rule rule.question_id

unfoldable pub check_path_rules : Task → CriticalPath → Result Error (Unit {0})
check_path_rules task path =
    if not path.ai
    then require_refs path.rule_ids (map rule_id task.rules)
    else if not (is_empty path.rule_ids)
    then require_refs path.rule_ids (map rule_id task.rules)
    else ok tt

unfoldable pub check_path : Task → CriticalPath → Result Error (Unit {0})
check_path task path = do
  check_path_rules task path
  raise_if (is_blank path.text || is_empty path.checks || any is_blank path.checks)
      (value_error "Path needs explicit acceptance checks")
  raise_if (not (unique path.checks)) (value_error "Duplicate acceptance checks")

abbrev pub check_known : Option CriticalPath → Evidence → Result Error (Unit {0})
check_known none e = err (value_error "Unknown path/check in testcase evidence")
check_known (some path) e =
    raise_if (not (contains path.checks e.check))
      (value_error "Unknown path/check in testcase evidence")

unfoldable pub check_evidence : Task → TestCase → Evidence → Result Error (Unit {0})
check_evidence task case e = do
  check_known (get_by path_id e.path_id task.paths) e
  raise_if (not (contains case.steps e.step) || not (contains case.expected e.expected))
      (value_error "Evidence must reference actual steps and expected outcomes")

unfoldable pub check_case : Task → TestCase → Result Error (Unit {0})
check_case task case = do
  raise_if (not (all (λ s. not (is_blank s)) (case.id ∷ case.module_name ∷ case.description ∷ [])))
      (value_error "Case needs ID, module and description")
  raise_if
      (is_empty case.steps || is_empty case.expected || any is_blank (case.steps ++ case.expected))
      (value_error "Case needs real steps and expected outcomes")
  each (check_evidence task case) case.evidence

unfoldable pub check_ids : Task → Result Error (Unit {0})
check_ids task = do
  indexed (map source_id task.sources)
  indexed (map requirement_id task.requirements)
  indexed (map question_id task.questions)
  indexed (map rule_id task.rules)
  indexed (map path_id task.paths)
  indexed (map case_id task.cases)

abbrev pub unseen : Seen
unseen = record { keys = []; texts = []; rounds = [] }

unfoldable pub validate : Unicode → Task → Result Error (Unit {0})
validate u task = do
  check_ids task
  each (check_requirement task) task.requirements
  check_questions u task unseen task.questions
  answered ← check_answers task [] task.answers
  each (check_rule task answered) task.rules
  each (check_path task) task.paths
  each (check_case task) task.cases

-- the empty text counts as false
abbrev pub add_resolved : Option String → List String → List String
add_resolved none rest = rest
add_resolved (some q) rest = if q == "" then rest else q ∷ rest

-- `{r.question_id for r in rules if r.question_id}`
unfoldable pub resolved : List FinalRule → List String
resolved [] = []
resolved (r ∷ rules) = add_resolved r.question_id (resolved rules)

unfoldable pub unresolved_p0 : Task → List String
unresolved_p0 task =
    map question_id
      (select (λ q. q.priority == "P0" && not (contains (resolved task.rules) q.id)) task.questions)
