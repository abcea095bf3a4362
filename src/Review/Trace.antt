-- ===== src/Review/Trace.antt =====
-- What a task that `validate` accepts guarantees: every reference of its review can be followed.
use my_ops.Prelude.{
  ◌≡◌, refl, sym, subst, String, Bool, true, false, not, ◌||◌, ◌⊎◌, inl, inr, Option, none, some,
  List, [], ◌∷◌, map, Memᴰ, arith, ok, raise_if, All, All-map, >>=-eq-ok, >>-eq-ok, raise_if-eq-ok,
  ok-injective, eq_iff, each-eq-ok, is_empty, any, contains, contains-Mem, get_by, get_by-Mem,
  any-eq-false, nat_eq, string_eq, list_eq, is_blank, Bool-cases,
}
use my_ops.Task.{
  value_error, Requirement, Question, Answer, FinalRule, CriticalPath, Evidence, TestCase, Task,
}
use my_ops.Review.{
  Unicode, require_refs, requirement_id, rule_id, path_id, source_id, check_requirement, Seen,
  check_question, check_questions, check_answer, check_answers, check_rule_question, check_rule,
  check_path_rules, check_path, check_known, check_evidence, check_case, check_ids, unseen,
  validate,
}

-- Every reference is an identifier of the index.
abbrev pub AllIn : List String → List String → Type 0
AllIn refs index = All (λ r. Memᴰ r index) refs

pub not-eq-false : (b : Bool) → not b ≡ false → b ≡ true
not-eq-false true h = refl
not-eq-false false h = cc

not_or-eq-false : (a b : Bool) → (not a || not b) ≡ false → (a ≡ true) × (b ≡ true)
not_or-eq-false a b h = ground arith

no_dangling :
    (refs index : List String) → any (λ r. not (contains index r)) refs ≡ false → AllIn refs index
no_dangling refs index h =
    All-map (λ r e. contains-Mem index r (not-eq-false _ e)) refs (any-eq-false _ refs h)

pub require_refs-AllIn :
    (refs index : List String) → require_refs refs index ≡ ok tt → AllIn refs index
unfolding require_refs
require_refs-AllIn refs index h = no_dangling refs index (ground arith)

-- The answer to a question, by the owner of the task and not blank.
pub record IsAnswered (task : Task) (qid : String) : Type 0 where
  pub answer : Answer
  pub among : Memᴰ answer task.answers
  pub to_question : answer.question_id ≡ qid
  pub by_owner : answer.user_id ≡ task.user_id
  pub has_text : is_blank answer.text ≡ false

-- A rule that names a question follows an answer to it.
abbrev pub FollowsAnswer : Task → Option String → Type 0
FollowsAnswer task none = Unit
FollowsAnswer task (some qid) = IsAnswered task qid

-- A piece of evidence names a check of a path of the task, and a step and an outcome of its case.
pub record IsGrounded (task : Task) (case : TestCase) (e : Evidence) : Type 0 where
  pub path : CriticalPath
  pub known : Memᴰ path task.paths
  pub named : path.id ≡ e.path_id
  pub checked : Memᴰ e.check path.checks
  pub stepped : Memᴰ e.step case.steps
  pub expected : Memᴰ e.expected case.expected

pub record IsTraceable (task : Task) : Type 0 where
  pub requirements : All (λ r. AllIn r.source_ids (map source_id task.sources)) task.requirements
  pub questions :
      All (λ q. AllIn q.requirement_ids (map requirement_id task.requirements)) task.questions
  pub rules : All (λ r. AllIn r.requirement_ids (map requirement_id task.requirements)) task.rules
  pub answers : All (λ r. FollowsAnswer task r.question_id) task.rules
  pub paths : All (λ p. AllIn p.rule_ids (map rule_id task.rules)) task.paths
  pub evidence : All (λ c. All (IsGrounded task c) c.evidence) task.cases

-- What the parts of `validate` have found when it accepts.
pub record Accepted (u : Unicode) (task : Task) : Type 0 where
  pub ids : check_ids task ≡ ok tt
  pub requirements : All (λ r. check_requirement task r ≡ ok tt) task.requirements
  pub questions : check_questions u task unseen task.questions ≡ ok tt
  pub answered : List String
  pub answers : check_answers task [] task.answers ≡ ok answered
  pub rules : All (λ r. check_rule task answered r ≡ ok tt) task.rules
  pub paths : All (λ p. check_path task p ≡ ok tt) task.paths
  pub cases : All (λ c. check_case task c ≡ ok tt) task.cases

pub validate-Accepted : (u : Unicode) (task : Task) → validate u task ≡ ok tt → Accepted u task
unfolding validate
validate-Accepted u task h =
    let (ids, h1) = >>-eq-ok _ _ h in
    let (reqs, h2) = >>-eq-ok _ _ h1 in
    let (questions, h3) = >>-eq-ok _ _ h2 in
    let (answered, answers, h4) = >>=-eq-ok (check_answers task [] task.answers) _ h3 in
    let (rules, h5) = >>-eq-ok _ _ h4 in
    let (paths, cases) = >>-eq-ok _ _ h5 in
    record {
      ids = ids;
      requirements = each-eq-ok _ _ reqs;
      questions = questions;
      answered = answered;
      answers = answers;
      rules = each-eq-ok _ _ rules;
      paths = each-eq-ok _ _ paths;
      cases = each-eq-ok _ _ cases;
    }

requirement_refs :
    (task : Task) (r : Requirement)
    → check_requirement task r ≡ ok tt
    → AllIn r.source_ids (map source_id task.sources)
unfolding check_requirement
requirement_refs task r h = require_refs-AllIn _ _ (>>-eq-ok _ _ h).1

question_refs :
    (u : Unicode) (task : Task) (seen seen' : Seen) (q : Question)
    → check_question u task seen q ≡ ok seen'
    → AllIn q.requirement_ids (map requirement_id task.requirements)
unfolding check_question
question_refs u task seen seen' q h = require_refs-AllIn _ _ (>>-eq-ok _ _ (>>-eq-ok _ _ h).1).0

questions_refs :
    (u : Unicode) (task : Task) (seen : Seen) (qs : List Question)
    → check_questions u task seen qs ≡ ok tt
    → All (λ q. AllIn q.requirement_ids (map requirement_id task.requirements)) qs
unfolding check_questions
questions_refs u task seen [] h = tt
questions_refs u task seen (q ∷ qs) h =
    let (seen', first, rest) = >>=-eq-ok (check_question u task seen q) _ h in
    (question_refs u task seen seen' q first, questions_refs u task seen' qs rest)

pub rule_refs :
    (task : Task) (answered : List String) (r : FinalRule)
    → check_rule task answered r ≡ ok tt
    → AllIn r.requirement_ids (map requirement_id task.requirements)
unfolding check_rule
rule_refs task answered r h = require_refs-AllIn _ _ (>>-eq-ok _ _ h).0

path_refs :
    (task : Task) (p : CriticalPath)
    → check_path task p ≡ ok tt
    → AllIn p.rule_ids (map rule_id task.rules)
unfolding check_path check_path_rules
path_refs task p h = path_rules_refs (>>-eq-ok _ _ h).0
  where
    empty_refs : (refs : List String) → is_empty refs ≡ true → AllIn refs (map rule_id task.rules)
    empty_refs [] e = tt
    empty_refs (r ∷ refs) e = cc

    path_rules_refs : check_path_rules task p ≡ ok tt → AllIn p.rule_ids (map rule_id task.rules)
    path_rules_refs g = elim (Bool-cases (is_empty p.rule_ids)) [
      | inl e ↦ empty_refs p.rule_ids e
      | inr e ↦ require_refs-AllIn _ _ (ground arith)
    ]

-- The answers that the loop accepts are all by the owner, and `answered` lists their questions.
answer_fact :
    (task : Task) (answered : List String) (a : Answer)
    → check_answer task answered a ≡ ok tt
    → (a.user_id ≡ task.user_id) × (is_blank a.text ≡ false)
unfolding check_answer
answer_fact task answered a h = (ground (arith, eq_iff a.user_id task.user_id), ground arith)

answers_cover :
    (task : Task) (before after : List String) (xs : List Answer)
    → check_answers task before xs ≡ ok after
    → (qid : String) → Memᴰ qid after
    → Memᴰ qid before
      ⊎ ((a : Answer) × Memᴰ a xs
          × (a.question_id ≡ qid)
          × (a.user_id ≡ task.user_id)
          × (is_blank a.text ≡ false))
unfolding check_answers
answers_cover task before after [] h qid m = inl (subst (Memᴰ qid) (sym (ok-injective h)) m)
answers_cover task before after (a ∷ xs) h qid m =
    let (first, rest) = >>-eq-ok (check_answer task before a) _ h in
    elim (answers_cover task (a.question_id ∷ before) after xs rest qid m) [
      | inl (Memᴰ.head e) ↦
          let (owner, text) = answer_fact task before a first in
          inr (a, Memᴰ.head refl, sym e, owner, text)
      | inl (Memᴰ.tail r) ↦ inl r
      | inr (b, r, e, owner, text) ↦ inr (b, Memᴰ.tail r, e, owner, text)
    ]

pub answered-IsAnswered :
    (u : Unicode) (task : Task) (acc : Accepted u task) (qid : String)
    → contains acc.answered qid ≡ true
    → IsAnswered task qid
answered-IsAnswered u task acc qid h =
    elim (answers_cover task [] acc.answered task.answers acc.answers qid
      (contains-Mem acc.answered qid h)) [
        | inl m ↦ elim m [ ]
        | inr (a, m, e, owner, text) ↦ record {
          answer = a;
          among = m;
          to_question = e;
          by_owner = owner;
          has_text = text;
        }
      ]

rule_answer :
    (u : Unicode) (task : Task) (acc : Accepted u task) (r : FinalRule)
    → check_rule task acc.answered r ≡ ok tt
    → FollowsAnswer task r.question_id
unfolding check_rule check_rule_question
rule_answer u task acc r h = follows r.question_id (>>-eq-ok _ _ (>>-eq-ok _ _ h).1).1
  where
    follows :
        (o : Option String)
        → check_rule_question task acc.answered r o ≡ ok tt
        → FollowsAnswer task o
    follows none g = tt
    follows (some qid) g =
        answered-IsAnswered u task acc qid (not-eq-false _ (raise_if-eq-ok _ _ (>>-eq-ok _ _ g).0))

evidence_fact :
    (task : Task) (c : TestCase) (e : Evidence)
    → check_evidence task c e ≡ ok tt
    → IsGrounded task c e
unfolding check_evidence
evidence_fact task c e h = grounded (get_by path_id e.path_id task.paths) refl (>>-eq-ok _ _ h)
  where
    grounded :
        (o : Option CriticalPath)
        → get_by path_id e.path_id task.paths ≡ o
        → (check_known o e ≡ ok tt)
          × (raise_if
                (not (contains c.steps e.step) || not (contains c.expected e.expected))
                (value_error "Evidence must reference actual steps and expected outcomes")
              ≡ ok tt)
        → IsGrounded task c e
    grounded none found g = cc (g.0)
    grounded (some path) found g =
        let (m, named) = get_by-Mem path_id e.path_id task.paths path found in
        let (stepped, expected) = not_or-eq-false _ _ (raise_if-eq-ok _ _ g.1) in
        record {
          path = path;
          known = m;
          named = named;
          checked = contains-Mem path.checks e.check (not-eq-false _ (raise_if-eq-ok _ _ g.0));
          stepped = contains-Mem c.steps e.step stepped;
          expected = contains-Mem c.expected e.expected expected;
        }

case_fact :
    (task : Task) (c : TestCase) → check_case task c ≡ ok tt → All (IsGrounded task c) c.evidence
unfolding check_case
case_fact task c h =
    All-map (evidence_fact task c) c.evidence (each-eq-ok _ _ (>>-eq-ok _ _ (>>-eq-ok _ _ h).1).1)

-- In a task that `validate` accepts, requirements name existing sources, questions and rules name
-- existing requirements, paths name existing rules; a rule that names a question follows an
-- answer by the owner, with text; evidence names a check of an existing path, and a step and an
-- outcome of its case.
pub validate-IsTraceable : (u : Unicode) (task : Task) → validate u task ≡ ok tt → IsTraceable task
validate-IsTraceable u task h =
    let acc = validate-Accepted u task h in
    record {
      requirements = All-map (requirement_refs task) task.requirements acc.requirements;
      questions = questions_refs u task unseen task.questions acc.questions;
      rules = All-map (rule_refs task acc.answered) task.rules acc.rules;
      answers = All-map (rule_answer u task acc) task.rules acc.rules;
      paths = All-map (path_refs task) task.paths acc.paths;
      evidence = All-map (case_fact task) task.cases acc.cases;
    }
