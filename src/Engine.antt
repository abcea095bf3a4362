-- ===== src/Engine.antt =====
-- tg_testcase/engine.py and sources.py: the commands on a task. Each `action` closure of the source
-- is a function on the task here; `Store.change` runs it under a version.
pub mod Actions
pub mod Edits
pub mod Steps
pub mod Life
pub mod Confirmed
pub mod Traces
use my_ops.Prelude.{
  ℕ, suc, ◌+◌, ◌++◌, ◌≤◌, String, Bool, true, false, not, ◌&&◌, ◌||◌, Option, none, some, List, [],
  ◌∷◌, map, Result, ok, err, ◌>>=◌, ◌>>◌, raise_if, each, any, contains, get_by, is_empty, ◌==◌,
  nat_eq, string_eq, option_eq, list_eq, if◌then◌else◌, ltb, is_blank, select,
}
use my_ops.Task.{
  State, collecting, review, ready, generating, generated, cancelled, Error, value_error,
  permission_error, Source, Requirement, Question, Answer, FinalRule, CriticalPath, TestCase,
  Confirmation, Output, Task, transition,
}
use my_ops.Review.{Unicode, rule_id, question_id, validate, unresolved_p0}
use my_ops.Gate.{is_ready, gate}
use my_ops.Store.{Db, change, get, create}

abbrev pub is_review : State → Bool
is_review review = true
is_review _ = false

-- `_edit`
unfoldable pub edit_state : State → Task → Result Error Task
edit_state cancelled task = err (value_error "Task cannot be edited in this state")
edit_state generating task = err (value_error "Task cannot be edited in this state")
edit_state ready task = transition review task
edit_state generated task = transition review task
edit_state _ task = ok task

unfoldable pub edit : Task → Result Error Task
edit task = do task' ← edit_state task.state task; ok (record task' { confirmation = none })

-- `validate(task)` as the end of an action
unfoldable pub validated : Unicode → Task → Result Error Task
validated u task = do validate u task; ok task

-- The `action` of `add_source`, for the source that the parser made of the upload, and that of
-- `add_reference`. The checks of a file's name and size come before it and are not modelled.
unfoldable pub add_source : Source → Task → Result Error Task
add_source source task = do
  task' ← edit task
  ok (record task' { sources = task'.sources ++ source ∷ [] })

-- The source that `add_reference` adds: it is not read yet.
unfoldable pub reference_source : String → String → Bool → Source
reference_source id locator critical = record {
  id = id;
  kind = "notion";
  locator = locator;
  content = "";
  references = [];
  status = "unsupported";
  complete = false;
  critical = critical;
  failure = "Notion parser is not implemented; no network request made";
  origin = "legacy_unknown";
  input_sha256 = none;
  byte_length = none;
  revision = 1;
  components = [];
}

unfoldable pub start_review : Task → Result Error Task
start_review task = transition review task

abbrev pub rule_beq : FinalRule → FinalRule → Bool
rule_beq a b =
    a.id == b.id
    && (a.text == b.text
        && (a.requirement_ids == b.requirement_ids && a.question_id == b.question_id))

abbrev pub same_rule : Option FinalRule → FinalRule → Bool
same_rule none rule = false
same_rule (some r) rule = rule_beq r rule

-- `bool(rule.question_id)`
abbrev pub is_set : Option String → Bool
is_set none = false
is_set (some q) = not (q == "")

unfoldable pub keep_confirmed : List FinalRule → FinalRule → Result Error (Unit {0})
keep_confirmed incoming rule =
    raise_if (is_set rule.question_id && not (same_rule (get_by rule_id rule.id incoming) rule))
      (value_error "Confirmed rule cannot be removed/changed; reset review explicitly")

unfoldable pub require_review : Task → Result Error (Unit {0})
require_review task = raise_if (not (is_review task.state)) (value_error "Start review first")

unfoldable pub design :
    Unicode
    → List Requirement
    → List FinalRule
    → List CriticalPath
    → List TestCase
    → Task
    → Result Error Task
design u requirements rules paths cases task = do
  task' ← edit task
  require_review task'
  each (keep_confirmed rules) task'.rules
  validated u
      (record task' { requirements = requirements; rules = rules; paths = paths; cases = cases })

abbrev pub max : ℕ → ℕ → ℕ
max a b = if ltb a b then b else a

unfoldable pub max_from : ℕ → List Question → ℕ
max_from m [] = m
max_from m (q ∷ qs) = max_from (max m q.round) qs

-- `max((q.round for q in task.questions), default=1)`
unfoldable pub current_round : List Question → ℕ
current_round [] = 1
current_round (q ∷ qs) = max_from q.round qs

unfoldable pub ask : Unicode → List Question → Task → Result Error Task
ask u questions task = do
  task' ← edit task
  require_review task'
  let now = current_round task'.questions
  raise_if (any (λ q. ltb q.round now || ltb (suc now) q.round) questions)
      (value_error "Review rounds must be consecutive")
  raise_if (any (λ q. ltb now q.round) questions && is_empty (unresolved_p0 task'))
      (value_error "Further review round requires unresolved P0")
  validated u (record task' { questions = task'.questions ++ questions })

-- `next((q for q in questions if q.id == qid), None)`
unfoldable pub first_question : String → List Question → Option Question
first_question qid [] = none
first_question qid (q ∷ qs) =
    let rest = first_question qid qs in if q.id == qid then some q else rest

unfoldable pub add_answer :
    String → String → String → String → String → Task → Option Question → Result Error Task
add_answer user qid text rule_id final_text task none = err (value_error "Unknown question")
add_answer user qid text rule_id final_text task (some q) = ok (record task {
  answers = task.answers ++ record { question_id = q.id; user_id = user; text = text } ∷ [];
  rules =
      task.rules
      ++ record {
        id = rule_id;
        text = final_text;
        requirement_ids = q.requirement_ids;
        question_id = some q.id;
      }
        ∷ [];
})

unfoldable pub answer :
    Unicode → String → String → String → String → String → Task → Result Error Task
answer u user qid text rule_id final_text task = do
  task' ← edit task
  task'' ← add_answer user qid text rule_id final_text task' (first_question qid task'.questions)
  validated u task''

-- `q.skipped = True` on the first question with the identifier
unfoldable pub set_skipped : String → List Question → List Question
set_skipped qid [] = []
set_skipped qid (q ∷ qs) =
    let rest = set_skipped qid qs in
    if q.id == qid then record q { skipped = true } ∷ qs else q ∷ rest

abbrev pub is_none : Option Question → Bool
is_none none = true
is_none (some q) = false

unfoldable pub skip : Unicode → String → Task → Result Error Task
skip u qid task = do
  task' ← edit task
  raise_if (is_none (first_question qid task'.questions)) (value_error "Unknown question")
  validated u (record task' { questions = set_skipped qid task'.questions })

unfoldable pub make_ready : Unicode → Task → Result Error Task
make_ready u task = do
  validate u task
  task' ← transition ready task
  ok (record task' { confirmation = none })

abbrev pub formal_text : String
formal_text = "生成"

abbrev pub draft_text : String
draft_text = "带缺口生成草稿"

unfoldable pub confirm : String → Task → Result Error Task
confirm text task = do
  raise_if (not (is_ready task.state) || not (contains (formal_text ∷ draft_text ∷ []) text))
      (value_error "Reply exactly to a ready task")
  ok (record task {
    confirmation = some (record {
      mode = if text == formal_text then "formal" else "draft";
      version = suc task.version;
      user_id = task.user_id;
    });
  })

-- `begin` of `generate`
unfoldable pub begin_generation : Unicode → String → Task → Result Error Task
begin_generation u mode task = do gate u task mode; transition generating task

-- What `generate` calls outside the task: `render` and `validate_export` of the workbook and the
-- writes of its files. It answers with the file's name and the report, or fails.
abbrev pub Export : Type 0
Export = Task → String → Result Error (String × String)

abbrev pub with_output : String → String × String → Task → Task
with_output mode (file, report) task = record task {
  outputs =
      task.outputs
      ++ record { file = file; version = suc task.version; mode = mode; report = report } ∷ [];
}

-- `finish` of `generate`
unfoldable pub finish_generation : Unicode → Export → String → Task → Result Error Task
finish_generation u export mode task = do
  gate u task mode
  made ← export task mode
  task' ← transition generated (with_output mode made task)
  ok (record task' { confirmation = none })

unfoldable pub cancel : Task → Result Error Task
cancel task = do task' ← transition cancelled task; ok (record task' { confirmation = none })

abbrev pub is_collecting : State → Bool
is_collecting collecting = true
is_collecting _ = false

unfoldable pub to_review : Task → Result Error Task
to_review task = if is_collecting task.state then transition review task else ok task

unfoldable pub reset : Task → Result Error Task
reset task = do
  task' ← edit task
  task'' ← to_review task'
  ok (record task'' {
    requirements = [];
    questions = [];
    answers = [];
    rules = [];
    paths = [];
    cases = [];
  })

-- The commands that change a task, with their arguments.
pub data Command : Type 0 where
  add_source_cmd : Source → Command
  start_review_cmd : Command
  design_cmd : List Requirement → List FinalRule → List CriticalPath → List TestCase → Command
  ask_cmd : List Question → Command
  answer_cmd : (qid text rule_id final_text : String) → Command
  skip_cmd : String → Command
  ready_cmd : Command
  confirm_cmd : String → Command
  begin_cmd : String → Command
  finish_cmd : String → Command
  cancel_cmd : Command
  reset_cmd : Command

-- The action of a command that a user gives.
unfoldable pub act : Unicode → Export → String → Command → Task → Result Error Task
act u export user (add_source_cmd source) = add_source source
act u export user start_review_cmd = start_review
act u export user (design_cmd requirements rules paths cases) =
    design u requirements rules paths cases
act u export user (ask_cmd questions) = ask u questions
act u export user (answer_cmd qid text rule_id final_text) =
    answer u user qid text rule_id final_text
act u export user (skip_cmd qid) = skip u qid
act u export user ready_cmd = make_ready u
act u export user (confirm_cmd text) = confirm text
act u export user (begin_cmd mode) = begin_generation u mode
act u export user (finish_cmd mode) = finish_generation u export mode
act u export user cancel_cmd = cancel
act u export user reset_cmd = reset

-- `_authorize`
unfoldable pub authorized : List String → String → String → Bool
authorized whitelist user chat = contains whitelist user && chat == "private"

-- `_change`: a command of a user on a version of a task
unfoldable pub run_command :
    Unicode
    → Export
    → List String
    → Db
    → String
    → String
    → String
    → ℕ
    → Command
    → Result Error Task × Db
run_command u export whitelist db chat tid user version command =
    if authorized whitelist user chat
    then change db tid user version (act u export user command)
    else (err (permission_error "Whitelisted private-chat users only"), db)

-- `generate`: two changes, the second on the version that the first made
unfoldable pub generate :
    Unicode
    → Export
    → List String
    → Db
    → String
    → String
    → String
    → ℕ
    → String
    → Result Error Task × Db
generate u export whitelist db chat tid user version mode =
    let (begun, db') = run_command u export whitelist db chat tid user version (begin_cmd mode) in
    elim begun [
      | err e ↦ (err e, db')
      | ok task ↦ run_command u export whitelist db' chat tid user task.version (finish_cmd mode)
    ]

-- What a user can ask of the engine; `new` comes with the identifier that `uuid4` gives.
pub data Request : Type 0 where
  new : (id user chat : String) → Request
  command : (chat tid user : String) → ℕ → Command → Request
  generation : (chat tid user : String) → ℕ → String → Request

unfoldable pub handle : Unicode → Export → List String → Db → Request → Result Error Task × Db
handle u export whitelist db (new id user chat) =
    if authorized whitelist user chat
    then create db id user
    else (err (permission_error "Whitelisted private-chat users only"), db)
handle u export whitelist db (command chat tid user version c) =
    run_command u export whitelist db chat tid user version c
handle u export whitelist db (generation chat tid user version mode) =
    generate u export whitelist db chat tid user version mode

unfoldable pub handle_all : Unicode → Export → List String → Db → List Request → Db
handle_all u export whitelist db [] = db
handle_all u export whitelist db (r ∷ rs) =
    handle_all u export whitelist (handle u export whitelist db r).1 rs
