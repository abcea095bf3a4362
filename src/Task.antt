-- ===== src/Task.antt =====
-- tg_testcase/models.py: the task of a user, its parts, and its life as a state machine.
-- A task's JSON text (`dumps`, `loads`) is the record itself.
use my_ops.Prelude.{
  ℕ, String, Bool, true, false, ◌&&◌, Option, none, List, [], all, ◌==◌, string_eq, Result, ok, err,
}

pub data State : Type 0 where
  collecting review ready generating generated cancelled : State

-- `target in TRANSITIONS[state]`
unfoldable pub allowed : State → State → Bool
allowed collecting review = true
allowed collecting cancelled = true
allowed review ready = true
allowed review cancelled = true
allowed ready review = true
allowed ready generating = true
allowed ready cancelled = true
allowed generating generated = true
allowed generating ready = true
allowed generating cancelled = true
allowed generated review = true
allowed generated cancelled = true
allowed _ _ = false

-- The exceptions of the offline task system.
pub data Error : Type 0 where
  value_error : String → Error
  key_error : String → Error
  permission_error : String → Error
  version_conflict : Error
  generation_blocked : List String → Error
  integrity_error : String → Error
  lease_lost : String → Error
  type_error : Error

pub record Source : Type 0 where
  pub id : String
  pub kind : String
  pub locator : String
  pub content : String
  pub references : List String
  pub status : String
  pub complete : Bool
  pub critical : Bool
  pub failure : String
  pub origin : String
  pub input_sha256 : Option String
  pub byte_length : Option ℕ
  pub revision : ℕ
  pub components : List (String × Bool)

-- `Source.readable`
unfoldable pub readable : Source → Bool
readable s = s.status == "parsed" && s.complete && all (λ (_, complete). complete) s.components

pub record Requirement : Type 0 where
  pub id : String
  pub text : String
  pub source_ids : List String

pub record Question : Type 0 where
  pub id : String
  pub key : String
  pub text : String
  pub priority : String
  pub requirement_ids : List String
  pub round : ℕ
  pub conflict : Bool
  pub skipped : Bool

pub record Answer : Type 0 where
  pub question_id : String
  pub user_id : String
  pub text : String

pub record FinalRule : Type 0 where
  pub id : String
  pub text : String
  pub requirement_ids : List String
  pub question_id : Option String

pub record CriticalPath : Type 0 where
  pub id : String
  pub text : String
  pub rule_ids : List String
  pub checks : List String
  pub ai : Bool

pub record Evidence : Type 0 where
  pub path_id : String
  pub check : String
  pub step : String
  pub expected : String

pub record TestCase : Type 0 where
  pub id : String
  pub module_name : String
  pub description : String
  pub preconditions : String
  pub steps : List String
  pub expected : List String
  pub evidence : List Evidence
  pub ai : Bool

-- The dictionary `task.confirmation`.
pub record Confirmation : Type 0 where
  pub mode : String
  pub version : ℕ
  pub user_id : String

-- An entry of `task.outputs`; `report` is the text of its `coverage` and `regression`.
pub record Output : Type 0 where
  pub file : String
  pub version : ℕ
  pub mode : String
  pub report : String

-- An entry of `task.processing_barrier`.
pub record Barrier : Type 0 where
  pub batch_id : String
  pub status : String

pub record Task : Type 0 where
  pub id : String
  pub user_id : String
  pub state : State
  pub version : ℕ
  pub sources : List Source
  pub requirements : List Requirement
  pub questions : List Question
  pub answers : List Answer
  pub rules : List FinalRule
  pub paths : List CriticalPath
  pub cases : List TestCase
  pub confirmation : Option Confirmation
  pub outputs : List Output
  pub recovery_note : String
  pub pending_messages : List String
  pub processing_barrier : List Barrier

-- `Task(id, user_id)`, the other fields at their defaults
unfoldable pub new_task : String → String → Task
new_task id user_id = record {
  id = id;
  user_id = user_id;
  state = collecting;
  version = 1;
  sources = [];
  requirements = [];
  questions = [];
  answers = [];
  rules = [];
  paths = [];
  cases = [];
  confirmation = none;
  outputs = [];
  recovery_note = "";
  pending_messages = [];
  processing_barrier = [];
}

-- `Task.transition`
unfoldable pub transition : State → Task → Result Error Task
transition target task = elim (allowed task.state target) [
  | true ↦ ok (record task { state = target })
  | false ↦ err (value_error "Invalid transition")
]
