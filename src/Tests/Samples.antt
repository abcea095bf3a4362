-- ===== src/Tests/Samples.antt =====
-- Small inputs.
use my_ops.Prelude.{true, false, none, some, [], ◌∷◌, ok}
use my_ops.Task.{
  Source, Requirement, Question, Answer, FinalRule, CriticalPath, Evidence, TestCase, Task, ready,
}
use my_ops.Review.{Unicode}
use my_ops.Store.{Db}
use my_ops.Engine.{Export}

-- Text that is plain already.
abbrev pub plain : Unicode
plain = record { nfkc_casefold = λ s. s; is_word = λ c. true }

abbrev pub source : Source
source = record {
  id = "s1";
  kind = "md";
  locator = "source/s1";
  content = "login";
  references = [];
  status = "parsed";
  complete = true;
  critical = true;
  failure = "";
  origin = "upload";
  input_sha256 = none;
  byte_length = some 5;
  revision = 1;
  components = [];
}

abbrev pub question : Question
question = record {
  id = "q1";
  key = "lockout";
  text = "how many tries";
  priority = "P0";
  requirement_ids = "r1" ∷ [];
  round = 1;
  conflict = false;
  skipped = false;
}

abbrev pub proof : Evidence
proof = record { path_id = "p1"; check = "locked"; step = "fail thrice"; expected = "locked out" }

abbrev pub login_case : TestCase
login_case = record {
  id = "c1";
  module_name = "login";
  description = "lockout";
  preconditions = "";
  steps = "fail thrice" ∷ [];
  expected = "locked out" ∷ [];
  evidence = proof ∷ [];
  ai = false;
}

abbrev pub rule : FinalRule
rule = record {
  id = "f1";
  text = "three tries";
  requirement_ids = "r1" ∷ [];
  question_id = some "q1";
}

abbrev pub requirement : Requirement
requirement = record { id = "r1"; text = "lock after failures"; source_ids = "s1" ∷ [] }

abbrev pub path : CriticalPath
path = record {
  id = "p1";
  text = "lockout";
  rule_ids = "f1" ∷ [];
  checks = "locked" ∷ [];
  ai = false;
}

abbrev pub reply : Answer
reply = record { question_id = "q1"; user_id = "7"; text = "three" }

-- A complete task, ready and not yet confirmed.
abbrev pub finished : Task
finished = record {
  id = "t1";
  user_id = "7";
  state = ready;
  version = 4;
  sources = source ∷ [];
  requirements = requirement ∷ [];
  questions = question ∷ [];
  answers = reply ∷ [];
  rules = rule ∷ [];
  paths = path ∷ [];
  cases = login_case ∷ [];
  confirmation = none;
  outputs = [];
  recovery_note = "";
  pending_messages = [];
  processing_barrier = [];
}

-- The same task once its owner has confirmed.
abbrev pub agreed : Task
agreed = record finished {
  version = 5;
  confirmation = some (record { mode = "formal"; version = 5; user_id = "7" });
}

abbrev pub empty_db : Db
empty_db = record {
  tasks = [];
  history = [];
  batches = [];
  fetch_runs = [];
  staging = [];
  artifacts = [];
  inputs = [];
  packages = [];
  input_manifests = [];
  processing_runs = [];
  contents = [];
  manifests = [];
}

abbrev pub export : Export
export task mode = ok ("output/formal.xlsx", "complete")

-- What the owner's confirmation makes of the finished task.
abbrev pub promised : Task
promised = record finished {
  confirmation = some (record { mode = "formal"; version = 5; user_id = "7" });
}
