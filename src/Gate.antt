-- ===== src/Gate.antt =====
-- tg_testcase/gates.py: what must hold before test cases are generated.
pub mod Laws
use my_ops.Prelude.{
  ℕ, suc, ◌++◌, String, Bool, true, false, not, ◌&&◌, ◌||◌, Option, none, some, List, [], ◌∷◌,
  Result, ok, err, ◌>>=◌, ◌>>◌, raise_if, is_empty, any, contains, ◌==◌, nat_eq, string_eq,
  if◌then◌else◌,
}
use my_ops.Task.{State, ready, generating, Error, generation_blocked, Confirmation, Task, readable}
use my_ops.Review.{Unicode, unresolved_p0, validate}

abbrev pub is_ready : State → Bool
is_ready ready = true
is_ready _ = false

abbrev pub is_generating : State → Bool
is_generating generating = true
is_generating _ = false

-- `task.version if task.state == State.READY else task.version - 1` is the version of `c`; the
-- second is written as a sum, since versions are natural numbers here.
abbrev pub expected_version : Task → ℕ → Bool
expected_version task v = if is_ready task.state then v == task.version else suc v == task.version

-- `c == {"mode": mode, "version": expected_version, "user_id": task.user_id}`
unfoldable pub confirmed : Task → String → Option Confirmation → Bool
confirmed task mode none = false
confirmed task mode (some c) =
    c.mode == mode && (expected_version task c.version && c.user_id == task.user_id)

-- `if test: reasons.append(text)`
abbrev pub reason : Bool → String → List String
reason b text = if b then text ∷ [] else []

unfoldable pub formal_reasons : Task → List String
formal_reasons task =
    reason (not (is_empty (unresolved_p0 task))) "Unresolved P0"
    ++ reason (is_empty task.sources || any (λ s. s.critical && not (readable s)) task.sources)
        "Critical source incomplete"

unfoldable pub reasons : Task → String → List String
reasons task mode =
    reason
      (any (λ b. contains ("open" ∷ "pending" ∷ "claimed" ∷ "processing" ∷ []) b.status)
        task.processing_barrier)
      "Collection processing pending"
    ++ (reason (not (is_empty task.pending_messages)) "User messages pending review processor"
        ++ (reason (not (mode == "formal" || mode == "draft")) "Unknown generation mode"
            ++ (reason (not (is_ready task.state || is_generating task.state)) "Task not ready"
                ++ (reason (not (confirmed task mode task.confirmation))
                      "Explicit current-version generation confirmation required"
                    ++ ((if mode == "formal" then formal_reasons task else [])
                        ++ reason
                            (is_empty task.requirements
                              || is_empty task.paths
                              || is_empty task.cases)
                            "Requirements, paths and actual cases required")))))

unfoldable pub gate : Unicode → Task → String → Result Error (Unit {0})
gate u task mode = do
  validate u task
  raise_if (not (is_empty (reasons task mode))) (generation_blocked (reasons task mode))
