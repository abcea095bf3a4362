-- ===== src/Engine/Traces.antt =====
-- engine.py over any sequence of requests.
use my_ops.Prelude.{String, Bool, true, false, List, [], ◌∷◌, ℕ, Result, ok, err, if◌then◌else◌}
use my_ops.Task.{Task, Error}
use my_ops.Review.{Unicode}
use my_ops.Store.{Db}
use my_ops.Store.Rows.{IsConsistent}
use my_ops.Store.Changes.{change-IsConsistent}
use my_ops.Store.Create.{create-IsConsistent}
use my_ops.Engine.{
  Export, Command, begin_cmd, finish_cmd, authorized, run_command, generate, Request, new, command,
  generation, handle, handle_all,
}
use my_ops.Engine.Life.{act-IsProper}

abbrev pub Holds : Db → Type 0
Holds db = IsConsistent db.tasks db.history

Holds-if :
    (b : Bool) (m n : Result Error Task × Db) → Holds m.1 → Holds n.1 → Holds (if b then m else n).1
Holds-if true m n hm hn = hm
Holds-if false m n hm hn = hn

module _ (u : Unicode) (export : Export) (whitelist : List String) where
  run_command-Holds :
      (db : Db) (chat tid user : String) (v : ℕ) (c : Command)
      → Holds db
      → Holds (run_command u export whitelist db chat tid user v c).1
  unfolding run_command
  run_command-Holds db chat tid user v c h =
      Holds-if (authorized whitelist user chat) _ _
        (change-IsConsistent db tid user v _ (act-IsProper u export user c) h) h

  generate-Holds :
      (db : Db) (chat tid user : String) (v : ℕ) (mode : String)
      → Holds db
      → Holds (generate u export whitelist db chat tid user v mode).1
  unfolding generate
  generate-Holds db chat tid user v mode h =
      let (begun, db') = run_command u export whitelist db chat tid user v (begin_cmd mode) in
      finished begun db' (run_command-Holds db chat tid user v (begin_cmd mode) h)
    where
      finished :
          (begun : Result Error Task) (db' : Db)
          → Holds db'
          → Holds
              (elim begun as (λ _. Result Error Task × Db) [
                | err e ↦ (err e, db')
                | ok task ↦
                    run_command u export whitelist db' chat tid user task.version (finish_cmd mode)
              ]).1
      finished (err e) db' h' = h'
      finished (ok task) db' h' =
          run_command-Holds db' chat tid user task.version (finish_cmd mode) h'

  handle-Holds : (db : Db) (r : Request) → Holds db → Holds (handle u export whitelist db r).1
  unfolding handle
  handle-Holds db (new id user chat) h =
      Holds-if (authorized whitelist user chat) _ _ (create-IsConsistent db id user h) h
  handle-Holds db (command chat tid user v c) h = run_command-Holds db chat tid user v c h
  handle-Holds db (generation chat tid user v mode) h = generate-Holds db chat tid user v mode h

  -- Whatever requests come, from whomever, consistent tables stay consistent: a user never has two
  -- tasks that are not cancelled, the columns of a row agree with its task, and the history of a
  -- task never runs ahead of it.
  pub handle_all-IsConsistent :
      (db : Db) (requests : List Request)
      → IsConsistent db.tasks db.history
      → let db' = handle_all u export whitelist db requests in IsConsistent db'.tasks db'.history
  unfolding handle_all
  handle_all-IsConsistent db [] h = h
  handle_all-IsConsistent db (r ∷ rs) h =
      handle_all-IsConsistent (handle u export whitelist db r).1 rs (handle-Holds db r h)
