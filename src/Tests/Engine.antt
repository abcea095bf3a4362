-- ===== src/Tests/Engine.antt =====
-- The store and the engine, on small inputs.
use my_ops.Prelude.{
  false, ◌==◌, string_eq, true, subst, get_by, sym, ap, ◌∙◌, ◌++◌, some, Memᴰ, ◌≡◌, ◌≢◌, refl, true,
  ok, err, List, [], ◌∷◌, ℕ, String, Result,
}
use my_ops.Task.{
  integrity_error, ready, generated, State, Error, Task, collecting, review, cancelled, generating,
  version_conflict, transition, allowed, new_task,
}
use my_ops.Storage.{is_safe_name, safe_name}
use my_ops.Store.{
  Row, row_id, new_row, Db, change, change_body, create, create_rows, read, save, bump,
  project_processing, discard_cancelled_staging, register_outputs, update_task, update_rows,
  insert_history,
}
use my_ops.Store.Rows.{IsConsistent}
use my_ops.Store.Create.{create-IsConsistent}
use my_ops.Store.Created.{create-Returns}
use my_ops.Store.Changes.{IsProper, change-IsConsistent, change-Returns, change_serial}
use my_ops.Engine.{
  start_review_cmd, confirm_cmd, act, start_review, confirm, begin_generation, Request, new,
  command, handle_all,
}
use my_ops.Engine.Life.{act-follows_table, act-IsProper}
use my_ops.Engine.Confirmed.{mode_of, begin_after_confirm}
use my_ops.Engine.Traces.{handle_all-IsConsistent}
use my_ops.Tests.Samples.{plain, finished, promised, export, empty_db}
use my_ops.Tests.Review.{gate_all}

empty-IsConsistent : IsConsistent [] []
empty-IsConsistent = record {
  rows = tt;
  ids = λ r s m. elim m [ ];
  active = λ r s m. elim m [ ];
  past = tt;
  owned = tt;
}

abbrev one_db : Db
one_db = (create empty_db "t1" "7").1

one-IsConsistent : IsConsistent one_db.tasks one_db.history
one-IsConsistent = create-IsConsistent empty_db "t1" "7" empty-IsConsistent

abbrev begin_review : Task → Result Error Task
begin_review = act plain export "7" start_review_cmd

begin_review-IsProper : IsProper begin_review
begin_review-IsProper = act-IsProper plain export "7" start_review_cmd

store_all : Unit {0}
unfolding change change_body create create_rows read save project_processing
    discard_cancelled_staging register_outputs update_task update_rows insert_history safe_name
    new_task act start_review transition allowed
store_all = tt

first_change :
    (change one_db "t1" "7" 1 begin_review).0
    ≡ ok (record (new_task "t1" "7") { state = review; version = 2 })
unfolding store_all
first_change = refl

abbrev fresh_task : Task
fresh_task = new_task "t1" "7"

begun : (begin_review fresh_task) ≡ ok (record (new_task "t1" "7") { state = review })
unfolding store_all
begun = refl

change-IsConsistent_example :
    let db' = (change one_db "t1" "7" 1 begin_review).1 in IsConsistent db'.tasks db'.history
change-IsConsistent_example =
    change-IsConsistent one_db "t1" "7" 1 begin_review begin_review-IsProper one-IsConsistent

one_read : read one_db "t1" ≡ ok fresh_task
unfolding store_all
one_read = refl

one_owner : fresh_task.user_id ≡ "7"
unfolding store_all
one_owner = refl

one_version : fresh_task.version ≡ 1
unfolding store_all
one_version = refl

safe_t1 : is_safe_name "t1" ≡ true
unfolding is_safe_name
safe_t1 = refl

change-Returns_example :
    (change one_db "t1" "7" 1 begin_review).0
    ≡ ok (bump one_db (record (new_task "t1" "7") { state = review }))
change-Returns_example =
    change-Returns one_db "t1" "7" 1 begin_review fresh_task
      (record (new_task "t1" "7") { state = review }) begin_review-IsProper one-IsConsistent safe_t1
      one_read one_owner one_version begun

abbrev reviewed : Task
reviewed = record (new_task "t1" "7") { state = review; version = 2 }

change_serial_example :
    (reviewed.version ≡ 2)
    × ((change (change one_db "t1" "7" 1 begin_review).1 "t1" "7" 1 begin_review).0
        ≡ err version_conflict)
change_serial_example =
    change_serial one_db "t1" "7" 1 begin_review begin_review reviewed begin_review-IsProper
      one-IsConsistent first_change

not_true : false ≡ true → ⊥
not_true e = cc

t1_other : ◌≡◌ {A = String} "t1" "t2" → ⊥
t1_other e = not_true (subst (λ (x : String). ("t1" == x) ≡ true) e refl)

user7_other : ◌≡◌ {A = String} "7" "8" → ⊥
user7_other e = not_true (subst (λ (x : String). ("7" == x) ≡ true) e refl)

other_id : (r : Row) → Memᴰ r one_db.tasks → r.id ≡ "t2" → ⊥
unfolding store_all
other_id r (Memᴰ.head e) same = t1_other (ap (λ (x : Row). x.id) (sym e) ∙ same)
other_id r (Memᴰ.tail m) same = elim m [ ]

other_user : (r : Row) → Memᴰ r one_db.tasks → r.user_id ≡ "8" → r.state ≡ cancelled
unfolding store_all
other_user r (Memᴰ.head e) same = absurd (user7_other (ap (λ (x : Row). x.user_id) (sym e) ∙ same))
other_user r (Memᴰ.tail m) same = elim m [ ]

create-Returns_example :
    let (answer, db') = create one_db "t2" "8" in
    (answer ≡ ok (new_task "t2" "8"))
    × (get_by row_id "t2" db'.tasks ≡ some (new_row "t2" "8"))
    × (db'.tasks ≡ one_db.tasks ++ new_row "t2" "8" ∷ [])
    × ((other : String) → create db' other "8" ≡ (err (integrity_error "tasks"), db'))
create-Returns_example = create-Returns one_db "t2" "8" one-IsConsistent other_id other_user

act-follows_table_example :
    (collecting ≢ cancelled)
    × (Memᴰ collecting (collecting ∷ ready ∷ generated ∷ []) × ◌≡◌ {A = State} review review)
    × ◌≡◌ {A = String} "t1" "t1"
    × ◌≡◌ {A = String} "7" "7"
    × ◌≡◌ {A = ℕ} 1 1
unfolding store_all
act-follows_table_example =
    act-follows_table plain export "7" start_review_cmd (new_task "t1" "7")
      (record (new_task "t1" "7") { state = review }) begun

abbrev requests : List Request
requests =
    new "t1" "7" "private"
    ∷ command "private" "t1" "7" 1 start_review_cmd
    ∷ new "t2" "7" "private"
    ∷ []

handle_all-IsConsistent_example :
    let db' = handle_all plain export ("7" ∷ []) empty_db requests in
    IsConsistent db'.tasks db'.history
handle_all-IsConsistent_example =
    handle_all-IsConsistent plain export ("7" ∷ []) empty_db requests empty-IsConsistent

engine_all : Unit {0}
unfolding store_all gate_all confirm begin_generation
engine_all = tt

confirmed_task : act plain export "7" (confirm_cmd "生成") finished ≡ ok promised
unfolding engine_all
confirmed_task = refl

abbrev started : Task
started = record (bump empty_db promised) { state = generating }

begun_task : begin_generation plain "formal" (bump empty_db promised) ≡ ok started
unfolding engine_all
begun_task = refl

begin_after_confirm_example :
    (text : String) × (confirm_cmd "生成" ≡ confirm_cmd text) × (mode_of text ≡ "formal")
begin_after_confirm_example =
    begin_after_confirm plain export "7" (confirm_cmd "生成") "formal" empty_db finished promised
      started confirmed_task begun_task
