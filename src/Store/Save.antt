-- ===== src/Store/Save.antt =====
-- store.py: what the write of a changed task does to the tables.
use my_ops.Prelude.{
  suc, ◌++◌, ◌≤◌, ◌≡◌, refl, sym, subst, ap, ◌∙◌, Bool, true, false, not, ◌&&◌, inl, inr, some, [],
  ◌∷◌, map, Memᴰ, Mem-append, Mem-cons, arith, ok, any, any-Mem, get_by, ◌==◌, nat_eq, string_eq,
  eq_iff, ==→eq, ==_refl, All-Mem, All-of-Mem, Bool-cases, >>=-eq-ok, >>-eq-ok, ok-injective,
}
use my_ops.Task.{Task}
use my_ops.Store.{
  Row, HistoryRow, Db, row_id, update_rows, project_processing, bump, prepared, save,
  discard_cancelled_staging, update_task, insert_history, other_active, is_cancelled,
}
use my_ops.Store.Rows.{
  IsTrue, IsPast, IsConsistent, rewritten, update_rows-Mem, rewritten-id, rewritten-user, IsOwned,
  Mem-row_id, ids-update_rows,
}

tasks-discard : (db : Db) (t : Task) → (discard_cancelled_staging db t).tasks ≡ db.tasks
unfolding discard_cancelled_staging
tasks-discard db t = ground arith

history-discard : (db : Db) (t : Task) → (discard_cancelled_staging db t).history ≡ db.history
unfolding discard_cancelled_staging
history-discard db t = ground arith

abbrev pub entry : Task → HistoryRow
entry t = record { task_id = t.id; version = t.version; payload = t }

-- What a write does when it succeeds, to a task that has a row.
pub record IsSaved (db : Db) (task t : Task) (db' : Db) : Type 0 where
  pub task_is : t ≡ bump db task
  pub tasks : db'.tasks ≡ update_rows (bump db task) db.tasks
  pub history : db'.history ≡ db.history ++ entry (bump db task) ∷ []

update_task-eq-ok :
    (db db' : Db) (t : Task) (row : Row)
    → get_by row_id t.id db.tasks ≡ some row
    → update_task db t ≡ ok db'
    → (db'.tasks ≡ update_rows t db.tasks) × (db'.history ≡ db.history)
unfolding update_task
update_task-eq-ok db db' t row found h =
    let (_, g) = >>-eq-ok _ _ (rw (found, update_task) at h) in
    (
      sym (ap (λ (d : Db). d.tasks) (ok-injective g)),
      sym (ap (λ (d : Db). d.history) (ok-injective g)),
    )

insert_history-eq-ok :
    (db db' : Db) (t : Task)
    → insert_history db t ≡ ok db'
    → (db'.tasks ≡ db.tasks) × (db'.history ≡ db.history ++ entry t ∷ [])
unfolding insert_history
insert_history-eq-ok db db' t h =
    let (_, g) = >>-eq-ok _ _ h in
    (
      sym (ap (λ (d : Db). d.tasks) (ok-injective g)),
      sym (ap (λ (d : Db). d.history) (ok-injective g)),
    )

pub save-IsSaved :
    (db db' : Db) (task t : Task) (row : Row)
    → get_by row_id task.id db.tasks ≡ some row
    → save db task ≡ ok (t, db')
    → IsSaved db task t db'
unfolding save project_processing
save-IsSaved db db' task t row found h =
    let b = bump db task in
    let (db1, up, h1) = >>=-eq-ok (update_task (prepared db b) b) _ h in
    let (db2, ins, h2) = >>=-eq-ok (insert_history db1 b) _ h1 in
    let there : get_by row_id b.id (prepared db b).tasks ≡ some row = rw tasks-discard found in
    let (rows1, past1) = update_task-eq-ok (prepared db b) db1 b row there up in
    let (rows2, past2) = insert_history-eq-ok db1 db2 b ins in
    let both = ok-injective h2 in
    let same : db2 ≡ db' = ap (λ (p : Task × Db). p.1) both in
    record {
      task_is = sym (ap (λ (p : Task × Db). p.0) both);
      tasks =
          ap (λ (d : Db). d.tasks) (sym same)
          ∙ rows2
          ∙ rows1
          ∙ ap (update_rows b) (tasks-discard db b);
      history =
          ap (λ (d : Db). d.history) (sym same)
          ∙ past2
          ∙ ap (λ past. past ++ entry b ∷ []) (past1 ∙ history-discard db b);
    }

update_task-ok :
    (db : Db) (t : Task) (row : Row)
    → get_by row_id t.id db.tasks ≡ some row
    → (not (is_cancelled t.state) && other_active t row.user_id db.tasks) ≡ false
    → update_task db t ≡ ok (record db { tasks = update_rows t db.tasks })
unfolding update_task
update_task-ok db t row found free = rw (found, update_task) (rw free)

abbrev with_entry : Db → Task → Db
with_entry db t = record db { history = db.history ++ entry t ∷ [] }

insert_history-ok :
    (db : Db) (t : Task)
    → any (λ h. h.task_id == t.id && h.version == t.version) db.history ≡ false
    → insert_history db t ≡ ok (with_entry db t)
unfolding insert_history
insert_history-ok db t free = rw free

-- A task that is about to be stored, and its row.
module _ (db : Db) (task : Task) (row : Row) (c : IsConsistent db.tasks db.history)
    (among : Memᴰ row db.tasks) (same_id : row.id ≡ task.id)
    (same_user : task.user_id ≡ row.user_id) (same_version : task.version ≡ row.version)
    (no_revival : is_cancelled row.state ≡ true → is_cancelled task.state ≡ true) where
  abbrev pub after : Task
  after = bump db task

  -- A row that the write reaches is the task's own.
  own_row : (r : Row) → Memᴰ r db.tasks → r.id ≡ task.id → r ≡ row
  own_row r m e = c.ids r row m among (e ∙ sym same_id)

  rewritten-IsTrue : (r : Row) → Memᴰ r db.tasks → IsTrue (rewritten after r)
  unfolding project_processing
  rewritten-IsTrue r m = elim (Bool-cases (r.id == task.id)) [
    | inl here ↦
        let e = ==→eq r.id task.id here in
        rw here (record {
          id = sym e;
          user = same_user ∙ ap (λ (r : Row). r.user_id) (sym (own_row r m e));
          state = refl;
          version = refl;
        })
    | inr other ↦ rw other (All-Mem IsTrue db.tasks c.rows m)
  ]

  -- The version of the row that a history entry belongs to only grows.
  version-rewritten : (r : Row) → Memᴰ r db.tasks → r.version ≤ (rewritten after r).version
  unfolding project_processing
  version-rewritten r m = elim (Bool-cases (r.id == task.id)) [
    | inl here ↦
        let e : r ≡ row = own_row r m (==→eq r.id task.id here) in
        rw here (omega (arith, ap (λ (r : Row). r.version) e, same_version))
    | inr other ↦ rw other (omega arith)
  ]

  version-own : (r : Row) → r.id ≡ task.id → (rewritten after r).version ≡ suc task.version
  unfolding project_processing
  version-own r e = rw e (rw (==_refl task.id) refl)

  still_active :
      (r : Row)
      → Memᴰ r db.tasks
      → is_cancelled (rewritten after r).state ≡ false
      → is_cancelled r.state ≡ false
  unfolding project_processing
  still_active r m h = elim (Bool-cases (r.id == task.id)) [
    | inl here ↦ awake (own_row r m (==→eq r.id task.id here)) (rw here at h)
    | inr other ↦ rw other at h
  ]
    where
      awake : r ≡ row → is_cancelled task.state ≡ false → is_cancelled r.state ≡ false
      awake e g = elim (Bool-cases (is_cancelled r.state)) [
        | inl dead ↦ cc (no_revival (subst (λ (x : Row). is_cancelled x.state ≡ true) e dead))
        | inr fine ↦ fine
      ]

  rewritten-after-IsConsistent :
      IsConsistent (update_rows after db.tasks) (db.history ++ entry after ∷ [])
  unfolding project_processing
  rewritten-after-IsConsistent = record {
    rows = All-of-Mem IsTrue _ λ r m.
        let (old, o, e) = update_rows-Mem after db.tasks r m in
        subst IsTrue (sym e) (rewritten-IsTrue old o);
    ids = λ r s mr ms e.
        let (r0, o, er) = update_rows-Mem after db.tasks r mr in
        let (s0, p, es) = update_rows-Mem after db.tasks s ms in
        er
        ∙ ap (rewritten after) (
            c.ids r0 s0 o p (
              sym (rewritten-id after r0)
              ∙ ap row_id (sym er)
              ∙ e
              ∙ ap row_id es
              ∙ rewritten-id after s0))
        ∙ sym es;
    active = λ r s mr ms same ar as'.
        let (r0, o, er) = update_rows-Mem after db.tasks r mr in
        let (s0, p, es) = update_rows-Mem after db.tasks s ms in
        let user = λ (x : Row). x.user_id in
        ap row_id er
        ∙ rewritten-id after r0
        ∙ c.active r0 s0 o p
            (sym (rewritten-user after r0)
              ∙ ap user (sym er)
              ∙ same
              ∙ ap user es
              ∙ rewritten-user after s0)
            (still_active r0 o (subst (λ (x : Row). is_cancelled x.state ≡ false) er ar))
            (still_active s0 p (subst (λ (x : Row). is_cancelled x.state ≡ false) es as'))
        ∙ sym (rewritten-id after s0)
        ∙ ap row_id (sym es);
    past = All-of-Mem (IsPast (update_rows after db.tasks)) _ λ h m r mr same.
        let (r0, o, er) = update_rows-Mem after db.tasks r mr in
        let id0 : r0.id ≡ h.task_id = sym (rewritten-id after r0) ∙ ap row_id (sym er) ∙ same in
        elim (Mem-append db.history (entry after ∷ []) h m) [
          | inl old ↦ omega (
            arith,
            ap (λ (x : Row). x.version) er,
            version-rewritten r0 o,
            All-Mem (IsPast db.tasks) db.history c.past old r0 o id0,
          )
          | inr new ↦ elim (Mem-cons h (entry after) [] new) [
            | inl e ↦ omega (
              arith,
              ap (λ (x : Row). x.version) er,
              ap (λ (x : HistoryRow). x.version) e,
              version-own r0 (id0 ∙ ap (λ (x : HistoryRow). x.task_id) e),
            )
            | inr none_left ↦ elim none_left [ ]
          ]
        ];
    owned = All-of-Mem (IsOwned (update_rows after db.tasks)) _ λ h m.
        rw ids-update_rows (elim (Mem-append db.history (entry after ∷ []) h m) [
          | inl old ↦ All-Mem (IsOwned db.tasks) db.history c.owned old
          | inr new ↦ elim (Mem-cons h (entry after) [] new) [
            | inl e ↦
                subst (λ k. Memᴰ k (map row_id db.tasks))
                  (same_id ∙ ap (λ (x : HistoryRow). x.task_id) (sym e))
                  (Mem-row_id row db.tasks among)
            | inr none_left ↦ elim none_left [ ]
          ]
        ]);
  }

  pub save-IsConsistent :
      (t : Task) (db' : Db) → IsSaved db task t db' → IsConsistent db'.tasks db'.history
  save-IsConsistent t db' s = rw (s.tasks, s.history) rewritten-after-IsConsistent

  -- Neither the index of active users nor the key of the history stands in the way of the write.
  no_rival : (not (is_cancelled task.state) && other_active task row.user_id db.tasks) ≡ false
  no_rival = free (is_cancelled task.state) (other_active task row.user_id db.tasks) refl refl
    where
      rival :
          is_cancelled task.state ≡ false
          → (r : Row) × Memᴰ r db.tasks
            × ((r.user_id == row.user_id && (not (r.id == task.id) && not (is_cancelled r.state)))
                ≡ true)
          → ⊥
      rival alive (r, m, p) =
          let user : r.user_id ≡ row.user_id = ground (arith, eq_iff r.user_id row.user_id) in
          let active : is_cancelled r.state ≡ false = ground arith in
          let own : is_cancelled row.state ≡ false = ground arith in
          let e = c.active r row m among user active own ∙ same_id in
          ground (arith, eq_iff r.id task.id)

      free :
          (dead taken : Bool)
          → is_cancelled task.state ≡ dead
          → other_active task row.user_id db.tasks ≡ taken
          → (not dead && taken) ≡ false
      free true taken e f = refl
      free false false e f = refl
      free false true e f = absurd (rival e (any-Mem _ db.tasks f))

  no_entry : any (λ h. h.task_id == task.id && h.version == suc task.version) db.history ≡ false
  no_entry =
      elim (Bool-cases
        (any (λ h. h.task_id == task.id && h.version == suc task.version) db.history)) [
          | inr free ↦ free
          | inl taken ↦
              let (h, m, p) = any-Mem _ db.history taken in
              let id : h.task_id ≡ task.id = ground (arith, eq_iff h.task_id task.id) in
              let version : h.version ≡ suc task.version = ground arith in
              let old =
                All-Mem (IsPast db.tasks) db.history c.past m row among (same_id ∙ sym id) in
              absurd (omega arith)
        ]

  pub save-Returns :
      get_by row_id task.id db.tasks ≡ some row → (db' : Db) × (save db task ≡ ok (after, db'))
  unfolding save project_processing
  save-Returns found =
      let d = prepared db after in
      let d1 = record d { tasks = update_rows after d.tasks } in
      let up : update_task d after ≡ ok d1 =
        update_task-ok d after row (rw tasks-discard found) (rw tasks-discard no_rival) in
      let ins = insert_history-ok d1 after (rw history-discard no_entry) in
      (with_entry d1 after, rw up (rw ins))
