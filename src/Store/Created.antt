-- ===== src/Store/Created.antt =====
-- store.py, `create`: when it makes the task, and what the tables say after it.
use my_ops.Prelude.{
  ◌++◌, ◌≡◌, refl, sym, subst, ◌∙◌, String, Bool, true, false, not, ◌&&◌, inl, inr, some, err, ok,
  List, [], ◌∷◌, map, Memᴰ, Mem-contains, contains-Mem, get_by, any, any-Mem, contains, ◌==◌,
  nat_eq, string_eq, ==→eq, ==_refl, Bool-cases, All-Mem, arith,
}
use my_ops.Acquisition.Tokens.{and-eq-true}
use my_ops.Task.{cancelled, integrity_error, new_task}
use my_ops.Store.{
  Row, HistoryRow, Db, row_id, is_cancelled, other_active, new_row, new_entry, create_rows, create,
}
use my_ops.Store.Rows.{IsOwned, IsConsistent, Mem-row_id}
use my_ops.Store.Create.{Mem-last}

get_by-last : (rows : List Row) (r : Row) → get_by row_id r.id (rows ++ r ∷ []) ≡ some r
get_by-last [] r = rw (==_refl r.id) refl
get_by-last (x ∷ rows) r = rw (get_by-last rows r) refl

any-last : (p : Row → Bool) (rows : List Row) (r : Row) → p r ≡ true → any p (rows ++ r ∷ []) ≡ true
any-last p [] r e = rw e refl
any-last p (x ∷ rows) r e = rw (any-last p rows r e) (ground arith)

id-row :
    (rows : List Row) (k : String) → Memᴰ k (map row_id rows) → (r : Row) × Memᴰ r rows × (r.id ≡ k)
id-row [] k m = elim m [ ]
id-row (x ∷ rows) k (Memᴰ.head e) = (x, Memᴰ.head refl, sym e)
id-row (x ∷ rows) k (Memᴰ.tail m) = let (r, there, e) = id-row rows k m in (r, Memᴰ.tail there, e)

-- An identifier that no row has, for a user with no live task.
module _ (db : Db) (id user : String) (c : IsConsistent db.tasks db.history)
    (other_id : (r : Row) → Memᴰ r db.tasks → r.id ≡ id → ⊥)
    (other_user : (r : Row) → Memᴰ r db.tasks → r.user_id ≡ user → r.state ≡ cancelled) where
  abbrev created : Db
  created = record db {
    tasks = db.tasks ++ new_row id user ∷ [];
    history = db.history ++ new_entry id user ∷ [];
  }

  not_taken : contains (map row_id db.tasks) id ≡ false
  not_taken = elim (Bool-cases (contains (map row_id db.tasks) id)) [
    | inl e ↦
        let (r, m, same) = id-row db.tasks id (contains-Mem (map row_id db.tasks) id e) in
        absurd (other_id r m same)
    | inr e ↦ e
  ]

  not_busy : other_active (new_task id user) user db.tasks ≡ false
  not_busy = elim (Bool-cases (other_active (new_task id user) user db.tasks)) [
    | inl e ↦
        let (r, m, live) = any-Mem _ db.tasks e in
        let (same, rest) = and-eq-true (r.user_id == user) _ live in
        let (_, alive) = and-eq-true (not (r.id == (new_task id user).id)) _ rest in
        let dead = other_user r m (==→eq r.user_id user same) in
        absurd (revived (subst (λ s. not (is_cancelled s) ≡ true) dead alive))
    | inr e ↦ e
  ]
    where
      revived : not (is_cancelled cancelled) ≡ true → ⊥
      revived e = cc

  not_used : any (λ (h : HistoryRow). h.task_id == id && h.version == 1) db.history ≡ false
  not_used =
      elim (Bool-cases (any (λ (h : HistoryRow). h.task_id == id && h.version == 1) db.history)) [
        | inl e ↦
            let (h, m, own) = any-Mem _ db.history e in
            let (same, _) = and-eq-true (h.task_id == id) _ own in
            let (r, there, at) =
              id-row db.tasks h.task_id (All-Mem (IsOwned db.tasks) db.history c.owned m) in
            absurd (other_id r there (at ∙ ==→eq h.task_id id same))
        | inr e ↦ e
      ]

  create-created : create db id user ≡ (ok (new_task id user), created)
  unfolding create create_rows
  create-created = rw (not_taken, not_busy, not_used) refl

  refused : (other : String) → create created other user ≡ (err (integrity_error "tasks"), created)
  unfolding create create_rows new_task
  refused other = elim (Bool-cases (id == other)) [
    | inl same ↦
        let m = Mem-row_id (new_row id user) created.tasks (Mem-last (new_row id user) db.tasks) in
        let at : Memᴰ other (map row_id created.tasks) =
          subst (λ k. Memᴰ k (map row_id created.tasks)) (==→eq id other same) m in
        rw (Mem-contains (map row_id created.tasks) at) refl
    | inr differs ↦
        let busy =
          any-last
            (λ r.
              r.user_id == user
              && (not (r.id == (new_task other user).id) && not (is_cancelled r.state)))
            db.tasks (new_row id user) (rw (==_refl user, differs) refl) in
        rw busy (elim (Bool-cases (contains (map row_id created.tasks) other)) [
          | inl e ↦ rw e refl
          | inr e ↦ rw e refl
        ])
  ]

-- With consistent tables, an identifier that no row has and a user whose tasks are all cancelled,
-- `create` makes a new task: its row comes after the others and is found by its identifier, and then
-- no second task of the user is made under any identifier; such a call is refused and changes nothing.
pub create-Returns :
    (db : Db) (id user : String)
    → IsConsistent db.tasks db.history
    → ((r : Row) → Memᴰ r db.tasks → r.id ≡ id → ⊥)
    → ((r : Row) → Memᴰ r db.tasks → r.user_id ≡ user → r.state ≡ cancelled)
    → let (answer, db') = create db id user in
      (answer ≡ ok (new_task id user))
      × (get_by row_id id db'.tasks ≡ some (new_row id user))
      × (db'.tasks ≡ db.tasks ++ new_row id user ∷ [])
      × ((other : String) → create db' other user ≡ (err (integrity_error "tasks"), db'))
create-Returns db id user c other_id other_user =
    rw (create-created db id user c other_id other_user)
      (refl, get_by-last db.tasks (new_row id user), refl, refused db id user c other_id other_user)
