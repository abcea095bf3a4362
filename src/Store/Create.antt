-- ===== src/Store/Create.antt =====
-- store.py, `create`: a new task in consistent tables.
use my_ops.Prelude.{
  ◌++◌, ◌≡◌, refl, sym, subst, ap, ◌∙◌, String, Bool, true, false, ◌&&◌, ◌⊎◌, inl, inr, List, [],
  ◌∷◌, map, Memᴰ, Mem-append, Mem-cons, Mem-contains, arith, any, All-of-Mem, contains, ◌==◌,
  nat_eq, string_eq, eq_iff, All-Mem, any-eq-false,
}
use my_ops.Task.{new_task}
use my_ops.Store.{
  Row, HistoryRow, Db, row_id, is_cancelled, other_active, transact, new_row, new_entry,
  create_rows, create,
}
use my_ops.Store.Rows.{IsTrue, IsPast, IsOwned, IsConsistent, Mem-row_id}

pub Mem-last : (r : Row) (rows : List Row) → Memᴰ r (rows ++ r ∷ [])
Mem-last r [] = Memᴰ.head refl
Mem-last r (x ∷ rows) = Memᴰ.tail (Mem-last r rows)

ids-append :
    (more rows : List Row) (k : String)
    → Memᴰ k (map row_id rows)
    → Memᴰ k (map row_id (rows ++ more))
ids-append more [] k m = elim m [ ]
ids-append more (x ∷ rows) k (Memᴰ.head e) = Memᴰ.head e
ids-append more (x ∷ rows) k (Memᴰ.tail m) = Memᴰ.tail (ids-append more rows k m)

module _ (rows : List Row) (past : List HistoryRow) (id user : String) (c : IsConsistent rows past)
    (fresh : contains (map row_id rows) id ≡ false)
    (single : other_active (new_task id user) user rows ≡ false) where
  not_owned : Memᴰ id (map row_id rows) → ⊥
  not_owned m = cc (Mem-contains (map row_id rows) m, fresh)

  other_id : (r : Row) → Memᴰ r rows → r.id ≡ id → ⊥
  other_id r m e = not_owned (subst (λ k. Memᴰ k (map row_id rows)) e (Mem-row_id r rows m))

  other_user : (r : Row) → Memᴰ r rows → r.user_id ≡ user → is_cancelled r.state ≡ false → ⊥
  unfolding new_task
  other_user r m e alive =
      let p = All-Mem _ rows (any-eq-false _ rows single) m in
      let different = other_id r m in ground (arith, eq_iff r.user_id user, eq_iff r.id id)

  -- A row of the new table is an old one or the new one.
  row-cases :
      (r : Row) → Memᴰ r (rows ++ new_row id user ∷ []) → Memᴰ r rows ⊎ (r ≡ new_row id user)
  row-cases r m = elim (Mem-append rows (new_row id user ∷ []) r m) [
    | inl old ↦ inl old
    | inr new ↦ elim (Mem-cons r (new_row id user) [] new) [
      | inl e ↦ inr e
      | inr none_left ↦ elim none_left [ ]
    ]
  ]

  entry-cases :
      (h : HistoryRow)
      → Memᴰ h (past ++ new_entry id user ∷ [])
      → Memᴰ h past ⊎ (h ≡ new_entry id user)
  entry-cases h m = elim (Mem-append past (new_entry id user ∷ []) h m) [
    | inl old ↦ inl old
    | inr new ↦ elim (Mem-cons h (new_entry id user) [] new) [
      | inl e ↦ inr e
      | inr none_left ↦ elim none_left [ ]
    ]
  ]

  pub with_new-IsConsistent :
      IsConsistent (rows ++ new_row id user ∷ []) (past ++ new_entry id user ∷ [])
  unfolding new_task
  with_new-IsConsistent = record {
    rows = All-of-Mem IsTrue _ λ r m. elim (row-cases r m) [
      | inl old ↦ All-Mem IsTrue rows c.rows old
      | inr new ↦
          subst IsTrue (sym new) (record { id = refl; user = refl; state = refl; version = refl })
    ];
    ids = λ r s mr ms e. elim (row-cases r mr) [
      | inl old_r ↦ elim (row-cases s ms) [
        | inl old_s ↦ c.ids r s old_r old_s e
        | inr new_s ↦ absurd (other_id r old_r (e ∙ ap row_id new_s))
      ]
      | inr new_r ↦ elim (row-cases s ms) [
        | inl old_s ↦ absurd (other_id s old_s (sym e ∙ ap row_id new_r))
        | inr new_s ↦ new_r ∙ sym new_s
      ]
    ];
    active = λ r s mr ms e ar as'. elim (row-cases r mr) [
      | inl old_r ↦ elim (row-cases s ms) [
        | inl old_s ↦ c.active r s old_r old_s e ar as'
        | inr new_s ↦ absurd (other_user r old_r (e ∙ ap (λ (x : Row). x.user_id) new_s) ar)
      ]
      | inr new_r ↦ elim (row-cases s ms) [
        | inl old_s ↦ absurd (other_user s old_s (sym e ∙ ap (λ (x : Row). x.user_id) new_r) as')
        | inr new_s ↦ ap row_id (new_r ∙ sym new_s)
      ]
    ];
    past = All-of-Mem (IsPast (rows ++ new_row id user ∷ [])) _ λ h m r mr e.
        elim (entry-cases h m) [
          | inl old ↦ elim (row-cases r mr) [
            | inl old_r ↦ All-Mem (IsPast rows) past c.past old r old_r e
            | inr new_r ↦ absurd (
                not_owned (
                  subst (λ k. Memᴰ k (map row_id rows)) (sym e ∙ ap row_id new_r)
                    (All-Mem (IsOwned rows) past c.owned old)))
          ]
          | inr new ↦ elim (row-cases r mr) [
            | inl old_r ↦ absurd (other_id r old_r (e ∙ ap (λ (x : HistoryRow). x.task_id) new))
            | inr new_r ↦
                omega
                  (arith, ap (λ (x : HistoryRow). x.version) new, ap (λ (x : Row). x.version) new_r)
          ]
        ];
    owned = All-of-Mem (IsOwned (rows ++ new_row id user ∷ [])) _ λ h m. owner h (entry-cases h m);
  }
    where
      owner :
          (h : HistoryRow)
          → Memᴰ h past ⊎ (h ≡ new_entry id user)
          → Memᴰ h.task_id (map row_id (rows ++ new_row id user ∷ []))
      owner h (inl old) =
          ids-append (new_row id user ∷ []) rows h.task_id (All-Mem (IsOwned rows) past c.owned old)
      owner h (inr new) =
          subst (λ k. Memᴰ k (map row_id (rows ++ new_row id user ∷ [])))
            (ap (λ (x : HistoryRow). x.task_id) (sym new))
            (Mem-row_id (new_row id user) (rows ++ new_row id user ∷ []) (Mem-last _ rows))

-- Whether `create` makes the task or is refused, consistent tables stay consistent.
pub create-IsConsistent :
    (db : Db) (id user : String)
    → IsConsistent db.tasks db.history
    → let db' = (create db id user).1 in IsConsistent db'.tasks db'.history
unfolding create create_rows
create-IsConsistent db id user c =
    made (contains (map row_id db.tasks) id) (other_active (new_task id user) user db.tasks)
      (any (λ h. h.task_id == id && h.version == 1) db.history) refl refl
  where
    made :
        (taken busy used : Bool)
        → contains (map row_id db.tasks) id ≡ taken
        → other_active (new_task id user) user db.tasks ≡ busy
        → let db' = (transact db (create_rows db id user taken busy used)).1 in
          IsConsistent db'.tasks db'.history
    made true busy used t b = c
    made false true used t b = c
    made false false true t b = c
    made false false false t b = with_new-IsConsistent db.tasks db.history id user c t b
