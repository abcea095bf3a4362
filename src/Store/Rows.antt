-- ===== src/Store/Rows.antt =====
-- store.py: rows of `tasks` and `history`, and what a write does to them.
use my_ops.Prelude.{
  ◌≤◌, ◌≡◌, refl, ap, String, false, none, some, List, [], ◌∷◌, map, Memᴰ, arith, get_by, ◌==◌,
  nat_eq, string_eq, if◌then◌else◌, All,
}
use mathlib.Core.Path.{ap₂}
use my_ops.Task.{Task}
use my_ops.Store.{Row, HistoryRow, row_id, write, update_rows, is_cancelled}

-- A row's columns agree with the task in it.
pub record IsTrue (r : Row) : Type 0 where
  pub id : r.payload.id ≡ r.id
  pub user : r.payload.user_id ≡ r.user_id
  pub state : r.payload.state ≡ r.state
  pub version : r.payload.version ≡ r.version

-- No entry of the history is newer than the row of its task.
abbrev pub IsPast : List Row → HistoryRow → Type 0
IsPast rows h = (r : Row) → Memᴰ r rows → r.id ≡ h.task_id → h.version ≤ r.version

-- An entry of the history belongs to a row.
abbrev pub IsOwned : List Row → HistoryRow → Type 0
IsOwned rows h = Memᴰ h.task_id (map row_id rows)

-- The tables between two transactions. `ids` is the primary key of `tasks` and `active` its index
-- `one_active_user`.
pub record IsConsistent (tasks : List Row) (history : List HistoryRow) : Type 0 where
  pub rows : All IsTrue tasks
  pub ids : (r s : Row) → Memᴰ r tasks → Memᴰ s tasks → r.id ≡ s.id → r ≡ s
  pub active :
      (r s : Row)
      → Memᴰ r tasks
      → Memᴰ s tasks
      → r.user_id ≡ s.user_id
      → is_cancelled r.state ≡ false
      → is_cancelled s.state ≡ false
      → r.id ≡ s.id
  pub past : All (IsPast tasks) history
  pub owned : All (IsOwned tasks) history

-- what a row becomes
abbrev pub rewritten : Task → Row → Row
rewritten task r = if r.id == task.id then write task r else r

pub update_rows-Mem :
    (task : Task) (rows : List Row) (r : Row)
    → Memᴰ r (update_rows task rows)
    → (old : Row) × Memᴰ old rows × (r ≡ rewritten task old)
unfolding update_rows
update_rows-Mem task [] r m = elim m [ ]
update_rows-Mem task (x ∷ rows) r (Memᴰ.head e) = (x, Memᴰ.head refl, e)
update_rows-Mem task (x ∷ rows) r (Memᴰ.tail m) =
    let (old, among, e) = update_rows-Mem task rows r m in (old, Memᴰ.tail among, e)

pub rewritten-id : (task : Task) (r : Row) → (rewritten task r).id ≡ r.id
rewritten-id task r = ground arith

pub rewritten-user : (task : Task) (r : Row) → (rewritten task r).user_id ≡ r.user_id
rewritten-user task r = ground arith

-- Looking a task up after a write.
pub get_by-update_rows :
    (task : Task) (tid : String) (rows : List Row)
    → get_by row_id tid (update_rows task rows)
      ≡ elim (get_by row_id tid rows) [ none ↦ none | some r ↦ some (rewritten task r) ]
unfolding update_rows
get_by-update_rows task tid [] = refl
get_by-update_rows task tid (x ∷ rows) =
    rw (get_by-update_rows task tid rows, rewritten-id task x) (ground arith)

pub Mem-row_id : (r : Row) (rows : List Row) → Memᴰ r rows → Memᴰ r.id (map row_id rows)
Mem-row_id r [] m = elim m [ ]
Mem-row_id r (x ∷ rows) (Memᴰ.head e) = Memᴰ.head (ap row_id e)
Mem-row_id r (x ∷ rows) (Memᴰ.tail m) = Memᴰ.tail (Mem-row_id r rows m)

-- A write changes no identifier.
pub ids-update_rows :
    (task : Task) (rows : List Row) → map row_id (update_rows task rows) ≡ map row_id rows
unfolding update_rows
ids-update_rows task [] = refl
ids-update_rows task (r ∷ rows) = ap₂ ◌∷◌ (rewritten-id task r) (ids-update_rows task rows)
