-- ===== src/Store/Changes.antt =====
-- store.py, `change`: optimistic concurrency, and the database after a change.
use my_ops.Prelude.{
  ℕ, suc, ◌≡◌, refl, sym, subst, ap, ◌∙◌, String, true, false, ◌⊎◌, inl, inr, some, Memᴰ, arith,
  Result, ok, err, get_by, get_by-Mem, ◌==◌, nat_eq, string_eq, ==→eq, ==_refl, All-Mem,
  Option-cases, >>=-eq-ok, >>-eq-ok, raise_if-eq-ok, ok-injective,
}
use my_ops.Task.{Task, Error, version_conflict}
use my_ops.Storage.{safe_name, is_safe_name}
use my_ops.Review.Trace.{not-eq-false}
use my_ops.Store.{
  Row, Db, row_id, write, read, project_processing, bump, save, is_cancelled, transact, change_body,
  change,
}
use my_ops.Store.Rows.{IsTrue, IsConsistent, get_by-update_rows}
use my_ops.Store.Save.{IsSaved, save-IsSaved, save-IsConsistent, save-Returns}

-- What an action of `change` leaves alone. It brings no cancelled task back.
pub record IsProper (action : Task → Result Error Task) : Type 0 where
  pub id : (t t' : Task) → action t ≡ ok t' → t'.id ≡ t.id
  pub user : (t t' : Task) → action t ≡ ok t' → t'.user_id ≡ t.user_id
  pub version : (t t' : Task) → action t ≡ ok t' → t'.version ≡ t.version
  pub no_revival :
      (t t' : Task) → action t ≡ ok t' → is_cancelled t.state ≡ true → is_cancelled t'.state ≡ true

-- The row that `read` found.
read-row :
    (db : Db) (tid : String) (t : Task)
    → read db tid ≡ ok t
    → (row : Row) × (get_by row_id tid db.tasks ≡ some row)
      × (t ≡ project_processing db row.payload)
unfolding read
read-row db tid t h = elim (Option-cases (get_by row_id tid db.tasks)) [
  | inl missing ↦ cc (rw (missing, read) at h)
  | inr (row, found) ↦ (row, found, sym (ok-injective (rw (found, read) at h)))
]

-- A change that succeeds: the task was read, its owner and version were right, the action went
-- through and the result was written.
pub record IsChange (db : Db) (tid user : String) (v : ℕ) (action : Task → Result Error Task)
    (t : Task) (db' : Db) : Type 0 where
  pub before : Task
  pub between : Task
  pub safe : is_safe_name tid ≡ true
  pub found : read db tid ≡ ok before
  pub owner : before.user_id ≡ user
  pub version : before.version ≡ v
  pub acted : action before ≡ ok between
  pub saved : save db between ≡ ok (t, db')

transact-eq-ok {ℓ} :
    {A : Type ℓ} (db : Db) (r : Result Error (A × Db)) (a : A)
    → (transact db r).0 ≡ ok a
    → r ≡ ok (a, (transact db r).1)
transact-eq-ok db (ok (b, db')) a h = rw (ok-injective h)
transact-eq-ok db (err e) a h = cc

pub change-IsChange :
    (db : Db) (tid user : String) (v : ℕ) (action : Task → Result Error Task) (t : Task)
    → (change db tid user v action).0 ≡ ok t
    → IsChange db tid user v action t (change db tid user v action).1
unfolding change change_body safe_name
change-IsChange db tid user v action t h =
    let (safe, h0) = >>-eq-ok (safe_name tid) _ (transact-eq-ok db _ t h) in
    let (before, found, h1) = >>=-eq-ok (read db tid) _ h0 in
    let (owner, h2) = >>-eq-ok _ _ h1 in
    let (version, h3) = >>-eq-ok _ _ h2 in
    let (between, acted, saved) = >>=-eq-ok (action before) _ h3 in
    record {
      before = before;
      between = between;
      safe = not-eq-false _ (raise_if-eq-ok _ _ safe);
      found = found;
      owner = ==→eq before.user_id user (not-eq-false _ (raise_if-eq-ok _ _ owner));
      version = ==→eq before.version v (not-eq-false _ (raise_if-eq-ok _ _ version));
      acted = acted;
      saved = saved;
    }

-- The row of the task that a proper action has changed.
module _ (db : Db) (tid : String) (before between : Task) (action : Task → Result Error Task)
    (proper : IsProper action) (c : IsConsistent db.tasks db.history)
    (found : read db tid ≡ ok before) (acted : action before ≡ ok between) where
  pub record HasRow : Type 0 where
    pub row : Row
    pub at_id : get_by row_id tid db.tasks ≡ some row
    pub at_task : get_by row_id between.id db.tasks ≡ some row
    pub among : Memᴰ row db.tasks
    pub id : row.id ≡ between.id
    pub tid_is : between.id ≡ tid
    pub user : between.user_id ≡ row.user_id
    pub version : between.version ≡ row.version
    pub before_version : before.version ≡ row.version
    pub no_revival : is_cancelled row.state ≡ true → is_cancelled between.state ≡ true

  has_row : HasRow
  unfolding project_processing
  has_row =
      let (row, there, e) = read-row db tid before found in
      let (m, id) = get_by-Mem row_id tid db.tasks row there in
      let r = All-Mem IsTrue db.tasks c.rows m in
      let same_id : between.id ≡ tid =
        proper.id before between acted ∙ ap (λ (t : Task). t.id) e ∙ r.id ∙ id in
      let before_version = ap (λ (t : Task). t.version) e ∙ r.version in
      record {
        row = row;
        at_id = there;
        at_task = rw same_id there;
        among = m;
        id = id ∙ sym same_id;
        tid_is = same_id;
        user = proper.user before between acted ∙ ap (λ (t : Task). t.user_id) e ∙ r.user;
        version = proper.version before between acted ∙ before_version;
        before_version = before_version;
        no_revival = λ dead. proper.no_revival before between acted (
            subst (λ s. is_cancelled s ≡ true) (sym (ap (λ (t : Task). t.state) e ∙ r.state)) dead);
      }

transact_err {ℓ} :
    {A : Type ℓ} (db : Db) (r : Result Error (A × Db)) (e : Error)
    → (transact db r).0 ≡ err e
    → (transact db r).1 ≡ db
transact_err db (ok (a, db')) e h = cc
transact_err db (err x) e h = refl

Result-cases {ℓ} :
    {A : Type ℓ} (r : Result Error A) → ((a : A) × (r ≡ ok a)) ⊎ ((e : Error) × (r ≡ err e))
Result-cases (ok a) = inl (a, refl)
Result-cases (err e) = inr (e, refl)

-- Whatever `change` answers, the tables it leaves are consistent if they were: the columns of a row
-- agree with the task in it, identifiers are unique, a user has at most one task that is not
-- cancelled, and no entry of the history is newer than the row of its task. The action must be
-- proper: it keeps the identifier, owner and version and brings no cancelled task back.
pub change-IsConsistent :
    (db : Db) (tid user : String) (v : ℕ) (action : Task → Result Error Task)
    → IsProper action
    → IsConsistent db.tasks db.history
    → let db' = (change db tid user v action).1 in IsConsistent db'.tasks db'.history
change-IsConsistent db tid user v action proper c =
    elim (Result-cases (change db tid user v action).0) [
      | inl (t, h) ↦
          let ch = change-IsChange db tid user v action t h in
          let r = has_row db tid ch.before ch.between action proper c ch.found ch.acted in
          save-IsConsistent db ch.between r.row c r.among r.id r.user r.version r.no_revival t _
            (save-IsSaved db _ ch.between t r.row r.at_task ch.saved)
      | inr (e, h) ↦
          let same : (change db tid user v action).1 ≡ db =
            unfold change in transact_err db _ e h in
          rw same c
    ]

-- In consistent tables no constraint of the database stops a proper change: when the name is safe,
-- the task is found with this owner and version, and the action goes through, `change` answers
-- with the action's task under the next version.
pub change-Returns :
    (db : Db) (tid user : String) (v : ℕ) (action : Task → Result Error Task)
    (before between : Task)
    → IsProper action
    → IsConsistent db.tasks db.history
    → is_safe_name tid ≡ true
    → read db tid ≡ ok before
    → before.user_id ≡ user
    → before.version ≡ v
    → action before ≡ ok between
    → (change db tid user v action).0 ≡ ok (bump db between)
unfolding change change_body safe_name
change-Returns db tid user v action before between proper c safe found owner version acted =
    let r = has_row db tid before between action proper c found acted in
    let (db', saved) =
      save-Returns db between r.row c r.among r.id r.user r.version r.no_revival r.at_task in
    rw
      (
        safe,
        found,
        ← owner,
        ==_refl before.user_id,
        ← version,
        ==_refl before.version,
        acted,
        saved,
      )
      refl

change_stale :
    (db : Db) (tid user : String) (v : ℕ) (action : Task → Result Error Task) (t : Task)
    → is_safe_name tid ≡ true
    → read db tid ≡ ok t
    → t.user_id ≡ user
    → (t.version == v) ≡ false
    → (change db tid user v action).0 ≡ err version_conflict
unfolding change change_body safe_name
change_stale db tid user v action t safe found owner stale =
    rw (safe, found, ← owner, ==_refl t.user_id, stale) refl

read-saved :
    (db db' : Db) (tid : String) (task t : Task) (row : Row)
    → get_by row_id tid db.tasks ≡ some row
    → row.id ≡ task.id
    → IsSaved db task t db'
    → read db' tid ≡ ok (project_processing db' (bump db task))
unfolding read project_processing
read-saved db db' tid task t row there id s =
    let b = bump db task in
    let stored : get_by row_id tid db'.tasks ≡ some (write b row) =
      ap (get_by row_id tid) s.tasks
      ∙ get_by-update_rows b tid db.tasks
      ∙ rw there (rw (← id, ==_refl row.id) refl) in
    rw (stored, read) refl

-- Of two changes that start from the same version of a task at most one succeeds: after the first
-- the version has grown by one, and the second is told `version_conflict`.
pub change_serial :
    (db : Db) (tid user : String) (v : ℕ) (first second : Task → Result Error Task) (t : Task)
    → IsProper first
    → IsConsistent db.tasks db.history
    → (change db tid user v first).0 ≡ ok t
    → (t.version ≡ suc v)
      × ((change (change db tid user v first).1 tid user v second).0 ≡ err version_conflict)
unfolding project_processing
change_serial db tid user v first second t proper c h =
    let ch = change-IsChange db tid user v first t h in
    let r = has_row db tid ch.before ch.between first proper c ch.found ch.acted in
    let s = save-IsSaved db _ ch.between t r.row r.at_task ch.saved in
    let db' = (change db tid user v first).1 in
    let same_version = proper.version ch.before ch.between ch.acted ∙ ch.version in
    let owner = proper.user ch.before ch.between ch.acted in
    let later : (bump db ch.between).version ≡ suc v = ap suc same_version in
    let later' : (project_processing db' (bump db ch.between)).version ≡ suc v = later in
    (
      ap (λ (x : Task). x.version) s.task_is ∙ later,
      change_stale db' tid user v second (project_processing db' (bump db ch.between)) ch.safe
          (read-saved db db' tid ch.between t r.row r.at_id r.id s) (owner ∙ ch.owner)
          (ground (arith, later')),
    )
