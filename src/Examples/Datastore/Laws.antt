-- ===== src/Examples/Datastore/Laws.antt =====
-- What the SQL engine documents of the statements of datastore.cpp.
use libpaxos_cpp.Base.{
  Bool, Bytes, In, [], false, if◌then◌else◌, length, pos, some, true, ℕ, ℤ, ◌<◌, ◌∷◌, ◌≡◌, ◌≢◌, ◌≤◌,
}
use libpaxos_cpp.Sql.{Engine}
use libpaxos_cpp.Examples.LockService.{Locks, is_locked, erase_lock}
use libpaxos_cpp.Examples.Datastore.Statement.{
  Text, select_proposal_id, count_lock, begin, insert_into_locks, delete_from_locks,
  update_proposal_id, commit,
}

-- A lock id that stays inside the quotes, and the text of a statement inside the engine's limit: at
-- most a million bytes, all of ASCII, none of them 0, which ends the text, or a single quote.
abbrev pub IsPlain : Bytes → Type 0
IsPlain lock_id =
    ((c : ℕ) → In c lock_id → (0 < c) × (c < 128) × (c ≢ 39)) × (length lock_id ≤ 1000000)

-- A statement whose result is one number.
abbrev pub Gives : (e : Engine Text) → Text → e.Db → ℤ → Type 0
Gives e text db n =
    (cursor : e.Cursor) × (c : e.Column) × (e.prepare text db ≡ some cursor)
    × (e.rows cursor ≡ (c ∷ []) ∷ [])
    × (e.column_int64 c ≡ n)
    × (e.finalize cursor ≡ true)

-- `Shows db locks recent inside`: the rows of both tables, and whether a transaction is open.
pub record IsLockEngine (e : Engine Text) (Shows : e.Db → Locks → ℤ → Bool → Type 0) : Type 0 where
  pub selects :
      {db : e.Db} {locks : Locks} {recent : ℤ}
      → Shows db locks recent false
      → Gives e select_proposal_id db recent
  pub counts :
      (lock_id : Bytes) {db : e.Db} {locks : Locks} {recent : ℤ}
      → IsPlain lock_id
      → Shows db locks recent false
      → Gives e (count_lock lock_id) db (if is_locked lock_id locks then pos 1 else pos 0)
  pub begins :
      {db : e.Db} {locks : Locks} {recent : ℤ}
      → Shows db locks recent false
      → (db' : e.Db) × (e.exec begin db ≡ some db') × Shows db' locks recent true
  pub inserts :
      (lock_id : Bytes) {db : e.Db} {locks : Locks} {recent : ℤ}
      → IsPlain lock_id
      → is_locked lock_id locks ≡ false
      → Shows db locks recent true
      → (db' : e.Db) × (e.exec (insert_into_locks lock_id) db ≡ some db')
        × Shows db' (lock_id ∷ locks) recent true
  pub deletes :
      (lock_id : Bytes) {db : e.Db} {locks : Locks} {recent : ℤ}
      → IsPlain lock_id
      → Shows db locks recent true
      → (db' : e.Db) × (e.exec (delete_from_locks lock_id) db ≡ some db')
        × Shows db' (erase_lock lock_id locks) recent true
  pub updates :
      (id : ℤ) {db : e.Db} {locks : Locks} {recent : ℤ}
      → Shows db locks recent true
      → (db' : e.Db) × (e.exec (update_proposal_id id) db ≡ some db') × Shows db' locks id true
  pub commits :
      {db : e.Db} {locks : Locks} {recent : ℤ}
      → Shows db locks recent true
      → (db' : e.Db) × (e.exec commit db ≡ some db') × Shows db' locks recent false
