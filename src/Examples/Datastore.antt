-- ===== src/Examples/Datastore.antt =====
-- examples/lock_service_2/datastore.cpp and server.cpp: a lock server that keeps its locks in a database.
pub mod Statement
pub mod Laws
pub mod Members
pub mod Agreement
use libpaxos_cpp.Base.{
  Bool, Bytes, List, Option, Outcome, [], aborted, assert, fault, if◌then◌else◌, leb_ℤ, ltb_ℤ,
  negsuc, not, ok, pos, ℤ, ◌&&◌, ◌==ℤ◌, ◌>>=◌, ◌>>◌, ◌∷◌,
}
use libpaxos_cpp.Sql.{Engine, Rows, expect}
use libpaxos_cpp.Strategy.Leader.{same_bytes}
use libpaxos_cpp.Examples.LockService.{lock, unlock, success, fail, first_token, second_token}
use libpaxos_cpp.Examples.Datastore.Statement.{
  Text, select_proposal_id, count_lock, begin, insert_into_locks, delete_from_locks,
  update_proposal_id, commit, create_locks, create_proposal_id, insert_zero, count_tables,
}

module _ (e : Engine Text) where
  open e use {Db, Cursor, Column, prepare, rows, finalize, exec, column_int64}

  -- The loop of `most_recent_proposal_id`.
  unfoldable pub single_proposal_id : Rows Column → ℤ → Outcome ℤ
  single_proposal_id [] proposal_id = ok proposal_id
  single_proposal_id ((id ∷ []) ∷ rest) proposal_id = do
    assert (proposal_id ==ℤ negsuc 0)
    single_proposal_id rest (column_int64 id)
  single_proposal_id (_ ∷ rest) proposal_id = fault aborted

  unfoldable pub most_recent_proposal_id : Db → Outcome ℤ
  most_recent_proposal_id db = do
    cursor ← expect (prepare select_proposal_id db)
    proposal_id ← single_proposal_id (rows cursor) (negsuc 0)
    assert (finalize cursor)
    ok proposal_id

  -- The loops of `has_lock` and `has_table`.
  unfoldable pub single_count : Rows Column → ℤ → Outcome ℤ
  single_count [] result = ok result
  single_count ((n ∷ []) ∷ rest) result = do
    assert (result ==ℤ pos 0)
    single_count rest (column_int64 n)
  single_count (_ ∷ rest) result = fault aborted

  unfoldable pub has_lock : Db → Bytes → Outcome Bool
  has_lock db lock_id = do
    cursor ← expect (prepare (count_lock lock_id) db)
    result ← single_count (rows cursor) (pos 0)
    assert (leb_ℤ (pos 0) result && leb_ℤ result (pos 1))
    assert (finalize cursor)
    ok (result ==ℤ pos 1)

  unfoldable pub acquire_lock : Db → ℤ → Bytes → Outcome Db
  acquire_lock db proposal_id lock_id = do
    db ← expect (exec begin db)
    db ← expect (exec (insert_into_locks lock_id) db)
    db ← expect (exec (update_proposal_id proposal_id) db)
    expect (exec commit db)

  unfoldable pub release_lock : Db → ℤ → Bytes → Outcome Db
  release_lock db proposal_id lock_id = do
    db ← expect (exec begin db)
    db ← expect (exec (delete_from_locks lock_id) db)
    db ← expect (exec (update_proposal_id proposal_id) db)
    expect (exec commit db)

  unfoldable pub create_tables : Db → Outcome Db
  create_tables db = do
    db ← expect (exec create_locks db)
    db ← expect (exec create_proposal_id db)
    expect (exec insert_zero db)

  unfoldable pub has_table : Db → Outcome Bool
  has_table db = do
    cursor ← expect (prepare count_tables db)
    result ← single_count (rows cursor) (pos 0)
    assert (finalize cursor)
    ok (result ==ℤ pos 2)

  -- The constructor, on the database that the file holds.
  unfoldable pub new_datastore : Option Db → Outcome Db
  new_datastore file = do
    db ← expect file
    there ← has_table db
    if not there then create_tables db else ok db

  -- The callback of server.cpp. `split` is boost::split at the spaces.
  module _ (split : Bytes → List Bytes) where
    unfoldable pub callback : ℤ → Bytes → Db → Outcome (Bytes × Db)
    callback proposal_id command db = do
      recent ← most_recent_proposal_id db
      if ltb_ℤ proposal_id recent then ok (success, db) else do
        type_ ← first_token (split command)
        lock_id ← second_token (split command)
        if same_bytes type_ lock
            then (has_lock db lock_id >>= λ locked.
                if not locked
                then (acquire_lock db proposal_id lock_id >>= λ db. ok (success, db))
                else ok (fail, db))
            else if same_bytes type_ unlock
            then (has_lock db lock_id >>= λ locked.
                if locked
                then (release_lock db proposal_id lock_id >>= λ db. ok (success, db))
                else ok (fail, db))
            else ok (fail, db)
