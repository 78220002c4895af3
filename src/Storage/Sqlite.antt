-- ===== src/Storage/Sqlite.antt =====
-- durable/sqlite.hpp and durable/sqlite.cpp: the storage in a database file.
pub mod Sql
pub mod Laws
pub mod Collect
pub mod Refines
use libpaxos_cpp.Base.{
  Bool, Bytes, Map, Option, Outcome, [], aborted, assert, fault, if◌then◌else◌, leb_ℤ, ltb_ℤ, not,
  ok, pos, ℤ, ℤ_order, ◌++◌, ◌-ℤ◌, ◌==ℤ◌, ◌>>=◌, ◌>>◌, ◌∷◌,
}
use libpaxos_cpp.Storage.Backend.{Backend}
use libpaxos_cpp.Storage.Sqlite.Sql.{
  Statement, select_above, select_max, select_min, insert_history, delete_below, create_history,
  count_history,
}
use libpaxos_cpp.Sql.{Engine, Rows, expect}

-- The loop of `retrieve` appends to `result [id]`.
unfoldable pub append_to : ℤ → Bytes → Map ℤ Bytes → Map ℤ Bytes
append_to id byte_array [] = (id, byte_array) ∷ []
append_to id byte_array ((j, v) ∷ m) =
    let rest = append_to id byte_array m in
    if ltb_ℤ j id
    then (j, v) ∷ rest
    else if ltb_ℤ id j
    then (id, byte_array) ∷ (j, v) ∷ m
    else (j, v ++ byte_array) ∷ m

module _ (e : Engine Statement) where
  open e use {
    Db, Cursor, Column, prepare, rows, bind_blob, step_done, finalize, exec, column_int64,
    column_blob,
  }

  unfoldable pub collect : Rows Column → Map ℤ Bytes → Outcome (Map ℤ Bytes)
  collect [] result = ok result
  collect ((id ∷ byte_array ∷ []) ∷ rest) result =
      collect rest (append_to (column_int64 id) (column_blob byte_array) result)
  collect (_ ∷ rest) result = fault aborted

  unfoldable pub retrieve : Db → ℤ → Outcome (Map ℤ Bytes)
  retrieve db proposal_id = do
    cursor ← expect (prepare (select_above proposal_id) db)
    result ← collect (rows cursor) []
    assert (finalize cursor)
    ok result

  -- The loops of `highest_proposal_id` and `lowest_proposal_id`.
  unfoldable pub single_id : Rows Column → ℤ → Outcome ℤ
  single_id [] result = ok result
  single_id ((id ∷ []) ∷ rest) result = do
    assert (result ==ℤ pos 0)
    assert (leb_ℤ (pos 0) (column_int64 id))
    single_id rest (column_int64 id)
  single_id (_ ∷ rest) result = fault aborted

  unfoldable pub highest_proposal_id : Db → Outcome ℤ
  highest_proposal_id db = do
    cursor ← expect (prepare select_max db)
    result ← single_id (rows cursor) (pos 0)
    assert (finalize cursor)
    ok result

  unfoldable pub lowest_proposal_id : Db → Outcome ℤ
  lowest_proposal_id db = do
    cursor ← expect (prepare select_min db)
    result ← single_id (rows cursor) (pos 0)
    assert (finalize cursor)
    ok result

  unfoldable pub store : Db → ℤ → Bytes → Outcome Db
  store db proposal_id byte_array = do
    assert (ltb_ℤ (pos 0) proposal_id)
    highest ← highest_proposal_id db
    assert (highest ==ℤ proposal_id -ℤ pos 1)
    cursor ← expect (prepare (insert_history proposal_id) db)
    cursor ← expect (bind_blob cursor 1 byte_array)
    db ← expect (step_done cursor db)
    assert (finalize cursor)
    ok db

  unfoldable pub remove : Db → ℤ → Outcome Db
  remove db proposal_id = expect (exec (delete_below proposal_id) db)

  unfoldable pub create_table : Db → Outcome Db
  create_table db = expect (exec create_history db)

  -- The loop of `has_table`.
  unfoldable pub single_count : Rows Column → ℤ → Outcome ℤ
  single_count [] result = ok result
  single_count ((n ∷ []) ∷ rest) result = do
    assert (result ==ℤ pos 0)
    single_count rest (column_int64 n)
  single_count (_ ∷ rest) result = fault aborted

  unfoldable pub has_table : Db → Outcome Bool
  has_table db = do
    cursor ← expect (prepare count_history db)
    result ← single_count (rows cursor) (pos 0)
    assert (finalize cursor)
    ok (result ==ℤ pos 1)

  -- The constructor, on the database that the file holds.
  unfoldable pub new_sqlite : Option Db → Outcome Db
  new_sqlite file = do
    db ← expect file
    there ← has_table db
    if not there then create_table db else ok db

  abbrev pub sqlite : Backend Db
  sqlite = record {
    retrieve = retrieve;
    highest_proposal_id = highest_proposal_id;
    lowest_proposal_id = lowest_proposal_id;
    store = store;
    remove = remove;
  }
