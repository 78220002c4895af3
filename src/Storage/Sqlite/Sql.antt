-- ===== src/Storage/Sqlite/Sql.antt =====
-- The statements of sqlite.cpp.
use libpaxos_cpp.Base.{ℤ}

-- Each stands for the text that is written.
pub data Statement : Type 0 where
  -- SELECT id, byte_array FROM history WHERE id > ...
  select_above : ℤ → Statement
  -- SELECT MAX (id) FROM history
  select_max : Statement
  -- SELECT MIN (id) FROM history
  select_min : Statement
  -- INSERT INTO history (id, byte_array) VALUES (..., ?)
  insert_history : ℤ → Statement
  -- DELETE FROM history WHERE id < ...
  delete_below : ℤ → Statement
  -- CREATE TABLE history (id INTEGER PRIMARY KEY ASC, byte_array BLOB NOT NULL)
  create_history : Statement
  -- SELECT COUNT (*) FROM sqlite_master WHERE type = 'table' AND name = 'history'
  count_history : Statement
