-- ===== src/Examples/Datastore/Statement.antt =====
-- The statements of datastore.cpp. A lock id is put between single quotes as it is.
use libpaxos_cpp.Base.{Bytes, ℤ}

-- Each stands for the text that is written.
pub data Text : Type 0 where
  -- SELECT id FROM proposal_id
  select_proposal_id : Text
  -- SELECT COUNT (*) FROM locks WHERE id = '...'
  count_lock : Bytes → Text
  -- BEGIN
  begin : Text
  -- INSERT INTO locks (id) VALUES ('...')
  insert_into_locks : Bytes → Text
  -- DELETE FROM locks WHERE id = '...'
  delete_from_locks : Bytes → Text
  -- UPDATE proposal_id SET id = ...
  update_proposal_id : ℤ → Text
  -- COMMIT
  commit : Text
  -- CREATE TABLE locks (id TEXT PRIMARY KEY ASC)
  create_locks : Text
  -- CREATE TABLE proposal_id (id INTEGER PRIMARY KEY ASC)
  create_proposal_id : Text
  -- INSERT INTO proposal_id VALUES (0)
  insert_zero : Text
  -- SELECT COUNT (*) FROM sqlite_master WHERE type = 'table' AND (name = 'locks' OR name = 'proposal_id')
  count_tables : Text
