-- ===== src/Sql.antt =====
-- The SQL engine, which is not part of the repository: the calls that paxos++/durable/sqlite.cpp and
-- examples/lock_service_2/datastore.cpp make of it.
use libpaxos_cpp.Base.{Bool, Bytes, List, Option, Outcome, aborted, fault, none, ok, some, ℕ, ℤ}

abbrev pub Rows : Type 0 → Type 0
Rows Column = List (List Column)

-- `none` is a result other than SQLITE_OK, or SQLITE_DONE for a step.
-- Over the statements that a program writes as text.
pub record Engine (Statement : Type 0) : Type 1 where
  pub Db : Type 0
  pub Cursor : Type 0
  pub Column : Type 0
  pub prepare : Statement → Db → Option Cursor
  -- The rows that `sqlite3_step` gives one by one.
  pub rows : Cursor → Rows Column
  pub bind_blob : Cursor → ℕ → Bytes → Option Cursor
  pub step_done : Cursor → Db → Option Db
  pub finalize : Cursor → Bool
  pub exec : Statement → Db → Option Db
  pub column_int64 : Column → ℤ
  pub column_blob : Column → Bytes

-- PAXOS_ASSERT_EQ (..., SQLITE_OK)
abbrev pub expect {ℓ} : {A : Type ℓ} → Option A → Outcome A
expect none = fault aborted
expect (some a) = ok a
