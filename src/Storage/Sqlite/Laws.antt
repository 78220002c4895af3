-- ===== src/Storage/Sqlite/Laws.antt =====
-- What the SQL engine documents of the statements of sqlite.cpp.
use libpaxos_cpp.Base.{
  Bool, Bytes, Map, [], if◌then◌else◌, leb_ℤ, ltb_ℤ, max_ℤ, min_ℤ, pos, some, true, ℤ, ◌++◌, ◌∷◌,
  ◌≡◌, ◌≢◌,
}
use libpaxos_cpp.Storage.Sqlite.Sql.{
  Statement, select_above, select_max, select_min, insert_history, delete_below, create_history,
  count_history,
}
use libpaxos_cpp.Sql.{Engine, Rows}

-- The rows of the table `history`, by id.
abbrev pub Table : Type 0
Table = Map ℤ Bytes

-- WHERE
abbrev pub select_where : (ℤ → Bool) → Table → Table
select_where test [] = []
select_where test ((id, b) ∷ t) =
    let rest = select_where test t in if test id then (id, b) ∷ rest else rest

-- MAX and MIN of the ids. Of no rows they are NULL, which reads as 0.
abbrev pub max_id : Table → ℤ
max_id [] = pos 0
max_id ((id, b) ∷ []) = id
max_id ((id, b) ∷ row ∷ t) = max_ℤ id (max_id (row ∷ t))

abbrev pub min_id : Table → ℤ
min_id [] = pos 0
min_id ((id, b) ∷ []) = id
min_id ((id, b) ∷ row ∷ t) = min_ℤ id (min_id (row ∷ t))

-- No row has this id.
abbrev pub IsFresh : ℤ → Table → Type 0
IsFresh id [] = Unit {0}
IsFresh id ((j, b) ∷ t) = (id ≢ j) × IsFresh id t

-- The same rows, in any order: a query that does not ask for an order may give any.
pub data Shuffle : Table → Table → Type 0 where
  none_left : Shuffle [] []
  next :
      (xs ys : Table) (id : ℤ) (b : Bytes) {l : Table} {rs : Table}
      → rs ≡ xs ++ (id, b) ∷ ys
      → Shuffle (xs ++ ys) l
      → Shuffle rs ((id, b) ∷ l)

module _ (e : Engine Statement) where
  open e use {
    Db, Cursor, Column, prepare, rows, bind_blob, step_done, finalize, exec, column_int64,
    column_blob,
  }

  -- Rows of two columns that show these entries.
  abbrev pub Shows : Rows Column → Table → Type 0
  Shows [] [] = Unit {0}
  Shows (row ∷ rows) ((id, b) ∷ t) =
      ((c d : Column) × (row ≡ c ∷ d ∷ []) × (column_int64 c ≡ id) × (column_blob d ≡ b))
      × Shows rows t
  Shows _ _ = ⊥

  -- A query that gives one number.
  abbrev pub Gives : Statement → Db → ℤ → Type 0
  Gives s db n =
      (cursor : Cursor) × (c : Column) × (prepare s db ≡ some cursor)
      × (rows cursor ≡ (c ∷ []) ∷ [])
      × (column_int64 c ≡ n)
      × (finalize cursor ≡ true)

  -- `Holds db t`: the database has the table `history`, with these rows. `IsNew db`: it has none.
  pub record IsEngine (Holds : Db → Table → Type 0) (IsNew : Db → Type 0) : Type 0 where
    pub selects_above :
        {db : Db} {t : Table} (p : ℤ)
        → Holds db t
        → (cursor : Cursor) × (shown : Table) × (prepare (select_above p) db ≡ some cursor)
          × Shows (rows cursor) shown
          × Shuffle shown (select_where (ltb_ℤ p) t)
          × (finalize cursor ≡ true)
    pub selects_max : {db : Db} {t : Table} → Holds db t → Gives select_max db (max_id t)
    pub selects_min : {db : Db} {t : Table} → Holds db t → Gives select_min db (min_id t)
    pub inserts :
        {db : Db} {t : Table} (id : ℤ) (b : Bytes)
        → Holds db t
        → IsFresh id t
        → (cursor bound : Cursor) × (db' : Db) × (prepare (insert_history id) db ≡ some cursor)
          × (bind_blob cursor 1 b ≡ some bound)
          × (step_done bound db ≡ some db')
          × (finalize bound ≡ true)
          × Holds db' (t ++ (id, b) ∷ [])
    pub deletes :
        {db : Db} {t : Table} (p : ℤ)
        → Holds db t
        → (db' : Db) × (exec (delete_below p) db ≡ some db') × Holds db' (select_where (leb_ℤ p) t)
    pub creates :
        {db : Db} → IsNew db → (db' : Db) × (exec create_history db ≡ some db') × Holds db' []
    pub counts_one : {db : Db} {t : Table} → Holds db t → Gives count_history db (pos 1)
    pub counts_none : {db : Db} → IsNew db → Gives count_history db (pos 0)
