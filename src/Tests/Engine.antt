-- ===== src/Tests/Engine.antt =====
-- An engine that does what the SQL engine documents, on a list of rows.
use libpaxos_cpp.Base.{
  Bytes, Option, [], ap, leb_ℤ, ltb_ℤ, none, pos, refl, some, true, ℤ, ◌++◌, ◌∷◌, ◌≡◌,
}
use libpaxos_cpp.Storage.Sqlite.Sql.{
  Statement, select_above, select_max, select_min, insert_history, delete_below, create_history,
  count_history,
}
use libpaxos_cpp.Sql.{Engine, Rows}
use libpaxos_cpp.Storage.Sqlite.Laws.{
  Table, select_where, max_id, min_id, Shuffle, none_left, next, Shows, IsEngine,
}

pub data Column : Type 0 where
  integer : ℤ → Column
  blob : Bytes → Column

pub record Cursor : Type 0 where
  pub result : Rows Column
  pub id : ℤ
  pub bound : Bytes

abbrev pub shown : Table → Rows Column
shown [] = []
shown ((id, b) ∷ t) = (integer id ∷ blob b ∷ []) ∷ shown t

abbrev pub cursor : Rows Column → Cursor
cursor rows = record { result = rows; id = pos 0; bound = [] }

abbrev pub one : ℤ → Option Cursor
one n = some (cursor ((integer n ∷ []) ∷ []))

abbrev pub prepare : Statement → Option Table → Option Cursor
prepare (select_above p) (some t) = some (cursor (shown (select_where (ltb_ℤ p) t)))
prepare select_max (some t) = one (max_id t)
prepare select_min (some t) = one (min_id t)
prepare (insert_history id) (some t) = some (record { result = []; id = id; bound = [] })
prepare count_history none = one (pos 0)
prepare count_history (some t) = one (pos 1)
prepare _ _ = none

abbrev pub exec : Statement → Option Table → Option (Option Table)
exec (delete_below p) (some t) = some (some (select_where (leb_ℤ p) t))
exec create_history none = some (some [])
exec _ _ = none

abbrev pub step_done : Cursor → Option Table → Option (Option Table)
step_done c none = none
step_done c (some t) = some (some (t ++ (c.id, c.bound) ∷ []))

abbrev pub column_int64 : Column → ℤ
column_int64 (integer i) = i
column_int64 (blob b) = pos 0

abbrev pub column_blob : Column → Bytes
column_blob (integer i) = []
column_blob (blob b) = b

abbrev pub engine : Engine Statement
engine = record {
  Db = Option Table;
  Cursor = Cursor;
  Column = Column;
  prepare = prepare;
  rows = λ c. c.result;
  bind_blob = λ c n b. some (record c { bound = b });
  step_done = step_done;
  finalize = λ c. true;
  exec = exec;
  column_int64 = column_int64;
  column_blob = column_blob;
}

abbrev pub HasTable : Option Table → Table → Type 0
HasTable db t = db ≡ some t

abbrev pub IsNew : Option Table → Type 0
IsNew db = db ≡ none

Shows-shown : (t : Table) → Shows engine (shown t) t
Shows-shown [] = tt
Shows-shown ((id, b) ∷ t) = ((integer id, blob b, refl, refl, refl), Shows-shown t)

Shuffle-same : (t : Table) → Shuffle t t
Shuffle-same [] = none_left
Shuffle-same ((id, b) ∷ t) = next [] t id b refl (Shuffle-same t)

pub engine-IsEngine : IsEngine engine HasTable IsNew
engine-IsEngine = record {
  selects_above = λ {db} {t} p h. (
    cursor (shown (select_where (ltb_ℤ p) t)),
    select_where (ltb_ℤ p) t,
    ap (prepare (select_above p)) h,
    Shows-shown (select_where (ltb_ℤ p) t),
    Shuffle-same (select_where (ltb_ℤ p) t),
    refl,
  );
  selects_max = λ {db} {t} h. (
    cursor ((integer (max_id t) ∷ []) ∷ []),
    integer (max_id t),
    ap (prepare select_max) h,
    refl,
    refl,
    refl,
  );
  selects_min = λ {db} {t} h. (
    cursor ((integer (min_id t) ∷ []) ∷ []),
    integer (min_id t),
    ap (prepare select_min) h,
    refl,
    refl,
    refl,
  );
  inserts = λ {db} {t} id b h fresh. (
    record { result = []; id = id; bound = [] },
    record { result = []; id = id; bound = b },
    some (t ++ (id, b) ∷ []),
    ap (prepare (insert_history id)) h,
    refl,
    ap (step_done (record { result = []; id = id; bound = b })) h,
    refl,
    refl,
  );
  deletes = λ {db} {t} p h. (some (select_where (leb_ℤ p) t), ap (exec (delete_below p)) h, refl);
  creates = λ {db} h. (some [], ap (exec create_history) h, refl);
  counts_one = λ {db} {t} h. (
    cursor ((integer (pos 1) ∷ []) ∷ []),
    integer (pos 1),
    ap (prepare count_history) h,
    refl,
    refl,
    refl,
  );
  counts_none = λ {db} h. (
    cursor ((integer (pos 0) ∷ []) ∷ []),
    integer (pos 0),
    ap (prepare count_history) h,
    refl,
    refl,
    refl,
  );
}
