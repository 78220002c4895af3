-- ===== src/Storage/Sqlite/Refines.antt =====
-- The database fulfils IsBackend.
use libpaxos_cpp.Base.{
  Bool-cases, Bytes, List, [], ap, ap₂, arith, dec_lt, divides_ℤ, drop, false, inl, inr, leb_ℤ,
  length, ltb_ℤ, min_ℤ, negsuc, ok, pos, refl, some, subst, suc, sym, true, ℕ, ℤ, ℤ_order, ◌&&◌,
  ◌++◌, ◌+◌, ◌-ℤ◌, ◌-◌, ◌<◌, ◌==ℤ◌, ◌∙◌, ◌∷◌, ◌≡◌, ◌≤◌,
}
use libpaxos_cpp.Storage.Log.{
  Log, IsLog, highest, lowest_id, append, trim, enumerate, above, enumerate-append, append-IsLog,
  trim-IsLog,
}
use libpaxos_cpp.Storage.Backend.{Durable, IsBackend, clean_up, accept}
use libpaxos_cpp.Storage.Sqlite.{
  single_id, single_count, retrieve, highest_proposal_id, lowest_proposal_id, store, remove,
  create_table, has_table, new_sqlite, sqlite,
}
use libpaxos_cpp.Storage.Sqlite.Sql.{Statement}
use libpaxos_cpp.Sql.{Engine, Rows}
use libpaxos_cpp.Storage.Sqlite.Laws.{Table, select_where, max_id, IsEngine, Shuffle}
use libpaxos_cpp.Storage.Sqlite.Collect.{
  collect-enumerate, select_where-enumerate, max_id-enumerate, min_id-enumerate, IsFresh-enumerate,
}

module _ (e : Engine Statement) {HasTable : e.Db → Table → Type 0} {IsNew : e.Db → Type 0}
    (laws : IsEngine e HasTable IsNew) where
  -- The table of a database holds exactly the entries of the log.
  pub record Holds (db : e.Db) (l : Log) : Type 0 where
    pub is_log : IsLog l
    pub entries : HasTable db (enumerate (suc l.base) l.values)

  single_id_lem :
      (rows : Rows e.Column) (c : e.Column) (n : ℕ)
      → rows ≡ (c ∷ []) ∷ []
      → e.column_int64 c ≡ pos n
      → single_id e rows (pos 0) ≡ ok (pos n)
  unfolding single_id
  single_id_lem rows c n one at = rw one (rw at (ground arith))

  max_of : (l : Log) → IsLog l → max_id (enumerate (suc l.base) l.values) ≡ pos (highest l)
  max_of l k = go l.values refl
    where
      go :
          (vs : List Bytes)
          → l.values ≡ vs
          → max_id (enumerate (suc l.base) vs) ≡ pos (l.base + length l.values)
      go [] h = ap pos (omega (arith, k.rooted (ap length h), ap length h))
      go (v ∷ vs) h = max_id-enumerate (suc l.base) v vs ∙ ap pos (omega (arith, ap length h))

  highest-Holds :
      {db : e.Db} {l : Log} → Holds db l → highest_proposal_id e db ≡ ok (pos (highest l))
  unfolding highest_proposal_id
  highest-Holds {db} {l} k =
      let (cursor, c, prepared, one, at, done) = laws.selects_max k.entries in
      rw (prepared, single_id_lem (e.rows cursor) c (highest l) one (at ∙ max_of l k.is_log), done)

  lowest-Holds :
      {db : e.Db} {l : Log} → Holds db l → lowest_proposal_id e db ≡ ok (pos (lowest_id l))
  unfolding lowest_proposal_id
  lowest-Holds {db} {l} k =
      let (cursor, c, prepared, one, at, done) = laws.selects_min k.entries in
      rw (
        prepared,
        single_id_lem (e.rows cursor) c (lowest_id l) one (at ∙ min_id-enumerate l.base l.values),
        done,
      )

  retrieve-Holds :
      {db : e.Db} {l : Log} (p : ℕ)
      → Holds db l
      → l.base ≤ p
      → retrieve e db (pos p) ≡ ok (enumerate (suc p) (above p l))
  unfolding retrieve
  retrieve-Holds {db} {l} p k h =
      let (cursor, shown, prepared, shows, any, done) = laws.selects_above (pos p) k.entries in
      let first : suc l.base + (suc p - suc l.base) ≡ suc p = omega arith in
      let dropped : suc p - suc l.base ≡ p - l.base = omega arith in
      let chosen : select_where (ltb_ℤ (pos p)) (enumerate (suc l.base) l.values)
          ≡ enumerate (suc p) (above p l) =
        select_where-enumerate (ltb_ℤ (pos p)) (suc p) (suc l.base) l.values (λ i. ground arith)
        ∙ ap₂ (λ n d. enumerate n (drop d l.values)) first dropped in
      rw (
        prepared,
        collect-enumerate e (e.rows cursor) (suc p) (above p l) shows
            (subst (Shuffle shown) chosen any),
        done,
      )

  store-Holds :
      {db : e.Db} {l : Log} (v : Bytes)
      → Holds db l
      → (db' : e.Db) × (store e db (pos (suc (highest l))) v ≡ ok db') × Holds db' (append l v)
  unfolding store
  store-Holds {db} {l} v k =
      let id : ℤ = pos (suc (highest l)) in
      let (cursor, bound, db', prepared, binds, stepped, done, holds) =
        laws.inserts id v k.entries
          (IsFresh-enumerate (suc (highest l)) (suc l.base) l.values (omega arith)) in
      let positive : ltb_ℤ (pos 0) id ≡ true = ground arith in
      let before : (pos (highest l) ==ℤ id -ℤ pos 1) ≡ true = ground arith in
      let entries : enumerate (suc l.base) l.values ++ (id, v) ∷ []
          ≡ enumerate (suc l.base) (l.values ++ v ∷ []) =
        ap (λ n. enumerate (suc l.base) l.values ++ (pos n, v) ∷ [])
          {y = suc l.base + length l.values} (omega arith)
        ∙ sym (enumerate-append (suc l.base) l.values (v ∷ [])) in
      (
        db',
        rw (positive, highest-Holds k, before, prepared, binds, stepped, done),
        record { is_log = append-IsLog l v; entries = subst (HasTable db') entries holds },
      )

  -- Only ids below `p` go.
  remove-Holds :
      {db : e.Db} {l : Log} (p : ℕ)
      → Holds db l
      → p < highest l
      → (db' : e.Db) × (remove e db (pos p) ≡ ok db') × Holds db' (trim (p - suc l.base) l)
  unfolding remove
  remove-Holds {db} {l} p k h =
      let n : ℕ = p - suc l.base in
      let (db', deleted, holds) = laws.deletes (pos p) k.entries in
      let first : suc l.base + n ≡ suc (l.base + n) = omega arith in
      let inside : n < length l.values = elim (dec_lt 0 (length l.values)) [
        | yes some_values ↦ omega arith
        | no none_left ↦ absurd (omega (arith, k.is_log.rooted (omega arith)))
      ] in
      (
        db',
        rw deleted,
        record {
          is_log = trim-IsLog n l inside;
          entries =
              subst (HasTable db')
                (select_where-enumerate (leb_ℤ (pos p)) p (suc l.base) l.values (λ i. ground arith)
                  ∙ ap (λ i. enumerate i (drop n l.values)) first)
                holds;
        },
      )

  -- Where the SQL engine does what it documents of the statements, giving rows in whatever order,
  -- and no call of it fails, the database fulfils IsBackend over the log that its table spells
  -- out: the highest and the lowest id, 0 if there is none; all that is retrieved above an id that
  -- no removed one is above; storing the next id; and removing an id below the highest, which
  -- forgets all ids below it and none above it.
  pub sqlite-IsBackend : IsBackend (sqlite e) Holds
  sqlite-IsBackend = record {
    holds_IsLog = λ k. k.is_log;
    highest-Holds = highest-Holds;
    lowest-Holds = lowest-Holds;
    retrieve-Holds = retrieve-Holds;
    store-Holds = store-Holds;
    remove-Holds = λ {s} {l} p k h.
        let (t, done, holds) = remove-Holds p k h in
        (t, p - suc l.base, done, omega arith, omega arith, holds);
  }

  single_count_lem :
      (rows : Rows e.Column) (c : e.Column) (n : ℕ)
      → rows ≡ (c ∷ []) ∷ []
      → e.column_int64 c ≡ pos n
      → single_count e rows (pos 0) ≡ ok (pos n)
  unfolding single_count
  single_count_lem rows c n one at = rw one (rw at refl)

  -- Opening a database continues from the log that its table holds.
  pub open_sqlite : {db : e.Db} {l : Log} → Holds db l → new_sqlite e (some db) ≡ ok db
  unfolding new_sqlite has_table
  open_sqlite {db} k =
      let (cursor, c, prepared, one, at, done) = laws.counts_one k.entries in
      rw (prepared, single_count_lem (e.rows cursor) c 1 one at, done) refl

  -- Where there is no table yet, an empty one is made.
  pub open_sqlite_new :
      {db : e.Db}
      → IsNew db
      → (db' : e.Db) × (new_sqlite e (some db) ≡ ok db')
        × Holds db' (record { base = 0; values = [] })
  unfolding new_sqlite has_table create_table
  open_sqlite_new {db} k =
      let (cursor, c, prepared, one, at, done) = laws.counts_none k in
      let (db', created, holds) = laws.creates k in
      (
        db',
        rw (prepared, single_count_lem (e.rows cursor) c 0 one at, done, created) refl,
        record { is_log = record { rooted = λ h. refl }; entries = holds },
      )

  select_all :
      (n m : ℕ) (vs : List Bytes)
      → select_where (leb_ℤ (negsuc n)) (enumerate m vs) ≡ enumerate m vs
  select_all n m [] = refl
  select_all n m (v ∷ vs) = rw (select_all n (suc m) vs) refl

  -- A negative id, as of a host of which nothing is known, removes nothing.
  pub remove_negative :
      {db : e.Db} {l : Log} (n : ℕ)
      → Holds db l
      → (db' : e.Db) × (remove e db (negsuc n) ≡ ok db') × Holds db' l
  unfolding remove
  remove_negative {db} {l} n k =
      let (db', deleted, holds) = laws.deletes (negsuc n) k.entries in
      (
        db',
        rw deleted,
        record {
          is_log = k.is_log;
          entries = subst (HasTable db') (select_all n (suc l.base) l.values) holds;
        },
      )

  -- Where the lowest proposal id is negative, as it is when the leader has never heard of a host,
  -- and the history size is positive, the database accepts the next value and removes none.
  pub accept_unknown_host_keeps :
      (d : Durable e.Db) (l : Log) (v : Bytes) (size n : ℕ)
      → Holds d.state l
      → d.history_size ≡ pos size
      → 0 < size
      → (db : e.Db) × (accept (sqlite e) d (pos (suc (highest l))) v (negsuc n)
          ≡ ok (record d { state = db }))
        × Holds db (append l v)
  unfolding accept clean_up
  accept_unknown_host_keeps d l v size n k sized some_size =
      let (s, stored, k1) = store-Holds v k in
      let positive : (d.history_size ==ℤ pos 0) ≡ false = rw sized (ground arith) in
      elim (Bool-cases (
        divides_ℤ (pos size) (pos (suc (highest l))) && ltb_ℤ (pos size) (pos (suc (highest l))))) [
          | inl due ↦
              let cut : min_ℤ (pos (suc (highest l)) -ℤ pos size) (negsuc n) ≡ negsuc n =
                ground arith in
              let (db, removed, k2) = remove_negative n k1 in
              (db, rw (stored, positive, sized, due, cut, removed), k2)
          | inr not_due ↦ (s, rw (stored, positive, sized, not_due), k1)
        ]
