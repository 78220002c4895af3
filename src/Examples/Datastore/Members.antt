-- ===== src/Examples/Datastore/Members.antt =====
-- What the members of the datastore do to the tables.
use libpaxos_cpp.Base.{Bool, Bool-cases, Bytes, false, inl, inr, ok, refl, ℤ, ◌∷◌, ◌≡◌}
use libpaxos_cpp.Sql.{Engine}
use libpaxos_cpp.Examples.LockService.{Locks, is_locked, erase_lock}
use libpaxos_cpp.Examples.Datastore.{
  single_proposal_id, most_recent_proposal_id, single_count, has_lock, acquire_lock, release_lock,
}
use libpaxos_cpp.Examples.Datastore.Statement.{Text}
use libpaxos_cpp.Examples.Datastore.Laws.{IsPlain, IsLockEngine}

module _ (e : Engine Text) {Shows : e.Db → Locks → ℤ → Bool → Type 0}
    (laws : IsLockEngine e Shows) where
  pub recent-Shows :
      {db : e.Db} {locks : Locks} {recent : ℤ}
      → Shows db locks recent false
      → most_recent_proposal_id e db ≡ ok recent
  unfolding most_recent_proposal_id single_proposal_id
  recent-Shows k =
      let (cursor, c, prepared, one, at, done) = laws.selects k in rw (prepared, one, done, at) refl

  pub has_lock-Shows :
      (l : Bytes) {db : e.Db} {locks : Locks} {recent : ℤ}
      → IsPlain l
      → Shows db locks recent false
      → has_lock e db l ≡ ok (is_locked l locks)
  unfolding has_lock single_count
  has_lock-Shows l {db} {locks} plain k =
      let (cursor, c, prepared, one, at, done) = laws.counts l plain k in
      elim (Bool-cases (is_locked l locks)) [
        | inl taken ↦ rw (prepared, one, done, at, taken) refl
        | inr free ↦ rw (prepared, one, done, at, free) refl
      ]

  pub acquire_lock-Shows :
      (id : ℤ) (l : Bytes) {db : e.Db} {locks : Locks} {recent : ℤ}
      → IsPlain l
      → is_locked l locks ≡ false
      → Shows db locks recent false
      → (db' : e.Db) × (acquire_lock e db id l ≡ ok db') × Shows db' (l ∷ locks) id false
  unfolding acquire_lock
  acquire_lock-Shows id l plain free k =
      let (db1, begun, k1) = laws.begins k in
      let (db2, inserted, k2) = laws.inserts l plain free k1 in
      let (db3, updated, k3) = laws.updates id k2 in
      let (db4, committed, k4) = laws.commits k3 in
      (db4, rw (begun, inserted, updated, committed) refl, k4)

  pub release_lock-Shows :
      (id : ℤ) (l : Bytes) {db : e.Db} {locks : Locks} {recent : ℤ}
      → IsPlain l
      → Shows db locks recent false
      → (db' : e.Db) × (release_lock e db id l ≡ ok db') × Shows db' (erase_lock l locks) id false
  unfolding release_lock
  release_lock-Shows id l plain k =
      let (db1, begun, k1) = laws.begins k in
      let (db2, deleted, k2) = laws.deletes l plain k1 in
      let (db3, updated, k3) = laws.updates id k2 in
      let (db4, committed, k4) = laws.commits k3 in
      (db4, rw (begun, deleted, updated, committed) refl, k4)
