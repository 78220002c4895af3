-- ===== src/Tests/LockService.antt =====
-- Two clients and a lock, on a database in memory.
use libpaxos_cpp.Base.{
  Bool, Bytes, List, Option, [], arith, false, fault, if◌then◌else◌, none, ok, pos, refl, some,
  subst, thrown, true, ℕ, ℤ, ◌++◌, ◌+◌, ◌==◌, ◌∷◌, ◌≡◌, ◌⊎◌,
}
use libpaxos_cpp.Sql.{Engine}
use libpaxos_cpp.Examples.LockService.{Locks, lock, unlock, success, fail, is_locked, erase_lock}
use libpaxos_cpp.Examples.LockService.Balance.{held, serve, granted, serve_balance}
use libpaxos_cpp.Examples.Datastore.{callback}
use libpaxos_cpp.Examples.Datastore.Statement.{
  Text, select_proposal_id, count_lock, begin, insert_into_locks, delete_from_locks,
  update_proposal_id, commit,
}
use libpaxos_cpp.Examples.Datastore.Laws.{IsPlain, IsLockEngine}
use libpaxos_cpp.Examples.Datastore.Agreement.{
  serve_stored, serve_stored_agrees, reapply_latest_fails,
}

abbrev add_to_first : ℕ → List Bytes → List Bytes
add_to_first c [] = (c ∷ []) ∷ []
add_to_first c (t ∷ tokens) = (c ∷ t) ∷ tokens

abbrev split_at_spaces : Bytes → List Bytes
split_at_spaces [] = [] ∷ []
split_at_spaces (c ∷ command) =
    let tokens = split_at_spaces command in if c == 32 then [] ∷ tokens else add_to_first c tokens

-- "lock a", "lock a" and "unlock a"
abbrev lock_a : Bytes
lock_a = lock ++ 32 ∷ 97 ∷ []

abbrev commands : List (ℤ × Bytes)
commands = (pos 1, lock_a) ∷ (pos 2, lock_a) ∷ (pos 3, unlock ++ 32 ∷ 97 ∷ []) ∷ []

serve_balance_example :
    (answers : List Bytes) × (locks : Locks) × (serve split_at_spaces commands []
      ≡ ok (answers, locks))
    × ((l : Bytes)
        → granted split_at_spaces lock l commands answers + held l []
          ≡ granted split_at_spaces unlock l commands answers + held l locks)
serve_balance_example = serve_balance split_at_spaces commands [] (tt, (tt, (tt, tt)))

record Store : Type 0 where
  locks : Locks
  recent : ℤ
  inside : Bool

abbrev prepare : Text → Store → Option ℤ
prepare select_proposal_id s = some s.recent
prepare (count_lock l) s = some (if is_locked l s.locks then pos 1 else pos 0)
prepare _ s = none

abbrev exec : Text → Store → Option Store
exec begin s = if s.inside then none else some (record s { inside = true })
exec (insert_into_locks l) s =
    if is_locked l s.locks then none else some (record s { locks = l ∷ s.locks })
exec (delete_from_locks l) s = some (record s { locks = erase_lock l s.locks })
exec (update_proposal_id id) s = some (record s { recent = id })
exec commit s = if s.inside then some (record s { inside = false }) else none
exec _ s = none

abbrev engine : Engine Text
engine = record {
  Db = Store;
  Cursor = ℤ;
  Column = ℤ;
  prepare = prepare;
  rows = λ n. (n ∷ []) ∷ [];
  bind_blob = λ c n b. none;
  step_done = λ c s. none;
  finalize = λ c. true;
  exec = exec;
  column_int64 = λ n. n;
  column_blob = λ n. [];
}

abbrev store : Locks → ℤ → Bool → Store
store locks recent inside = record { locks = locks; recent = recent; inside = inside }

abbrev Shows : Store → Locks → ℤ → Bool → Type 0
Shows s locks recent inside = s ≡ store locks recent inside

engine-IsLockEngine : IsLockEngine engine Shows
engine-IsLockEngine = record {
  selects = λ {db} {locks} {recent} k. (recent, recent, rw k refl, refl, refl, refl);
  counts = λ l {db} {locks} {recent} plain k. (_, _, rw k refl, refl, refl, refl);
  begins = λ {db} {locks} {recent} k. (store locks recent true, rw k refl, refl);
  inserts = λ l {db} {locks} {recent} plain free k.
      (store (l ∷ locks) recent true, rw (k, free) refl, refl);
  deletes =
      λ l {db} {locks} {recent} plain k. (store (erase_lock l locks) recent true, rw k refl, refl);
  updates = λ id {db} {locks} {recent} k. (store locks id true, rw k refl, refl);
  commits = λ {db} {locks} {recent} k. (store locks recent false, rw k refl, refl);
}

a-IsPlain : IsPlain (97 ∷ [])
a-IsPlain = (λ c h. (ground arith, ground arith, ground arith), omega arith)

same_token : (l : Bytes) → ok (97 ∷ []) ≡ ok l → IsPlain l
same_token l h = let same : 97 ∷ [] ≡ l = cc in subst IsPlain same a-IsPlain

serve_stored_agrees_example :
    ((serve split_at_spaces commands [] ≡ fault thrown)
      × (serve_stored engine split_at_spaces commands (store [] (pos 0) false) ≡ fault thrown))
    ⊎ ((answers : List Bytes) × (locks : Locks) × (db : Store) × (recent : ℤ) × (serve
            split_at_spaces commands []
          ≡ ok (answers, locks))
        × (serve_stored engine split_at_spaces commands (store [] (pos 0) false) ≡ ok (answers, db))
        × Shows db locks recent false)
serve_stored_agrees_example =
    serve_stored_agrees engine split_at_spaces engine-IsLockEngine commands []
      (store [] (pos 0) false) (pos 0) (refl, (refl, (refl, tt)))
      (same_token, (same_token, (same_token, tt))) refl

reapply_latest_fails_example :
    (db : Store) × (callback engine split_at_spaces (pos 1) lock_a (store [] (pos 0) false)
      ≡ ok (success, db))
    × (callback engine split_at_spaces (pos 1) lock_a db ≡ ok (fail, db))
    × Shows db ((97 ∷ []) ∷ []) (pos 1) false
reapply_latest_fails_example =
    reapply_latest_fails engine split_at_spaces engine-IsLockEngine (pos 1) lock_a (97 ∷ []) [] []
      (store [] (pos 0) false) (pos 0) refl refl a-IsPlain refl refl
