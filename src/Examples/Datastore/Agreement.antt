-- ===== src/Examples/Datastore/Agreement.antt =====
-- The lock server with a database answers as the one without.
use libpaxos_cpp.Base.{
  Bool, Bool-cases, Bytes, List, Outcome, [], ap, arith, false, fault, inl, inr, ltb_ℤ, ok, refl,
  subst, sym, thrown, true, ℤ, ◌>>=◌, ◌∷◌, ◌≡◌, ◌⊎◌,
}
use libpaxos_cpp.Sql.{Engine}
use libpaxos_cpp.Strategy.Leader.{same_bytes}
use libpaxos_cpp.Strategy.Answer.{same_bytes_refl}
use libpaxos_cpp.Examples.LockService.{
  lock, unlock, success, fail, Locks, second_token, is_locked, erase_lock,
}
use libpaxos_cpp.Examples.LockService
use libpaxos_cpp.Examples.LockService.Balance.{serve}
use libpaxos_cpp.Examples.Datastore.{callback}
use libpaxos_cpp.Examples.Datastore.Statement.{Text}
use libpaxos_cpp.Examples.Datastore.Members.{
  recent-Shows, has_lock-Shows, acquire_lock-Shows, release_lock-Shows,
}
use libpaxos_cpp.Examples.Datastore.Laws.{IsPlain, IsLockEngine}

module _ (e : Engine Text) (split : Bytes → List Bytes) where
  -- The commands in the order of their proposal ids.
  abbrev pub serve_stored : List (ℤ × Bytes) → e.Db → Outcome (List Bytes × e.Db)
  serve_stored [] db = ok ([], db)
  serve_stored ((id, command) ∷ rest) db = do
    (answer, db) ← callback e split id command db
    (answers, db) ← serve_stored rest db
    ok (answer ∷ answers, db)

module _ (split : Bytes → List Bytes) where
  -- No proposal id is below the one before, and the first is not below `recent`.
  abbrev pub Increasing : ℤ → List (ℤ × Bytes) → Type 0
  Increasing recent [] = Unit {0}
  Increasing recent ((id, command) ∷ rest) = (ltb_ℤ id recent ≡ false) × Increasing id rest

  -- No lock id has a single quote.
  abbrev pub AllPlain : List (ℤ × Bytes) → Type 0
  AllPlain [] = Unit {0}
  AllPlain ((id, command) ∷ rest) =
      ((l : Bytes) → second_token (split command) ≡ ok l → IsPlain l) × AllPlain rest

module _ (e : Engine Text) (split : Bytes → List Bytes) {Shows : e.Db → Locks → ℤ → Bool → Type 0}
    (laws : IsLockEngine e Shows) where
  -- Both throw, or both give the same answer and end with the same locks.
  abbrev Alike : ℤ → Bytes → Locks → e.Db → ℤ → Type 0
  Alike id command locks db recent =
      ((LockService.callback split id command locks ≡ fault thrown)
        × (callback e split id command db ≡ fault thrown))
      ⊎ ((answer : Bytes) × (locks' : Locks) × (db' : e.Db) × (recent' : ℤ) × (LockService.callback
              split id command locks
            ≡ ok (answer, locks'))
          × (callback e split id command db ≡ ok (answer, db'))
          × Shows db' locks' recent' false
          × ((recent' ≡ recent) ⊎ (recent' ≡ id)))

  -- A command with a lock id.
  module _ (id : ℤ) (command : Bytes) (locks : Locks) (db : e.Db) (recent : ℤ)
      (new : ltb_ℤ id recent ≡ false) (t l : Bytes) (tokens : List Bytes)
      (at : split command ≡ t ∷ l ∷ tokens) (plain : IsPlain l)
      (k : Shows db locks recent false) where
    lock-Alike : same_bytes t lock ≡ true → Alike id command locks db recent
    unfolding callback LockService.callback
    lock-Alike locks_it =
        let asked = has_lock-Shows e laws l plain k in
        elim (Bool-cases (is_locked l locks)) [
          | inl taken ↦ inr (
            fail,
            locks,
            db,
            recent,
            rw (at, locks_it, taken) refl,
            rw (recent-Shows e laws k, new, at, locks_it, asked, taken) refl,
            k,
            inl refl,
          )
          | inr free ↦
              let (db', acquired, k') = acquire_lock-Shows e laws id l plain free k in
              inr (
                success,
                l ∷ locks,
                db',
                id,
                rw (at, locks_it, free) refl,
                rw (recent-Shows e laws k, new, at, locks_it, asked, free, acquired) refl,
                k',
                inr refl,
              )
        ]

    unlock-Alike :
        same_bytes t lock ≡ false → same_bytes t unlock ≡ true → Alike id command locks db recent
    unfolding callback LockService.callback
    unlock-Alike not_lock unlocks =
        let asked = has_lock-Shows e laws l plain k in
        elim (Bool-cases (is_locked l locks)) [
          | inl taken ↦
              let (db', released, k') = release_lock-Shows e laws id l plain k in
              inr (
                success,
                erase_lock l locks,
                db',
                id,
                rw (at, not_lock, unlocks, taken) refl,
                rw (recent-Shows e laws k, new, at, not_lock, unlocks, asked, taken, released) refl,
                k',
                inr refl,
              )
          | inr free ↦ inr (
            fail,
            locks,
            db,
            recent,
            rw (at, not_lock, unlocks, free) refl,
            rw (recent-Shows e laws k, new, at, not_lock, unlocks, asked, free) refl,
            k,
            inl refl,
          )
        ]

    token-Alike : Alike id command locks db recent
    unfolding callback LockService.callback
    token-Alike = elim (Bool-cases (same_bytes t lock)) [
      | inl locks_it ↦ lock-Alike locks_it
      | inr not_lock ↦ elim (Bool-cases (same_bytes t unlock)) [
        | inl unlocks ↦ unlock-Alike not_lock unlocks
        | inr neither ↦ inr (
          fail,
          locks,
          db,
          recent,
          rw (at, not_lock, neither) refl,
          rw (recent-Shows e laws k, new, at, not_lock, neither) refl,
          k,
          inl refl,
        )
      ]
    ]

  callback-Alike :
      (id : ℤ) (command : Bytes) (locks : Locks) (db : e.Db) (recent : ℤ)
      → ltb_ℤ id recent ≡ false
      → ((l : Bytes) → second_token (split command) ≡ ok l → IsPlain l)
      → Shows db locks recent false
      → Alike id command locks db recent
  unfolding callback LockService.callback
  callback-Alike id command locks db recent new plain k = go (split command) refl
    where
      go : (tokens : List Bytes) → split command ≡ tokens → Alike id command locks db recent
      go [] at = inl (rw at refl, rw (recent-Shows e laws k, new, at) refl)
      go (t ∷ []) at = inl (rw at refl, rw (recent-Shows e laws k, new, at) refl)
      go (t ∷ l ∷ tokens) at =
          token-Alike id command locks db recent new t l tokens at (plain l (ap second_token at)) k

  later_too :
      (recent id : ℤ) (rest : List (ℤ × Bytes))
      → ltb_ℤ id recent ≡ false
      → Increasing split id rest
      → Increasing split recent rest
  later_too recent id [] h i = tt
  later_too recent id ((j, c) ∷ rest) h i = (ground (arith, i.0), i.1)

  -- Where the SQL engine does what it documents and no call of it fails, no proposal id is below
  -- the one before it or the most recent one of the database, and every lock id is in ASCII, of at
  -- most a million bytes, without a zero byte or a single quote: the lock server with a database
  -- and the one without, started with the same locks, both throw on some command, or both give the
  -- same answers and end with the same locks.
  pub serve_stored_agrees :
      (commands : List (ℤ × Bytes)) (locks : Locks) (db : e.Db) (recent : ℤ)
      → Increasing split recent commands
      → AllPlain split commands
      → Shows db locks recent false
      → ((serve split commands locks ≡ fault thrown)
          × (serve_stored e split commands db ≡ fault thrown))
        ⊎ ((answers : List Bytes) × (locks' : Locks) × (db' : e.Db) × (recent' : ℤ) × (serve split
                commands locks
              ≡ ok (answers, locks'))
            × (serve_stored e split commands db ≡ ok (answers, db'))
            × Shows db' locks' recent' false)
  serve_stored_agrees [] locks db recent i plain k = inr ([], locks, db, recent, refl, refl, k)
  serve_stored_agrees ((id, command) ∷ rest) locks db recent (new, i) (plain, all) k =
      elim (callback-Alike id command locks db recent new plain k) [
        | inl (one, two) ↦ inl (rw one refl, rw two refl)
        | inr (answer, locks1, db1, recent1, one, two, k1, which) ↦
            let i1 : Increasing split recent1 rest = elim which [
              | inl same ↦
                  subst (λ r. Increasing split r rest) (sym same) (later_too recent id rest new i)
              | inr now ↦ subst (λ r. Increasing split r rest) (sym now) i
            ] in
            elim (serve_stored_agrees rest locks1 db1 recent1 i1 all k1) [
              | inl (ones, twos) ↦ inl (rw (one, ones) refl, rw (two, twos) refl)
              | inr (answers, locks2, db2, recent2, ones, twos, k2) ↦ inr (
                answer ∷ answers,
                locks2,
                db2,
                recent2,
                rw (one, ones) refl,
                rw (two, twos) refl,
                k2,
              )
            ]
      ]

  -- Where the SQL engine does what it documents and no call of it fails, a command that locks a
  -- free lock id in ASCII, of at most a million bytes, without a zero byte or a single quote, with
  -- a proposal id that is not below the most recent one, succeeds, and fails when it is applied
  -- again with the same proposal id, the lock being held both times.
  pub reapply_latest_fails :
      (id : ℤ) (command l : Bytes) (tokens : List Bytes) (locks : Locks) (db : e.Db) (recent : ℤ)
      → ltb_ℤ id recent ≡ false
      → split command ≡ lock ∷ l ∷ tokens
      → IsPlain l
      → is_locked l locks ≡ false
      → Shows db locks recent false
      → (db' : e.Db) × (callback e split id command db ≡ ok (success, db'))
        × (callback e split id command db' ≡ ok (fail, db'))
        × Shows db' (l ∷ locks) id false
  unfolding callback
  reapply_latest_fails id command l tokens locks db recent new at plain free k =
      let (db', acquired, k') = acquire_lock-Shows e laws id l plain free k in
      let same : same_bytes lock lock ≡ true = refl in
      let old : ltb_ℤ id id ≡ false = ground arith in
      let here : is_locked l (l ∷ locks) ≡ true = rw (same_bytes_refl l) refl in
      (
        db',
        rw (recent-Shows e laws k, new, at, has_lock-Shows e laws l plain k, free, acquired) refl,
        rw (recent-Shows e laws k', old, at, has_lock-Shows e laws l plain k', here) refl,
        k',
      )
