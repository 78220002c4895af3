-- ===== src/Examples/LockService/Balance.antt =====
-- A lock is held by at most one client.
use libpaxos_cpp.Base.{
  Bool, Bool-cases, Bytes, List, Outcome, [], ap, arith, false, if◌then◌else◌, inl, inr, ok, refl,
  sym, true, ℕ, ℤ, ◌&&◌, ◌+◌, ◌>>=◌, ◌||◌, ◌∙◌, ◌∷◌, ◌≡◌, ◌≢◌,
}
use libpaxos_cpp.Strategy.Leader.{same_bytes}
use libpaxos_cpp.Strategy.Answer.{same_bytes_lem, same_bytes_refl}
use libpaxos_cpp.Examples.LockService.{
  lock, unlock, success, fail, Locks, is_locked, erase_lock, callback,
}

is_locked-erase_lock_self : (l : Bytes) (locks : Locks) → is_locked l (erase_lock l locks) ≡ false
is_locked-erase_lock_self l [] = refl
is_locked-erase_lock_self l (m ∷ locks) = elim (Bool-cases (same_bytes l m)) [
  | inl same ↦ rw same (is_locked-erase_lock_self l locks)
  | inr other ↦ rw (other, other) (is_locked-erase_lock_self l locks)
]

is_locked-erase_lock :
    (k l : Bytes) (locks : Locks) → k ≢ l → is_locked l (erase_lock k locks) ≡ is_locked l locks
is_locked-erase_lock k l [] h = refl
is_locked-erase_lock k l (m ∷ locks) h = elim (Bool-cases (same_bytes k m)) [
  | inl same ↦ elim (Bool-cases (same_bytes l m)) [
    | inl here ↦ absurd (h (sym (same_bytes_lem k m same) ∙ same_bytes_lem l m here))
    | inr there ↦ rw (same, there) (is_locked-erase_lock k l locks h)
  ]
  | inr other ↦ rw other (ap (λ b. same_bytes l m || b) (is_locked-erase_lock k l locks h))
]

differ : (k l : Bytes) → k ≢ l → same_bytes l k ≡ false
differ k l h = elim (Bool-cases (same_bytes l k)) [
  | inl same ↦ absurd (h (same_bytes_lem l k same))
  | inr other ↦ other
]

-- One where the lock is held.
abbrev pub held : Bytes → Locks → ℕ
held l locks = if is_locked l locks then 1 else 0

-- The command asks for this of this lock.
abbrev pub asks : Bytes → Bytes → List Bytes → Bool
asks kind l (type_ ∷ lock_id ∷ tokens) = same_bytes type_ kind && same_bytes l lock_id
asks kind l _ = false

abbrev pub HasTokens : List Bytes → Type 0
HasTokens (type_ ∷ lock_id ∷ tokens) = Unit {0}
HasTokens _ = ⊥

zero_plus : (n : ℕ) → 0 + n ≡ n
zero_plus n = omega arith

module _ (split : Bytes → List Bytes) where
  -- The commands in the order of their proposal ids.
  abbrev pub serve : List (ℤ × Bytes) → Locks → Outcome (List Bytes × Locks)
  serve [] locks = ok ([], locks)
  serve ((id, command) ∷ rest) locks = do
    (answer, locks) ← callback split id command locks
    (answers, locks) ← serve rest locks
    ok (answer ∷ answers, locks)

  -- How often this was asked of the lock, with success.
  abbrev pub granted : Bytes → Bytes → List (ℤ × Bytes) → List Bytes → ℕ
  granted kind l ((id, command) ∷ rest) (answer ∷ answers) =
      (if asks kind l (split command) && same_bytes answer success then 1 else 0)
      + granted kind l rest answers
  granted kind l _ _ = 0

  abbrev pub AllTokens : List (ℤ × Bytes) → Type 0
  AllTokens [] = Unit {0}
  AllTokens ((id, command) ∷ rest) = HasTokens (split command) × AllTokens rest

  -- What is granted by one command, and what it does to the locks.
  abbrev grant : Bytes → Bytes → List Bytes → Bytes → ℕ
  grant kind l tokens answer = if asks kind l tokens && same_bytes answer success then 1 else 0

  locked_one :
      (l k : Bytes) (locks : Locks)
      → is_locked k locks ≡ false
      → (if same_bytes l k && true then 1 else 0) + held l locks ≡ held l (k ∷ locks)
  locked_one l k locks free = elim (Bool-cases (same_bytes l k)) [
    | inl same ↦
        let gone : is_locked l locks ≡ false =
          ap (λ l. is_locked l locks) (sym (same_bytes_lem l k same)) ∙ free in
        rw (same, gone) refl
    | inr other ↦ rw other (zero_plus (held l locks))
  ]

  unlocked_one :
      (l k : Bytes) (locks : Locks)
      → is_locked k locks ≡ true
      → held l locks ≡ (if same_bytes l k && true then 1 else 0) + held l (erase_lock k locks)
  unlocked_one l k locks taken = elim (Bool-cases (same_bytes l k)) [
    | inl same ↦
        let one : k ≡ l = same_bytes_lem l k same in
        let here : is_locked l locks ≡ true = ap (λ l. is_locked l locks) (sym one) ∙ taken in
        let gone : is_locked l (erase_lock k locks) ≡ false =
          ap (λ k. is_locked l (erase_lock k locks)) one ∙ is_locked-erase_lock_self l locks in
        rw (same, here, gone) refl
    | inr other ↦
        let apart : k ≢ l =
          λ e. let same : same_bytes l k ≡ true = ap (same_bytes l) e ∙ same_bytes_refl l in cc in
        rw (other, is_locked-erase_lock k l locks apart) (sym (zero_plus (held l locks)))
  ]

  step :
      (id : ℤ) (command : Bytes) (locks : Locks)
      → HasTokens (split command)
      → (answer : Bytes) × (locks' : Locks) × (callback split id command locks
          ≡ ok (answer, locks'))
        × ((l : Bytes)
            → grant lock l (split command) answer + held l locks
              ≡ grant unlock l (split command) answer + held l locks')
  unfolding callback
  step id command locks h = go (split command) refl h
    where
      go :
          (tokens : List Bytes)
          → split command ≡ tokens
          → HasTokens tokens
          → (answer : Bytes) × (locks' : Locks) × (callback split id command locks
              ≡ ok (answer, locks'))
            × ((l : Bytes)
                → grant lock l (split command) answer + held l locks
                  ≡ grant unlock l (split command) answer + held l locks')
      go [] e h = absurd h
      go (t ∷ []) e h = absurd h
      go (t ∷ k ∷ tokens) e h = elim (Bool-cases (same_bytes t lock)) [
        | inl locks_it ↦
            let kind : same_bytes t unlock ≡ false =
              ap (λ t. same_bytes t unlock) (sym (same_bytes_lem t lock locks_it)) in
            elim (Bool-cases (is_locked k locks)) [
              | inl taken ↦ (fail, locks, rw (e, locks_it, taken) refl, λ l. rw e (ground arith))
              | inr free ↦ (
                success,
                k ∷ locks,
                rw (e, locks_it, free) refl,
                λ l. rw (e, locks_it, kind) (ground (arith, locked_one l k locks free)),
              )
            ]
        | inr not_lock ↦ elim (Bool-cases (same_bytes t unlock)) [
          | inl unlocks ↦ elim (Bool-cases (is_locked k locks)) [
            | inl taken ↦ (
              success,
              erase_lock k locks,
              rw (e, not_lock, unlocks, taken) refl,
              λ l. rw (e, not_lock, unlocks) (ground (arith, unlocked_one l k locks taken)),
            )
            | inr free ↦
                (fail, locks, rw (e, not_lock, unlocks, free) refl, λ l. rw e (ground arith))
          ]
          | inr neither ↦ (fail, locks, rw (e, not_lock, neither) refl, λ l. rw e (ground arith))
        ]
      ]

  -- Where every command has at least two tokens, the lock server answers all of them, and for each
  -- lock the number of times that it was granted, plus one if it was held at the start, is the
  -- number of times that it was given back, plus one if it is held at the end.
  pub serve_balance :
      (commands : List (ℤ × Bytes)) (locks : Locks)
      → AllTokens commands
      → (answers : List Bytes) × (locks' : Locks) × (serve commands locks ≡ ok (answers, locks'))
        × ((l : Bytes)
            → granted lock l commands answers + held l locks
              ≡ granted unlock l commands answers + held l locks')
  serve_balance [] locks h = ([], locks, refl, λ l. refl)
  serve_balance ((id, command) ∷ rest) locks (tokens, h) =
      let (answer, locks1, done, one) = step id command locks tokens in
      let (answers, locks2, more, all) = serve_balance rest locks1 h in
      (answer ∷ answers, locks2, rw (done, more) refl, λ l. omega (arith, one l, all l))
