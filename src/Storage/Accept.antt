-- ===== src/Storage/Accept.antt =====
-- storage::accept over any backend that fulfils IsBackend: what is stored, and what is forgotten.
use libpaxos_cpp.Base.{
  Bool-cases, Bytes, arith, dec_lt, divides_ℤ, false, inl, inr, ltb_ℤ, min_ℤ, ok, pos, refl, subst,
  suc, sym, ℕ, ℤ, ◌&&◌, ◌+◌, ◌-ℤ◌, ◌-◌, ◌<◌, ◌==ℤ◌, ◌≡◌, ◌≤◌, ◌⊎◌,
}
use libpaxos_cpp.Storage.Log.{Log, highest, append, trim, trim-zero, highest-append}
use libpaxos_cpp.Storage.Backend.{Backend, Durable, IsBackend, clean_up, accept}

-- What an accept may forget: nothing, or ids that every host has and that are `size` behind.
abbrev pub Forgets : Log → ℕ → ℕ → ℕ → Type 0
Forgets l size q n = (n ≡ 0) ⊎ ((l.base + n + size ≤ highest l) × (l.base + n ≤ q))

module _ {S : Type 0} {b : Backend S} {Holds : S → Log → Type 0} (laws : IsBackend b Holds) where
  open laws use {store-Holds, remove-Holds}

  cut-Forgets :
      (l : Log) (size q p n : ℕ)
      → n ≤ p - l.base
      → p + size ≤ highest l
      → p ≤ q
      → Forgets l size q n
  cut-Forgets l size q p n few below known = elim (dec_lt 0 n) [
    | yes some_n ↦ inr (omega arith, omega arith)
    | no none_n ↦ inl (omega arith)
  ]

  -- The id that is handed to `remove`, where all numbers are positive.
  cut : ℕ → ℕ → ℕ → ℤ
  cut id size q = min_ℤ (pos id -ℤ pos size) (pos q)

  cut_lem :
      (id size q : ℕ) → size ≤ id → (p : ℕ) × (cut id size q ≡ pos p) × (p + size ≤ id) × (p ≤ q)
  unfolding cut
  cut_lem id size q h = elim (dec_lt q (id - size)) [
    | yes low ↦ (q, ground arith, omega arith, omega arith)
    | no high ↦ (id - size, ground arith, omega arith, omega arith)
  ]

  remove_cut :
      (s : S) (l : Log) (size q : ℕ)
      → Holds s l
      → 0 < size
      → size ≤ highest l
      → (t : S) × (n : ℕ) × (b.remove s (cut (highest l) size q) ≡ ok t)
        × Forgets l size q n
        × Holds t (trim n l)
  remove_cut s l size q k h g =
      let (p, e, below, known) = cut_lem (highest l) size q g in
      let (t, n, done, _, few, k') = remove-Holds p k (omega arith) in
      (t, n, rw e done, cut-Forgets l size q p n few below known, k')

  clean_up_lem :
      (d : Durable S) (l : Log) (size q : ℕ)
      → Holds d.state l
      → d.history_size ≡ pos size
      → 0 < size
      → (t : S) × (n : ℕ) × (clean_up b d (pos (highest l)) (pos q) ≡ ok (record d { state = t }))
        × Forgets l size q n
        × Holds t (trim n l)
  unfolding clean_up cut
  clean_up_lem d l size q k e h =
      elim (Bool-cases
        (divides_ℤ (pos size) (pos (highest l)) && ltb_ℤ (pos size) (pos (highest l)))) [
          | inl clean ↦
              let g : size ≤ highest l = ground arith in
              let (t, n, done, few, k') = remove_cut d.state l size q k h g in
              (t, n, rw (e, clean, done), few, k')
          | inr keep ↦ (
            d.state,
            0,
            rw (e, keep) (ground arith),
            inl refl,
            subst (Holds d.state) (sym (trim-zero l)) k,
          )
        ]

  -- Over any backend that fulfils IsBackend, with a positive history size and a lowest id that is
  -- not negative, accepting the next proposal succeeds: the value is appended, and all that is
  -- forgotten is known to every host and at least a history size behind.
  pub accept-Holds :
      (d : Durable S) (l : Log) (v : Bytes) (size q : ℕ)
      → Holds d.state l
      → d.history_size ≡ pos size
      → 0 < size
      → (t : S) × (n : ℕ) × (accept b d (pos (suc (highest l))) v (pos q)
          ≡ ok (record d { state = t }))
        × Forgets (append l v) size q n
        × Holds t (trim n (append l v))
  unfolding accept
  accept-Holds d l v size q k e h =
      let (s, stored, k') = store-Holds v k in
      let (t, n, done, few, k'') =
        clean_up_lem (record d { state = s }) (append l v) size q k' e h in
      let positive : (d.history_size ==ℤ pos 0) ≡ false = rw e (ground arith) in
      let next : ℕ → Type 0 =
        λ i. clean_up b (record d { state = s }) (pos i) (pos q) ≡ ok (record d { state = t }) in
      (t, n, rw (stored, positive) (subst next (highest-append l v) done), few, k'')
