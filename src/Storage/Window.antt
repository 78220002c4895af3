-- ===== src/Storage/Window.antt =====
-- How long the history of a heap gets while no host lags behind.
use libpaxos_cpp.Base.{
  Bool-cases, Bytes, aborted, arith, dec_lt, divides_ℤ, false, fault, if◌then◌else◌, inl, inr,
  length, ltb_ℤ, min_ℤ, negsuc, ok, pos, suc, true, zero, ℕ, ◌%◌, ◌&&◌, ◌*◌, ◌+◌, ◌-ℤ◌, ◌-◌, ◌/◌,
  ◌<◌, ◌==ℤ◌, ◌∙◌, ◌≡◌, ◌≢◌, ◌≤◌, ◌⊎◌,
}
use native.Mathlib.Nat.{add-mul-mod_self_right, zero-mod, div-add-mod'}
use libpaxos_cpp.Storage.Log.{Log, highest, append, trim, highest-append, highest-trim}
use libpaxos_cpp.Storage.Backend.{Durable, clean_up, accept}
use libpaxos_cpp.Storage.Heap.{Heap, heap, store, remove}
use libpaxos_cpp.Storage.Heap.Refines.{Holds, remove-Holds, store-Holds}

-- Cleaned up to a multiple of the history size, and shorter than two histories.
pub record Window (size : ℕ) (l : Log) : Type 0 where
  pub rounds : ℕ
  pub cleaned : l.base ≡ rounds * size
  pub short : highest l < l.base + size + size
  pub full : (l.base ≡ 0) ⊎ (l.base + size ≤ highest l)

-- pid is not a multiple of the size, or the first one.
next_short :
    (size rounds id : ℕ)
    → 0 < size
    → id ≤ rounds * size + size + size
    → (id % size ≢ 0) ⊎ (id ≤ size)
    → id < rounds * size + size + size
next_short size rounds id h g (inr low) = grind arith
next_short size rounds id h g (inl odd) = elim (dec_lt id (rounds * size + size + size)) [
  | yes lt ↦ lt
  | no ge ↦
      let e : id ≡ 0 + (rounds + 2) * size = grind arith in
      absurd (odd (rw e (add-mul-mod_self_right 0 (rounds + 2) size ∙ zero-mod size)))
]

one_less : (d size id : ℕ) → size < id → d * size ≡ id → id - size ≡ (d - 1) * size
one_less zero size id h e = absurd (omega arith)
one_less (suc d) size id h e = let e' : suc d - 1 ≡ d = omega arith in rw e' (omega arith)

next_cleaned : (size id : ℕ) → size < id → id % size ≡ 0 → id - size ≡ (id / size - 1) * size
next_cleaned size id h e = one_less (id / size) size id h (omega (arith, div-add-mod' id size))

module _ (d : Durable Heap) (l : Log) (v : Bytes) (size q : ℕ) (holds : Holds d.state l)
    (sized : d.history_size ≡ pos size) (some_size : 0 < size) (caught_up : highest l ≤ q)
    (w : Window size l) where
  id : ℕ
  id = suc (highest l)

  -- What the log is after the accept.
  after : Log
  after =
      if divides_ℤ (pos size) (pos id) && ltb_ℤ (pos size) (pos id)
      then trim (id - size - l.base) (append l v)
      else append l v

  after-Window : Window size after × (highest after ≡ id)
  unfolding after id
  after-Window = elim (Bool-cases (divides_ℤ (pos size) (pos id) && ltb_ℤ (pos size) (pos id))) [
    | inl clean ↦
        let long : size < id = ground arith in
        let even : id % size ≡ 0 = ground arith in
        let tall : highest (append l v) ≡ id = highest-append l v in
        let full : l.base ≤ id - size = omega (arith, w.full) in
        let same : highest (trim (id - size - l.base) (append l v)) ≡ id =
          highest-trim (id - size - l.base) (append l v) (omega arith) ∙ tall in
        rw clean (
          record {
            rounds = id / size - 1;
            cleaned = omega (arith, next_cleaned size id long even);
            short = omega arith;
            full = inr (omega arith);
          },
          same,
        )
    | inr keep ↦
        let tall : highest (append l v) ≡ id = highest-append l v in
        let odd : (id % size ≢ 0) ⊎ (id ≤ size) = ground arith in
        let small : id < w.rounds * size + size + size =
          next_short size w.rounds id some_size (omega (arith, w.cleaned, w.short)) odd in
        rw keep (
          record {
            rounds = w.rounds;
            cleaned = w.cleaned;
            short = omega (arith, w.cleaned);
            full = omega (arith, w.full);
          },
          tall,
        )
  ]

  remove_after :
      (s : Heap)
      → Holds s (append l v)
      → (t : Heap) × (clean_up heap (record d { state = s }) (pos id) (pos q)
          ≡ ok (record d { state = t }))
        × Holds t after
  unfolding clean_up after id
  remove_after s k =
      elim (Bool-cases (divides_ℤ (pos size) (pos id) && ltb_ℤ (pos size) (pos id))) [
        | inl clean ↦
            let tall : highest (append l v) ≡ id = highest-append l v in
            let cut : min_ℤ (pos id -ℤ pos size) (pos q) ≡ pos (id - size) = ground arith in
            let (t, done, k') = remove-Holds (id - size) k (omega arith) in
            (t, rw (sized, clean, cut, done), rw clean k')
        | inr keep ↦ (s, rw (sized, keep), rw keep k)
      ]

  -- With a positive history size, and while no host lags behind the accepting one, accepting the
  -- next proposal on a heap succeeds and keeps its history, where it was so before, cleaned up to
  -- a multiple of the history size: it is shorter than two histories, and once something was
  -- removed it is no shorter than one.
  pub accept-Window :
      (t : Heap) × (m : Log) × (accept heap d (pos (suc (highest l))) v (pos q)
        ≡ ok (record d { state = t }))
      × Holds t m
      × Window size m
      × (highest m ≡ suc (highest l))
      × (length m.values < size + size)
      × ((m.base ≡ 0) ⊎ (size ≤ length m.values))
  unfolding accept id
  accept-Window =
      let (s, stored, k) = store-Holds v holds in
      let (t, done, k') = remove_after s k in
      let (w', tall) = after-Window in
      let positive : (d.history_size ==ℤ pos 0) ≡ false = rw sized (ground arith) in
      (
        t,
        after,
        rw (stored, positive) done,
        k',
        w',
        tall,
        omega (arith, w'.short),
        omega (arith, w'.full),
      )

-- On a heap that holds a log, where a cleanup is due with a positive history size and a negative
-- lowest id, accepting the next value stores it and then aborts in the cleanup.
pub accept_unknown_host_aborts :
    (d : Durable Heap) (l : Log) (v : Bytes) (size n : ℕ)
    → Holds d.state l
    → d.history_size ≡ pos size
    → 0 < size
    → size < suc (highest l)
    → suc (highest l) % size ≡ 0
    → (s : Heap) × (store d.state (pos (suc (highest l))) v ≡ ok s)
      × Holds s (append l v)
      × (clean_up heap (record d { state = s }) (pos (suc (highest l))) (negsuc n) ≡ fault aborted)
      × (accept heap d (pos (suc (highest l))) v (negsuc n) ≡ fault aborted)
unfolding accept clean_up remove
accept_unknown_host_aborts d l v size n k sized some_size long even =
    let (s, stored, holds) = store-Holds v k in
    let due : (divides_ℤ (pos size) (pos (suc (highest l)))
          && ltb_ℤ (pos size) (pos (suc (highest l))))
        ≡ true =
      ground arith in
    let positive : (d.history_size ==ℤ pos 0) ≡ false = rw sized (ground arith) in
    let cut : min_ℤ (pos (suc (highest l)) -ℤ pos size) (negsuc n) ≡ negsuc n = ground arith in
    (s, stored, holds, rw (sized, due, cut), rw (stored, positive, sized, due, cut))
