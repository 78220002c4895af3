-- ===== src/Client/Send/Finds.antt =====
-- A client that is told that there is another leader goes round the live servers until it finds it.
use native.Mathlib.Nat.{mod-lt, mod-eq_of_lt, mod_self, mod-add-mod}
use libpaxos_cpp.Base.{
  Bytes, In, IsRising, List, Option-cases, [], ap, arith, dec_lt, get_elem?, inl, inr, length, ok,
  refl, some, subst, suc, sym, zero, ℕ, ℕ_order, ◌%◌, ◌+◌, ◌-◌, ◌<◌, ◌∙◌, ◌∷◌, ◌≡◌, ◌≤◌, ◌⊎◌,
}
use libpaxos_cpp.Quorum.View.Live.{live}
use libpaxos_cpp.Quorum.ClientView.{ClientView}
use libpaxos_cpp.Quorum.ClientView.Selection.{IsReady, IsLive, live-IsRising}
use libpaxos_cpp.Quorum.ClientView.Rotation.{after, get_elem?_within, after-mod}
use libpaxos_cpp.Client.Retry.{set_value, on_reply}
use libpaxos_cpp.Client.Send.Attempts.{
  At, Serves, Refuses, get_elem?-In, attempt_refused, attempt_accepted,
}
use libpaxos_cpp.Client.Send.{Answers, send}

In-get_elem? :
    (es : List ℕ) (e : ℕ) → In e es → (i : ℕ) × (get_elem? es i ≡ some e) × (i < length es)
In-get_elem? [] e h = absurd h
In-get_elem? (f ∷ es) e (inl h) = (0, ap some (sym h), omega arith)
In-get_elem? (f ∷ es) e (inr h) =
    let (i, at, within) = In-get_elem? es e h in (suc i, at, omega arith)

module _ (es : List ℕ) (l : ℕ) (w byte_array : Bytes) (answers : Answers) (rising : IsRising es)
    (serves : Serves answers l w) (others : (e : ℕ) → In e es → (e ≡ l) ⊎ Refuses answers e) where
  -- The leader is the next one.
  found :
      (i retries now : ℕ) (times : List ℕ) (q : ClientView)
      → At es i q
      → get_elem? es i ≡ some l
      → (q' : ClientView) × (send byte_array answers retries (now ∷ times) q
          ≡ ok (some (set_value w), q'))
  unfolding send on_reply
  found i retries now times q k at =
      let (q', replied) = attempt_accepted es i l now byte_array q k at answers w serves in
      (q', rw replied refl)

  -- The leader is d places further.
  finds :
      (d i retries : ℕ) (times : List ℕ) (q : ClientView)
      → At es i q
      → i < length es
      → get_elem? es ((i + d) % length es) ≡ some l
      → d ≤ retries
      → d < length times
      → (q' : ClientView) × (send byte_array answers retries times q ≡ ok (some (set_value w), q'))
  unfolding send on_reply
  finds d i retries [] q k within at enough long = absurd (omega arith)
  finds zero i retries (now ∷ times) q k within at enough long =
      let here : (i + 0) % length es ≡ i =
        ap (λ n. n % length es) {x = i + 0} {y = i} (omega arith) ∙ mod-eq_of_lt within in
      found i retries now times q k (ap (get_elem? es) (sym here) ∙ at)
  finds (suc d) i zero (now ∷ times) q k within at enough long = absurd (omega arith)
  finds (suc d) i (suc retries) (now ∷ times) q k within at enough long =
      let (e, here) = get_elem?_within i es within in
      elim (others e (get_elem?-In es i e here)) [
        | inl same ↦ found i (suc retries) now times q k (here ∙ ap some same)
        | inr refuses ↦
            let (q1, v, replied, k1) =
              attempt_refused es i e now byte_array q k here answers rising within refuses in
            let next : after (length es) i ≡ suc i % length es = after-mod (length es) i within in
            let turn : (after (length es) i + d) % length es ≡ (i + suc d) % length es =
              ap (λ j. (j + d) % length es) next
              ∙ mod-add-mod (suc i) (length es) d
              ∙ ap (λ n. n % length es) {x = suc i + d} {y = i + suc d} (omega arith) in
            let (q', done) =
              finds d (after (length es) i) retries times q1 k1
                (rw next (mod-lt (suc i) (omega arith))) (ap (get_elem? es) turn ∙ at) (omega arith)
                (omega arith) in
            (q', rw replied done)
      ]

-- How much further round the place `j` is than the place `i`.
distance : (n i j : ℕ) → i < n → j < n → (d : ℕ) × (d < n) × ((i + d) % n ≡ j)
distance n i j hi hj = elim (dec_lt j i) [
  | yes back ↦
      let round : (n + j) % n ≡ j =
        sym (mod-add-mod n n j)
        ∙ ap (λ r. (r + j) % n) (mod_self n)
        ∙ ap (λ k. k % n) {x = 0 + j} {y = j} (omega arith)
        ∙ mod-eq_of_lt hj in
      (
        j + n - i,
        omega arith,
        ap (λ k. k % n) {x = i + (j + n - i)} {y = n + j} (omega arith) ∙ round,
      )
  | no on ↦ (
    j - i,
    omega arith,
    ap (λ k. k % n) {x = i + (j - i)} {y = j} (omega arith) ∙ mod-eq_of_lt hj,
  )
]

next_place :
    (q : ClientView) (l : ℕ)
    → IsReady q
    → In l (live q.servers)
    → (i : ℕ) × At (live q.servers) i q × (i < length (live q.servers))
next_place q l ready m = elim (Option-cases q.next_leader) [
  | inl none_yet ↦
      let (j, _, within) = In-get_elem? (live q.servers) l m in
      (
        0,
        record { in_order = ready.in_order; lives = refl; next = inr (none_yet, refl) },
        omega (arith, within),
      )
  | inr (e, next) ↦
      let (i, at, within) =
        In-get_elem? (live q.servers) e (subst (IsLive (live q.servers)) next ready.next_live) in
      (i, record { in_order = ready.in_order; lives = refl; next = inl (next ∙ sym at) }, within)
]

-- On a ready view of which one live server carries out the request and answers with w, and the
-- others answer that they are not the leader, each with its own endpoint and an id, the promise is
-- set to w, given at least as many retries as there are other live servers and a time for every
-- attempt.
pub send_finds_leader :
    (l retries : ℕ) (w byte_array : Bytes) (answers : Answers) (times : List ℕ) (q : ClientView)
    → IsReady q
    → In l (live q.servers)
    → Serves answers l w
    → ((e : ℕ) → In e (live q.servers) → (e ≡ l) ⊎ Refuses answers e)
    → length (live q.servers) ≤ suc retries
    → retries < length times
    → (q' : ClientView) × (send byte_array answers retries times q ≡ ok (some (set_value w), q'))
send_finds_leader l retries w byte_array answers times q ready m serves others enough long =
    let es : List ℕ = live q.servers in
    let (i, k, hi) = next_place q l ready m in
    let (j, at, hj) = In-get_elem? es l m in
    let (d, few, round) = distance (length es) i j hi hj in
    finds es l w byte_array answers (live-IsRising q.servers ready.in_order) serves others d i
      retries times q k hi (ap (get_elem? es) round ∙ at) (omega arith) (omega arith)
