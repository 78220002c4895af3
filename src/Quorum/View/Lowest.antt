-- ===== src/Quorum/View/Lowest.antt =====
-- What `lowest_proposal_id` gives, with and without servers of which nothing is known.
use libpaxos_cpp.Base.{
  [], ap, arith, dec_lt, inl, inr, negsuc, pos, refl, ℕ, ℤ, ◌++◌, ◌∷◌, ◌≡◌, ◌≤◌, ◌⊎◌,
}
use libpaxos_cpp.Quorum.Server.{Server}
use libpaxos_cpp.Quorum.View.{View, lower, lowest_from, lowest_proposal_id}

-- A server has this proposal id.
abbrev pub IsAt : ℕ → Server → Type 0
IsAt n s = s.highest_proposal_id ≡ pos n

-- Something is known of every server.
abbrev pub AllKnown : View → Type 0
AllKnown [] = Unit {0}
AllKnown ((e, s) ∷ v) = ((n : ℕ) × IsAt n s) × AllKnown v

-- No server is below `k`.
abbrev pub AllReach : ℕ → View → Type 0
AllReach k [] = Unit {0}
AllReach k ((e, s) ∷ v) = ((n : ℕ) × IsAt n s × (k ≤ n)) × AllReach k v

-- Some server is at `k`.
abbrev pub SomeAt : ℕ → View → Type 0
SomeAt k [] = ⊥
SomeAt k ((e, s) ∷ v) = IsAt k s ⊎ SomeAt k v

AllReach-mono : (j k : ℕ) (v : View) → j ≤ k → AllReach k v → AllReach j v
AllReach-mono j k [] h a = tt
AllReach-mono j k ((e, s) ∷ v) h ((n, at, few), a) = ((n, at, omega arith), AllReach-mono j k v h a)

lowest_from-AllKnown :
    (m : ℕ) (v : View)
    → AllKnown v
    → (k : ℕ) × (lowest_from (pos m) v ≡ pos k) × (k ≤ m) × AllReach k v × ((k ≡ m) ⊎ SomeAt k v)
unfolding lowest_from
lowest_from-AllKnown m [] a = (m, refl, omega arith, tt, inl refl)
lowest_from-AllKnown m ((e, s) ∷ v) ((n, at), a) = elim (dec_lt n m) [
  | yes less ↦
      let (k, done, few, all, one) = lowest_from-AllKnown n v a in
      let here : lower (pos m) s ≡ pos n = ground (arith, at) in
      (k, rw here done, omega arith, ((n, at, few), all), inr (first k n one at))
  | no more ↦
      let (k, done, few, all, one) = lowest_from-AllKnown m v a in
      let here : lower (pos m) s ≡ pos m = ground (arith, at) in
      (k, rw here done, few, ((n, at, omega arith), all), later k one)
]
  where
    first : (k n : ℕ) → (k ≡ n) ⊎ SomeAt k v → IsAt n s → IsAt k s ⊎ SomeAt k v
    first k n (inl e) at = inl (rw e at)
    first k n (inr o) at = inr o

    later : (k : ℕ) → (k ≡ m) ⊎ SomeAt k v → (k ≡ m) ⊎ (IsAt k s ⊎ SomeAt k v)
    later k (inl e) = inl e
    later k (inr o) = inr (inr o)

-- Where something is known of every server, of which there is one, the lowest proposal id is that
-- of some server, and no server is below it.
pub lowest_proposal_id-AllKnown :
    (e : ℕ) (s : Server) (v : View)
    → AllKnown ((e, s) ∷ v)
    → (k : ℕ) × (lowest_proposal_id ((e, s) ∷ v) ≡ pos k)
      × AllReach k ((e, s) ∷ v)
      × SomeAt k ((e, s) ∷ v)
unfolding lowest_proposal_id lowest_from
lowest_proposal_id-AllKnown e s v ((n, at), a) =
    let (k, done, few, all, one) = lowest_from-AllKnown n v a in
    (k, rw at done, ((n, at, few), all), some_at k one)
  where
    some_at : (k : ℕ) → (k ≡ n) ⊎ SomeAt k v → IsAt k s ⊎ SomeAt k v
    some_at k (inl e) = inl (rw e at)
    some_at k (inr o) = inr o

-- Ids are never below -1, which means that nothing is known.
abbrev pub AllIds : View → Type 0
AllIds [] = Unit {0}
AllIds ((e, s) ∷ v) = ((s.highest_proposal_id ≡ negsuc 0) ⊎ ((n : ℕ) × IsAt n s)) × AllIds v

abbrev IsId : ℤ → Type 0
IsId i = (i ≡ negsuc 0) ⊎ ((n : ℕ) × (i ≡ pos n))

lower-IsId : (i : ℤ) (s : Server) → IsId i → IsId s.highest_proposal_id → IsId (lower i s)
lower-IsId i s (inl h) t = rw h t
lower-IsId i s (inr (m, h)) (inl t) = inl (ground (arith, h, t))
lower-IsId i s (inr (m, h)) (inr (n, t)) = elim (dec_lt n m) [
  | yes less ↦ inr (n, ground (arith, h, t))
  | no more ↦ inr (m, ground (arith, h, t))
]

lowest_from-forgets :
    (i : ℤ) (v w : View) (e : ℕ) (s : Server)
    → IsId i
    → AllIds v
    → s.highest_proposal_id ≡ negsuc 0
    → lowest_from i (v ++ (e, s) ∷ w) ≡ lowest_from (negsuc 0) w
unfolding lowest_from
lowest_from-forgets i [] w e s (inl h) a unknown = rw (h, unknown)
lowest_from-forgets i [] w e s (inr (m, h)) a unknown =
    let here : lower i s ≡ negsuc 0 = ground (arith, h, unknown) in ap (λ k. lowest_from k w) here
lowest_from-forgets i ((f, t) ∷ v) w e s h (known, a) unknown =
    lowest_from-forgets (lower i t) v w e s (lower-IsId i t h known) a unknown

-- Where no proposal id is below -1, a server of which nothing is known hides all servers before it
-- from the lowest proposal id, which is then that of the servers after it.
pub lowest_proposal_id-forgets :
    (v w : View) (e : ℕ) (s : Server)
    → AllIds v
    → s.highest_proposal_id ≡ negsuc 0
    → lowest_proposal_id (v ++ (e, s) ∷ w) ≡ lowest_proposal_id w
unfolding lowest_proposal_id
lowest_proposal_id-forgets v w e s a unknown =
    lowest_from-forgets (negsuc 0) v w e s (inl refl) a unknown
