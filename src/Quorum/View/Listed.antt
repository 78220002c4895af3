-- ===== src/Quorum/View/Listed.antt =====
-- A live server is listed, and has a connection.
use libpaxos_cpp.Base.{
  Above, Ascending, Bool-cases, In, [], ap, arith, find, inl, inr, some, true, ℕ, ℕ_order, ◌<◌, ◌∙◌,
  ◌∷◌, ◌≡◌,
}
use libpaxos_cpp.Quorum.Server.{Server, has_connection}
use libpaxos_cpp.Quorum.View.{View}
use libpaxos_cpp.Quorum.View.Live.{live}

live-Above : (n : ℕ) (v : View) (e : ℕ) → Above n v → Ascending v → In e (live v) → n < e
live-Above n [] e b a h = absurd h
live-Above n ((f, s) ∷ v) e b a h = elim (Bool-cases (has_connection s)) [
  | inl c ↦ elim (rw c at h) [
    | inl same ↦ omega (arith, same, b.0)
    | inr more ↦ live-Above n v e b.1 a.1 more
  ]
  | inr c ↦ live-Above n v e b.1 a.1 (rw c at h)
]

find_later : (e f : ℕ) (s : Server) (v : View) → f < e → find e ((f, s) ∷ v) ≡ find e v
find_later e f s v h = ground arith

find_here : (e : ℕ) (s : Server) (v : View) → find e ((e, s) ∷ v) ≡ some s
find_here e s v = ground arith

pub live_listed :
    (v : View)
    → Ascending v
    → (e : ℕ) → In e (live v)
    → (s : Server) × (find e v ≡ some s) × (has_connection s ≡ true)
live_listed [] a e h = absurd h
live_listed ((f, s) ∷ v) a e h = elim (Bool-cases (has_connection s)) [
  | inl c ↦ elim (rw c at h) [
    | inl same ↦ (s, ap (λ g. find g ((f, s) ∷ v)) same ∙ find_here f s v, c)
    | inr more ↦ later more (live_listed v a.1 e more)
  ]
  | inr c ↦ let more : In e (live v) = rw c at h in later more (live_listed v a.1 e more)
]
  where
    later :
        In e (live v)
        → (t : Server) × (find e v ≡ some t) × (has_connection t ≡ true)
        → (t : Server) × (find e ((f, s) ∷ v) ≡ some t) × (has_connection t ≡ true)
    later h (t, at, c) = (t, find_later e f s v (live-Above f v e a.0 a.1 h) ∙ at, c)
