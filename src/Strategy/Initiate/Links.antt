-- ===== src/Strategy/Initiate/Links.antt =====
-- The connections of the live servers, to which `initiate` of strategy.cpp writes.
use libpaxos_cpp.Base.{
  Above, Ascending, List, Map, Option-cases, [], ap, ap₂, arith, false, find, inl, inr, insert,
  is_empty, length, none, refl, some, suc, true, ℕ, ℕ_order, ◌++◌, ◌<◌, ◌∙◌, ◌∷◌, ◌≡◌, ◌≢◌,
}
use libpaxos_cpp.Command.{Command}
use libpaxos_cpp.Quorum.View.{View}
use libpaxos_cpp.Quorum.View.Live.{attempt_all, attempt-endpoint, attempt-connection}
use libpaxos_cpp.Strategy.Node.{Effect, write, await_promise}

-- The live servers with their connections.
abbrev pub links : View → Map ℕ ℕ
links [] = []
links ((e, s) ∷ v) = elim s.connection [ none ↦ links v | some c ↦ (e, c) ∷ links v ]

-- Every server is listed under its endpoint.
abbrev pub AllNamed : View → Type 0
AllNamed [] = Unit {0}
AllNamed ((e, s) ∷ v) = (s.endpoint ≡ e) × AllNamed v

-- A prepare to each, and a wait for its answer.
abbrev pub prepares : Command → Map ℕ ℕ → List Effect
prepares c [] = []
prepares c ((e, k) ∷ m) = write k c ∷ await_promise e k ∷ prepares c m

-- All keys of a map are below `n`.
abbrev pub Below : ℕ → Map ℕ ℕ → Type 0
Below n [] = Unit {0}
Below n ((k, c) ∷ m) = (k < n) × Below n m

pub insert-Below : (e c : ℕ) (m : Map ℕ ℕ) → Below e m → insert e c m ≡ m ++ (e, c) ∷ []
insert-Below e c [] b = refl
insert-Below e c ((k, d) ∷ m) b = ground (arith, insert-Below e c m)

pub find-Below : (e : ℕ) (m : Map ℕ ℕ) → Below e m → find e m ≡ none
find-Below e [] b = refl
find-Below e ((k, d) ∷ m) b = ground (arith, find-Below e m)

pub Below-snoc : (n e c : ℕ) (m : Map ℕ ℕ) → e < n → Below e m → Below n (m ++ (e, c) ∷ [])
Below-snoc n e c [] h b = (h, tt)
Below-snoc n e c ((k, d) ∷ m) h b = (omega (arith, b.0), Below-snoc n e c m h b.1)

links-Above : (n : ℕ) (v : View) → Above n v → Above n (links v)
links-Above n [] a = tt
links-Above n ((e, s) ∷ v) a = elim (Option-cases s.connection) [
  | inl off ↦ rw off (links-Above n v a.1)
  | inr (c, on) ↦ rw on (a.0, links-Above n v a.1)
]

pub links-Ascending : (v : View) → Ascending v → Ascending (links v)
links-Ascending [] a = tt
links-Ascending ((e, s) ∷ v) a = elim (Option-cases s.connection) [
  | inl off ↦ rw off (links-Ascending v a.1)
  | inr (c, on) ↦ rw on (links-Above e v a.0, links-Ascending v a.1)
]

pub AllNamed-attempt_all : (now : ℕ) (v : View) → AllNamed v → AllNamed (attempt_all now v)
AllNamed-attempt_all now [] a = tt
AllNamed-attempt_all now ((e, s) ∷ v) a =
    (attempt-endpoint now s ∙ a.0, AllNamed-attempt_all now v a.1)

pub links-attempt_all : (now : ℕ) (v : View) → links (attempt_all now v) ≡ links v
links-attempt_all now [] = refl
links-attempt_all now ((e, s) ∷ v) =
    ap₂ {C = Map ℕ ℕ} (λ o m. elim o [ none ↦ m | some c ↦ (e, c) ∷ m ]) (attempt-connection now s)
      (links-attempt_all now v)

pub empty_lem : (es : List ℕ) → is_empty es ≡ true → es ≡ []
empty_lem [] h = refl
empty_lem (e ∷ es) h = cc

pub full_lem : (es : List ℕ) → is_empty es ≡ false → es ≢ []
full_lem [] h = cc
full_lem (e ∷ es) h = λ same. cc

pub length-attempt_all : (now : ℕ) (v : View) → length (attempt_all now v) ≡ length v
length-attempt_all now [] = refl
length-attempt_all now ((e, s) ∷ v) = ap suc (length-attempt_all now v)
