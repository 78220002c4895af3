-- ===== src/Base/Erase.antt =====
-- `std::map::erase`, and the size of a map.
use Prim.Native.Nat.{ℕ, suc, ◌<◌}
use mathlib.Core.Path.{◌≡◌, refl}
use mathlib.Core.List.{[], ◌∷◌}
use mathlib.Core.Option.{none, some}
use native.Mathlib.Omega.{arith}
use mathlib.Core.Logic.{◌⊎◌, inl, inr}
use libpaxos_cpp.Base.Tests.{◌==◌, ltb, Bool-cases, if◌then◌else◌}
use libpaxos_cpp.Base.Lists.{length}
use libpaxos_cpp.Base.OrderedMap.{
  Map, Above, Ascending, Above-mono, ℕ_order, find, insert, erase, find-Above,
}

module _ {ℓ} {V : Type ℓ} where
  pub erase-Above : (n k : ℕ) (m : Map ℕ V) → Above n m → Above n (erase k m)
  erase-Above n k [] a = tt
  erase-Above n k ((j, w) ∷ m) a = ground (arith, erase-Above n k m a.1)

  pub erase-Ascending : (k : ℕ) (m : Map ℕ V) → Ascending m → Ascending (erase k m)
  erase-Ascending k [] a = tt
  erase-Ascending k ((j, w) ∷ m) a = ground (arith, erase-Ascending k m a.1, erase-Above j k m)

module _ {V : Type 0} where
  pub find-erase :
      (k j : ℕ) (m : Map ℕ V)
      → Ascending m
      → find j (erase k m) ≡ (if k == j then none else find j m)
  find-erase k j [] a = ground arith
  find-erase k j ((i, w) ∷ m) a =
      let before : j < i → find j m ≡ none = λ h. find-Above j m (Above-mono j i m h a.0) in
      elim (Bool-cases (ltb i k)) [
        | inl later ↦ rw later (ground (arith, find-erase k j m a.1))
        | inr here ↦ elim (Bool-cases (ltb k i)) [
          | inl missing ↦ rw (here, missing) (ground arith)
          | inr found ↦ rw (here, found) (ground (arith, find-Above i m a.0, before))
        ]
      ]

module _ {ℓ} {V : Type ℓ} where
  pub length-erase :
      (k : ℕ) (v : V) (m : Map ℕ V) → find k m ≡ some v → suc (length (erase k m)) ≡ length m
  length-erase k v [] h = cc
  length-erase k v ((i, w) ∷ m) h = ground (arith, length-erase k v m)

  pub length-insert :
      (k : ℕ) (v : V) (m : Map ℕ V) → find k m ≡ none → length (insert k v m) ≡ suc (length m)
  length-insert k v [] h = refl
  length-insert k v ((i, w) ∷ m) h = ground (arith, length-insert k v m)

module _ {V : Type 0} where
  pub find_here : (k : ℕ) (v : V) (m : Map ℕ V) → find k ((k, v) ∷ m) ≡ some v
  find_here k v m = ground arith

  pub found-Above : (n k : ℕ) (v : V) (m : Map ℕ V) → Above n m → find k m ≡ some v → n < k
  found-Above n k v [] a h = cc
  found-Above n k v ((j, w) ∷ m) a h = ground (arith, found-Above n k v m a.1)

  pub find_later :
      (k j : ℕ) (w v : V) (m : Map ℕ V)
      → Above j m
      → find k m ≡ some v
      → find k ((j, w) ∷ m) ≡ some v
  find_later k j w v m a h = ground (arith, found-Above j k v m a h)

  pub found_either :
      (k j : ℕ) (w v : V) (m : Map ℕ V)
      → find k ((j, w) ∷ m) ≡ some v
      → (k ≡ j) ⊎ (find k m ≡ some v)
  found_either k j w v m h = ground arith
