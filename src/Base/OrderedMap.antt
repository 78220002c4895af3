-- ===== src/Base/OrderedMap.antt =====
-- `std::map`: the entries in ascending order of their keys.
use Prim.Native.Nat.{ℕ, ◌<◌}
use mathlib.Core.Path.{◌≡◌, refl}
use mathlib.Core.Bool.{Bool, false}
use mathlib.Core.List.{List, [], ◌∷◌}
use mathlib.Core.Option.{Option, none, some}
use native.Mathlib.Omega.{arith}
use libpaxos_cpp.Base.Tests.{ltb, ◌==◌, is_some, if◌then◌else◌}
use libpaxos_cpp.Base.Int.{ℤ, ltb_ℤ}

-- `operator <` of a key.
pub record Order (K : Type 0) : Type 0 where
  pub less : K → K → Bool
  pub less_irrefl : (a : K) → less a a ≡ false

pub ltb_irrefl : (a : ℕ) → ltb a a ≡ false
ltb_irrefl a = ground arith

pub ltb_ℤ_irrefl : (a : ℤ) → ltb_ℤ a a ≡ false
ltb_ℤ_irrefl a = ground arith

instance abbrev pub ℕ_order : Order ℕ
ℕ_order = record { less = ltb; less_irrefl = ltb_irrefl }

instance abbrev pub ℤ_order : Order ℤ
ℤ_order = record { less = ltb_ℤ; less_irrefl = ltb_ℤ_irrefl }

abbrev pub Map {ℓ} : Type 0 → Type ℓ → Type ℓ
Map K V = List (K × V)

module _ {ℓ} {K : Type 0} {V : Type ℓ} ⦃o : Order K⦄ where
  -- `find`
  abbrev pub find : K → Map K V → Option V
  find k [] = none
  find k ((j, v) ∷ m) =
      let rest = find k m in if o.less j k then rest else if o.less k j then none else some v

  -- `operator []` on the left of an assignment.
  abbrev pub insert : K → V → Map K V → Map K V
  insert k v [] = (k, v) ∷ []
  insert k v ((j, w) ∷ m) =
      let rest = insert k v m in
      if o.less j k then (j, w) ∷ rest else if o.less k j then (k, v) ∷ (j, w) ∷ m else (k, v) ∷ m

  -- `erase (k)`
  abbrev pub erase : K → Map K V → Map K V
  erase k [] = []
  erase k ((j, v) ∷ m) =
      let rest = erase k m in
      if o.less j k then (j, v) ∷ rest else if o.less k j then (j, v) ∷ m else m

  -- The range from `find (k)` to `end ()`: nothing where the key is missing.
  abbrev pub from_key : K → Map K V → Map K V
  from_key k [] = []
  from_key k ((j, v) ∷ m) =
      let rest = from_key k m in if o.less j k then rest else if o.less k j then [] else (j, v) ∷ m

  -- `find (k) != end ()`
  abbrev pub contains : K → Map K V → Bool
  contains k m = is_some (find k m)

module _ {ℓ} {K : Type 0} {V : Type ℓ} ⦃o : Order K⦄ where
  pub find-insert_self : (k : K) (v : V) (m : Map K V) → find k (insert k v m) ≡ some v
  find-insert_self k v [] = ground (arith, o.less_irrefl k)
  find-insert_self k v ((j, w) ∷ m) = ground (arith, o.less_irrefl k, find-insert_self k v m)

module _ {ℓ} {V : Type ℓ} where
  pub find-insert :
      (k j : ℕ) (v : V) (m : Map ℕ V)
      → find j (insert k v m) ≡ (if k == j then some v else find j m)
  find-insert k j v [] = ground arith
  find-insert k j v ((i, w) ∷ m) = ground (arith, find-insert k j v m)

-- All keys of a map are above `n`.
abbrev pub Above {ℓ} : {V : Type ℓ} → ℕ → Map ℕ V → Type 0
Above n [] = Unit {0}
Above n ((k, v) ∷ m) = (n < k) × Above n m

-- The keys of a `std::map` ascend.
abbrev pub Ascending {ℓ} : {V : Type ℓ} → Map ℕ V → Type 0
Ascending [] = Unit {0}
Ascending ((k, v) ∷ m) = Above k m × Ascending m

module _ {ℓ} {V : Type ℓ} where
  pub Above-mono : (n k : ℕ) (m : Map ℕ V) → n < k → Above k m → Above n m
  Above-mono n k [] h a = tt
  Above-mono n k ((j, w) ∷ m) h a = (omega arith, Above-mono n k m h a.1)

  insert-Above : (n k : ℕ) (v : V) (m : Map ℕ V) → n < k → Above n m → Above n (insert k v m)
  insert-Above n k v [] h a = (h, tt)
  insert-Above n k v ((j, w) ∷ m) h a = ground (arith, insert-Above n k v m h a.1)

  pub insert-Ascending : (k : ℕ) (v : V) (m : Map ℕ V) → Ascending m → Ascending (insert k v m)
  insert-Ascending k v [] a = (tt, tt)
  insert-Ascending k v ((j, w) ∷ m) a =
      ground (arith, insert-Ascending k v m a.1, insert-Above j k v m, Above-mono k j m)

  pub find-Above : (k : ℕ) (m : Map ℕ V) → Above k m → find k m ≡ none
  find-Above k [] a = refl
  find-Above k ((j, w) ∷ m) a = ground arith
