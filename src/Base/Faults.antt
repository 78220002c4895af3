-- ===== src/Base/Faults.antt =====
-- How a call ends: with a value, or in one of the ways a C++ program stops.
use mathlib.Core.Path.{◌≡◌, refl}
use mathlib.Core.Bool.{Bool, true, false}
use mathlib.Core.Logic.{◌⊎◌, inl, inr}

pub data Fault : Type 0 where
  aborted : Fault  -- PAXOS_ASSERT
  unreachable : Fault  -- PAXOS_UNREACHABLE, undefined behaviour when it is reached
  undefined : Fault  -- undefined behaviour of the language or its library
  thrown : Fault  -- an exception that the caller does not catch

pub data Outcome {ℓ} (A : Type ℓ) : Type ℓ where
  ok : A → Outcome A
  fault : Fault → Outcome A

infixl 5 ◌>>=◌ ◌>>◌
abbrev pub ◌>>=◌ {ℓ κ} : {A : Type ℓ} {B : Type κ} → Outcome A → (A → Outcome B) → Outcome B
ok a >>= f = f a
fault e >>= f = fault e

abbrev pub ◌>>◌ {ℓ} : {B : Type ℓ} → Outcome (Unit {0}) → Outcome B → Outcome B
m >> k = m >>= λ _. k

-- PAXOS_ASSERT
abbrev pub assert : Bool → Outcome (Unit {0})
assert true = ok tt
assert false = fault aborted

pub Outcome-cases {ℓ} :
    {A : Type ℓ} (o : Outcome A) → ((a : A) × (o ≡ ok a)) ⊎ ((e : Fault) × (o ≡ fault e))
Outcome-cases (ok a) = inl (a, refl)
Outcome-cases (fault e) = inr (e, refl)

-- A chain that ends well went well so far.
pub bind_ok {ℓ κ} :
    {A : Type ℓ} {B : Type κ} (o : Outcome A) (f : A → Outcome B) (y : B)
    → o >>= f ≡ ok y
    → (a : A) × (o ≡ ok a) × (f a ≡ ok y)
bind_ok (ok a) f y h = (a, refl, h)
bind_ok (fault e) f y h = cc

-- A chain that ends well goes on with its result.
pub bind_after {ℓ κ μ} :
    {A : Type ℓ} {B : Type κ} {C : Type μ} (o : Outcome A) (f : A → Outcome B) (g : B → Outcome C)
    (y : B)
    → o >>= f ≡ ok y
    → (o >>= λ a. f a >>= g) ≡ g y
bind_after (ok a) f g y h = rw h refl
bind_after (fault e) f g y h = cc
