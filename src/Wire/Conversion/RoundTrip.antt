-- ===== src/Wire/Conversion/RoundTrip.antt =====
-- The bytes of an integer give the integer back.
use native.Mathlib.Nat.{
  pow-suc, mod-eq_of_lt, mod-lt, mod-mod, mod-one, div-one, div-add-mod, div-div-eq-div-mul,
  add-mul-mod_self_left,
}
use libpaxos_cpp.Base.{
  ==_refl, List, [], ap, ap₂, arith, get_elem?, length, ok, refl, some, suc, sym, zero, ℕ, ◌%◌, ◌*◌,
  ◌+◌, ◌-◌, ◌/◌, ◌<◌, ◌^◌, ◌∙◌, ◌∷◌, ◌≡◌,
}
use libpaxos_cpp.Wire.Conversion.{byte_at, to_byte_array, little_endian, copy_from, from_byte_array}

pub length-to_byte_array : (w x : ℕ) → length (to_byte_array w x) ≡ w
unfolding to_byte_array
length-to_byte_array zero x = refl
length-to_byte_array (suc w) x = ap suc (length-to_byte_array w x)

-- The bytes from the least significant one on.
low_bytes : ℕ → ℕ → ℕ → List ℕ
low_bytes zero i x = []
low_bytes (suc w) i x = byte_at x i ∷ low_bytes w (suc i) x

-- The byte at place `i` from the end.
get_elem?-to_byte_array :
    (w i x : ℕ) → i < w → get_elem? (to_byte_array w x) i ≡ some (byte_at x (w - 1 - i))
unfolding to_byte_array
get_elem?-to_byte_array zero i x h = absurd (omega arith)
get_elem?-to_byte_array (suc w) zero x h = ap (λ k. some (byte_at x k)) (omega arith)
get_elem?-to_byte_array (suc w) (suc i) x h =
    get_elem?-to_byte_array w i x (omega arith) ∙ ap (λ k. some (byte_at x k)) (omega arith)

copy_from_lem : (w i d x : ℕ) → i + d ≡ w → copy_from i (to_byte_array w x) ≡ ok (low_bytes i d x)
unfolding copy_from low_bytes
copy_from_lem w zero d x e = refl
copy_from_lem w (suc i) d x e =
    let here : get_elem? (to_byte_array w x) i ≡ some (byte_at x d) =
      get_elem?-to_byte_array w i x (omega arith) ∙ ap (λ k. some (byte_at x k)) (omega arith) in
    rw (here, copy_from, copy_from_lem w i (suc d) x (omega arith))

mod-split : (x m : ℕ) → 0 < m → x % 256 + 256 * (x / 256 % m) ≡ x % (256 * m)
mod-split x m h =
    let low : ℕ = x % 256 + 256 * (x / 256 % m) in
    let inside : low < 256 * m =
      omega (arith, mod-lt (x / 256) {m = m} h, mod-lt x {m = 256} (omega arith)) in
    let whole : x ≡ low + 256 * m * (x / 256 / m) =
      omega (arith, div-add-mod (x / 256) m, div-add-mod x 256) in
    sym (
      ap (λ k. k % (256 * m)) whole
      ∙ add-mul-mod_self_left low (256 * m) (x / 256 / m)
      ∙ mod-eq_of_lt inside)

pow-pos : (w : ℕ) → 0 < 256 ^ w
pow-pos zero = omega arith
pow-pos (suc w) = rw pow-suc (omega (arith, pow-pos w))

-- Reading the low bytes keeps the integer modulo 256 ^ w.
little_endian_lem : (w d x : ℕ) → little_endian (low_bytes w d x) ≡ x / 256 ^ d % 256 ^ w
unfolding low_bytes
little_endian_lem zero d x = sym (mod-one (x / 256 ^ d))
little_endian_lem (suc w) d x =
    let y : ℕ = x / 256 ^ d in
    let next : x / 256 ^ suc d ≡ y / 256 =
      ap (λ k. x / k) (pow-suc 256 d) ∙ sym (div-div-eq-div-mul x (256 ^ d) 256) in
    let power : 256 ^ suc w ≡ 256 * 256 ^ w = pow-suc 256 w ∙ omega arith in
    ap₂ (λ a c. a + 256 * c) (mod-mod y 256)
      (little_endian_lem w (suc d) x ∙ ap (λ k. k % 256 ^ w) next)
    ∙ mod-split y (256 ^ w) (pow-pos w)
    ∙ ap (λ k. y % k) (sym power)

-- An unsigned integer that fits into w bytes comes back from its bytes, of which there are w.
pub from_byte_array-to_byte_array :
    (w x : ℕ)
    → x < 256 ^ w
    → (from_byte_array w (to_byte_array w x) ≡ ok x) × (length (to_byte_array w x) ≡ w)
unfolding from_byte_array
from_byte_array-to_byte_array w x h =
    let back : little_endian (low_bytes w 0 x) ≡ x =
      little_endian_lem w 0 x ∙ ap (λ k. k % 256 ^ w) (div-one x) ∙ mod-eq_of_lt h in
    (
      rw (length-to_byte_array w x, ==_refl w, copy_from_lem w w 0 x (omega arith), back),
      length-to_byte_array w x,
    )
