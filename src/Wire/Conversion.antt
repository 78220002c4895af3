-- ===== src/Wire/Conversion.antt =====
-- detail/util/conversion.inl: integers as bytes, the most significant first. `w` is `sizeof (T)`; the
-- union holds the bytes of the integer with the least significant first, as on the machines that the
-- library is built for.
pub mod RoundTrip
use libpaxos_cpp.Base.{
  Bytes, List, Outcome, [], assert, fault, get_elem?, length, none, ok, some, suc, thrown, zero, ℕ,
  ◌%◌, ◌*◌, ◌+◌, ◌/◌, ◌==◌, ◌>>=◌, ◌>>◌, ◌^◌, ◌∷◌,
}

-- `helper.c [i]` after `helper.t = input`.
abbrev pub byte_at : ℕ → ℕ → ℕ
byte_at input i = input / 256 ^ i % 256

-- The loop over i = w - 1, …, 0.
unfoldable pub to_byte_array : ℕ → ℕ → Bytes
to_byte_array zero input = []
to_byte_array (suc i) input = byte_at input i ∷ to_byte_array i input

-- `helper.t` where the bytes of the union are those of the list.
abbrev pub little_endian : List ℕ → ℕ
little_endian [] = 0
little_endian (c ∷ cs) = c % 256 + 256 * little_endian cs

-- The loop that copies `input.at (i)` for i = w - 1, …, 0 to ascending places of the union. `at`
-- throws past the end.
unfoldable pub copy_from : ℕ → Bytes → Outcome (List ℕ)
copy_from zero input = ok []
copy_from (suc i) input = elim (get_elem? input i) [
  | none ↦ fault thrown
  | some c ↦ (copy_from i input >>= λ cs. ok (c ∷ cs))
]

unfoldable pub from_byte_array : ℕ → Bytes → Outcome ℕ
from_byte_array w input = do
  assert (length input == w)
  cs ← copy_from w input
  ok (little_endian cs)
