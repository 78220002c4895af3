-- ===== src/Wire/Parser/Wraps.antt =====
-- What is read of a command of any size: the 32 bits at the front of its frame wrap.
use mathlib.Core.List.{append_assoc}
use native.Mathlib.Nat.{mod-lt, mod-le}
use libpaxos_cpp.Command.{Command}
use libpaxos_cpp.Wire.Conversion.{to_byte_array}
use libpaxos_cpp.Wire.Conversion.RoundTrip.{from_byte_array-to_byte_array}
use libpaxos_cpp.Wire.Parser.{
  Serializer, write_command, AsyncRead, read_command_parse_command, read_command_parse_size,
  read_command,
}
use libpaxos_cpp.Wire.Parser.Frames.{ReadsExactly, reads_four}
use libpaxos_cpp.Base.{
  Bytes, ap, ap₂, arith, drop, length, length-take, none, ok, refl, some, sym, take,
  take-append-drop, ℕ, ◌%◌, ◌++◌, ◌>>=◌, ◌^◌, ◌∙◌, ◌≡◌,
}

-- Where an asynchronous read gives exactly the bytes that it is asked for or fails, of the frame
-- of a command of any length the reader parses only as many bytes as the length modulo 2 ^ 32, and
-- takes the rest for the start of the next frame.
pub read_command-wraps :
    (z : Serializer) (async_read : AsyncRead) (exact : ReadsExactly async_read) (c : Command)
    (rest : Bytes)
    → read_command z async_read (write_command z c ++ rest) ≡ (
        z.from_string (take (length (z.to_string c) % 2 ^ 32) (z.to_string c)) >>= λ d.
        ok (none, d, drop (length (z.to_string c) % 2 ^ 32) (z.to_string c) ++ rest))
unfolding read_command read_command_parse_size read_command_parse_command write_command
read_command-wraps z async_read exact c rest =
    let binary : Bytes = z.to_string c in
    let k : ℕ = length binary % 2 ^ 32 in
    let size : Bytes = to_byte_array 4 k in
    let (sized, four) = from_byte_array-to_byte_array 4 k (mod-lt (length binary) (omega arith)) in
    let cut : binary ++ rest ≡ take k binary ++ (drop k binary ++ rest) =
      ap (λ bytes. bytes ++ rest) (sym (take-append-drop k binary))
      ∙ append_assoc (take k binary) (drop k binary) rest in
    let full : length (take k binary) ≡ k =
      length-take k binary (mod-le (length binary) (2 ^ 32)) in
    let body : async_read k (binary ++ rest) ≡ some (take k binary, drop k binary ++ rest) =
      ap₂ async_read (sym full) cut ∙ exact.reads (take k binary) (drop k binary ++ rest) in
    rw
      (
        append_assoc size binary rest,
        reads_four z async_read exact size (binary ++ rest) four,
        sized,
        body,
      )
      refl
