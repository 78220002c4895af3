-- ===== src/Wire/Parser/Frames.antt =====
-- Commands written to a connection are read back one by one, and a cut frame is never delivered.
use mathlib.Core.List.{append_assoc}
use native.Mathlib.Nat.{mod-eq_of_lt}
use libpaxos_cpp.Errors.{ErrorCode, error_connection_close}
use libpaxos_cpp.Command.{Command, new_command}
use libpaxos_cpp.Wire.Conversion.{to_byte_array, from_byte_array}
use libpaxos_cpp.Wire.Conversion.RoundTrip.{from_byte_array-to_byte_array}
use libpaxos_cpp.Wire.Parser.{
  Serializer, write_command, AsyncRead, read_command_parse_command, read_command_parse_size,
  read_command, read_command_loop,
}
use libpaxos_cpp.Base.{
  Bytes, List, Option, [], arith, dec_lt, length, length-append, length-take, none, ok, some, suc,
  take, take-append_add, zero, ℕ, ◌%◌, ◌++◌, ◌+◌, ◌-◌, ◌<◌, ◌^◌, ◌∷◌, ◌≡◌,
}

-- The serialization library reads what it wrote, and a command is shorter than 4 GB.
pub record Serializes (z : Serializer) (c : Command) : Type 0 where
  pub reads_back : z.from_string (z.to_string c) ≡ ok c
  pub fits : length (z.to_string c) < 2 ^ 32

-- An asynchronous read gives exactly the bytes that it is asked for, or fails.
pub record ReadsExactly (async_read : AsyncRead) : Type 0 where
  pub reads : (xs ys : Bytes) → async_read (length xs) (xs ++ ys) ≡ some (xs, ys)
  pub fails : (n : ℕ) (xs : Bytes) → length xs < n → async_read n xs ≡ none

module _ (z : Serializer) where
  frame :
      (c : Command)
      → Serializes z c
      → (from_byte_array 4 (to_byte_array 4 (length (z.to_string c) % 2 ^ 32))
          ≡ ok (length (z.to_string c)))
        × (length (to_byte_array 4 (length (z.to_string c) % 2 ^ 32)) ≡ 4)
  frame c s =
      rw (mod-eq_of_lt s.fits) (from_byte_array-to_byte_array 4 (length (z.to_string c)) s.fits)

  abbrev pub AllSerialize : List Command → Type 0
  AllSerialize [] = Unit {0}
  AllSerialize (c ∷ cs) = Serializes z c × AllSerialize cs

  -- The bytes of a list of commands.
  abbrev pub write_all : List Command → Bytes
  write_all [] = []
  write_all (c ∷ cs) = write_command z c ++ write_all cs

  -- The calls of the callback for these commands, and for the close of the connection after them.
  abbrev pub delivered : List Command → List (Option ErrorCode × Command)
  delivered [] = (some error_connection_close, new_command) ∷ []
  delivered (c ∷ cs) = (none, c) ∷ delivered cs

module _ (z : Serializer) (async_read : AsyncRead) (exact : ReadsExactly async_read) where
  pub reads_four : (xs ys : Bytes) → length xs ≡ 4 → async_read 4 (xs ++ ys) ≡ some (xs, ys)
  reads_four xs ys four = rw (← four) (exact.reads xs ys)

  read_command-write_command :
      (c : Command) (rest : Bytes)
      → Serializes z c
      → read_command z async_read (write_command z c ++ rest) ≡ ok (none, c, rest)
  unfolding read_command read_command_parse_size read_command_parse_command write_command
  read_command-write_command c rest s =
      let binary : Bytes = z.to_string c in
      let size : Bytes = to_byte_array 4 (length binary % 2 ^ 32) in
      let (sized, four) = frame z c s in
      rw (
        append_assoc size binary rest,
        reads_four size (binary ++ rest) four,
        sized,
        exact.reads binary rest,
        s.reads_back,
      )

  read_end : read_command z async_read [] ≡ ok (some error_connection_close, new_command, [])
  unfolding read_command read_command_parse_size
  read_end = rw (exact.fails 4 [] (omega arith))

  -- Where an asynchronous read gives exactly the bytes that it is asked for or fails, commands
  -- shorter than 4 GB that the serializer reads back are delivered to the callback in the order in
  -- which they were written, each once, and then the close of the connection.
  pub read_command_loop-write_all :
      (cs : List Command) (rounds : ℕ)
      → AllSerialize z cs
      → length cs < rounds
      → read_command_loop z async_read rounds (write_all z cs) ≡ ok (delivered z cs)
  unfolding read_command_loop
  read_command_loop-write_all cs zero all h = absurd (omega arith)
  read_command_loop-write_all [] (suc rounds) all h = rw (read_end, read_command_loop)
  read_command_loop-write_all (c ∷ cs) (suc rounds) all h = rw (
    read_command-write_command c (write_all z cs) all.0,
    read_command_loop,
    read_command_loop-write_all cs rounds all.1 (omega arith),
  )

  -- Where an asynchronous read gives exactly the bytes that it is asked for or fails, and the
  -- connection closes inside the frame of a command that the serializer reads back and writes in
  -- less than 4 GB, at whatever byte, the callback gets the error and no part of the command.
  pub read_command_cut :
      (c : Command) (k : ℕ)
      → Serializes z c
      → k < length (write_command z c)
      → read_command z async_read (take k (write_command z c))
        ≡ ok (some error_connection_close, new_command, [])
  unfolding read_command read_command_parse_size read_command_parse_command write_command
  read_command_cut c k s h =
      let binary : Bytes = z.to_string c in
      let size : Bytes = to_byte_array 4 (length binary % 2 ^ 32) in
      let (sized, four) = frame z c s in
      let long : length (size ++ binary) ≡ length size + length binary =
        length-append size binary in
      elim (dec_lt k 4) [
        | yes early ↦
            let short : length (take k (size ++ binary)) ≡ k =
              length-take k (size ++ binary) (omega arith) in
            rw (exact.fails 4 (take k (size ++ binary)) (omega arith))
        | no late ↦
            let parts : take k (size ++ binary) ≡ size ++ take (k - 4) binary =
              take-append_add size binary k (k - 4) (omega arith) in
            let short : length (take (k - 4) binary) ≡ k - 4 =
              length-take (k - 4) binary (omega arith) in
            rw (
              parts,
              reads_four size (take (k - 4) binary) four,
              sized,
              exact.fails (length binary) (take (k - 4) binary) (omega arith),
            )
      ]
