-- ===== src/Wire/Parser.antt =====
-- detail/parser.cpp and tcp_connection::read_command_loop: commands as length-prefixed frames.
pub mod Frames
pub mod Wraps
use libpaxos_cpp.Errors.{ErrorCode, error_connection_close}
use libpaxos_cpp.Command.{Command, new_command}
use libpaxos_cpp.Wire.Conversion.{to_byte_array, from_byte_array}
use libpaxos_cpp.Base.{
  Bytes, List, Option, Outcome, [], fault, length, none, ok, some, suc, zero, ℕ, ◌%◌, ◌++◌, ◌>>=◌,
  ◌^◌, ◌∷◌,
}

-- command::to_string and command::from_string, which the serialization library implements.
pub record Serializer : Type 0 where
  pub to_string : Command → Bytes
  pub from_string : Bytes → Outcome Command

-- What goes to the connection: the size as 32 bits, and the serialized command.
unfoldable pub write_command : Serializer → Command → Bytes
write_command z c = let binary = z.to_string c in to_byte_array 4 (length binary % 2 ^ 32) ++ binary

-- boost::asio::async_read on the bytes that the peer sends before it closes: the bytes that fill
-- the buffer and what is left, or an error.
abbrev pub AsyncRead : Type 0
AsyncRead = ℕ → Bytes → Option (Bytes × Bytes)

-- What the callback is given, and what is left to read.
abbrev pub Answer : Type 0
Answer = Option ErrorCode × Command × Bytes

unfoldable pub read_command_parse_command : Serializer → Option (Bytes × Bytes) → Outcome Answer
read_command_parse_command z none = ok (some error_connection_close, new_command, [])
read_command_parse_command z (some (buffer, rest)) = do c ← z.from_string buffer; ok (none, c, rest)

unfoldable pub read_command_parse_size :
    Serializer → AsyncRead → Option (Bytes × Bytes) → Outcome Answer
read_command_parse_size z async_read none = ok (some error_connection_close, new_command, [])
read_command_parse_size z async_read (some (buffer, rest)) = do
  bytes ← from_byte_array 4 buffer
  read_command_parse_command z (async_read bytes rest)

unfoldable pub read_command : Serializer → AsyncRead → Bytes → Outcome Answer
read_command z async_read stream = read_command_parse_size z async_read (async_read 4 stream)

-- tcp_connection::read_command_loop: the calls of the callback, up to the first error. A call reads
-- at least four bytes, so the length of the stream bounds the rounds.
unfoldable pub read_command_loop :
    Serializer → AsyncRead → ℕ → Bytes → Outcome (List (Option ErrorCode × Command))
read_command_loop z async_read zero stream = ok []
read_command_loop z async_read (suc rounds) stream = elim (read_command z async_read stream) [
  | fault e ↦ fault e
  | ok (some error, c, rest) ↦ ok ((some error, c) ∷ [])
  | ok (none, c, rest) ↦
      (read_command_loop z async_read rounds rest >>= λ calls. ok ((none, c) ∷ calls))
]
