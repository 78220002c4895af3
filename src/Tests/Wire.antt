-- ===== src/Tests/Wire.antt =====
-- A connection with two messages, and frames of a serializer of one byte.
use libpaxos_cpp.Base.{
  Bytes, List, Option, [], arith, drop, drop-append_length, false, if◌then◌else◌, leb, length,
  length-append, none, ok, refl, some, take, take-append_length, true, ℕ, ◌++◌, ◌<◌, ◌∷◌, ◌≡◌,
}
use libpaxos_cpp.Errors.{error_connection_close}
use libpaxos_cpp.Command.{new_command}
use libpaxos_cpp.Wire.Conversion.{to_byte_array, from_byte_array}
use libpaxos_cpp.Wire.Conversion.RoundTrip.{from_byte_array-to_byte_array}
use libpaxos_cpp.Wire.Parser.{Serializer, write_command, read_command, read_command_loop}
use libpaxos_cpp.Wire.Parser.Frames.{
  ReadsExactly, Serializes, write_all, delivered, read_command_loop-write_all, read_command_cut,
}
use libpaxos_cpp.Wire.Parser.Wraps.{read_command-wraps}
use libpaxos_cpp.Wire.Connection.{Connection, new_connection}
use libpaxos_cpp.Wire.Connection.Stream.{Event, writes, completes, run, AllStay, run-sent}

from_byte_array-to_byte_array_example :
    (from_byte_array 4 (to_byte_array 4 70000) ≡ ok 70000) × (length (to_byte_array 4 70000) ≡ 4)
from_byte_array-to_byte_array_example = from_byte_array-to_byte_array 4 70000 (omega arith)

-- It writes and reads the one command that has no fields set.
abbrev serializer : Serializer
serializer = record { to_string = λ c. 5 ∷ []; from_string = λ bytes. ok new_command }

-- It waits for as many bytes as it is asked for.
abbrev async_read : ℕ → Bytes → Option (Bytes × Bytes)
async_read n stream = if leb n (length stream) then some (take n stream, drop n stream) else none

reads_exactly : (xs ys : Bytes) → async_read (length xs) (xs ++ ys) ≡ some (xs, ys)
reads_exactly xs ys =
    let enough : leb (length xs) (length (xs ++ ys)) ≡ true = ground (arith, length-append xs ys) in
    rw (enough, take-append_length xs ys, drop-append_length xs ys)

fails_short : (n : ℕ) (xs : Bytes) → length xs < n → async_read n xs ≡ none
fails_short n xs h = let few : leb n (length xs) ≡ false = ground arith in rw few

exact : ReadsExactly async_read
exact = record { reads = reads_exactly; fails = fails_short }

serializes : Serializes serializer new_command
serializes = record { reads_back = refl; fits = omega arith }

read_command_loop-write_all_example :
    read_command_loop serializer async_read 3
      (write_all serializer (new_command ∷ new_command ∷ []))
    ≡ ok (delivered serializer (new_command ∷ new_command ∷ []))
read_command_loop-write_all_example =
    read_command_loop-write_all serializer async_read exact (new_command ∷ new_command ∷ []) 3
      (serializes, (serializes, tt)) (omega arith)

enough : 3 < length (write_command serializer new_command)
unfolding write_command to_byte_array
enough = omega arith

read_command_cut_example :
    read_command serializer async_read (take 3 (write_command serializer new_command))
    ≡ ok (some error_connection_close, new_command, [])
read_command_cut_example =
    read_command_cut serializer async_read exact new_command 3 serializes enough

abbrev events : List Event
events = writes false (1 ∷ []) ∷ writes false (2 ∷ 3 ∷ []) ∷ completes ∷ writes false (4 ∷ []) ∷ []

stay : AllStay events
stay = ((λ e. cc), refl, ((λ e. cc), refl, ((λ e. cc), refl, tt)))

run-sent_example :
    (c d : Connection) × (run events new_connection ≡ ok c)
    × (run (completes ∷ completes ∷ []) c ≡ ok d)
    × (d.sent ≡ 1 ∷ 2 ∷ 3 ∷ 4 ∷ [])
run-sent_example = run-sent events stay

-- Two commands, one after the other.
read_command-wraps_example :
    read_command serializer async_read
      (write_command serializer new_command ++ write_command serializer new_command)
    ≡ ok (none, new_command, write_command serializer new_command)
read_command-wraps_example =
    read_command-wraps serializer async_read exact new_command
      (write_command serializer new_command)
