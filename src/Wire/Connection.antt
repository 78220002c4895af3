-- ===== src/Wire/Connection.antt =====
-- detail/tcp_connection.cpp: the write buffer of a connection, with its mutex held.
pub mod Stream
use libpaxos_cpp.Base.{
  Bool, Bytes, Option, Outcome, [], assert, drop, false, fault, if◌then◌else◌, is_empty, leb,
  length, none, not, ok, some, take, true, undefined, ℕ, ◌++◌, ◌>>◌, ◌||◌,
}

-- What the pending asynchronous write refers to: as many bytes at the front of the write buffer,
-- where they stood when the write was started. They may have moved since.
pub record Reference : Type 0 where
  pub size : ℕ
  pub moved : Bool

pub record Connection : Type 0 where
  pub write_buffer : Bytes
  pub writing : Option Reference
  -- The bytes that the socket has taken.
  pub sent : Bytes

abbrev pub new_connection : Connection
new_connection = record { write_buffer = []; writing = none; sent = [] }

-- `boost::asio::buffer (write_buffer_)` refers to the bytes of the string.
unfoldable pub start_write_locked : Connection → Outcome Connection
start_write_locked c = do
  assert (not (is_empty c.write_buffer))
  ok (record c { writing = some (record { size = length c.write_buffer; moved = false }) })

-- Appending to a string may move its bytes, which leaves the reference to them dangling.
abbrev pub after_append : Bool → Option Reference → Option Reference
after_append moves none = none
after_append moves (some r) = some (record r { moved = r.moved || moves })

-- `moves`: whether `+=` has to move the bytes of the string, which std::string decides.
unfoldable pub write_locked : Bool → Bytes → Connection → Outcome Connection
write_locked moves message c =
    if is_empty c.write_buffer
    then start_write_locked (record c { write_buffer = message })
    else ok (record c {
      write_buffer = c.write_buffer ++ message;
      writing = after_append moves c.writing;
    })

unfoldable pub handle_write_locked : ℕ → Connection → Outcome Connection
handle_write_locked bytes_transferred c = do
  assert (leb bytes_transferred (length c.write_buffer))
  let c = record c { write_buffer = drop bytes_transferred c.write_buffer }
  if is_empty c.write_buffer then ok c else start_write_locked c

-- The handler of the asynchronous write; the flag is its error.
unfoldable pub handle_write : Bool → ℕ → Connection → Outcome Connection
handle_write true bytes_transferred c = ok c
handle_write false bytes_transferred c = handle_write_locked bytes_transferred c

-- The write completes: the socket has read all the bytes that the write refers to, or failed after
-- some of them. Reading bytes that have moved is undefined.
unfoldable pub complete : Bool → ℕ → Connection → Outcome Connection
complete error count c = elim c.writing [
  | none ↦ ok c
  | some r ↦
      if r.moved
      then fault undefined
      else (let n = if error then count else r.size in
          handle_write error n
            (record c { writing = none; sent = c.sent ++ take n c.write_buffer }))
]
