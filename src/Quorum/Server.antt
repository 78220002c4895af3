-- ===== src/Quorum/Server.antt =====
-- detail/quorum/server.hpp and server.cpp: one server within a quorum.
use libpaxos_cpp.Base.{
  Bool, Option, Outcome, assert, false, if◌then◌else◌, is_some, leb, negsuc, none, not, ok, some,
  true, ℕ, ℤ, ◌+◌, ◌==◌, ◌>>◌,
}

pub record Server : Type 0 where
  pub endpoint : ℕ
  pub id : ℕ
  pub highest_proposal_id : ℤ
  -- in seconds; `none` is `not_a_date_time`
  pub most_recent_connection_attempt : Option ℕ
  pub connection : Option ℕ

abbrev pub nil_uuid : ℕ
nil_uuid = 0

abbrev pub new_server : ℕ → Server
new_server endpoint = record {
  endpoint = endpoint;
  id = nil_uuid;
  highest_proposal_id = negsuc 0;
  most_recent_connection_attempt = none;
  connection = none;
}

abbrev pub set_id : ℕ → Server → Server
set_id id s = record s { id = id }

abbrev pub has_id : Server → Bool
has_id s = not (s.id == nil_uuid)

abbrev pub set_highest_proposal_id : ℤ → Server → Server
set_highest_proposal_id p s = record s { highest_proposal_id = p }

abbrev pub has_connection : Server → Bool
has_connection s = is_some s.connection

abbrev pub reset_connection : Server → Server
reset_connection s = record s { connection = none }

-- Was the most recent attempt at most three seconds ago?
abbrev pub attempted_recently : ℕ → Option ℕ → Bool
attempted_recently now none = false
attempted_recently now (some t) = leb now (t + 3)

-- The flag says whether an asynchronous connect was started.
unfoldable pub establish_connection : ℕ → Server → Outcome (Server × Bool)
establish_connection now s = do
  assert (not (has_connection s))
  if attempted_recently now s.most_recent_connection_attempt
      then ok (s, false)
      else ok (record s { most_recent_connection_attempt = some now }, true)

-- The handler of the asynchronous connect: `none` is an error.
unfoldable pub connected : Option ℕ → Server → Outcome Server
connected none s = assert (not (has_connection s)) >> ok s
connected (some c) s = ok (record s { connection = some c })
