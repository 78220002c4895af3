-- ===== src/Client/InitiateRequest.antt =====
-- detail/client/protocol/initiate_request.cpp: one attempt at a request. `callback` is called with an
-- error, or with none and the response.
pub mod Noted
pub mod Ready
use libpaxos_cpp.Errors.{ErrorCode, error_no_leader}
use libpaxos_cpp.Command.{
  Command, CommandType, new_command, set_type, set_workload, host_id, host_endpoint,
  type_request_initiate, type_request_accepted, type_request_error,
}
use libpaxos_cpp.Quorum.Server.{has_connection}
use libpaxos_cpp.Quorum.Server
use libpaxos_cpp.Quorum.View.{lookup_server, modify_server, connection_died}
use libpaxos_cpp.Quorum.ClientView.{ClientView, select_leader, advance_leader}
use libpaxos_cpp.Base.{
  Bool, Bytes, Option, Outcome, [], false, fault, if◌then◌else◌, none, ok, some, true, unreachable,
  ℕ, ◌>>=◌,
}

-- What the user's callback is called with.
abbrev pub Reply : Type 0
Reply = Option ErrorCode × Bytes

-- What `step1` leaves: the callback was called at once, or the command was written to the leader and
-- its answer is awaited.
pub data Attempt : Type 0 where
  replied : Reply → Attempt
  awaiting : (leader connection : ℕ) → Command → Attempt

abbrev no_leader : ℕ → ClientView → Outcome (ClientView × Attempt)
no_leader now q = advance_leader now q >>= λ q. ok (q, replied (some error_no_leader, []))

abbrev pub initiate_command : Bytes → Command
initiate_command byte_array = set_workload byte_array (set_type type_request_initiate new_command)

unfoldable pub step_to : Bytes → ℕ → Option ℕ → ClientView → Outcome (ClientView × Attempt)
step_to byte_array now none q = no_leader now q
step_to byte_array now (some leader) q = do
  server ← lookup_server leader q.servers
  elim server.connection [
    | none ↦ no_leader now q
    | some connection ↦ ok (q, awaiting leader connection (initiate_command byte_array))
  ]

unfoldable pub step1 : Bytes → ℕ → ClientView → Outcome (ClientView × Attempt)
step1 byte_array now q = do (leader, q) ← select_leader now q; step_to byte_array now leader q

abbrev is_no_leader : ErrorCode → Bool
is_no_leader error_no_leader = true
is_no_leader _ = false

-- The answer by its type, after the host information is noted.
unfoldable pub answer : CommandType → Command → ℕ → ClientView → Outcome (ClientView × Reply)
answer type_request_accepted c now q = ok (q, (none, c.workload))
answer type_request_error c now q =
    if is_no_leader c.error_code
    then (advance_leader now q >>= λ q. ok (q, (some c.error_code, c.workload)))
    else ok (q, (some c.error_code, c.workload))
answer _ c now q = fault unreachable

-- The callback of `read_command`.
unfoldable pub receive :
    ℕ → ℕ → Option ErrorCode → Command → ClientView → Outcome (ClientView × Reply)
receive now leader (some error) c q = do
  server ← lookup_server leader q.servers
  v ← connection_died server.endpoint q.servers
  q ← advance_leader now (record q { servers = v })
  ok (q, (some error, []))
receive now leader none c q = do
  host ← host_endpoint c
  uuid ← host_id c
  v ← modify_server host (Server.set_id uuid) q.servers
  v ← modify_server host (Server.set_highest_proposal_id c.highest_proposal_id) v
  answer c.type_ c now (record q { servers = v })
