-- ===== src/Strategy/Node.antt =====
-- strategy.hpp and strategy.cpp: the state of a server, and what leader and follower share.
use libpaxos_cpp.Base.{List, Outcome, [], ok, ℕ, ℕ_order, ℤ, ◌>>=◌, ◌∷◌}
use libpaxos_cpp.Errors.{ErrorCode}
use libpaxos_cpp.Command.{
  Command, new_command, set_type, set_error_code, set_host_id, set_host_endpoint,
  set_highest_proposal_id, host_id, host_endpoint, type_request_error,
}
use libpaxos_cpp.Storage.Backend.{Backend, Durable}
use libpaxos_cpp.Quorum.Server
use libpaxos_cpp.Quorum.View.{lookup_server, modify_server}
use libpaxos_cpp.Quorum.ServerView.{ServerView}

-- A server: its storage, its view of the quorum, and the state `P` that the user's callback keeps.
pub record Node (S P D : Type 0) : Type 0 where
  pub storage : Durable S
  pub quorum : ServerView D
  pub application : P

-- What a handler asks of a connection, in order. A wait names the follower and its connection.
pub data Effect : Type 0 where
  write : ℕ → Command → Effect
  await_promise : (follower connection : ℕ) → Effect
  await_accepted : (follower connection : ℕ) → Effect

module _ {S P D : Type 0} (b : Backend S) where
  unfoldable pub proposal_id : Node S P D → Outcome ℤ
  proposal_id n = b.highest_proposal_id n.storage.state

  unfoldable pub add_local_host_information : Node S P D → Command → Outcome Command
  add_local_host_information n output = do
    server ← lookup_server n.quorum.our_endpoint n.quorum.servers
    highest ← proposal_id n
    ok (
        set_highest_proposal_id highest
          (set_host_endpoint server.endpoint (set_host_id server.id output)))

  unfoldable pub handle_error : ErrorCode → ℕ → Node S P D → Outcome (List Effect)
  handle_error error client n = do
    response ←
        add_local_host_information n
          (set_error_code error (set_type type_request_error new_command))
    ok (write client response ∷ [])

module _ {S P D : Type 0} where
  unfoldable pub process_remote_host_information : Command → Node S P D → Outcome (Node S P D)
  process_remote_host_information c n = do
    e ← host_endpoint c
    _ ← lookup_server e n.quorum.servers
    id ← host_id c
    v ←
        modify_server e
          (λ s. Server.set_highest_proposal_id c.highest_proposal_id (Server.set_id id s))
          n.quorum.servers
    ok (record n { quorum = record n.quorum { servers = v } })
