-- ===== src/Strategy/Follower.antt =====
-- strategy.cpp: `prepare` and `accept`, with which a follower answers the leader.
pub mod CatchUp
pub mod Replication
pub mod Prepared
use libpaxos_cpp.Base.{
  Bytes, List, Map, Option, Outcome, [], assert, if◌then◌else◌, is_empty, ltb_ℤ, none, not, ok,
  some, suc_ℤ, ℕ, ℕ_order, ℤ, ◌==ℤ◌, ◌==◌, ◌>>=◌, ◌>>◌, ◌∷◌,
}
use libpaxos_cpp.Errors.{error_no_leader, error_incorrect_proposal}
use libpaxos_cpp.Command.{
  Command, new_command, set_type, set_error_code, set_next_proposal_id, add_proposed_workload,
  host_endpoint, type_request_promise, type_request_fail, type_request_accepted,
}
use libpaxos_cpp.Storage.Backend.{Backend, Durable}
use libpaxos_cpp.Storage.Backend
use libpaxos_cpp.Quorum.Server
use libpaxos_cpp.Quorum.View.{modify_server}
use libpaxos_cpp.Quorum.ServerView.{who_is_our_leader}
use libpaxos_cpp.Strategy.Node.{
  Node, Effect, write, proposal_id, add_local_host_information, process_remote_host_information,
}

-- The answer to a prepare, before the host information is added.
unfoldable pub judge : Option ℕ → ℕ → ℤ → ℤ → Command
judge none host next ours = set_error_code error_no_leader (set_type type_request_fail new_command)
judge (some leader) host next ours =
    if not (leader == host)
    then set_error_code error_no_leader (set_type type_request_fail new_command)
    else if ltb_ℤ ours next
    then set_type type_request_promise new_command
    else set_error_code error_incorrect_proposal (set_type type_request_fail new_command)

module _ {S P D : Type 0} (b : Backend S) where
  unfoldable pub prepare : ℕ → Command → ℕ → Node S P D → Outcome (Node S P D × List Effect)
  prepare leader_connection c now n = do
    n ← process_remote_host_information c n
    (leader, q) ← who_is_our_leader now n.quorum
    let n = record n { quorum = q }
    host ← host_endpoint c
    ours ← proposal_id b n
    let response = set_next_proposal_id ours (judge leader host c.next_proposal_id ours)
    response ← add_local_host_information b n response
    ok (n, write leader_connection response ∷ [])

module _ {S P D : Type 0} (b : Backend S) (processor : ℤ → Bytes → P → Bytes × P) where
  -- One round of the loop of `accept`: process the value, store it, and tell the quorum. The ids
  -- ascend, so the answer that was just added is the last of the response.
  unfoldable pub accept_one : ℤ → ℤ → Bytes → Node S P D × Command → Outcome (Node S P D × Command)
  accept_one lowest id value (n, response) = do
    ours ← proposal_id b n
    assert (id ==ℤ suc_ℤ ours)
    let answer = processor id value n.application
    response ← add_proposed_workload id answer.0 response
    assert (not (is_empty answer.0))
    d ← Backend.accept b n.storage id value lowest
    let n = record n { storage = d; application = answer.1 }
    highest ← proposal_id b n
    v ←
        modify_server n.quorum.our_endpoint (Server.set_highest_proposal_id highest)
          n.quorum.servers
    assert (id ==ℤ highest)
    ok (record n { quorum = record n.quorum { servers = v } }, response)

  unfoldable pub accept_all :
      ℤ → Map ℤ Bytes → Node S P D × Command → Outcome (Node S P D × Command)
  accept_all lowest [] acc = ok acc
  accept_all lowest ((id, value) ∷ rest) acc = do
    acc ← accept_one lowest id value acc
    accept_all lowest rest acc

  unfoldable pub accept : ℕ → Command → Node S P D → Outcome (Node S P D × List Effect)
  accept leader_connection c n = do
    n ← process_remote_host_information c n
    assert (not (is_empty c.proposed_workload))
    (n, response) ←
        accept_all c.lowest_proposal_id c.proposed_workload
          (n, set_type type_request_accepted new_command)
    response ← add_local_host_information b n response
    ok (n, write leader_connection response ∷ [])
