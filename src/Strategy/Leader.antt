-- ===== src/Strategy/Leader.antt =====
-- strategy.cpp: the round of the leader, from `initiate` over the promises to the accepted values.
pub mod Proposal
use libpaxos_cpp.Base.{
  Bool, Bytes, List, Map, Option, Outcome, [], aborted, assert, contains, false, fault, find,
  get_last?, if◌then◌else◌, insert, is_empty, none, not, ok, some, suc_ℤ, true, undefined, ℕ,
  ℕ_order, ℤ, ◌&&◌, ◌++◌, ◌==ℤ◌, ◌==◌, ◌>>=◌, ◌>>◌, ◌∷◌,
}
use libpaxos_cpp.Errors.{ErrorCode, no_error, error_inconsistent_response}
use libpaxos_cpp.Command.{
  Command, new_command, set_type, set_next_proposal_id, set_lowest_proposal_id,
  set_proposed_workload, add_proposed_workload, type_request_prepare, type_request_accept,
}
use libpaxos_cpp.Storage.Backend.{Backend}
use libpaxos_cpp.Quorum.Server.{has_connection}
use libpaxos_cpp.Quorum.View.{lookup_server, lowest_proposal_id}
use libpaxos_cpp.Strategy.Node.{
  Node, Effect, write, await_promise, await_accepted, proposal_id, add_local_host_information,
}

pub data Response : Type 0 where
  response_none : Response
  response_ack : Response
  response_reject : Response

-- `struct state`. It is shared by the callbacks of one request, and the queue guard lives as long.
pub record Round : Type 0 where
  pub accepted : Map ℕ Response
  pub responses : Map ℕ Bytes
  pub error_codes : Map ℕ ErrorCode
  pub connections : Map ℕ ℕ

abbrev pub new_round : Round
new_round = record { accepted = []; responses = []; error_codes = []; connections = [] }

-- What is bound into every callback of a request.
pub record Request : Type 0 where
  pub client_connection : ℕ
  pub byte_array : Bytes

abbrev pub is_ack : Option Response → Bool
is_ack (some response_ack) = true
is_ack _ = false

abbrev pub is_connection : ℕ → Option ℕ → Bool
is_connection c none = false
is_connection c (some d) = c == d

-- PAXOS_ASSERT_NE (error, no_error)
abbrev pub is_error : ErrorCode → Bool
is_error no_error = false
is_error _ = true

-- An optional pointer that is dereferenced.
abbrev pub deref {ℓ} : {A : Type ℓ} → Option A → Outcome A
deref none = fault undefined
deref (some a) = ok a

-- `==` of two strings.
abbrev pub same_bytes : Bytes → Bytes → Bool
same_bytes [] [] = true
same_bytes (a ∷ s) (c ∷ t) = a == c && same_bytes s t
same_bytes _ _ = false

-- Is there no history to send, or does it end at our own proposal id?
abbrev pub reaches : ℤ → Option (ℤ × Bytes) → Bool
reaches ours none = true
reaches ours (some (id, _)) = id ==ℤ ours

-- One host of the loops for the last error.
unfoldable pub note_error :
    ℕ → Response → Map ℕ ErrorCode → Option ErrorCode → Outcome (Option ErrorCode)
note_error e response_reject codes last = elim (find e codes) [
  | none ↦ fault aborted
  | some code ↦ assert (is_error code) >> ok (some code)
]
note_error e _ codes last = ok last

unfoldable pub last_error :
    Map ℕ Response → Map ℕ ErrorCode → Option ErrorCode → Outcome (Option ErrorCode)
last_error [] codes last = ok last
last_error ((e, r) ∷ accepted) codes last = do
  last ← note_error e r codes last
  last_error accepted codes last

-- The loop that compares the responses: the workload, and the error so far.
unfoldable pub compare_responses :
    Map ℕ Bytes → Bytes → Option ErrorCode → Outcome (Bytes × Option ErrorCode)
compare_responses [] workload last = ok (workload, last)
compare_responses ((e, r) ∷ rest) [] last =
    assert (not (is_empty r)) >> compare_responses rest r last
compare_responses ((e, r) ∷ rest) (w ∷ ws) last =
    compare_responses rest (w ∷ ws)
      (if same_bytes (w ∷ ws) r then last else some error_inconsistent_response)

module _ {S P D : Type 0} (b : Backend S) where
  unfoldable pub send_prepare : ℕ → ℕ → Node S P D → Round → Outcome (Round × List Effect)
  send_prepare follower connection n r = do
    assert (not (contains follower r.connections))
    ours ← proposal_id b n
    c ←
        add_local_host_information b n
          (set_next_proposal_id (suc_ℤ ours) (set_type type_request_prepare new_command))
    ok (
      record r { connections = insert follower connection r.connections },
      write connection c ∷ await_promise follower connection ∷ [],
    )

  -- The loop of `initiate` over the live servers.
  unfoldable pub prepare_all : List ℕ → Node S P D → Round → Outcome (Round × List Effect)
  prepare_all [] n r = ok (r, [])
  prepare_all (e ∷ es) n r = do
    server ← lookup_server e n.quorum.servers
    assert (has_connection server)
    connection ← deref server.connection
    (r, effects) ← send_prepare server.endpoint connection n r
    (r, more) ← prepare_all es n r
    ok (r, effects ++ more)

  -- What the leader proposes to a follower: the history that it lacks, and the value itself once
  -- that history reaches the leader's own.
  unfoldable pub proposal : Node S P D → Bytes → ℤ → Command → Outcome Command
  proposal n byte_array follower_highest c = do
    history ← b.retrieve n.storage.state follower_highest
    ours ← proposal_id b n
    let c = set_proposed_workload history c
    if reaches ours (get_last? history)
        then add_proposed_workload (suc_ℤ ours) byte_array c
        else ok c

  unfoldable pub send_accept : Request → ℕ → ℕ → Node S P D → Round → Outcome (List Effect)
  send_accept q follower connection n r = do
    assert (is_connection connection (find follower r.connections))
    assert (is_ack (find follower r.accepted))
    server ← lookup_server follower n.quorum.servers
    c ←
        proposal n q.byte_array server.highest_proposal_id
          (set_type type_request_accept new_command)
    c ←
        add_local_host_information b n
          (set_lowest_proposal_id (lowest_proposal_id n.quorum.servers) c)
    ok (write connection c ∷ await_accepted follower connection ∷ [])

  unfoldable pub send_accept_all : Request → Map ℕ ℕ → Node S P D → Round → Outcome (List Effect)
  send_accept_all q [] n r = ok []
  send_accept_all q ((e, c) ∷ rest) n r = do
    effects ← send_accept q e c n r
    more ← send_accept_all q rest n r
    ok (effects ++ more)
