-- ===== src/Strategy/Initiate/Attempts.antt =====
-- What the attempts to connect and the errors of `initiate` do to the history of a leader.
use libpaxos_cpp.Base.{Bytes, List, [], ap, length, ok, pos, refl, ℕ, ℕ_order, ℤ, ◌∙◌, ◌∷◌, ◌≡◌}
use libpaxos_cpp.Errors.{ErrorCode}
use libpaxos_cpp.Command.{
  Command, new_command, set_type, set_host_id, set_host_endpoint, set_highest_proposal_id,
  set_error_code, type_request_error,
}
use libpaxos_cpp.Storage.Log.{Log}
use libpaxos_cpp.Storage.Backend.{Backend, IsBackend}
use libpaxos_cpp.Quorum.View.Live.{attempt, attempt_all, attempt-endpoint}
use libpaxos_cpp.Quorum.View.Live.{attempted, find-attempt_all}
use libpaxos_cpp.Strategy.Node.{Node, write, handle_error}
use libpaxos_cpp.Strategy.Follower.CatchUp.{Replica}
use libpaxos_cpp.Strategy.Follower.Replication.{add_local-Replica}

-- A server that tried to connect to the others.
abbrev pub tried : {S P D : Type 0} → ℕ → Node S P D → Node S P D
tried now n = record n { quorum = record n.quorum { servers = attempt_all now n.quorum.servers } }

module _ {S P D : Type 0} {b : Backend S} {Holds : S → Log → Type 0} (laws : IsBackend b Holds)
    (processor : ℤ → Bytes → P → Bytes × P) (start : P) where
  -- Asking for the live servers changes nothing of a history, nor of what is stored.
  pub attempt_all-stored :
      (now : ℕ) {n : Node S P D} {history : List Bytes}
      → (r : Replica laws processor start n history)
      → (r' : Replica laws processor start (tried now n) history) × (r'.log ≡ r.log)
        × (r'.us ≡ attempt now r.us)
  attempt_all-stored now {n} r = (
    record {
      log = r.log;
      holds = r.holds;
      keeps = r.keeps;
      applied = r.applied;
      size = r.size;
      sized = r.sized;
      some_size = r.some_size;
      us = attempt now r.us;
      known =
          find-attempt_all now n.quorum.our_endpoint n.quorum.servers ∙ ap (attempted now) r.known;
      named = attempt-endpoint now r.us ∙ r.named;
    },
    refl,
    refl,
  )

  pub attempt_all-Replica :
      (now : ℕ) {n : Node S P D} {history : List Bytes}
      → Replica laws processor start n history
      → Replica laws processor start (tried now n) history
  attempt_all-Replica now r = (attempt_all-stored now r).0

  pub handle_error-Replica :
      (code : ErrorCode) (client : ℕ) {n : Node S P D} {history : List Bytes}
      → Replica laws processor start n history
      → (response : Command) × (handle_error b code client n ≡ ok (write client response ∷ []))
        × (response.type_ ≡ type_request_error)
        × (response.error_code ≡ code)
  unfolding handle_error
  handle_error-Replica code client {n} {history} k =
      let c : Command = set_error_code code (set_type type_request_error new_command) in
      (
        set_highest_proposal_id (pos (length history))
            (set_host_endpoint k.us.endpoint (set_host_id k.us.id c)),
        rw (add_local-Replica laws processor start c k) refl,
        refl,
        refl,
      )
