-- ===== src/Tests/Strategy/Stranding.antt =====
-- A follower without values, and a leader whose heap has removed the first.
use libpaxos_cpp.Base.{[], aborted, arith, fault, ok, pos, refl, ℕ, ◌∷◌, ◌≡◌}
use libpaxos_cpp.Command.{Command}
use libpaxos_cpp.Storage.Log.{enumerate}
use libpaxos_cpp.Strategy.Stranded.{stranded_aborts}
use libpaxos_cpp.Storage.Heap.{Heap, heap}
use libpaxos_cpp.Storage.Heap.Refines.{heap-IsBackend}
use libpaxos_cpp.Strategy.Node.{Node}
use libpaxos_cpp.Strategy.Replay.{replay}
use libpaxos_cpp.Strategy.Leader.{proposal}
use libpaxos_cpp.Strategy.Follower.{accept}
use libpaxos_cpp.Strategy.Follower.CatchUp.{Replica}
use libpaxos_cpp.Strategy.Follower.Replication.{IsFrom}
use libpaxos_cpp.Tests.Strategy.{
  two_values, processor, server, servers, node, replica, two_applied, sent,
}

-- A leader whose heap has removed the first value.
abbrev trimmed : Node Heap ℕ (Unit {0})
trimmed = record {
  storage = record { history_size = pos 1; state = enumerate 2 ((8 ∷ []) ∷ []) };
  quorum = record { servers = servers; majority_factor = tt; our_endpoint = 1 };
  application = 2;
}

abbrev trimmed_leads : Replica heap-IsBackend processor 0 trimmed two_values
trimmed_leads = record {
  log = record { base = 1; values = (8 ∷ []) ∷ [] };
  holds = record { is_log = record { rooted = λ e. absurd (omega arith) }; entries = refl };
  keeps = record { within = omega arith; newest = refl };
  applied = two_applied;
  size = 1;
  sized = refl;
  some_size = omega arith;
  us = server 1 11 (pos 2);
  known = refl;
  named = refl;
}

abbrev empty_follower : Node Heap ℕ (Unit {0})
empty_follower = node 2 [] 0

none_applied : 0 ≡ replay processor 0 [] 0
unfolding replay
none_applied = refl

empty_follows : Replica heap-IsBackend processor 0 empty_follower []
empty_follows = replica 2 (server 2 12 (pos 1)) [] 0 refl refl none_applied

sent-IsFrom_empty : IsFrom sent empty_follower
sent-IsFrom_empty = record {
  host = 1;
  uuid = 11;
  server = server 1 11 (pos 2);
  at_host = refl;
  with_uuid = refl;
  known_host = refl;
}

stranded_aborts_example :
    (c : Command) × (proposal heap trimmed (9 ∷ []) (pos 0) sent ≡ ok c)
    × (c.proposed_workload ≡ enumerate 3 ((9 ∷ []) ∷ []))
    × (accept heap processor 5 c empty_follower ≡ fault aborted)
stranded_aborts_example =
    stranded_aborts heap-IsBackend processor 0 (9 ∷ []) 5 0 sent trimmed_leads (omega arith)
      empty_follows sent-IsFrom_empty
