-- ===== src/Tests/Strategy.antt =====
-- A leader with two values, and a follower that has the first of them.
mod Quorum
mod Initiation
mod Consensus
mod Leaders
mod Serving
mod Stranding
use libpaxos_cpp.Base.{
  Bytes, List, Option, [], arith, find, get_last?, negsuc, none, ok, pos, refl, some, suc, ℕ,
  ℕ_order, ℤ, ℤ_order, ◌+◌, ◌∷◌, ◌≡◌, ◌≤ℤ◌,
}
use libpaxos_cpp.Command.{Command, new_command, type_request_prepare, type_request_accepted}
use libpaxos_cpp.Storage.Log.{enumerate}
use libpaxos_cpp.Quorum.View.Live.{live}
use libpaxos_cpp.Quorum.ServerView.Sorting.{IsElectable}
use libpaxos_cpp.Quorum.ServerView.Election.{Elects}
use libpaxos_cpp.Strategy.Verdict.{IsVerdict, prepare-IsVerdict}
use libpaxos_cpp.Storage.Heap.{Heap, heap}
use libpaxos_cpp.Storage.Heap.Refines.{heap-IsBackend}
use libpaxos_cpp.Quorum.Server.{Server}
use libpaxos_cpp.Quorum.View.{lookup_server, modify_server, View, lowest_proposal_id, lowest_from}
use libpaxos_cpp.Strategy.Node.{process_remote_host_information, Node, write, await_accepted}
use libpaxos_cpp.Strategy.Replay.{replay, answers}
use libpaxos_cpp.Strategy.Leader.{Request, Round, response_ack, new_round, send_accept}
use libpaxos_cpp.Strategy.Follower.{prepare, accept}
use libpaxos_cpp.Strategy.Follower.CatchUp.{Replica}
use libpaxos_cpp.Strategy.Follower.Replication.{IsFrom, IsAccepted, accept-Replica}
use libpaxos_cpp.Strategy.CatchUp.{message, Lags, catch_up}

abbrev two_values : List Bytes
two_values = (7 ∷ []) ∷ (8 ∷ []) ∷ []

abbrev one_value : List Bytes
one_value = (7 ∷ []) ∷ []

-- A callback that counts, and echoes the value after the count.
abbrev processor : ℤ → Bytes → ℕ → Bytes × ℕ
processor i v s = (s ∷ v, suc s)

abbrev server : ℕ → ℕ → ℤ → Server
server e id highest = record {
  endpoint = e;
  id = id;
  highest_proposal_id = highest;
  most_recent_connection_attempt = none;
  connection = some e;
}

abbrev servers : View
servers = (1, server 1 11 (pos 2)) ∷ (2, server 2 12 (pos 1)) ∷ []

abbrev node : ℕ → List Bytes → ℕ → Node Heap ℕ (Unit {0})
node us values count = record {
  storage = record { history_size = pos 1; state = enumerate 1 values };
  quorum = record { servers = servers; majority_factor = tt; our_endpoint = us };
  application = count;
}

abbrev leader : Node Heap ℕ (Unit {0})
leader = node 1 two_values 2

abbrev follower : Node Heap ℕ (Unit {0})
follower = node 2 one_value 1

abbrev replica :
    (us : ℕ) (s : Server) (values : List Bytes) (count : ℕ)
    → find us servers ≡ some s
    → s.endpoint ≡ us
    → count ≡ replay processor 0 values 0
    → Replica heap-IsBackend processor 0 (node us values count) values
replica us s values count known named applied = record {
  log = record { base = 0; values = values };
  holds = record { is_log = record { rooted = λ e. refl }; entries = refl };
  keeps = record { within = omega arith; newest = refl };
  applied = applied;
  size = 1;
  sized = refl;
  some_size = omega arith;
  us = s;
  known = known;
  named = named;
}

two_applied : 2 ≡ replay processor 0 two_values 0
unfolding replay
two_applied = refl

one_applied : 1 ≡ replay processor 0 one_value 0
unfolding replay
one_applied = refl

abbrev leads : Replica heap-IsBackend processor 0 leader two_values
leads = replica 1 (server 1 11 (pos 2)) two_values 2 refl refl two_applied

abbrev follows : Replica heap-IsBackend processor 0 follower one_value
follows = replica 2 (server 2 12 (pos 1)) one_value 1 refl refl one_applied

-- The rest of the history, as the leader sends it.
abbrev sent : Command
sent = message leader (server 1 11 (pos 2)) two_values ((8 ∷ []) ∷ (9 ∷ []) ∷ []) 1

lowest : lowest_proposal_id servers ≡ pos 1
unfolding lowest_proposal_id lowest_from
lowest = refl

sent-IsFrom : IsFrom sent follower
sent-IsFrom = record {
  host = 1;
  uuid = 11;
  server = server 1 11 (pos 2);
  at_host = refl;
  with_uuid = refl;
  known_host = refl;
}

accept-Replica_example :
    (n : Node Heap ℕ (Unit {0})) × (response : Command) × (accept heap processor 5 sent follower
      ≡ ok (n, write 5 response ∷ []))
    × Replica heap-IsBackend processor 0 n ((7 ∷ []) ∷ (8 ∷ []) ∷ (9 ∷ []) ∷ [])
    × IsAccepted response
        (enumerate 2
          (answers processor 1 ((8 ∷ []) ∷ (9 ∷ []) ∷ []) (replay processor 0 one_value 0)))
        (pos 3)
        2
accept-Replica_example =
    accept-Replica heap-IsBackend processor 0 5 sent (8 ∷ []) ((9 ∷ []) ∷ []) 1 (λ i w s. refl)
      follows sent-IsFrom refl lowest

abbrev lags : Lags heap-IsBackend heap-IsBackend processor 0 leader follower two_values 2 1
lags = record {
  leader = leads;
  behind = follows;
  short = omega arith;
  available = omega arith;
  entry = server 2 12 (pos 1);
  listed = refl;
  up_to_date = refl;
  leader_entry = server 1 11 (pos 2);
  leader_listed = refl;
}

abbrev round : Round
round = record new_round { accepted = (2, response_ack) ∷ []; connections = (2, 22) ∷ [] }

abbrev request : Request
request = record { client_connection = 33; byte_array = 9 ∷ [] }

catch_up_example :
    (command : Command) × (n : Node Heap ℕ (Unit {0})) × (response : Command) × (send_accept heap
        request 2 22 leader round
      ≡ ok (write 22 command ∷ await_accepted 2 22 ∷ []))
    × (accept heap processor 5 command follower ≡ ok (n, write 5 response ∷ []))
    × Replica heap-IsBackend processor 0 n ((7 ∷ []) ∷ (8 ∷ []) ∷ (9 ∷ []) ∷ [])
    × (response.type_ ≡ type_request_accepted)
    × ((id : ℕ) × (response.host_id ≡ some id))
    × (response.host_endpoint ≡ some 2)
    × (get_last? response.proposed_workload
        ≡ some (pos 3, (processor (pos 3) (9 ∷ []) (replay processor 0 two_values 0)).0))
catch_up_example =
    catch_up heap-IsBackend heap-IsBackend processor 0 request leader follower round two_values 2 22
      5 1 1 (λ i w s. refl) lags lowest refl refl

-- The leader proposes the next id to a follower that has the same two values.
abbrev level_follower : Node Heap ℕ (Unit {0})
level_follower = node 2 two_values 2

abbrev prepare_command : Command
prepare_command = record new_command {
  type_ = type_request_prepare;
  host_id = some 11;
  host_endpoint = some 1;
  next_proposal_id = pos 3;
  highest_proposal_id = pos 2;
}

level_follows : Replica heap-IsBackend processor 0 level_follower two_values
level_follows = replica 2 (server 2 12 (pos 1)) two_values 2 refl refl two_applied

heard : process_remote_host_information prepare_command level_follower ≡ ok level_follower
unfolding process_remote_host_information lookup_server modify_server
heard = refl

abbrev id_of : ℕ → ℕ
id_of e = 10 + e

listed_id :
    (e : ℕ) (s : Server)
    → find e servers ≡ some s
    → (s.id ≡ id_of e) × (negsuc 0 ≤ℤ s.highest_proposal_id)
listed_id e s h = ground arith

electable : IsElectable servers
electable = record {
  unique = λ e f s t c d same.
      omega (arith, (listed_id e s c.listed).0, same, (listed_id f t d.listed).0);
  from_none = λ e s h. (listed_id e s h).1;
}

prepare-IsVerdict_example :
    (m : Node Heap ℕ (Unit {0})) × (response : Command) × (elected : Option ℕ) × (prepare heap 5
        prepare_command 7 level_follower
      ≡ ok (m, write 5 response ∷ []))
    × Replica heap-IsBackend processor 0 m two_values
    × Elects servers (live servers) elected
    × IsVerdict elected 1 (pos 3) (pos 2) response
prepare-IsVerdict_example =
    prepare-IsVerdict heap-IsBackend processor 0 5 7 1 prepare_command level_follower heard refl
      ((omega arith, tt), (tt, tt)) electable level_follows
