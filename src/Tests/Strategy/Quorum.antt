-- ===== src/Tests/Strategy/Quorum.antt =====
-- Y
-- A round over two servers: the leader with two values, itself among the followers, and a follower that has one.
mod Orders
use libpaxos_cpp.Base.{
  Bytes, List, Map, [], arith, find, inl, inr, none, pos, refl, some, ℕ, ℕ_order, ℤ, ℤ_order, ◌+◌,
  ◌∷◌, ◌≡◌, ◌⊎◌,
}
use libpaxos_cpp.Command.{Command, new_command, type_request_accepted}
use libpaxos_cpp.Storage.Log.{enumerate, highest}
use libpaxos_cpp.Storage.Heap.{Heap as Entries, heap}
use libpaxos_cpp.Storage.Heap.Refines.{heap-IsBackend}
use libpaxos_cpp.Quorum.View.{lookup_server, modify_server, View, lowest_proposal_id, lowest_from}
use libpaxos_cpp.Strategy.Node.{
  Node, proposal_id, add_local_host_information, process_remote_host_information,
}
use libpaxos_cpp.Strategy.Leader.{Round, new_round, response_ack, send_accept, proposal}
use libpaxos_cpp.Strategy.Follower.{accept, accept_one, accept_all}
use libpaxos_cpp.Strategy.CatchUp.{Lags, message}
use libpaxos_cpp.Command.{add_proposed_workload}
use libpaxos_cpp.Storage.Backend.{clean_up}
use libpaxos_cpp.Storage.Backend
use libpaxos_cpp.Storage.Heap.{retrieve}
use libpaxos_cpp.Storage.Heap
use libpaxos_cpp.Strategy.Cluster.{Member, Delivery, connections_of, AllLag, Exchange}
use libpaxos_cpp.Quorum.Server.{Server}
use libpaxos_cpp.Strategy.Arrival.{Arrival, CanReply}
use libpaxos_cpp.Strategy.Arrival.Waiting.{Promised}
use libpaxos_cpp.Tests.Strategy.{
  two_values, server, servers, node, leader, follower, request, processor, leads, lags,
}

abbrev itself : Member Entries ℕ (Unit {0})
itself = record { endpoint = 1; connection = 21; back = 5; has = 2; node = leader }

abbrev other : Member Entries ℕ (Unit {0})
other = record { endpoint = 2; connection = 22; back = 6; has = 1; node = follower }

abbrev members : List (Member Entries ℕ (Unit {0}))
members = itself ∷ other ∷ []

lags_itself : Lags heap-IsBackend heap-IsBackend processor 0 leader leader two_values 1 2
lags_itself = record {
  leader = leads;
  behind = leads;
  short = omega arith;
  available = omega arith;
  entry = server 1 11 (pos 2);
  listed = refl;
  up_to_date = refl;
  leader_entry = server 1 11 (pos 2);
  leader_listed = refl;
}

all_lag : AllLag heap-IsBackend heap-IsBackend processor 0 leader two_values members
all_lag = (lags_itself, refl, (lags, refl, tt))

abbrev promised_round : Round
promised_round = record new_round {
  connections = connections_of members;
  accepted = (1, response_ack) ∷ (2, response_ack) ∷ [];
}

promised : Promised (connections_of members) promised_round
promised = record {
  same = refl;
  acks = (refl, (refl, tt));
  clean = refl;
  silent = refl;
  each = λ e c h. ground arith;
}

-- The history that each lacks, and the value.
abbrev sent_to : ℕ → List Bytes → Command
sent_to p vs = message leader (server 1 11 (pos 2)) two_values vs p

-- What the callback says, with the number of values before.
abbrev answer_of : ℕ → Map ℤ Bytes → Command
answer_of e said = record new_command {
  type_ = type_request_accepted;
  host_id = some (10 + e);
  host_endpoint = some e;
  highest_proposal_id = pos 3;
  proposed_workload = said;
}

abbrev three_values : View → ℕ → Node Entries ℕ (Unit {0})
three_values servers us = record {
  storage = record { history_size = pos 1; state = enumerate 2 ((8 ∷ []) ∷ (9 ∷ []) ∷ []) };
  quorum = record { servers = servers; majority_factor = tt; our_endpoint = us };
  application = 3;
}

abbrev by_itself : Delivery Entries ℕ (Unit {0})
by_itself = record {
  sent = sent_to 2 ((9 ∷ []) ∷ []);
  response = answer_of 1 ((pos 3, 2 ∷ 9 ∷ []) ∷ []);
  after = three_values ((1, server 1 11 (pos 3)) ∷ (2, server 2 12 (pos 1)) ∷ []) 1;
}

abbrev by_other : Delivery Entries ℕ (Unit {0})
by_other = record {
  sent = sent_to 1 ((8 ∷ []) ∷ (9 ∷ []) ∷ []);
  response = answer_of 2 ((pos 2, 1 ∷ 8 ∷ []) ∷ (pos 3, 2 ∷ 9 ∷ []) ∷ []);
  after = three_values ((1, server 1 11 (pos 2)) ∷ (2, server 2 12 (pos 3)) ∷ []) 2;
}

listed_member :
    (v : View) (s t : Server)
    → find 1 v ≡ some s
    → find 2 v ≡ some t
    → (e c : ℕ) → find e (connections_of members) ≡ some c
    → (s : Server) × (find e v ≡ some s)
listed_member v s t at_one at_two e c h = elim (find_either e h) [
  | inl one ↦ (s, rw one at_one)
  | inr two ↦ (t, rw two at_two)
]
  where
    find_either : (e : ℕ) → find e (connections_of members) ≡ some c → (e ≡ 1) ⊎ (e ≡ 2)
    find_either e h = ground arith

exchange :
    Exchange heap-IsBackend heap-IsBackend processor 0 request leader promised_round members
      (by_itself ∷ by_other ∷ [])
unfolding send_accept accept accept_one accept_all proposal proposal_id add_local_host_information
    process_remote_host_information lookup_server modify_server lowest_proposal_id lowest_from
    add_proposed_workload Backend.accept clean_up retrieve Heap.highest_proposal_id Heap.store
    Heap.remove Heap.lowest_proposal_id Heap.erase_up_to
exchange = (refl, refl, (refl, refl, tt))

-- The other answers first; then the leader has handled its own accept, and answers itself.
abbrev after_other : Arrival Entries ℕ (Unit {0})
after_other = record {
  meanwhile = λ n. by_itself.after;
  error = none;
  follower = 1;
  connection = 21;
  command = by_itself.response;
}

abbrev first_other : Arrival Entries ℕ (Unit {0})
first_other = record {
  meanwhile = λ n. n;
  error = none;
  follower = 2;
  connection = 22;
  command = by_other.response;
}

after-CanReply : CanReply heap (connections_of members) by_itself.after
unfolding proposal_id Heap.highest_proposal_id
after-CanReply = record {
  us = server 1 11 (pos 3);
  listed_us = refl;
  highest = pos 3;
  stored = refl;
  listed =
      listed_member by_itself.after.quorum.servers (server 1 11 (pos 3)) (server 2 12 (pos 1)) refl
        refl;
}
