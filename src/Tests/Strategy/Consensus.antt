-- ===== src/Tests/Strategy/Consensus.antt =====
-- A leader that knows nothing of its follower, which lags behind by one value.
use libpaxos_cpp.Base.{
  List, Option-cases, [], arith, find, inl, inr, negsuc, none, ok, pos, refl, some, ℕ, ℕ_order,
  ℤ_order, ◌+◌, ◌∷◌, ◌≡◌, ◌⊎◌,
}
use libpaxos_cpp.Command.{new_command, type_request_promise}
use libpaxos_cpp.Storage.Log.{enumerate}
use libpaxos_cpp.Storage.Heap.{Heap, heap}
use libpaxos_cpp.Storage.Heap
use libpaxos_cpp.Storage.Heap.Refines.{heap-IsBackend}
use libpaxos_cpp.Quorum.View.{View, lookup_server, modify_server, live_servers, visit, visit_all}
use libpaxos_cpp.Quorum.ServerView.{who_is_our_leader, elect, sort_live, first_with}
use libpaxos_cpp.Strategy.Node.{
  Node, proposal_id, add_local_host_information, process_remote_host_information,
}
use libpaxos_cpp.Strategy.Leader.{Round}
use libpaxos_cpp.Strategy.Callbacks.{initiate}
use libpaxos_cpp.Strategy.Follower.{judge, prepare}
use libpaxos_cpp.Strategy.Follower.CatchUp.{Replica}
use libpaxos_cpp.Strategy.Initiate.Links.{prepares}
use libpaxos_cpp.Strategy.Initiate.Prepares.{asks}
use libpaxos_cpp.Strategy.Arrival.{Arrival}
use libpaxos_cpp.Strategy.Cluster.{Member, connections_of}
use libpaxos_cpp.Strategy.Cluster.Hears.{Hears, lengths_of}
use libpaxos_cpp.Strategy.Cluster.Promising.{AllBehind}
use libpaxos_cpp.Strategy.Cluster.Phases.{AllPromise}
use libpaxos_cpp.Strategy.Cluster.Consensus.{Replicates, request-Replicates}
use libpaxos_cpp.Tests.Strategy.{
  two_values, server, follower, request, processor, follows, two_applied,
}
use libpaxos_cpp.Tests.Strategy.Initiation.{floats}

abbrev unsure : View
unsure = (1, server 1 11 (pos 2)) ∷ (2, server 2 12 (negsuc 0)) ∷ []

abbrev starting : Node Heap ℕ (Unit {0})
starting = record {
  storage = record { history_size = pos 1; state = enumerate 1 two_values };
  quorum = record { servers = unsure; majority_factor = tt; our_endpoint = 1 };
  application = 2;
}

abbrev starting-Replica : Replica heap-IsBackend processor 0 starting two_values
starting-Replica = record {
  log = record { base = 0; values = two_values };
  holds = record { is_log = record { rooted = λ e. refl }; entries = refl };
  keeps = record { within = omega arith; newest = refl };
  applied = two_applied;
  size = 1;
  sized = refl;
  some_size = omega arith;
  us = server 1 11 (pos 2);
  known = refl;
  named = refl;
}

abbrev voters : List (Member Heap ℕ (Unit {0}))
voters =
    record { endpoint = 1; connection = 1; back = 5; has = 2; node = starting }
    ∷ record { endpoint = 2; connection = 2; back = 6; has = 1; node = follower }
    ∷ []

one_of : (e h : ℕ) → find e (lengths_of voters) ≡ some h → (e ≡ 1) ⊎ (e ≡ 2)
one_of e h at = ground arith

abbrev starting-Hears :
    Hears heap-IsBackend processor 0 two_values 1 0 voters (connections_of voters) starting
starting-Hears = record {
  replica = starting-Replica;
  ours = refl;
  kept = omega arith;
  ascending = ((omega arith, tt), (tt, tt));
  known = λ e s at. elim (Option-cases (find e (connections_of voters))) [
    | inl stranger ↦ absurd (ground (arith, stranger, at))
    | inr owed ↦ inr owed
  ];
  told = λ e h at. elim (one_of e h at) [
    | inl one ↦ rw one (server 1 11 (pos 2), refl, inr (1, refl))
    | inr two ↦ rw two (server 2 12 (negsuc 0), refl, inr (2, refl))
  ];
}

voters-AllBehind : AllBehind heap-IsBackend processor 0 two_values 1 0 voters
voters-AllBehind = (
  record {
    behind = starting-Replica;
    short = omega arith;
    recent = omega arith;
    named = refl;
    entry = server 1 11 (pos 2);
    listed = refl;
  },
  (
    record {
      behind = follows;
      short = omega arith;
      recent = omega arith;
      named = refl;
      entry = server 1 11 (pos 2);
      listed = refl;
    },
    tt,
  ),
)

abbrev promise : ℕ → ℕ → Arrival Heap ℕ (Unit {0})
promise e has = record {
  meanwhile = λ n. n;
  error = none;
  follower = e;
  connection = e;
  command = record new_command {
    type_ = type_request_promise;
    next_proposal_id = pos has;
    host_id = some (10 + e);
    host_endpoint = some e;
    highest_proposal_id = pos has;
  };
}

promises_of :
    AllPromise heap-IsBackend heap-IsBackend processor 0 two_values 1 0 voters
      (asks 2 (server 1 11 (pos 2)))
      (promise 2 1 ∷ promise 1 2 ∷ [])
unfolding prepare judge process_remote_host_information lookup_server modify_server
    who_is_our_leader elect sort_live first_with live_servers visit visit_all proposal_id
    add_local_host_information Heap.highest_proposal_id
promises_of = (
  inr (inl (refl, refl, refl, (7, follower, refl))),
  (λ m n k. k),
  (inl (refl, refl, refl, (7, starting, refl)), (λ m n k. k), tt),
)

-- What they answer is looked up by the follower.
abbrev answer : ℕ → Arrival Heap ℕ (Unit {0})
answer e = record {
  meanwhile = λ n. n;
  error = none;
  follower = e;
  connection = e;
  command = new_command;
}

request-Replicates_example :
    (n : Node Heap ℕ (Unit {0})) × (r : Round) × (initiate heap floats request 7 starting
      ≡ ok (n, some r, prepares (asks 2 (server 1 11 (pos 2))) ((1, 1) ∷ (2, 2) ∷ [])))
    × Replicates heap-IsBackend heap-IsBackend processor 0 request two_values voters
        (promise 2 1 ∷ promise 1 2 ∷ [])
        (answer 1 ∷ answer 2 ∷ [])
        r
        n
request-Replicates_example =
    request-Replicates heap-IsBackend heap-IsBackend processor 0 floats request 7 starting
      two_values 1 0 voters (promise 2 1) (promise 1 2 ∷ []) (answer 1) (answer 2 ∷ [])
      (λ i w s. refl) refl refl (refl, (refl, tt)) refl starting-Hears voters-AllBehind
      (refl, (refl, refl)) promises_of (refl, (refl, refl)) ((λ n k. k), ((λ n k. k), tt))
