-- ===== src/Tests/Strategy/Quorum/Orders.antt =====
-- The answers of two followers, in one of their orders.
use libpaxos_cpp.Base.{
  Bytes, List, [], arith, inl, inr, none, ok, pos, refl, some, ℕ, ℕ_order, ◌∷◌, ◌≡◌, ◌⊎◌,
}
use libpaxos_cpp.Errors.{
  ErrorCode, error_incorrect_proposal, error_connection_close, error_inconsistent_response,
}
use libpaxos_cpp.Command.{
  Command, new_command, type_request_accepted, type_request_promise, type_request_fail,
  type_request_error,
}
use libpaxos_cpp.Storage.Heap.{Heap, heap}
use libpaxos_cpp.Storage.Heap
use libpaxos_cpp.Storage.Heap.Refines.{heap-IsBackend}
use libpaxos_cpp.Strategy.Node.{Node, write, proposal_id}
use libpaxos_cpp.Strategy.Leader.{Round, new_round}
use libpaxos_cpp.Strategy.Cluster.{connections_of}
use libpaxos_cpp.Strategy.Cluster.Agreement.{outcome, round_agrees}
use libpaxos_cpp.Strategy.Arrival.{Arrival, CanReply, AllAgree, Refused}
use libpaxos_cpp.Strategy.Arrival.Gathers.{AllReply}
use libpaxos_cpp.Strategy.Arrival.Replies.{replies, replies_any_order}
use libpaxos_cpp.Tests.Strategy.{two_values, server, leader, request, processor, leads, lowest}
use libpaxos_cpp.Tests.Strategy.Quorum.{
  members, all_lag, promised_round, promised, by_itself, by_other, listed_member, exchange,
  after_other, first_other, after-CanReply,
}

round_agrees_example :
    (n : Node Heap ℕ (Unit {0})) × (r : Round) × (response : Command) × (replies heap request
        (first_other ∷ after_other ∷ [])
        promised_round
        leader
      ≡ ok (n, r, write 33 response ∷ []))
    × (response.type_ ≡ type_request_accepted)
    × (response.workload ≡ outcome processor 0 two_values (9 ∷ []))
round_agrees_example =
    round_agrees heap-IsBackend heap-IsBackend processor 0 request leader promised_round two_values
      1 members (by_itself ∷ by_other ∷ []) first_other (after_other ∷ []) (λ i w s. refl)
      ((omega arith, tt), (tt, tt)) leads all_lag lowest promised exchange (refl, (refl, refl))
      (
        inr (inl (refl, refl, refl)),
        (λ n k. k),
        (inl (refl, refl, refl), (λ n k. after-CanReply), tt),
      )

leader-CanReply : CanReply heap (connections_of members) leader
unfolding proposal_id Heap.highest_proposal_id
leader-CanReply = record {
  us = server 1 11 (pos 2);
  listed_us = refl;
  highest = pos 2;
  stored = refl;
  listed =
      listed_member leader.quorum.servers (server 1 11 (pos 2)) (server 2 12 (pos 1)) refl refl;
}

-- The other has a higher proposal id.
abbrev refuses : Arrival Heap ℕ (Unit {0})
refuses = record {
  meanwhile = λ n. n;
  error = none;
  follower = 2;
  connection = 22;
  command = record new_command {
    type_ = type_request_fail;
    error_code = error_incorrect_proposal;
    host_id = some 12;
    host_endpoint = some 2;
  };
}

abbrev agrees : Arrival Heap ℕ (Unit {0})
agrees = record {
  meanwhile = λ n. n;
  error = none;
  follower = 1;
  connection = 21;
  command = record new_command {
    type_ = type_request_promise;
    host_id = some 11;
    host_endpoint = some 1;
  };
}

abbrev waiting : Round
waiting = record new_round { connections = connections_of members }

abbrev closed : Arrival Heap ℕ (Unit {0})
closed = record {
  meanwhile = λ n. n;
  error = some error_connection_close;
  follower = 2;
  connection = 22;
  command = new_command;
}

abbrev both : List (Arrival Heap ℕ (Unit {0}))
both = closed ∷ after_other ∷ []

replies_any_order_example :
    (before : Node Heap ℕ (Unit {0})) × (r0 : Round) × (n : Node Heap ℕ (Unit {0})) × (r : Round)
    × (response : Command) × (replies heap request (closed ∷ []) promised_round leader
        ≡ ok (before, r0, []))
    × (replies heap request both promised_round leader ≡ ok (n, r, write 33 response ∷ []))
    × ((AllAgree both
          × ((w : Bytes) × AllReply w both
              × (response.type_ ≡ type_request_accepted)
              × (response.workload ≡ w)))
        ⊎ (AllAgree both
            × ((w : Bytes) → ¬ AllReply w both)
            × (response.type_ ≡ type_request_error)
            × (response.error_code ≡ error_inconsistent_response))
        ⊎ (¬ AllAgree both
            × ((code : ErrorCode) × Refused code both
                × (response.type_ ≡ type_request_error)
                × (response.error_code ≡ code))))
replies_any_order_example =
    replies_any_order request closed (after_other ∷ []) promised_round leader
      ((omega arith, tt), (tt, tt)) promised (refl, (refl, refl))
      (
        refl,
        (λ n k. k),
        ((refl, (11, refl), inl (refl, (pos 3, 2, 9 ∷ [], refl))), (λ n k. after-CanReply), tt),
      )
      leader-CanReply
