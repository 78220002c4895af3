-- ===== src/Tests/Strategy/Initiation.antt =====
-- The leader starts a round with itself and one follower.
use libpaxos_cpp.Base.{
  Ascending, [], arith, false, none, ok, pos, refl, some, true, ℕ, ℕ_order, ◌∷◌, ◌≡◌, ◌≢◌, ◌⊎◌,
}
use libpaxos_cpp.Errors.{error_no_leader, error_no_majority}
use libpaxos_cpp.Command.{Command, type_request_prepare, type_request_error}
use libpaxos_cpp.Storage.Heap.{Heap, heap}
use libpaxos_cpp.Storage.Heap.Refines.{heap-IsBackend}
use libpaxos_cpp.Quorum.View.Live.{live}
use libpaxos_cpp.Quorum.ServerView.{Floats}
use libpaxos_cpp.Strategy.Node.{Node, write}
use libpaxos_cpp.Strategy.Leader.{new_round}
use libpaxos_cpp.Strategy.Callbacks.{initiate}
use libpaxos_cpp.Strategy.Follower.CatchUp.{Replica}
use libpaxos_cpp.Strategy.Initiate.Links.{AllNamed, links, prepares}
use libpaxos_cpp.Strategy.Initiate.{majority, initiate_lem}
use libpaxos_cpp.Tests.Strategy.{two_values, servers, leader, request, processor, leads}

-- Every factor is small enough.
abbrev pub floats : Floats
floats = record {
  Double = Unit {0};
  of_size = λ n. tt;
  times = λ a b. tt;
  at_least = λ a b. true;
  half = tt;
}

initiate_lem_example :
    (n : Node Heap ℕ (Unit {0})) × Replica heap-IsBackend processor 0 n two_values
    × Ascending n.quorum.servers
    × AllNamed n.quorum.servers
    × (((majority floats servers tt ≡ false)
          × ((response : Command) × (initiate heap floats request 7 leader
                ≡ ok (n, none, write 33 response ∷ []))
              × (response.type_ ≡ type_request_error)
              × (response.error_code ≡ error_no_majority)))
        ⊎ ((majority floats servers tt ≡ true)
            × (live servers ≡ [])
            × ((response : Command) × (initiate heap floats request 7 leader
                  ≡ ok (n, none, write 33 response ∷ []))
                × (response.type_ ≡ type_request_error)
                × (response.error_code ≡ error_no_leader)))
        ⊎ ((majority floats servers tt ≡ true)
            × (live servers ≢ [])
            × ((c : Command) × (initiate heap floats request 7 leader
                  ≡ ok (
                    n,
                    some (record new_round { connections = links servers }),
                    prepares c (links servers),
                  ))
                × (c.type_ ≡ type_request_prepare)
                × (c.next_proposal_id ≡ pos 3))))
initiate_lem_example =
    initiate_lem heap-IsBackend processor 0 floats request 7 leader two_values
      ((omega arith, tt), (tt, tt)) (refl, (refl, tt)) leads
