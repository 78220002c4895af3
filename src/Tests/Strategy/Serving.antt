-- ===== src/Tests/Strategy/Serving.antt =====
-- A server gets two requests, and ends the round of the first.
use libpaxos_cpp.Base.{List, [], arith, inl, none, refl, ℕ, ◌∷◌}
use libpaxos_cpp.Command.{new_command}
use libpaxos_cpp.Queue.{new_queue}
use libpaxos_cpp.Storage.Heap.{Heap}
use libpaxos_cpp.Storage.Heap.Refines.{heap-IsBackend}
use libpaxos_cpp.Strategy.Initiate.Attempts.{tried}
use libpaxos_cpp.Server.Dispatch.{Pending, Server}
use libpaxos_cpp.Server.Dispatch.Rounds.{CanLead, tried-CanLead}
use libpaxos_cpp.Server.Dispatch.Serves.{
  Event, arrives, finishes, meanwhile, run, Serves, run-Serves,
}
use libpaxos_cpp.Tests.Strategy.{two_values, leader, processor, leads}
use libpaxos_cpp.Tests.Strategy.Initiation.{floats}

abbrev idle : Server Heap ℕ (Unit {0})
idle = record { node = leader; request_queue = new_queue; round = none }

abbrev pending : ℕ → Pending
pending c = record { connection = c; command = record new_command { workload = c ∷ [] } }

abbrev events : List (Event Heap ℕ (Unit {0}))
events = arrives 5 (pending 31) ∷ meanwhile (tried 6) ∷ arrives 6 (pending 32) ∷ finishes 7 ∷ []

leader-CanLead : CanLead heap-IsBackend processor 0 floats leader
leader-CanLead = record {
  history = two_values;
  replica = leads;
  ascending = ((omega arith, tt), (tt, tt));
  named = (refl, (refl, tt));
}

run-Serves_example :
    Serves heap-IsBackend processor 0 floats (run heap-IsBackend processor 0 floats events idle) 2
run-Serves_example =
    run-Serves heap-IsBackend processor 0 floats events idle
      (tried-CanLead heap-IsBackend processor 0 floats 6, tt) leader-CanLead (inl (refl, refl))
