-- ===== src/Tests/Strategy/Leaders.antt =====
-- Two servers with the same values promise the same host.
use libpaxos_cpp.Base.{[], arith, ok, pos, refl, some, ℕ, ℕ_order, ℤ_order, ◌+◌, ◌∷◌, ◌≡◌}
use libpaxos_cpp.Command.{Command, new_command, type_request_promise}
use libpaxos_cpp.Storage.Heap.{Heap, heap}
use libpaxos_cpp.Storage.Heap
use libpaxos_cpp.Storage.Heap.Refines.{heap-IsBackend}
use libpaxos_cpp.Quorum.View.{lookup_server, modify_server, live_servers, visit, visit_all}
use libpaxos_cpp.Quorum.ServerView.{who_is_our_leader, elect, sort_live, first_with}
use libpaxos_cpp.Strategy.Node.{
  write, proposal_id, add_local_host_information, process_remote_host_information,
}
use libpaxos_cpp.Strategy.Follower.{judge, prepare}
use libpaxos_cpp.Strategy.OneLeader.{Asked, Sees, promises_one_leader}
use libpaxos_cpp.Tests.Strategy.{
  two_values, servers, leader, level_follower, level_follows, prepare_command, processor, leads,
  heard, electable,
}

-- What a server with both values promises.
abbrev promised_by : ℕ → Command
promised_by e = record new_command {
  type_ = type_request_promise;
  next_proposal_id = pos 2;
  host_id = some (10 + e);
  host_endpoint = some e;
  highest_proposal_id = pos 2;
}

heard_itself : process_remote_host_information prepare_command leader ≡ ok leader
unfolding process_remote_host_information lookup_server modify_server
heard_itself = refl

itself-Asked : Asked heap-IsBackend processor 0 leader leader prepare_command 1
itself-Asked = record {
  heard = heard_itself;
  from = refl;
  ascending = ((omega arith, tt), (tt, tt));
  electable = electable;
  history = two_values;
  replica = leads;
}

level-Asked : Asked heap-IsBackend processor 0 level_follower level_follower prepare_command 1
level-Asked = record {
  heard = heard;
  from = refl;
  ascending = ((omega arith, tt), (tt, tt));
  electable = electable;
  history = two_values;
  replica = level_follows;
}

same-Sees : Sees servers servers
same-Sees e s at c = (s, at, c, refl, refl)

promise_itself : prepare heap 5 prepare_command 7 leader ≡ ok (leader, write 5 (promised_by 1) ∷ [])
unfolding prepare judge process_remote_host_information lookup_server modify_server
    who_is_our_leader elect sort_live first_with live_servers visit visit_all proposal_id
    add_local_host_information Heap.highest_proposal_id
promise_itself = refl

promise_level :
    prepare heap 6 prepare_command 7 level_follower
    ≡ ok (level_follower, write 6 (promised_by 2) ∷ [])
unfolding prepare judge process_remote_host_information lookup_server modify_server
    who_is_our_leader elect sort_live first_with live_servers visit visit_all proposal_id
    add_local_host_information Heap.highest_proposal_id
promise_level = refl

promises_one_leader_example : prepare_command.host_endpoint ≡ prepare_command.host_endpoint
promises_one_leader_example =
    promises_one_leader heap-IsBackend heap-IsBackend processor 0 5 7 1 6 7 1 prepare_command
      prepare_command (promised_by 1) (promised_by 2) leader leader leader level_follower
      level_follower level_follower itself-Asked level-Asked same-Sees same-Sees promise_itself
      promise_level refl refl
