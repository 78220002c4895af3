-- ===== src/Strategy/Initiate/Prepares.antt =====
-- `prepare_all` of a leader that has a history.
use libpaxos_cpp.Base.{
  Ascending, Bytes, List, Option-cases, [], ap, find, find_here, find_later, found-Above, inl, inr,
  length, ok, pos, refl, some, suc, sym, ℕ, ℕ_order, ℤ, ◌++◌, ◌∷◌, ◌≡◌,
}
use mathlib.Core.List.{append-nil, append_assoc}
use libpaxos_cpp.Command.{
  Command, new_command, set_type, set_next_proposal_id, set_host_id, set_host_endpoint,
  set_highest_proposal_id, type_request_prepare,
}
use libpaxos_cpp.Storage.Log.{Log}
use libpaxos_cpp.Storage.Backend.{Backend, IsBackend}
use libpaxos_cpp.Quorum.Server.{Server}
use libpaxos_cpp.Quorum.View.{View}
use libpaxos_cpp.Quorum.View.Laws.{lookup_known}
use libpaxos_cpp.Quorum.View.Live.{live}
use libpaxos_cpp.Strategy.Initiate.Links.{
  links, AllNamed, prepares, Below, insert-Below, find-Below, Below-snoc,
}
use libpaxos_cpp.Strategy.Node.{Node, write, await_promise}
use libpaxos_cpp.Strategy.Leader.{Round, send_prepare, prepare_all}
use libpaxos_cpp.Strategy.Follower.CatchUp.{Replica, Replica-proposal_id}
use libpaxos_cpp.Strategy.Follower.Replication.{add_local-Replica}

-- The prepare of a leader with this entry for itself, that has so many values.
abbrev pub asks : ℕ → Server → Command
asks length us = set_highest_proposal_id (pos length) (
    set_host_endpoint us.endpoint (
      set_host_id us.id
        (set_next_proposal_id (pos (suc length)) (set_type type_request_prepare new_command))))

module _ {S P D : Type 0} {b : Backend S} {Holds : S → Log → Type 0} (laws : IsBackend b Holds)
    (processor : ℤ → Bytes → P → Bytes × P) (start : P) where
  -- The prepare of a leader that has a history.
  abbrev pub prepare_message :
      {n : Node S P D} {history : List Bytes} → Replica laws processor start n history → Command
  prepare_message {history = history} k = asks (length history) k.us

  send_prepare_lem :
      (e c : ℕ) (r : Round) {n : Node S P D} {history : List Bytes}
      (k : Replica laws processor start n history)
      → Below e r.connections
      → send_prepare b e c n r
        ≡ ok (
          record r { connections = r.connections ++ (e, c) ∷ [] },
          write c (prepare_message k) ∷ await_promise e c ∷ [],
        )
  unfolding send_prepare
  send_prepare_lem e c r {n} {history} k below =
      rw
        (
          find-Below e r.connections below,
          Replica-proposal_id laws processor start k,
          add_local-Replica laws processor start
              (set_next_proposal_id (pos (suc (length history)))
                (set_type type_request_prepare new_command))
              k,
          insert-Below e c r.connections below,
        )
        refl

  pub prepare_all_lem :
      (w : View) (r : Round) {n : Node S P D} {history : List Bytes}
      (k : Replica laws processor start n history)
      → Ascending w
      → AllNamed w
      → ((e : ℕ) (s : Server)
          → find e w ≡ some s
          → (find e n.quorum.servers ≡ some s) × Below e r.connections)
      → prepare_all b (live w) n r
        ≡ ok (
          record r { connections = r.connections ++ links w },
          prepares (prepare_message k) (links w),
        )
  unfolding prepare_all
  prepare_all_lem [] r k a named at =
      ap (λ m. ok (record r { connections = m }, [])) (sym (append-nil r.connections))
  prepare_all_lem ((e, s) ∷ w) r {n} k (above, a) (name, named) at =
      elim (Option-cases s.connection) [
        | inl off ↦
            rw off (prepare_all_lem w r k a named (λ j t h. at j t (find_later j e s t w above h)))
        | inr (c, on) ↦
            let (listed, below) = at e s (find_here e s w) in
            let r1 : Round = record r { connections = r.connections ++ (e, c) ∷ [] } in
            let rest = prepare_all_lem w r1 k a named (λ j t h. (
              (at j t (find_later j e s t w above h)).0,
              Below-snoc j e c r.connections (found-Above e j t w above h) below,
            )) in
            rw
              (
                on,
                lookup_known e n.quorum.servers s listed,
                on,
                name,
                send_prepare_lem e c r k below,
                rest,
              )
              (ap
                (λ m.
                  ok
                    (record r { connections = m }, prepares (prepare_message k) ((e, c) ∷ links w)))
                (append_assoc r.connections ((e, c) ∷ []) (links w)))
      ]
