-- ===== src/Strategy/Follower/Prepared.antt =====
-- strategy.cpp: what every answer to a prepare carries.
use libpaxos_cpp.Base.{
  Bytes, List, Outcome, [], ap, bind_ok, length, ok, pos, some, sym, ℕ, ℕ_order, ℤ, ◌∙◌, ◌∷◌, ◌≡◌,
}
use libpaxos_cpp.Command.{
  Command, host_endpoint, set_highest_proposal_id, set_host_endpoint, set_host_id,
  set_next_proposal_id,
}
use libpaxos_cpp.Storage.Log.{Log}
use libpaxos_cpp.Storage.Backend.{Backend, IsBackend}
use libpaxos_cpp.Quorum.Server.{Server}
use libpaxos_cpp.Quorum.ServerView.{who_is_our_leader}
use libpaxos_cpp.Strategy.Node.{
  Node, Effect, write, proposal_id, add_local_host_information, process_remote_host_information,
}
use libpaxos_cpp.Strategy.Follower.{judge, prepare}
use libpaxos_cpp.Strategy.Follower.CatchUp.{Replica}
use libpaxos_cpp.Strategy.Follower.Replication.{add_local-Replica}

ok_inj : {x y : Command} → ok x ≡ ok y → x ≡ y
ok_inj h = cc

ended :
    {A : Type 0} (m n : A) (x y : Effect)
    → ◌≡◌ {A = Outcome (A × List Effect)} (ok (m, x ∷ [])) (ok (n, y ∷ []))
    → (m ≡ n) × (x ≡ y)
ended m n x y h = (cc, cc)

written : (k : ℕ) (x y : Command) → write k x ≡ write k y → x ≡ y
written k x y h = cc

-- What every answer carries.
abbrev signed : ℕ → Server → Command → Command
signed length us c =
    set_highest_proposal_id (pos length) (set_host_endpoint us.endpoint (set_host_id us.id c))

-- An answer that carries the endpoint of a server, an id, and the number of values it has.
pub record IsSigned (response : Command) (us length : ℕ) : Type 0 where
  pub from_us : response.host_endpoint ≡ some us
  pub uuid : ℕ
  pub with_uuid : response.host_id ≡ some uuid
  pub reached : response.highest_proposal_id ≡ pos length

module _ {T P E : Type 0} {c : Backend T} {Keeps : T → Log → Type 0}
    (their_laws : IsBackend c Keeps) (processor : ℤ → Bytes → P → Bytes × P) (start : P) where
  -- Whatever a follower answers to a prepare, if it then has stored and applied a history, the
  -- answer carries its endpoint, an id, and the number of its values.
  pub prepare-IsSigned :
      (connection now : ℕ) (asked response : Command) (before m : Node T P E) (history : List Bytes)
      → prepare c connection asked now before ≡ ok (m, write connection response ∷ [])
      → Replica their_laws processor start m history
      → IsSigned response m.quorum.our_endpoint (length history)
  unfolding prepare
  prepare-IsSigned connection now asked response before m history h r =
      let (n1, _, h) = bind_ok (process_remote_host_information asked before) _ _ h in
      let (p, _, h) = bind_ok (who_is_our_leader now n1.quorum) _ _ h in
      let (host, _, h) = bind_ok (host_endpoint asked) _ _ h in
      let n2 : Node T P E = record n1 { quorum = p.1 } in
      let (ours, _, h) = bind_ok (proposal_id c n2) _ _ h in
      let verdict : Command =
        set_next_proposal_id ours (judge p.0 host asked.next_proposal_id ours) in
      let (answer, told, h) = bind_ok (add_local_host_information c n2 verdict) _ _ h in
      let (same, one) = ended n2 m (write connection answer) (write connection response) h in
      let is : signed (length history) r.us verdict ≡ response =
        ok_inj (
          sym (add_local-Replica their_laws processor start verdict r)
          ∙ ap (λ k. add_local_host_information c k verdict) (sym same)
          ∙ told)
        ∙ written connection answer response one in
      record {
        from_us = ap (λ k. k.host_endpoint) (sym is) ∙ ap some r.named;
        uuid = r.us.id;
        with_uuid = ap (λ k. k.host_id) (sym is);
        reached = ap (λ k. k.highest_proposal_id) (sym is);
      }
