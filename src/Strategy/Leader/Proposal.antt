-- ===== src/Strategy/Leader/Proposal.antt =====
-- What the leader proposes to a follower is exactly what the follower lacks.
use libpaxos_cpp.Base.{
  Bytes, List, [], ap, arith, contains, drop, false, get_last?, is_some, length, length-drop, ok,
  pos, refl, suc, true, ℕ, ℕ_order, ℤ, ℤ_order, ◌++◌, ◌+◌, ◌∙◌, ◌∷◌, ◌≡◌, ◌≤◌,
}
use libpaxos_cpp.Command.{Command, add_proposed_workload}
use libpaxos_cpp.Storage.Log.{
  Log, enumerate, insert-enumerate, find-enumerate_above, get_last?-enumerate,
}
use libpaxos_cpp.Storage.Backend.{Backend, IsBackend}
use libpaxos_cpp.Storage.Keeps.{above-Keeps}
use libpaxos_cpp.Strategy.Node.{Node}
use libpaxos_cpp.Strategy.Leader.{proposal, reaches}
use libpaxos_cpp.Strategy.Follower.CatchUp.{Replica, Replica-proposal_id}

reaches-enumerate :
    (p top : ℕ) (vs : List Bytes)
    → p + length vs ≡ top
    → reaches (pos top) (get_last? (enumerate (suc p) vs)) ≡ true
reaches-enumerate p top [] e = refl
reaches-enumerate p top (v ∷ vs) e =
    let (w, last) = get_last?-enumerate (suc p) v vs in rw last (ground arith)

module _ {S P D : Type 0} {b : Backend S} {Holds : S → Log → Type 0} (laws : IsBackend b Holds)
    (processor : ℤ → Bytes → P → Bytes × P) (start : P) where
  -- To a follower that has the first p values of the leader's history, none of the others removed
  -- at the leader, the leader proposes all the others and then the new value, with consecutive
  -- ids.
  pub proposal-Replica :
      (v : Bytes) (p : ℕ) (c : Command) {n : Node S P D} {history : List Bytes}
      → (r : Replica laws processor start n history) → r.log.base ≤ p
      → p ≤ length history
      → proposal b n v (pos p) c
        ≡ ok (record c { proposed_workload = enumerate (suc p) (drop p history ++ v ∷ []) })
  unfolding proposal add_proposed_workload
  proposal-Replica v p c {n} {history} r low high =
      let missing : List Bytes = drop p history in
      let top : suc p + length missing ≡ suc (length history) =
        omega (arith, length-drop p history) in
      let sent : b.retrieve n.storage.state (pos p) ≡ ok (enumerate (suc p) missing) =
        laws.retrieve-Holds p r.holds low
        ∙ ap (λ vs. ok (enumerate (suc p) vs)) (above-Keeps p r.keeps low) in
      let fresh : contains (pos (suc (length history))) (enumerate (suc p) missing) ≡ false =
        ap is_some (find-enumerate_above (suc p) missing (suc (length history)) (omega arith)) in
      rw (
        sent,
        Replica-proposal_id laws processor start r,
        reaches-enumerate p (length history) missing (omega arith),
        fresh,
        insert-enumerate (suc p) missing (suc (length history)) v (omega arith),
      )
