-- ===== src/Strategy/Verdict.antt =====
-- When a follower promises.
use libpaxos_cpp.Base.{
  ==_iff, Ascending, Bool-cases, Bytes, List, Option, [], ap, arith, false, inl, inr, length, ltb_ℤ,
  none, ok, pos, refl, some, true, ℕ, ℕ_order, ℤ, ℤ_order, ◌==◌, ◌∷◌, ◌≡◌, ◌≢◌, ◌⊎◌,
}
use libpaxos_cpp.Errors.{error_no_leader, error_incorrect_proposal}
use libpaxos_cpp.Command.{
  Command, set_next_proposal_id, set_highest_proposal_id, set_host_endpoint, set_host_id,
  type_request_promise, type_request_fail,
}
use libpaxos_cpp.Storage.Log.{Log}
use libpaxos_cpp.Storage.Backend.{Backend, IsBackend}
use libpaxos_cpp.Quorum.View.Live.{live, attempt_all}
use libpaxos_cpp.Quorum.ServerView.Sorting.{IsElectable}
use libpaxos_cpp.Quorum.ServerView.Election.{Elects}
use libpaxos_cpp.Quorum.ServerView.Leader.{who_is_our_leader-Elects}
use libpaxos_cpp.Strategy.Node.{Node, write, process_remote_host_information}
use libpaxos_cpp.Strategy.Follower.{judge, prepare}
use libpaxos_cpp.Strategy.Initiate.Attempts.{attempt_all-Replica}
use libpaxos_cpp.Strategy.Follower.CatchUp.{Replica, Replica-proposal_id}
use libpaxos_cpp.Strategy.Follower.Replication.{add_local-Replica}

-- The answer to a prepare with id `next` from `host`, where we elect `leader` and are at `ours`.
abbrev pub IsVerdict : Option ℕ → ℕ → ℤ → ℤ → Command → Type 0
IsVerdict leader host next ours response =
    ((leader ≡ some host) × (ltb_ℤ ours next ≡ true) × (response.type_ ≡ type_request_promise))
    ⊎ (((leader ≡ some host)
          × (ltb_ℤ ours next ≡ false)
          × (response.type_ ≡ type_request_fail)
          × (response.error_code ≡ error_incorrect_proposal))
        ⊎ ((leader ≢ some host)
            × (response.type_ ≡ type_request_fail)
            × (response.error_code ≡ error_no_leader)))

judge-IsVerdict :
    (leader : Option ℕ) (host : ℕ) (next ours : ℤ)
    → IsVerdict leader host next ours (judge leader host next ours)
unfolding judge
judge-IsVerdict none host next ours = inr (inr ((λ e. cc), refl, refl))
judge-IsVerdict (some leader) host next ours = elim (Bool-cases (leader == host)) [
  | inl same ↦
      let one : some leader ≡ some host = ap some ((==_iff leader host).0 same) in
      elim (Bool-cases (ltb_ℤ ours next)) [
        | inl ahead ↦ rw (same, ahead) (inl (one, refl, refl))
        | inr behind ↦ rw (same, behind) (inr (inl (one, refl, refl, refl)))
      ]
  | inr other ↦ rw other (inr (inr (differ other, refl, refl)))
]
  where
    differ : (leader == host) ≡ false → some leader ≢ some host
    differ other e = let same : leader ≡ host = cc in ground arith

module _ {S P D : Type 0} {b : Backend S} {Holds : S → Log → Type 0} (laws : IsBackend b Holds)
    (processor : ℤ → Bytes → P → Bytes × P) (start : P) where
  -- Over any storage that fulfils IsBackend, a follower that notes the host information of a
  -- prepare, which names its host, and then has stored and applied a history under a positive
  -- history size, lists itself, and has a view in order with one server for each uuid and no
  -- proposal id below -1, always answers: with a promise exactly if the host is the leader that it
  -- elects itself and proposes an id above its own, and otherwise with the reason why not.
  pub prepare-IsVerdict :
      (connection now host : ℕ) (c : Command) (n : Node S P D) {m : Node S P D}
      {history : List Bytes}
      → process_remote_host_information c n ≡ ok m
      → c.host_endpoint ≡ some host
      → Ascending m.quorum.servers
      → IsElectable m.quorum.servers
      → Replica laws processor start m history
      → (m' : Node S P D) × (response : Command) × (leader : Option ℕ) × (prepare b connection c now
            n
          ≡ ok (m', write connection response ∷ []))
        × Replica laws processor start m' history
        × Elects m.quorum.servers (live m.quorum.servers) leader
        × IsVerdict leader host c.next_proposal_id (pos (length history)) response
  unfolding prepare
  prepare-IsVerdict connection now host c n {m} {history} heard from a k r =
      let (leader, chosen, elects) = who_is_our_leader-Elects now m.quorum a k in
      let m' : Node S P D = record m {
        quorum = record m.quorum { servers = attempt_all now m.quorum.servers };
      } in
      let r' : Replica laws processor start m' history =
        attempt_all-Replica laws processor start now r in
      let ours : ℤ = pos (length history) in
      let verdict : Command =
        set_next_proposal_id ours (judge leader host c.next_proposal_id ours) in
      (
        m',
        set_highest_proposal_id ours
            (set_host_endpoint r'.us.endpoint (set_host_id r'.us.id verdict)),
        leader,
        rw (
          heard,
          chosen,
          from,
          Replica-proposal_id laws processor start r',
          add_local-Replica laws processor start verdict r',
        ),
        r',
        elects,
        judge-IsVerdict leader host c.next_proposal_id ours,
      )
