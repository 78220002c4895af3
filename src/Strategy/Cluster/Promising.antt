-- ===== src/Strategy/Cluster/Promising.antt =====
-- The followers of a round of strategy.cpp, and what the leader knows once all have promised.
use libpaxos_cpp.Base.{
  Ascending, Bytes, List, [], arith, find, find_here, find_later, inl, inr, length, pos, some, take,
  ℕ, ℕ_order, ℤ, ◌∷◌, ◌≡◌, ◌≤◌, ◌⊎◌,
}
use libpaxos_cpp.Storage.Log.{Log}
use libpaxos_cpp.Storage.Backend.{Backend, IsBackend}
use libpaxos_cpp.Quorum.Server.{Server}
use libpaxos_cpp.Quorum.View.{View, lowest_proposal_id}
use libpaxos_cpp.Quorum.View.Lowest.{IsAt, AllKnown, lowest_proposal_id-AllKnown}
use libpaxos_cpp.Strategy.Node.{Node}
use libpaxos_cpp.Strategy.Follower.CatchUp.{Replica}
use libpaxos_cpp.Strategy.Cluster.{Member, connections_of, AllLag}
use libpaxos_cpp.Strategy.Cluster.Hears.{lengths_of, lengths_of-Above, Hears}

-- Every server is listed once, so that what holds of those that are found holds of all.
all_known :
    (v : View)
    → Ascending v
    → ((e : ℕ) (s : Server) → find e v ≡ some s → (h : ℕ) × IsAt h s)
    → AllKnown v
all_known [] a h = tt
all_known ((e, s) ∷ v) (above, a) h =
    (h e s (find_here e s v), all_known v a (λ f t k. h f t (find_later f e s t v above k)))

lowest_of :
    (v : View) (e : ℕ) (s : Server)
    → find e v ≡ some s
    → AllKnown v
    → (lowest : ℕ) × (lowest_proposal_id v ≡ pos lowest)
lowest_of [] e s at a = cc
lowest_of ((f, t) ∷ v) e s at a =
    let (k, done, _, _) = lowest_proposal_id-AllKnown f t v a in (k, done)

-- Nobody is left to answer.
heard_all : {A : Type 0} (e : ℕ) → A ⊎ ((c : ℕ) × (find {V = ℕ} e [] ≡ some c)) → A
heard_all e (inl a) = a
heard_all e (inr (c, h)) = cc

module _ {T P E : Type 0} {c : Backend T} {Keeps : T → Log → Type 0}
    (their_laws : IsBackend c Keeps) (processor : ℤ → Bytes → P → Bytes × P) (start : P)
    (history : List Bytes) (leader oldest : ℕ) where
  -- A follower has exactly the first values, no fewer than the leader's storage has removed, lists
  -- the leader, and is listed under its own endpoint.
  pub record Behind (k : Member T P E) : Type 0 where
    pub behind : Replica their_laws processor start k.node (take k.has history)
    pub short : k.has ≤ length history
    pub recent : oldest ≤ k.has
    pub named : k.node.quorum.our_endpoint ≡ k.endpoint
    pub entry : Server
    pub listed : find leader k.node.quorum.servers ≡ some entry

  abbrev pub AllBehind : List (Member T P E) → Type 0
  AllBehind [] = Unit {0}
  AllBehind (k ∷ members) = Behind k × AllBehind members

module _ {S T P D E : Type 0} {b : Backend S} {c : Backend T} {Holds : S → Log → Type 0}
    {Keeps : T → Log → Type 0} (laws : IsBackend b Holds) (their_laws : IsBackend c Keeps)
    (processor : ℤ → Bytes → P → Bytes × P) (start : P) where
  module _ (history : List Bytes) (leader oldest : ℕ) (members : List (Member T P E))
      {n : Node S P D}
      (k : Hears {E = E} laws processor start history leader oldest members [] n) where
    pub Hears-lowest : (lowest : ℕ) × (lowest_proposal_id n.quorum.servers ≡ pos lowest)
    Hears-lowest =
        lowest_of n.quorum.servers n.quorum.our_endpoint k.replica.us k.replica.known
          (all_known n.quorum.servers k.ascending (λ e s at. heard_all e (k.known e s at)))

    lag_of :
        (ks : List (Member T P E))
        → Ascending (connections_of ks)
        → ((e h : ℕ) → find e (lengths_of ks) ≡ some h → find e (lengths_of members) ≡ some h)
        → AllBehind their_laws processor start history leader oldest ks
        → AllLag laws their_laws processor start n history ks
    lag_of [] a within behind = tt
    lag_of (m ∷ ks) (above, a) within (is, behind) =
        let (s, listed, which) =
          k.told m.endpoint m.has
            (within m.endpoint m.has (find_here m.endpoint m.has (lengths_of ks))) in
        (
          record {
            leader = k.replica;
            behind = is.behind;
            short = is.short;
            available = omega (arith, k.kept, is.recent);
            entry = s;
            listed = listed;
            up_to_date = heard_all m.endpoint which;
            leader_entry = is.entry;
            leader_listed = rw (k.replica.named, k.ours) is.listed;
          },
          is.named,
          lag_of ks a
              (λ e h at. within e h (
                find_later e m.endpoint m.has h (lengths_of ks)
                  (lengths_of-Above m.endpoint ks above) at))
              behind,
        )

    pub Hears-AllLag :
        Ascending (connections_of members)
        → AllBehind their_laws processor start history leader oldest members
        → AllLag laws their_laws processor start n history members
    Hears-AllLag a behind = lag_of members a (λ e h at. at) behind
