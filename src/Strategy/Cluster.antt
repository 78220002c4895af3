-- ===== src/Strategy/Cluster.antt =====
-- The second phase of strategy.cpp over all the followers of a round.
pub mod Agreement
pub mod Hears
pub mod Promising
pub mod Phases
pub mod Deliveries
pub mod Consensus
use libpaxos_cpp.Base.{
  Ascending, Bytes, List, Map, [], ap, false, find, find_here, find_later, is_empty, ok, pos, refl,
  some, ℕ, ℕ_order, ℤ, ◌++◌, ◌∙◌, ◌∷◌, ◌≡◌,
}
use libpaxos_cpp.Command.{Command}
use libpaxos_cpp.Storage.Log.{Log}
use libpaxos_cpp.Storage.Backend.{Backend, IsBackend}
use libpaxos_cpp.Quorum.View.{lowest_proposal_id}
use libpaxos_cpp.Strategy.Node.{Node, Effect, write, await_accepted}
use libpaxos_cpp.Strategy.Leader.{Request, Round, response_ack, send_accept, send_accept_all}
use libpaxos_cpp.Strategy.Follower.{accept}
use libpaxos_cpp.Strategy.Follower.CatchUp.{Replica}
use libpaxos_cpp.Strategy.CatchUp.{Lags, catch_up}
use libpaxos_cpp.Strategy.Arrival.Waiting.{Promised}

-- A follower of the round, that has the first `has` values, with the connections of both sides.
pub record Member (T P E : Type 0) : Type 0 where
  pub endpoint : ℕ
  pub connection : ℕ
  pub back : ℕ
  pub has : ℕ
  pub node : Node T P E

-- What it is sent, what it answers, and what becomes of it.
pub record Delivery (T P E : Type 0) : Type 0 where
  pub sent : Command
  pub response : Command
  pub after : Node T P E

module _ {T P E : Type 0} where
  abbrev pub connections_of : List (Member T P E) → Map ℕ ℕ
  connections_of [] = []
  connections_of (k ∷ members) = (k.endpoint, k.connection) ∷ connections_of members

  -- The messages of the leader.
  abbrev pub accepts : List (Member T P E) → List (Delivery T P E) → List Effect
  accepts (k ∷ members) (d ∷ deliveries) =
      write k.connection d.sent
      ∷ await_accepted k.endpoint k.connection
      ∷ accepts members deliveries
  accepts _ _ = []

module _ {T P E : Type 0} {c : Backend T} {Keeps : T → Log → Type 0} (laws : IsBackend c Keeps)
    (processor : ℤ → Bytes → P → Bytes × P) (start : P) where
  abbrev pub AllReplica : List Bytes → List (Delivery T P E) → Type 0
  AllReplica history [] = Unit {0}
  AllReplica history (d ∷ deliveries) =
      Replica laws processor start d.after history × AllReplica history deliveries

module _ {S T P D E : Type 0} {b : Backend S} {c : Backend T} {Holds : S → Log → Type 0}
    {Keeps : T → Log → Type 0} (laws : IsBackend b Holds) (their_laws : IsBackend c Keeps)
    (processor : ℤ → Bytes → P → Bytes × P) (start : P) where
  abbrev pub AllLag : Node S P D → List Bytes → List (Member T P E) → Type 0
  AllLag n history [] = Unit {0}
  AllLag n history (k ∷ members) =
      Lags laws their_laws processor start n k.node history k.endpoint k.has
      × (k.node.quorum.our_endpoint ≡ k.endpoint)
      × AllLag n history members

  -- Every follower is sent its accept, and handles it.
  abbrev pub Exchange :
      Request → Node S P D → Round → List (Member T P E) → List (Delivery T P E) → Type 0
  Exchange q n r [] [] = Unit {0}
  Exchange q n r (k ∷ members) (d ∷ deliveries) =
      (send_accept b q k.endpoint k.connection n r
        ≡ ok (write k.connection d.sent ∷ await_accepted k.endpoint k.connection ∷ []))
      × (accept c processor k.back d.sent k.node ≡ ok (d.after, write k.back d.response ∷ []))
      × Exchange q n r members deliveries
  Exchange q n r _ _ = ⊥

  all_caught_up :
      (q : Request) (n : Node S P D) (r : Round) (history : List Bytes) (lowest : ℕ)
      (members : List (Member T P E))
      → ((i : ℤ) (w : Bytes) (s : P) → is_empty (processor i w s).0 ≡ false)
      → Ascending (connections_of members)
      → AllLag n history members
      → lowest_proposal_id n.quorum.servers ≡ pos lowest
      → ((e c : ℕ)
          → find e (connections_of members) ≡ some c
          → (find e r.connections ≡ some c) × (find e r.accepted ≡ some response_ack))
      → (deliveries : List (Delivery T P E)) × (send_accept_all b q (connections_of members) n r
          ≡ ok (accepts members deliveries))
        × Exchange q n r members deliveries
        × AllReplica their_laws processor start (history ++ q.byte_array ∷ []) deliveries
  unfolding send_accept_all
  all_caught_up q n r history lowest [] total ascending lag low all = ([], refl, tt, tt)
  all_caught_up q n r history lowest (k ∷ members) total (above, ascending) (lags, named, lag) low
        all =
      let (conn, ack) =
        all k.endpoint k.connection (find_here k.endpoint k.connection (connections_of members)) in
      let (sent, m', response, sends, done, replica, _, _, _, _) =
        catch_up laws their_laws processor start q n k.node r history k.endpoint k.connection k.back
          k.has lowest total lags low conn ack in
      let (deliveries, more, exchange, replicas) =
        all_caught_up q n r history lowest members total ascending lag low (λ e c h.
          all e c (find_later e k.endpoint k.connection c (connections_of members) above h)) in
      (
        record { sent = sent; response = response; after = m' } ∷ deliveries,
        rw (sends, more) refl,
        (sends, done, exchange),
        (replica, replicas),
      )

  -- Given that the callback never answers with nothing, every follower of the round has promised,
  -- the leader has stored and applied a history, each follower, listed under its own endpoint,
  -- exactly its first values, as the leader knows, the leader's storage has lost none of the
  -- others, and the lowest id is not negative: the leader sends each follower one accept and waits
  -- for its answer, each follower handles it, and all end with the history and the new value
  -- stored and applied.
  pub round_catches_up :
      (q : Request) (n : Node S P D) (r : Round) (history : List Bytes) (lowest : ℕ)
      (members : List (Member T P E))
      → ((i : ℤ) (w : Bytes) (s : P) → is_empty (processor i w s).0 ≡ false)
      → Ascending (connections_of members)
      → Promised (connections_of members) r
      → AllLag n history members
      → lowest_proposal_id n.quorum.servers ≡ pos lowest
      → (deliveries : List (Delivery T P E)) × (send_accept_all b q (connections_of members) n r
          ≡ ok (accepts members deliveries))
        × Exchange q n r members deliveries
        × AllReplica their_laws processor start (history ++ q.byte_array ∷ []) deliveries
  round_catches_up q n r history lowest members total ascending p lag low =
      all_caught_up q n r history lowest members total ascending lag low
        (λ e c h. (ap (find e) p.same ∙ h, p.each e c h))
