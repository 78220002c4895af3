-- ===== src/Strategy/Cluster/Consensus.antt =====
-- A whole round of strategy.cpp among servers that promise: both phases, and the client's answer.
use libpaxos_cpp.Base.{
  Ascending, Bytes, List, [], ap, false, is_empty, length, none, ok, refl, some, subst, sym, true,
  ℕ, ℕ_order, ℤ, ◌++◌, ◌∙◌, ◌∷◌, ◌≡◌,
}
use libpaxos_cpp.Command.{Command, type_request_accepted}
use libpaxos_cpp.Storage.Log.{Log}
use libpaxos_cpp.Storage.Backend.{Backend, IsBackend}
use libpaxos_cpp.Strategy.Node.{Node, write}
use libpaxos_cpp.Strategy.Leader.{Request, Round, new_round}
use libpaxos_cpp.Quorum.View.Live.{live}
use libpaxos_cpp.Quorum.ServerView.{Floats}
use libpaxos_cpp.Strategy.Callbacks.{initiate}
use libpaxos_cpp.Strategy.Initiate.{majority, initiate_sends}
use libpaxos_cpp.Strategy.Initiate.Links.{links, AllNamed, prepares, links-Ascending}
use libpaxos_cpp.Strategy.Initiate.Prepares.{asks}
use libpaxos_cpp.Strategy.Initiate.Attempts.{tried}
use libpaxos_cpp.Strategy.Arrival.{Arrival, Owed}
use libpaxos_cpp.Strategy.Arrival.Waiting.{starts}
use libpaxos_cpp.Strategy.Arrival.Promises.{promises}
use libpaxos_cpp.Strategy.Arrival.Replies.{replies}
use libpaxos_cpp.Strategy.Cluster.{
  Member, Delivery, connections_of, accepts, AllLag, Exchange, AllReplica, round_catches_up,
}
use libpaxos_cpp.Strategy.Cluster.Agreement.{outcome, round_agrees}
use libpaxos_cpp.Strategy.Cluster.Hears.{Hears, tried-Hears}
use libpaxos_cpp.Strategy.Cluster.Promising.{AllBehind, Hears-lowest, Hears-AllLag}
use libpaxos_cpp.Strategy.Cluster.Phases.{AllPromise, promises-AllHeard}
use libpaxos_cpp.Strategy.Cluster.Deliveries.{
  response_of, answers_of, AllKeep, Owed-answers_of, all_delivered,
}

module _ {S T P D E : Type 0} {b : Backend S} {c : Backend T} {Holds : S → Log → Type 0}
    {Keeps : T → Log → Type 0} (laws : IsBackend b Holds) (their_laws : IsBackend c Keeps)
    (processor : ℤ → Bytes → P → Bytes × P) (start : P) where
  -- What a round leaves: the accepts, the history of every follower, and the answer to the client.
  abbrev pub Replicates :
      Request
      → List Bytes
      → List (Member T P E)
      → List (Arrival S P D)
      → List (Arrival S P D)
      → Round
      → Node S P D
      → Type 0
  Replicates q history members firsts seconds r0 n0 =
      (n : Node S P D) × (r : Round) × (deliveries : List (Delivery T P E)) × (n' : Node S P D)
      × (r' : Round) × (response : Command) × (promises b q firsts r0 n0
          ≡ ok (n, r, accepts members deliveries))
      × Exchange laws their_laws processor start q n r members deliveries
      × AllReplica their_laws processor start (history ++ q.byte_array ∷ []) deliveries
      × (replies b q (answers_of members deliveries seconds) r n
          ≡ ok (n', r', write q.client_connection response ∷ []))
      × (response.type_ ≡ type_request_accepted)
      × (response.workload ≡ outcome processor start history q.byte_array)

  two_phases :
      (q : Request) (n : Node S P D) (history : List Bytes) (leader oldest : ℕ) (asked : Command)
      (members : List (Member T P E)) (a : Arrival S P D) (rest : List (Arrival S P D))
      (v : Arrival S P D) (seconds : List (Arrival S P D))
      → ((i : ℤ) (w : Bytes) (s : P) → is_empty (processor i w s).0 ≡ false)
      → Ascending (connections_of members)
      → AllBehind their_laws processor start history leader oldest members
      → Hears laws processor start history leader oldest members (connections_of members) n
      → Owed (connections_of members) (a ∷ rest)
      → AllPromise laws their_laws processor start history leader oldest members asked (a ∷ rest)
      → Owed (connections_of members) (v ∷ seconds)
      → AllKeep b (connections_of members) (v ∷ seconds)
      → Replicates q history members
          (a ∷ rest)
          (v ∷ seconds)
          (record new_round { connections = connections_of members })
          n
  two_phases q n history leader oldest asked members a rest v seconds total ascending behind k owed
        promise owed2 keep =
      let (n1, r1, k1, p, done) =
        promises-AllHeard laws their_laws processor start history leader oldest members q asked a
          rest ascending behind promise owed (starts (connections_of members) ascending) tt k in
      let (lowest, low) =
        Hears-lowest laws their_laws processor start history leader oldest members k1 in
      let lag : AllLag laws their_laws processor start n1 history members =
        Hears-AllLag laws their_laws processor start history leader oldest members k1 ascending
          behind in
      let (deliveries, sent, x, replicas) =
        round_catches_up laws their_laws processor start q n1 r1 history lowest members total
          ascending p lag low in
      let (n2, r2, response, told, type_, workload) =
        round_agrees laws their_laws processor start q n1 r1 history lowest members deliveries
          (record v { error = none; command = response_of v.follower members deliveries })
          (answers_of members deliveries seconds) total ascending k1.replica lag low p x
          (Owed-answers_of members deliveries (connections_of members) (v ∷ seconds) owed2)
          (all_delivered laws their_laws processor start q n1 r1 members deliveries
            (connections_of members) (v ∷ seconds) x ascending (λ e d h. h) owed2 keep) in
      (
        n1,
        r1,
        deliveries,
        n2,
        r2,
        response,
        rw (done, sent) refl,
        x,
        replicas,
        told,
        type_,
        workload,
      )

module _ {S T P E : Type 0} {b : Backend S} {c : Backend T} {Holds : S → Log → Type 0}
    {Keeps : T → Log → Type 0} (laws : IsBackend b Holds) (their_laws : IsBackend c Keeps)
    (processor : ℤ → Bytes → P → Bytes × P) (start : P) (f : Floats) where
  -- Given that the callback never answers with nothing, that the leader has stored and applied a
  -- history and sees a majority of live servers, each listed under its own endpoint, that it knows
  -- a proposal id of every server that is not among them, that each of them has exactly some first
  -- values of the history, none of the others lost by the leader's storage, and promises in answer
  -- to the prepare, and whatever the leader's other handlers do in between that keeps what it has
  -- heard and leaves it able to reply: initiate sends the prepare to the live servers; after the
  -- promises, in whatever order they come, the leader sends each the accept that it lacks; each
  -- handles it, and ends with the history and the new value stored and applied; and after their
  -- answers, in whatever order they come, the client is answered exactly once, with what the
  -- callback says to the new value after the whole history.
  pub request-Replicates :
      (q : Request) (now : ℕ) (n : Node S P f.Double) (history : List Bytes) (leader oldest : ℕ)
      (members : List (Member T P E)) (a : Arrival S P f.Double)
      (rest : List (Arrival S P f.Double)) (v : Arrival S P f.Double)
      (seconds : List (Arrival S P f.Double))
      → ((i : ℤ) (w : Bytes) (s : P) → is_empty (processor i w s).0 ≡ false)
      → majority f n.quorum.servers n.quorum.majority_factor ≡ true
      → is_empty (live n.quorum.servers) ≡ false
      → AllNamed n.quorum.servers
      → connections_of members ≡ links n.quorum.servers
      → (k : Hears laws processor start history leader oldest members (connections_of members) n)
      → AllBehind their_laws processor start history leader oldest members
      → Owed (connections_of members) (a ∷ rest)
      → AllPromise laws their_laws processor start history leader oldest members
          (asks (length history) k.replica.us)
          (a ∷ rest)
      → Owed (connections_of members) (v ∷ seconds)
      → AllKeep b (connections_of members) (v ∷ seconds)
      → (n0 : Node S P f.Double) × (r0 : Round) × (initiate b f q now n
          ≡ ok
              (n0, some r0, prepares (asks (length history) k.replica.us) (connections_of members)))
        × Replicates laws their_laws processor start q history members
            (a ∷ rest)
            (v ∷ seconds)
            r0
            n0
  request-Replicates q now n history leader oldest members a rest v seconds total enough somebody
        named same k behind owed promise owed2 keep =
      (
        tried now (tried now n),
        record new_round { connections = connections_of members },
        initiate_sends laws processor start f q now n history k.ascending named k.replica enough
              somebody
            ∙ ap
                (λ m. ok (
                  tried now (tried now n),
                  some (record new_round { connections = m }),
                  prepares (asks (length history) k.replica.us) m,
                ))
                (sym same),
        two_phases laws their_laws processor start q (tried now (tried now n)) history leader oldest
            (asks (length history) k.replica.us) members a rest v seconds total
            (subst Ascending (sym same) (links-Ascending n.quorum.servers k.ascending)) behind
            (tried-Hears laws processor start history leader oldest members now
              (connections_of members)
              (tried-Hears laws processor start history leader oldest members now
                (connections_of members) k))
            owed promise owed2 keep,
      )
