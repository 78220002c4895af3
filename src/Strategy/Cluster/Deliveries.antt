-- ===== src/Strategy/Cluster/Deliveries.antt =====
-- The answers of the followers to their accepts, as they arrive at the leader.
use libpaxos_cpp.Base.{
  ==_iff, Ascending, Bool-cases, Bytes, List, Map, [], arith, erase, erase-Ascending, find,
  found_either, if◌then◌else◌, inl, inr, none, refl, some, ℕ, ℕ_order, ℤ, ◌==◌, ◌∷◌, ◌≡◌,
}
use libpaxos_cpp.Command.{Command, new_command}
use libpaxos_cpp.Storage.Log.{Log}
use libpaxos_cpp.Storage.Backend.{Backend, IsBackend}
use libpaxos_cpp.Strategy.Node.{Node}
use libpaxos_cpp.Strategy.Leader.{Request, Round}
use libpaxos_cpp.Strategy.Arrival.{Arrival, Owed, CanReply, find_owed}
use libpaxos_cpp.Strategy.Cluster.{Member, Delivery, connections_of, Exchange}
use libpaxos_cpp.Strategy.Cluster.Agreement.{Delivered, AllDelivered}

module _ {T P E : Type 0} where
  -- What a follower of the round answered to its accept.
  abbrev pub response_of : ℕ → List (Member T P E) → List (Delivery T P E) → Command
  response_of e (k ∷ members) (d ∷ deliveries) =
      let rest = response_of e members deliveries in if e == k.endpoint then d.response else rest
  response_of e _ _ = new_command

  -- The answers of the followers, in some order, with what the leader's other handlers do.
  abbrev pub answers_of :
      {S D : Type 0}
      → List (Member T P E)
      → List (Delivery T P E)
      → List (Arrival S P D)
      → List (Arrival S P D)
  answers_of members deliveries [] = []
  answers_of members deliveries (a ∷ rest) =
      record a { error = none; command = response_of a.follower members deliveries }
      ∷ answers_of members deliveries rest

module _ {S P D : Type 0} (b : Backend S) (connections : Map ℕ ℕ) where
  -- The leader's other handlers leave it able to reply.
  abbrev pub AllKeep : List (Arrival S P D) → Type 0
  AllKeep [] = Unit {0}
  AllKeep (a ∷ rest) =
      ((n : Node S P D) → CanReply b connections n → CanReply b connections (a.meanwhile n))
      × AllKeep rest

module _ {T P E S D : Type 0} where
  pub Owed-answers_of :
      (members : List (Member T P E)) (deliveries : List (Delivery T P E)) (m : Map ℕ ℕ)
      (arrivals : List (Arrival S P D))
      → Owed m arrivals
      → Owed m (answers_of members deliveries arrivals)
  Owed-answers_of members deliveries m [] o = o
  Owed-answers_of members deliveries m (a ∷ rest) o =
      (o.0, Owed-answers_of members deliveries (erase a.follower m) rest o.1)

module _ {S T P D E : Type 0} {b : Backend S} {c : Backend T} {Holds : S → Log → Type 0}
    {Keeps : T → Log → Type 0} (laws : IsBackend b Holds) (their_laws : IsBackend c Keeps)
    (processor : ℤ → Bytes → P → Bytes × P) (start : P) where
  delivered :
      (q : Request) (n : Node S P D) (r : Round) (a : Arrival S P D) (d : ℕ)
      (members : List (Member T P E)) (deliveries : List (Delivery T P E))
      → Exchange laws their_laws processor start q n r members deliveries
      → find a.follower (connections_of members) ≡ some d
      → Delivered members deliveries
          (record a { error = none; command = response_of a.follower members deliveries })
  delivered q n r a d [] deliveries x h = cc
  delivered q n r a d (k ∷ members) [] x h = absurd x
  delivered q n r a d (k ∷ members) (e ∷ deliveries) (_, _, x) h =
      elim (Bool-cases (a.follower == k.endpoint)) [
        | inl same ↦ rw same (inl ((==_iff a.follower k.endpoint).0 same, refl, refl))
        | inr other ↦
            elim (found_either a.follower k.endpoint k.connection d (connections_of members) h) [
              | inl this ↦ absurd (ground (arith, this, other))
              | inr later ↦ rw other (inr (delivered q n r a d members deliveries x later))
            ]
      ]

  pub all_delivered :
      (q : Request) (n : Node S P D) (r : Round) (members : List (Member T P E))
      (deliveries : List (Delivery T P E)) (m : Map ℕ ℕ) (arrivals : List (Arrival S P D))
      → Exchange laws their_laws processor start q n r members deliveries
      → Ascending m
      → ((e d : ℕ) → find e m ≡ some d → find e (connections_of members) ≡ some d)
      → Owed m arrivals
      → AllKeep b (connections_of members) arrivals
      → AllDelivered b members deliveries (answers_of members deliveries arrivals)
  all_delivered q n r members deliveries m [] x a within owed keep = tt
  all_delivered q n r members deliveries m (v ∷ rest) x a within (owed, later) (keep, more) = (
    delivered q n r v v.connection members deliveries x (within v.follower v.connection owed),
    keep,
    all_delivered q n r members deliveries (erase v.follower m) rest x
        (erase-Ascending v.follower m a) (λ e d h. within e d (find_owed v.follower e d m a h).1)
        later more,
  )
