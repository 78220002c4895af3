-- ===== src/Strategy/Cluster/Phases.antt =====
-- The first phase of strategy.cpp over all the followers of a round, where they promise.
use libpaxos_cpp.Base.{
  ==_refl, Ascending, Bytes, List, Map, [], ap, erase, false, find, find_here, find_later, inl, inr,
  length, length-take, none, ok, pos, refl, some, subst, sym, take, true, ℕ, ℕ_order, ℤ, ◌==◌,
  ◌>>=◌, ◌∙◌, ◌∷◌, ◌≡◌, ◌⊎◌,
}
use libpaxos_cpp.Command.{Command, type_request_promise}
use libpaxos_cpp.Storage.Log.{Log}
use libpaxos_cpp.Storage.Backend.{Backend, IsBackend}
use libpaxos_cpp.Strategy.Node.{Node, write}
use libpaxos_cpp.Strategy.Leader.{Request, Round, send_accept_all}
use libpaxos_cpp.Strategy.Callbacks.{absorb_promise, note_promise, receive_promise}
use libpaxos_cpp.Strategy.Answer.{AllAck}
use libpaxos_cpp.Strategy.Arrival.{Arrival, Owed, last_lem, more_lem, all_answered, one_owed}
use libpaxos_cpp.Strategy.Arrival.Waiting.{
  Promised, Waits, noted, noted-Waits, noted_agreed, Waits-Promised,
}
use libpaxos_cpp.Strategy.Arrival.Promises.{promises, conclude-Waits}
use libpaxos_cpp.Strategy.Follower.{prepare}
use libpaxos_cpp.Strategy.Follower.Prepared.{IsSigned, prepare-IsSigned}
use libpaxos_cpp.Strategy.Follower.Replication.{IsFrom, hears, hears_lem}
use libpaxos_cpp.Strategy.Cluster.{Member, connections_of}
use libpaxos_cpp.Strategy.Cluster.Hears.{
  lengths_of, lengths_of-Above, Hears, Hears-CanReply, hears-Hears,
}
use libpaxos_cpp.Strategy.Cluster.Promising.{AllBehind}

module _ {T P E : Type 0} (c : Backend T) (asked : Command) where
  -- The answer that arrives is the promise that a follower of the round gave to the prepare.
  abbrev pub IsPromiseOf : {S D : Type 0} → List (Member T P E) → Arrival S P D → Type 0
  IsPromiseOf [] a = ⊥
  IsPromiseOf (k ∷ members) a =
      ((a.follower ≡ k.endpoint)
        × (a.error ≡ none)
        × (a.command.type_ ≡ type_request_promise)
        × ((now : ℕ) × (before : Node T P E) × (prepare c k.back asked now before
              ≡ ok (k.node, write k.back a.command ∷ []))))
      ⊎ IsPromiseOf members a

-- What the leader reads of it.
record Tells (e length : ℕ) {S P D : Type 0} (a : Arrival S P D) : Type 0 where
  fine : a.error ≡ none
  promise : a.command.type_ ≡ type_request_promise
  signed : IsSigned a.command e length

module _ {T P E : Type 0} {c : Backend T} {Keeps : T → Log → Type 0}
    (their_laws : IsBackend c Keeps) (processor : ℤ → Bytes → P → Bytes × P) (start : P)
    (history : List Bytes) (leader oldest : ℕ) (asked : Command) where
  tells :
      {S D : Type 0} (members : List (Member T P E)) (a : Arrival S P D)
      → Ascending (connections_of members)
      → AllBehind their_laws processor start history leader oldest members
      → IsPromiseOf c asked members a
      → (h : ℕ) × (find a.follower (lengths_of members) ≡ some h) × Tells a.follower h a
  tells [] a ascending behind p = absurd p
  tells (k ∷ members) a (above, ascending) (is, behind) (inr p) =
      let (h, at, t) = tells members a ascending behind p in
      (
        h,
        find_later a.follower k.endpoint k.has h (lengths_of members)
            (lengths_of-Above k.endpoint members above) at,
        t,
      )
  tells (k ∷ members) a (above, ascending) (is, behind)
        (inl (from, fine, promise, (now, before, done))) =
      let s =
        prepare-IsSigned their_laws processor start k.back now asked a.command before k.node
          (take k.has history) done is.behind in
      (
        k.has,
        ap (λ e. find e (lengths_of (k ∷ members))) from
            ∙ find_here k.endpoint k.has (lengths_of members),
        record {
          fine = fine;
          promise = promise;
          signed = record {
            from_us = s.from_us ∙ ap some (is.named ∙ sym from);
            uuid = s.uuid;
            with_uuid = s.with_uuid;
            reached = s.reached ∙ ap pos (length-take k.has history is.short);
          };
        },
      )

module _ {S T P D E : Type 0} {b : Backend S} {c : Backend T} {Holds : S → Log → Type 0}
    {Keeps : T → Log → Type 0} (laws : IsBackend b Holds) (their_laws : IsBackend c Keeps)
    (processor : ℤ → Bytes → P → Bytes × P) (start : P) (history : List Bytes) (leader oldest : ℕ)
    (members : List (Member T P E)) where
  -- Every follower of the round promises, and the leader's other handlers keep what it has heard.
  abbrev pub AllPromise : Command → List (Arrival S P D) → Type 0
  AllPromise asked [] = Unit {0}
  AllPromise asked (a ∷ rest) =
      IsPromiseOf c asked members a
      × ((m : Map ℕ ℕ) (n : Node S P D)
          → Hears laws processor start history leader oldest members m n
          → Hears laws processor start history leader oldest members m (a.meanwhile n))
      × AllPromise asked rest

  hear_one :
      (m : Map ℕ ℕ) (a : Arrival S P D) (h : ℕ) {r : Round} {n : Node S P D}
      → find a.follower (lengths_of members) ≡ some h
      → Tells a.follower h a
      → find a.follower m ≡ some a.connection
      → Waits (connections_of members) m r
      → Hears laws processor start history leader oldest members m n
      → (n' : Node S P D) × (absorb_promise a.error a.follower a.connection a.command r n
          ≡ ok (n', noted a.follower none r))
        × Hears laws processor start history leader oldest members (erase a.follower m) n'
  unfolding absorb_promise note_promise
  hear_one m a h {r} {n} at t owed w k =
      let (s, listed, k') =
        hears-Hears laws processor start history leader oldest members m a.follower a.connection h
          t.signed.uuid a.command.highest_proposal_id w.ascending at t.signed.reached k in
      let from : IsFrom a.command n = record {
        host = a.follower;
        uuid = t.signed.uuid;
        server = s;
        at_host = t.signed.from_us;
        with_uuid = t.signed.with_uuid;
        known_host = listed;
      } in
      let ours : find a.follower r.connections ≡ some a.connection =
        rw w.same (w.within a.follower a.connection owed) in
      (
        hears a.follower a.command.highest_proposal_id t.signed.uuid s n,
        rw (t.fine, hears_lem a.command from, ours, ==_refl a.connection, t.promise) refl,
        k',
      )

  -- What the leader knows once every follower has promised.
  abbrev pub AllHeard : Request → List (Arrival S P D) → Round → Node S P D → Type 0
  AllHeard q rest r n =
      (n' : Node S P D) × (r' : Round) × Hears laws processor start history leader oldest members []
        n'
      × Promised (connections_of members) r'
      × (promises b q rest r n
          ≡ (send_accept_all b q (connections_of members) n' r' >>= λ es. ok (n', r', es)))

  pub promises-AllHeard :
      (q : Request) (asked : Command) (a : Arrival S P D) (rest : List (Arrival S P D))
      {m : Map ℕ ℕ} {r : Round} {n : Node S P D}
      → Ascending (connections_of members)
      → AllBehind their_laws processor start history leader oldest members
      → AllPromise asked (a ∷ rest)
      → Owed m (a ∷ rest)
      → Waits (connections_of members) m r
      → AllAck r.accepted
      → Hears laws processor start history leader oldest members m n
      → AllHeard q (a ∷ rest) r n
  unfolding receive_promise
  promises-AllHeard q asked a [] {m} {r} {n} ascending behind (is, keep, _) (owed, none_left) w acks
        k =
      let (h, at, t) =
        tells their_laws processor start history leader oldest asked members a ascending behind
          is in
      let r1 : Round = noted a.follower none r in
      let (n1, absorbed, k1) = hear_one m a h at t owed w (keep m n k) in
      let w1 : Waits (connections_of members) [] r1 =
        subst (λ m. Waits (connections_of members) m r1) none_left
          (noted-Waits a.follower a.connection none owed (inl refl) w) in
      let k2 =
        subst (λ m. Hears laws processor start history leader oldest members m n1) none_left k1 in
      let acks1 : AllAck r1.accepted = noted_agreed a.follower none r refl acks in
      let full : (length r1.connections == length r1.accepted) ≡ true =
        all_answered r1.connections (connections_of members) r1.accepted w1.same w1.count in
      elim (conclude-Waits q w1
        (Hears-CanReply laws processor start history leader oldest members [] k2)) [
          | inl (_, sent) ↦ (
            n1,
            r1,
            k2,
            Waits-Promised w1 acks1,
            rw (absorbed, full, sent)
                (last_lem n1 r1 (send_accept_all b q (connections_of members) n1 r1)),
          )
          | inr (refused, _) ↦ absurd (refused acks1)
        ]
  promises-AllHeard q asked a (a2 ∷ rest) {m} {r} {n} ascending behind (is, keep, more)
        (owed, later) w acks k =
      let (h, at, t) =
        tells their_laws processor start history leader oldest asked members a ascending behind
          is in
      let r1 : Round = noted a.follower none r in
      let (n1, absorbed, k1) = hear_one m a h at t owed w (keep m n k) in
      let w1 : Waits (connections_of members) (erase a.follower m) r1 =
        noted-Waits a.follower a.connection none owed (inl refl) w in
      let waiting : (length r1.connections == length r1.accepted) ≡ false =
        one_owed a2.follower a2.connection (erase a.follower m) r1.connections
          (connections_of members) r1.accepted later.0 w1.same w1.count in
      let step : promises b q (a ∷ a2 ∷ rest) r n ≡ promises b q (a2 ∷ rest) r1 n1 =
        rw (absorbed, waiting) (more_lem (promises b q (a2 ∷ rest) r1 n1)) in
      let (n', r', k', p, done) =
        promises-AllHeard q asked a2 rest ascending behind more later w1
          (noted_agreed a.follower none r refl acks) k1 in
      (n', r', k', p, step ∙ done)
