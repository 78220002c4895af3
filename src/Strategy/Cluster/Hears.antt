-- ===== src/Strategy/Cluster/Hears.antt =====
-- What a leader of strategy.cpp learns from the promises, for the accepts that it sends.
use libpaxos_cpp.Base.{
  ==_iff, Above, Ascending, Bool-cases, Bytes, List, Map, Option-cases, [], ap, arith, erase, false,
  find, find-erase, find-insert, found_either, inl, inr, insert, insert-Ascending, length, pos,
  refl, some, sym, true, ℕ, ℕ_order, ℤ, ◌==◌, ◌∙◌, ◌∷◌, ◌≡◌, ◌≤◌, ◌⊎◌,
}
use libpaxos_cpp.Storage.Log.{Log}
use libpaxos_cpp.Storage.Backend.{Backend, IsBackend}
use libpaxos_cpp.Quorum.Server.{Server}
use libpaxos_cpp.Quorum.View.{View}
use libpaxos_cpp.Quorum.View.Lowest.{IsAt}
use libpaxos_cpp.Quorum.View.Live.{attempt, attempt_all-Ascending}
use libpaxos_cpp.Quorum.ServerView.Leader.{attempt_keeps, listed_before}
use libpaxos_cpp.Quorum.View.Live.{attempted, find-attempt_all}
use libpaxos_cpp.Strategy.Initiate.Attempts.{tried, attempt_all-stored}
use libpaxos_cpp.Strategy.Node.{Node}
use libpaxos_cpp.Strategy.Follower.CatchUp.{Replica, Replica-proposal_id}
use libpaxos_cpp.Strategy.Follower.Replication.{told_of, hears, insert-Replica}
use libpaxos_cpp.Strategy.Arrival.{CanReply}
use libpaxos_cpp.Strategy.Cluster.{Member, connections_of}

module _ {T P E : Type 0} where
  -- How many values each follower has.
  abbrev pub lengths_of : List (Member T P E) → Map ℕ ℕ
  lengths_of [] = []
  lengths_of (k ∷ members) = (k.endpoint, k.has) ∷ lengths_of members

  pub lengths_of-Above :
      (n : ℕ) (members : List (Member T P E))
      → Above n (connections_of members)
      → Above n (lengths_of members)
  lengths_of-Above n [] a = tt
  lengths_of-Above n (k ∷ members) a = (a.0, lengths_of-Above n members a.1)

  pub lengths_of-Ascending :
      (members : List (Member T P E))
      → Ascending (connections_of members)
      → Ascending (lengths_of members)
  lengths_of-Ascending [] a = tt
  lengths_of-Ascending (k ∷ members) a =
      (lengths_of-Above k.endpoint members a.0, lengths_of-Ascending members a.1)

  find-lengths_of :
      (e c : ℕ) (members : List (Member T P E))
      → find e (connections_of members) ≡ some c
      → (h : ℕ) × (find e (lengths_of members) ≡ some h)
  find-lengths_of e c [] h = cc
  find-lengths_of e c (k ∷ members) h = elim (Option-cases (find e (lengths_of (k ∷ members)))) [
    | inl missing ↦ elim (found_either e k.endpoint k.connection c (connections_of members) h) [
      | inl same ↦ absurd (ground (arith, same, missing))
      | inr later ↦
          let (p, at) = find-lengths_of e c members later in absurd (ground (arith, at, missing, h))
    ]
    | inr found ↦ found
  ]

-- Something is known of the server, or it still has to answer.
abbrev pub IsHeard : Map ℕ ℕ → ℕ → Server → Type 0
IsHeard m e s = ((h : ℕ) × IsAt h s) ⊎ ((c : ℕ) × (find e m ≡ some c))

still_owed :
    (e j c : ℕ) (m : Map ℕ ℕ)
    → Ascending m
    → (e == j) ≡ false
    → find j m ≡ some c
    → find j (erase e m) ≡ some c
still_owed e j c m a other h = find-erase e j m a ∙ (rw other h)

-- Another server is as it was.
other_listed :
    (e j : ℕ) (t : Server) (v : View) → (e == j) ≡ false → find j (insert e t v) ≡ find j v
other_listed e j t v other = find-insert e j t v ∙ (rw other refl)

this_listed : (e j : ℕ) (t : Server) (v : View) → (e == j) ≡ true → find j (insert e t v) ≡ some t
this_listed e j t v this = find-insert e j t v ∙ (rw this refl)

module _ {S T P D E : Type 0} {b : Backend S} {Holds : S → Log → Type 0} (laws : IsBackend b Holds)
    (processor : ℤ → Bytes → P → Bytes × P) (start : P) (history : List Bytes) (leader oldest : ℕ)
    (members : List (Member T P E)) where
  -- A leader that waits for the promises of the followers in `m`.
  pub record Hears (m : Map ℕ ℕ) (n : Node S P D) : Type 0 where
    pub replica : Replica laws processor start n history
    pub ours : n.quorum.our_endpoint ≡ leader
    pub kept : replica.log.base ≤ oldest
    pub ascending : Ascending n.quorum.servers
    pub known : (e : ℕ) (s : Server) → find e n.quorum.servers ≡ some s → IsHeard m e s
    pub told :
        (e h : ℕ)
        → find e (lengths_of members) ≡ some h
        → (s : Server) × (find e n.quorum.servers ≡ some s)
          × (IsAt h s ⊎ ((c : ℕ) × (find e m ≡ some c)))

  pub Hears-CanReply :
      (m : Map ℕ ℕ) {n : Node S P D} → Hears m n → CanReply b (connections_of members) n
  Hears-CanReply m k = record {
    us = k.replica.us;
    listed_us = k.replica.known;
    highest = pos (length history);
    stored = Replica-proposal_id laws processor start k.replica;
    listed = λ e c h.
        let (p, at) = find-lengths_of e c members h in
        let (s, listed, _) = k.told e p at in (s, listed);
  }

  -- The promise of one follower.
  pub hears-Hears :
      (m : Map ℕ ℕ) (e c h uuid : ℕ) (highest : ℤ) {n : Node S P D}
      → Ascending m
      → find e (lengths_of members) ≡ some h
      → highest ≡ pos h
      → Hears m n
      → (s : Server) × (find e n.quorum.servers ≡ some s)
        × Hears (erase e m) (hears e highest uuid s n)
  hears-Hears m e c h uuid highest {n} a at says k =
      let (s, listed, _) = k.told e h at in
      let (r, same) =
        insert-Replica laws processor start e (told_of highest uuid) s (λ u. refl) listed
          k.replica in
      (
        s,
        listed,
        record {
          replica = r;
          ours = k.ours;
          kept = rw same k.kept;
          ascending = insert-Ascending e (told_of highest uuid s) n.quorum.servers k.ascending;
          known = λ j u found. elim (Bool-cases (e == j)) [
            | inl this ↦
                let one : some (told_of highest uuid s) ≡ some u =
                  sym (this_listed e j (told_of highest uuid s) n.quorum.servers this) ∙ found in
                let same : told_of highest uuid s ≡ u = cc in
                inl (h, ap (λ u. u.highest_proposal_id) (sym same) ∙ says)
            | inr other ↦
                elim (k.known j u (
                  sym (other_listed e j (told_of highest uuid s) n.quorum.servers other) ∙ found)) [
                    | inl known ↦ inl known
                    | inr (c, owed) ↦ inr (c, still_owed e j c m a other owed)
                  ]
          ];
          told = λ j p has. elim (Bool-cases (e == j)) [
            | inl this ↦
                let e_j : e ≡ j = (==_iff e j).0 this in
                let one : some h ≡ some p =
                  sym at ∙ ap (λ i. find i (lengths_of members)) e_j ∙ has in
                let same : h ≡ p = ground arith in
                (
                  told_of highest uuid s,
                  this_listed e j (told_of highest uuid s) n.quorum.servers this,
                  inl (says ∙ ap pos same),
                )
            | inr other ↦
                let (u, found, which) = k.told j p has in
                (
                  u,
                  other_listed e j (told_of highest uuid s) n.quorum.servers other ∙ found,
                  elim which [
                    | inl known ↦ inl known
                    | inr (c, owed) ↦ inr (c, still_owed e j c m a other owed)
                  ],
                )
          ];
        },
      )

  -- Attempts to connect change nothing of that.
  pub tried-Hears : (now : ℕ) (m : Map ℕ ℕ) {n : Node S P D} → Hears m n → Hears m (tried now n)
  tried-Hears now m {n} k =
      let (r, same, _) = attempt_all-stored laws processor start now k.replica in
      record {
        replica = r;
        ours = k.ours;
        kept = rw same k.kept;
        ascending = attempt_all-Ascending now n.quorum.servers k.ascending;
        known = λ e t found.
            let (s, at, _, highest) = listed_before now n.quorum.servers e t found in
            elim (k.known e s at) [ inl (h, is) ↦ inl (h, highest ∙ is) | inr owed ↦ inr owed ];
        told = λ e h at.
            let (s, listed, which) = k.told e h at in
            (
              attempt now s,
              find-attempt_all now e n.quorum.servers ∙ ap (attempted now) listed,
              elim which [ inl is ↦ inl ((attempt_keeps now s).1 ∙ is) | inr owed ↦ inr owed ],
            );
      }
