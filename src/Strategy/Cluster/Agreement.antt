-- ===== src/Strategy/Cluster/Agreement.antt =====
-- A whole second phase of strategy.cpp: from the accepts to the answer that the client gets.
use libpaxos_cpp.Base.{
  Ascending, Bytes, List, Option, Outcome, [], ap, false, find, find_here, find_later, found_either,
  get_last?, inl, inr, is_empty, length, none, ok, pos, refl, some, subst, suc, sym, ℕ, ℕ_order, ℤ,
  ◌∙◌, ◌∷◌, ◌≡◌, ◌⊎◌,
}
use libpaxos_cpp.Errors.{ErrorCode}
use libpaxos_cpp.Command.{Command, type_request_accepted}
use libpaxos_cpp.Storage.Log.{Log}
use libpaxos_cpp.Storage.Backend.{Backend, IsBackend}
use libpaxos_cpp.Quorum.Server.{Server}
use libpaxos_cpp.Quorum.View.{lowest_proposal_id}
use libpaxos_cpp.Strategy.Replay.{replay}
use libpaxos_cpp.Strategy.Node.{Node, Effect, write}
use libpaxos_cpp.Strategy.Leader.{Request, Round, response_ack}
use libpaxos_cpp.Strategy.Follower.CatchUp.{Replica, Replica-proposal_id}
use libpaxos_cpp.Strategy.CatchUp.{catch_up}
use libpaxos_cpp.Strategy.Arrival.{Arrival, refusal, IsAnswer, Owed, AllAgree, CanReply, AllAnswers}
use libpaxos_cpp.Strategy.Arrival.Waiting.{Promised}
use libpaxos_cpp.Strategy.Arrival.Replying.{IsAccepted, reply}
use libpaxos_cpp.Strategy.Arrival.Gathers.{AllReply}
use libpaxos_cpp.Strategy.Arrival.Replies.{replies, replies_any_order}
use libpaxos_cpp.Strategy.Cluster.{Member, Delivery, connections_of, AllLag, Exchange}

module _ {T P E : Type 0} where
  -- The answer that arrives is that of a follower of the round.
  abbrev pub Delivered :
      {S D : Type 0} → List (Member T P E) → List (Delivery T P E) → Arrival S P D → Type 0
  Delivered (k ∷ members) (d ∷ deliveries) a =
      ((a.follower ≡ k.endpoint) × (a.error ≡ none) × (a.command ≡ d.response))
      ⊎ Delivered members deliveries a
  Delivered _ _ a = ⊥

  abbrev pub AllDelivered :
      {S D : Type 0}
      → Backend S
      → List (Member T P E)
      → List (Delivery T P E)
      → List (Arrival S P D)
      → Type 0
  AllDelivered b members deliveries [] = Unit {0}
  AllDelivered {S} {D} b members deliveries (a ∷ rest) =
      Delivered members deliveries a
      × ((n : Node S P D)
          → CanReply b (connections_of members) n
          → CanReply b (connections_of members) (a.meanwhile n))
      × AllDelivered b members deliveries rest

written :
    (k : ℕ) (x y : Command) (es fs : List Effect)
    → ok (write k x ∷ es) ≡ ok (write k y ∷ fs)
    → x ≡ y
written k x y es fs h = cc

same_left :
    {A B : Type 0} (m m' : A) (x y : B) → ◌≡◌ {A = Outcome (A × B)} (ok (m, x)) (ok (m', y)) → x ≡ y
same_left m m' x y h = cc

-- What the callback says to the new value after the whole history.
abbrev pub outcome : {P : Type 0} → (ℤ → Bytes → P → Bytes × P) → P → List Bytes → Bytes → Bytes
outcome processor start history v =
    (processor (pos (suc (length history))) v (replay processor 0 history start)).0

abbrev Signed : ℕ → ℤ → Bytes → Command → Type 0
Signed e i w c =
    (c.type_ ≡ type_request_accepted)
    × ((id : ℕ) × (c.host_id ≡ some id))
    × (c.host_endpoint ≡ some e)
    × (get_last? c.proposed_workload ≡ some (i, w))

answers_with :
    (error : Option ErrorCode) (e : ℕ) (c : Command) (i : ℤ) (w : Bytes)
    → error ≡ none
    → is_empty w ≡ false
    → Signed e i w c
    → IsAnswer IsAccepted error e c × (refusal error c ≡ none) × (reply error c ≡ w)
answers_with (some error) e c i w fine full h = cc
answers_with none e c i [] fine full h = cc
answers_with none e c i (x ∷ w) fine full (type_, (id, signed), by, last) =
    ((by, (id, signed), inl (type_, (i, x, w, last))), rw type_ refl, rw (type_, last) refl)

module _ {S T P D E : Type 0} {b : Backend S} {c : Backend T} {Holds : S → Log → Type 0}
    {Keeps : T → Log → Type 0} (laws : IsBackend b Holds) (their_laws : IsBackend c Keeps)
    (processor : ℤ → Bytes → P → Bytes × P) (start : P) where
  -- Every follower answers that.
  answered :
      (q : Request) (n : Node S P D) (r : Round) (history : List Bytes) (lowest : ℕ)
      (members : List (Member T P E)) (deliveries : List (Delivery T P E)) (a : Arrival S P D)
      → ((i : ℤ) (w : Bytes) (s : P) → is_empty (processor i w s).0 ≡ false)
      → Ascending (connections_of members)
      → AllLag laws their_laws processor start n history members
      → lowest_proposal_id n.quorum.servers ≡ pos lowest
      → ((e d : ℕ)
          → find e (connections_of members) ≡ some d
          → (find e r.connections ≡ some d) × (find e r.accepted ≡ some response_ack))
      → Exchange laws their_laws processor start q n r members deliveries
      → Delivered members deliveries a
      → IsAnswer IsAccepted a.error a.follower a.command
        × (refusal a.error a.command ≡ none)
        × (reply a.error a.command ≡ outcome processor start history q.byte_array)
  answered q n r history lowest [] [] a total ascending lag low all exchange h = absurd h
  answered q n r history lowest [] (d ∷ deliveries) a total ascending lag low all exchange h =
      absurd h
  answered q n r history lowest (k ∷ members) [] a total ascending lag low all exchange h = absurd h
  answered q n r history lowest (k ∷ members) (d ∷ deliveries) a total (above, ascending)
        (lags, named, lag) low all (sends, done, exchange) (inr h) =
      answered q n r history lowest members deliveries a total ascending lag low
        (λ e c h. all e c (find_later e k.endpoint k.connection c (connections_of members) above h))
        exchange h
  answered q n r history lowest (k ∷ members) (d ∷ deliveries) a total (above, ascending)
        (lags, named, lag) low all (sends, done, exchange) (inl (from, fine, is)) =
      let (conn, ack) =
        all k.endpoint k.connection (find_here k.endpoint k.connection (connections_of members)) in
      let (sent, m', response, sends', done', replica, type_, (id, signed), by, last) =
        catch_up laws their_laws processor start q n k.node r history k.endpoint k.connection k.back
          k.has lowest total lags low conn ack in
      let message : sent ≡ d.sent = written k.connection sent d.sent _ _ (sym sends' ∙ sends) in
      let one : response ≡ d.response =
        written k.back response d.response [] []
          (ap ok (same_left m' d.after _ _ (sym done' ∙ (rw message done)))) in
      let same : response ≡ a.command = one ∙ sym is in
      let i : ℤ = pos (suc (length history)) in
      let w : Bytes = outcome processor start history q.byte_array in
      let signed_by : Signed a.follower i w a.command =
        subst (λ e. Signed e i w a.command) (named ∙ sym from)
          (subst (Signed k.node.quorum.our_endpoint i w) same (type_, (id, signed), by, last)) in
      answers_with a.error a.follower a.command i w fine
        (total i q.byte_array (replay processor 0 history start)) signed_by

  module _ (q : Request) (n : Node S P D) (r : Round) (history : List Bytes) (lowest : ℕ)
      (members : List (Member T P E)) (deliveries : List (Delivery T P E))
      (total : (i : ℤ) (w : Bytes) (s : P) → is_empty (processor i w s).0 ≡ false)
      (ascending : Ascending (connections_of members))
      (lag : AllLag laws their_laws processor start n history members)
      (low : lowest_proposal_id n.quorum.servers ≡ pos lowest)
      (p : Promised (connections_of members) r)
      (exchange : Exchange laws their_laws processor start q n r members deliveries) where
    all_answered :
        (arrivals : List (Arrival S P D))
        → AllDelivered b members deliveries arrivals
        → AllAnswers b (connections_of members) IsAccepted arrivals
          × AllAgree arrivals
          × AllReply (outcome processor start history q.byte_array) arrivals
    all_answered [] h = (tt, tt, tt)
    all_answered (a ∷ rest) (delivered, keep, h) =
        let (is, agrees, says) =
          answered q n r history lowest members deliveries a total ascending lag low
            (λ e c h. (ap (find e) p.same ∙ h, p.each e c h)) exchange delivered in
        let (all, agree, same) = all_answered rest h in
        ((is, keep, all), (agrees, agree), (says, same))

  known_member :
      (n : Node S P D) (history : List Bytes) (members : List (Member T P E))
      → AllLag laws their_laws processor start n history members
      → (e d : ℕ) → find e (connections_of members) ≡ some d
      → (s : Server) × (find e n.quorum.servers ≡ some s)
  known_member n history [] lag e d h = cc
  known_member n history (k ∷ members) (lags, named, lag) e d h =
      elim (found_either e k.endpoint k.connection d (connections_of members) h) [
        | inl same ↦ (lags.entry, ap (λ e. find e n.quorum.servers) same ∙ lags.listed)
        | inr later ↦ known_member n history members lag e d later
      ]

  leader-CanReply :
      (n : Node S P D) (history : List Bytes) (members : List (Member T P E))
      → Replica laws processor start n history
      → AllLag laws their_laws processor start n history members
      → CanReply b (connections_of members) n
  leader-CanReply n history members leads lag = record {
    us = leads.us;
    listed_us = leads.known;
    highest = pos (length history);
    stored = Replica-proposal_id laws processor start leads;
    listed = known_member n history members lag;
  }

  -- Given that the callback never answers with nothing, the leader has stored and applied a
  -- history and leads a round that every follower has promised, each follower, listed under its
  -- own endpoint, lags behind as the leader knows, and the lowest id is not negative: once each
  -- follower has handled the accept that it was sent, in whatever order their answers arrive and
  -- whatever the leader's other handlers do in between that leaves it able to reply, the client is
  -- answered exactly once, with what the callback says to the new value after the whole history.
  pub round_agrees :
      (q : Request) (n : Node S P D) (r : Round) (history : List Bytes) (lowest : ℕ)
      (members : List (Member T P E)) (deliveries : List (Delivery T P E)) (a : Arrival S P D)
      (rest : List (Arrival S P D))
      → ((i : ℤ) (w : Bytes) (s : P) → is_empty (processor i w s).0 ≡ false)
      → Ascending (connections_of members)
      → Replica laws processor start n history
      → AllLag laws their_laws processor start n history members
      → lowest_proposal_id n.quorum.servers ≡ pos lowest
      → Promised (connections_of members) r
      → Exchange laws their_laws processor start q n r members deliveries
      → Owed (connections_of members) (a ∷ rest)
      → AllDelivered b members deliveries (a ∷ rest)
      → (n' : Node S P D) × (r' : Round) × (response : Command) × (replies b q (a ∷ rest) r n
          ≡ ok (n', r', write q.client_connection response ∷ []))
        × (response.type_ ≡ type_request_accepted)
        × (response.workload ≡ outcome processor start history q.byte_array)
  round_agrees q n r history lowest members deliveries a rest total ascending leads lag low p
        exchange owed delivered =
      let (answers, agree, same) =
        all_answered q n r history lowest members deliveries total ascending lag low p exchange
          (a ∷ rest) delivered in
      let (_, _, n', r', response, _, done, which) =
        replies_any_order q a rest r n ascending p owed answers
          (leader-CanReply n history members leads lag) in
      elim which [
        | inl (_, (w, all, type_, workload)) ↦
            (n', r', response, done, type_, workload ∙ sym all.0 ∙ same.0)
        | inr (inl (_, differ, _, _)) ↦
            absurd (differ (outcome processor start history q.byte_array) same)
        | inr (inr (refused, _)) ↦ absurd (refused agree)
      ]
