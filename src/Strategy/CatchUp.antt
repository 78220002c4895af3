-- ===== src/Strategy/CatchUp.antt =====
-- The accept of a round, from the leader's storage to the follower's.
use mathlib.Core.List.{append_assoc}
use libpaxos_cpp.Base.{
  ==_refl, Bytes, List, [], ap, ap₂, drop, false, find, get_last?, is_empty, length, length-take,
  ok, pos, refl, some, subst, suc, sym, take, take-append-drop, ℕ, ℕ_order, ℤ, ◌++◌, ◌∙◌, ◌∷◌, ◌≡◌,
  ◌≤◌,
}
use libpaxos_cpp.Command.{
  Command, new_command, set_type, type_request_accept, type_request_accepted,
}
use libpaxos_cpp.Storage.Log.{Log, enumerate}
use libpaxos_cpp.Storage.Backend.{Backend, IsBackend}
use libpaxos_cpp.Quorum.Server.{Server}
use libpaxos_cpp.Quorum.View.{lowest_proposal_id}
use libpaxos_cpp.Quorum.View.Laws.{lookup_known}
use libpaxos_cpp.Strategy.Node.{Node, write, await_accepted, add_local_host_information}
use libpaxos_cpp.Strategy.Replay.{replay, answers, last_answer}
use libpaxos_cpp.Strategy.Leader.{Request, Round, response_ack, send_accept}
use libpaxos_cpp.Strategy.Leader.Proposal.{proposal-Replica}
use libpaxos_cpp.Strategy.Follower.{accept}
use libpaxos_cpp.Strategy.Follower.CatchUp.{Replica, Replica-proposal_id}
use libpaxos_cpp.Strategy.Follower.Replication.{IsFrom, accept-Replica}

-- A list that ends in `v` begins with something.
snoc_cons {ℓ} :
    {A : Type ℓ} (xs : List A) (v : A) → (w : A) × (ws : List A) × (xs ++ v ∷ [] ≡ w ∷ ws)
snoc_cons [] v = (v, [], refl)
snoc_cons (x ∷ xs) v = (x, xs ++ v ∷ [], refl)

-- The message that a leader with this entry for itself sends for the values above `p`.
abbrev pub message : {S P D : Type 0} → Node S P D → Server → List Bytes → List Bytes → ℕ → Command
message n us history vs p = record new_command {
  type_ = type_request_accept;
  host_id = some us.id;
  host_endpoint = some us.endpoint;
  highest_proposal_id = pos (length history);
  lowest_proposal_id = lowest_proposal_id n.quorum.servers;
  proposed_workload = enumerate (suc p) vs;
}

-- The leader and the follower may differ in their storage.
module _ {S T P D E : Type 0} {b : Backend S} {c : Backend T} {Holds : S → Log → Type 0}
    {Keeps : T → Log → Type 0} (laws : IsBackend b Holds) (their_laws : IsBackend c Keeps)
    (processor : ℤ → Bytes → P → Bytes × P) (start : P) where
  -- What a leader knows of a follower that has the first `p` values of its history.
  pub record Lags (n : Node S P D) (m : Node T P E) (history : List Bytes) (follower p : ℕ)
      : Type 0 where
    pub leader : Replica laws processor start n history
    pub behind : Replica their_laws processor start m (take p history)
    pub short : p ≤ length history
    pub available : leader.log.base ≤ p
    pub entry : Server
    pub listed : find follower n.quorum.servers ≡ some entry
    pub up_to_date : entry.highest_proposal_id ≡ pos p
    pub leader_entry : Server
    pub leader_listed : find leader.us.endpoint m.quorum.servers ≡ some leader_entry

  send_lem :
      (q : Request) (n : Node S P D) (m : Node T P E) (r : Round) (history : List Bytes)
      (follower connection p : ℕ)
      → (l : Lags n m history follower p) → find follower r.connections ≡ some connection
      → find follower r.accepted ≡ some response_ack
      → send_accept b q follower connection n r
        ≡ ok (
            write connection (message n l.leader.us history (drop p history ++ q.byte_array ∷ []) p)
            ∷ await_accepted follower connection
            ∷ [])
  unfolding send_accept add_local_host_information
  send_lem q n m r history follower connection p l conn ack = rw (
    conn,
    ack,
    ==_refl connection,
    lookup_known follower n.quorum.servers l.entry l.listed,
    l.up_to_date,
    proposal-Replica laws processor start q.byte_array p (set_type type_request_accept new_command)
        l.leader l.available l.short,
    lookup_known n.quorum.our_endpoint n.quorum.servers l.leader.us l.leader.known,
    Replica-proposal_id laws processor start l.leader,
  )

  -- Given that the callback never answers with nothing, the leader has stored and applied a
  -- history, the follower exactly its first p values, the leader's storage has lost none of the
  -- others, each knows the other, the view records p for the follower and a lowest id that is not
  -- negative, and the follower has promised: the accept that the leader sends makes the follower
  -- succeed and end with the history and the new value stored and applied, and the last value of
  -- its answer is what the callback says to the new value after the whole history; it is signed
  -- with the follower's endpoint and an id.
  pub catch_up :
      (q : Request) (n : Node S P D) (m : Node T P E) (r : Round) (history : List Bytes)
      (follower connection back p lowest : ℕ)
      → ((i : ℤ) (w : Bytes) (s : P) → is_empty (processor i w s).0 ≡ false)
      → Lags n m history follower p
      → lowest_proposal_id n.quorum.servers ≡ pos lowest
      → find follower r.connections ≡ some connection
      → find follower r.accepted ≡ some response_ack
      → (sent : Command) × (m' : Node T P E) × (response : Command) × (send_accept b q follower
            connection n r
          ≡ ok (write connection sent ∷ await_accepted follower connection ∷ []))
        × (accept c processor back sent m ≡ ok (m', write back response ∷ []))
        × Replica their_laws processor start m' (history ++ q.byte_array ∷ [])
        × (response.type_ ≡ type_request_accepted)
        × ((id : ℕ) × (response.host_id ≡ some id))
        × (response.host_endpoint ≡ some m.quorum.our_endpoint)
        × (get_last? response.proposed_workload
            ≡ some (
              pos (suc (length history)),
              (processor
                  (pos (suc (length history)))
                  q.byte_array
                  (replay processor 0 history start)).0,
            ))
  catch_up q n m r history follower connection back p lowest total l low conn ack =
      let vs : List Bytes = drop p history ++ q.byte_array ∷ [] in
      let sent : Command = message n l.leader.us history vs p in
      let (w, ws, e) = snoc_cons (drop p history) q.byte_array in
      let short : length (take p history) ≡ p = length-take p history l.short in
      let workload : enumerate (suc p) vs ≡ enumerate (suc (length (take p history))) (w ∷ ws) =
        ap₂ (λ k us. enumerate (suc k) us) (sym short) e in
      let from : IsFrom sent m = record {
        host = l.leader.us.endpoint;
        uuid = l.leader.us.id;
        server = l.leader_entry;
        at_host = refl;
        with_uuid = refl;
        known_host = l.leader_listed;
      } in
      let (m', response, done, r', answer) =
        accept-Replica their_laws processor start back sent w ws lowest total l.behind from workload
          low in
      let whole : take p history ++ w ∷ ws ≡ history ++ q.byte_array ∷ [] =
        ap (λ us. take p history ++ us) (sym e)
        ∙ sym (append_assoc (take p history) (drop p history) (q.byte_array ∷ []))
        ∙ ap (λ us. us ++ q.byte_array ∷ []) (take-append-drop p history) in
      let said : response.proposed_workload
          ≡ enumerate (suc p) (answers processor p vs (replay processor 0 (take p history) start)) =
        answer.answered
        ∙ ap₂
            (λ k us.
              enumerate (suc k)
                (answers processor k us (replay processor 0 (take p history) start)))
            short (sym e) in
      (
        sent,
        m',
        response,
        send_lem q n m r history follower connection p l conn ack,
        done,
        subst (Replica their_laws processor start m') whole r',
        answer.accepted,
        (answer.uuid, answer.signed),
        answer.from_us,
        ap get_last? said ∙ last_answer processor p history q.byte_array start l.short,
      )
