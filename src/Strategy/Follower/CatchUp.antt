-- ===== src/Strategy/Follower/CatchUp.antt =====
-- A follower applies the values that it is sent in order, each once, whatever the storage.
use libpaxos_cpp.Base.{
  ==ℤ_refl, Bytes, List, [], ap, arith, contains, false, find, find-insert_self, insert, is_empty,
  is_some, length, length-append, ok, pos, refl, some, subst, suc, sym, ℕ, ℕ_order, ℤ, ℤ_order,
  ◌++◌, ◌+◌, ◌<◌, ◌∙◌, ◌∷◌, ◌≡◌,
}
use mathlib.Core.List.{append-nil, append_assoc}
use libpaxos_cpp.Command.{Command, add_proposed_workload}
use libpaxos_cpp.Storage.Log.{Log, append, trim, enumerate, insert-enumerate, find-enumerate_above}
use libpaxos_cpp.Storage.Backend.{Backend, Durable, IsBackend}
use libpaxos_cpp.Storage.Backend
use libpaxos_cpp.Storage.Accept.{accept-Holds}
use libpaxos_cpp.Storage.Keeps.{Keeps, Keeps-highest, Keeps-trim}
use libpaxos_cpp.Quorum.Server.{Server}
use libpaxos_cpp.Quorum.Server
use libpaxos_cpp.Quorum.View.Laws.{modify_known}
use libpaxos_cpp.Strategy.Replay.{replay, replay-snoc, answers}
use libpaxos_cpp.Strategy.Node.{Node, proposal_id}
use libpaxos_cpp.Strategy.Follower.{accept_one, accept_all}

module _ {S P D : Type 0} {b : Backend S} {Holds : S → Log → Type 0} (laws : IsBackend b Holds)
    (processor : ℤ → Bytes → P → Bytes × P) (start : P) where
  -- A server that has accepted exactly the values of a history.
  pub record Replica (n : Node S P D) (history : List Bytes) : Type 0 where
    pub log : Log
    pub holds : Holds n.storage.state log
    pub keeps : Keeps log history
    pub applied : n.application ≡ replay processor 0 history start
    pub size : ℕ
    pub sized : n.storage.history_size ≡ pos size
    pub some_size : 0 < size
    pub us : Server
    pub known : find n.quorum.our_endpoint n.quorum.servers ≡ some us
    pub named : us.endpoint ≡ n.quorum.our_endpoint

  pub Replica-proposal_id :
      {n : Node S P D} {history : List Bytes}
      → Replica n history
      → proposal_id b n ≡ ok (pos (length history))
  unfolding proposal_id
  Replica-proposal_id r = laws.highest-Holds r.holds ∙ ap (λ k. ok (pos k)) (Keeps-highest r.keeps)

  -- Storing the next value.
  stored :
      {n : Node S P D} {history : List Bytes} (v : Bytes) (q : ℕ)
      → Replica n history
      → (d : Durable S) × (m : Log) × (Backend.accept b n.storage
            (pos (suc (length history)))
            v
            (pos q)
          ≡ ok d)
        × Holds d.state m
        × Keeps m (history ++ v ∷ [])
        × (d.history_size ≡ n.storage.history_size)
  stored {n} {history} v q r =
      let (t, k, done, few, holds) =
        accept-Holds laws n.storage r.log v r.size q r.holds r.sized r.some_size in
      (
        record n.storage { state = t },
        trim k (append r.log v),
        rw (← Keeps-highest r.keeps) done,
        holds,
        Keeps-trim v r.size q k r.keeps r.some_size few,
        refl,
      )

  -- The next value is applied, answered and stored, and the quorum is told.
  accept_next :
      {n : Node S P D} {history : List Bytes} (v : Bytes) (q : ℕ) (response : Command)
      → Replica n history
      → is_empty (processor (pos (suc (length history))) v n.application).0 ≡ false
      → contains (pos (suc (length history))) response.proposed_workload ≡ false
      → (n' : Node S P D) × (accept_one b processor
            (pos q)
            (pos (suc (length history)))
            v
            (n, response)
          ≡ ok (
            n',
            record response {
              proposed_workload =
                  insert
                    (pos (suc (length history)))
                    (processor (pos (suc (length history))) v n.application).0
                    response.proposed_workload;
            },
          ))
        × Replica n' (history ++ v ∷ [])
        × (n'.application ≡ (processor (pos (suc (length history))) v n.application).1)
        × (n'.quorum.our_endpoint ≡ n.quorum.our_endpoint)
  unfolding accept_one add_proposed_workload
  accept_next {n} {history} v q response r answered fresh =
      let (d, m, done, holds, keeps, same) = stored v q r in
      let i : ℤ = pos (suc (length history)) in
      let n1 : Node S P D = record n {
        storage = d;
        application = (processor i v n.application).1;
      } in
      let applied : n1.application ≡ replay processor 0 (history ++ v ∷ []) start =
        ap (λ a. (processor i v a).1) r.applied ∙ sym (replay-snoc processor history v start) in
      let r1 : Replica n1 (history ++ v ∷ []) = record {
        log = m;
        holds = holds;
        keeps = keeps;
        applied = applied;
        size = r.size;
        sized = same ∙ r.sized;
        some_size = r.some_size;
        us = r.us;
        known = r.known;
        named = r.named;
      } in
      let top : proposal_id b n1 ≡ ok i =
        Replica-proposal_id r1
        ∙ ap (λ k. ok (pos k)) (omega (arith, length-append history (v ∷ []))) in
      let tell : Server → Server = Server.set_highest_proposal_id i in
      let n2 : Node S P D = record n1 {
        quorum = record n.quorum {
          servers = insert n.quorum.our_endpoint (tell r.us) n.quorum.servers;
        };
      } in
      (
        n2,
        rw (
          Replica-proposal_id r,
          ==ℤ_refl i,
          fresh,
          answered,
          done,
          top,
          modify_known n.quorum.our_endpoint tell n.quorum.servers r.us r.known,
          ==ℤ_refl i,
        ),
        record {
          log = m;
          holds = holds;
          keeps = keeps;
          applied = applied;
          size = r.size;
          sized = same ∙ r.sized;
          some_size = r.some_size;
          us = tell r.us;
          known = find-insert_self n.quorum.our_endpoint (tell r.us) n.quorum.servers;
          named = r.named;
        },
        refl,
        refl,
      )

  pub accept_rest :
      (vs sent : List Bytes) (m q : ℕ) (response : Command) {n : Node S P D} {history : List Bytes}
      → ((i : ℤ) (v : Bytes) (s : P) → is_empty (processor i v s).0 ≡ false)
      → Replica n history
      → response.proposed_workload ≡ enumerate m sent
      → m + length sent ≡ suc (length history)
      → (n' : Node S P D) × (accept_all b processor
            (pos q)
            (enumerate (suc (length history)) vs)
            (n, response)
          ≡ ok (
            n',
            record response {
              proposed_workload =
                  enumerate m (sent ++ answers processor (length history) vs n.application);
            },
          ))
        × Replica n' (history ++ vs)
        × (n'.quorum.our_endpoint ≡ n.quorum.our_endpoint)
  unfolding accept_all answers
  accept_rest [] sent m q response {n} {history} total r e at = (
    n,
    rw append-nil (ap (λ w. ok (n, record response { proposed_workload = w })) e),
    subst (Replica n) (sym (append-nil history)) r,
    refl,
  )
  accept_rest (v ∷ vs) sent m q response {n} {history} total r e at =
      let i : ℤ = pos (suc (length history)) in
      let a : Bytes = (processor i v n.application).0 in
      let fresh : contains i response.proposed_workload ≡ false =
        ap (contains i) e
        ∙ ap is_some (find-enumerate_above m sent (suc (length history)) (omega arith)) in
      let (n1, one, r1, state, same) = accept_next v q response r (total i v n.application) fresh in
      let grown : insert i a response.proposed_workload ≡ enumerate m (sent ++ a ∷ []) =
        ap (insert i a) e ∙ insert-enumerate m sent (suc (length history)) a (sym at) in
      let longer : length (history ++ v ∷ []) ≡ suc (length history) =
        omega (arith, length-append history (v ∷ [])) in
      let (n2, rest, r2, same2) =
        accept_rest vs (sent ++ a ∷ []) m q
          (record response { proposed_workload = insert i a response.proposed_workload }) total r1
          grown (omega (arith, length-append sent (a ∷ []))) in
      (
        n2,
        rw one (rw (longer, state, append_assoc sent (a ∷ [])) at rest),
        subst (Replica n2) (append_assoc history (v ∷ []) vs) r2,
        same2 ∙ same,
      )
