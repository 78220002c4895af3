-- ===== src/Strategy/Follower/Replication.antt =====
-- What the handlers of a follower do to the history that it replicates.
use libpaxos_cpp.Base.{
  Bytes, List, Map, [], ap, arith, false, find, insert, is_empty, length, ok, pos, refl, some, suc,
  ℕ, ℕ_order, ℤ, ◌++◌, ◌∙◌, ◌∷◌, ◌≡◌,
}
use libpaxos_cpp.Command.{
  Command, new_command, set_type, set_host_id, set_host_endpoint, set_highest_proposal_id,
  type_request_accepted,
}
use libpaxos_cpp.Storage.Log.{Log, enumerate}
use libpaxos_cpp.Storage.Backend.{Backend, IsBackend}
use libpaxos_cpp.Quorum.Server.{Server}
use libpaxos_cpp.Quorum.Server
use libpaxos_cpp.Quorum.View.Laws.{modify_known, lookup_known, told_insert}
use libpaxos_cpp.Strategy.Node.{
  Node, write, add_local_host_information, process_remote_host_information,
}
use libpaxos_cpp.Strategy.Follower.{accept}
use libpaxos_cpp.Strategy.Follower.CatchUp.{Replica, Replica-proposal_id, accept_rest}
use libpaxos_cpp.Strategy.Replay.{replay, answers}

-- A command that carries the information of a host that is known.
pub record IsFrom {S P D : Type 0} (c : Command) (n : Node S P D) : Type 0 where
  pub host : ℕ
  pub uuid : ℕ
  pub server : Server
  pub at_host : c.host_endpoint ≡ some host
  pub with_uuid : c.host_id ≡ some uuid
  pub known_host : find host n.quorum.servers ≡ some server

-- What the answer to an accept must be.
pub record IsAccepted (response : Command) (workload : Map ℤ Bytes) (highest : ℤ) (us : ℕ)
    : Type 0 where
  pub accepted : response.type_ ≡ type_request_accepted
  pub answered : response.proposed_workload ≡ workload
  pub reached : response.highest_proposal_id ≡ highest
  pub uuid : ℕ
  pub signed : response.host_id ≡ some uuid
  pub from_us : response.host_endpoint ≡ some us

-- What the host information leaves.
abbrev pub told_of : ℤ → ℕ → Server → Server
told_of highest uuid s = Server.set_highest_proposal_id highest (Server.set_id uuid s)

module _ {S P D : Type 0} where
  abbrev pub hears : (e : ℕ) (highest : ℤ) (uuid : ℕ) → Server → Node S P D → Node S P D
  hears e highest uuid s n = record n {
    quorum = record n.quorum { servers = insert e (told_of highest uuid s) n.quorum.servers };
  }

  pub hears_lem :
      (c : Command) {n : Node S P D}
      → (from : IsFrom c n)
      → process_remote_host_information c n
        ≡ ok (hears from.host c.highest_proposal_id from.uuid from.server n)
  unfolding process_remote_host_information
  hears_lem c {n} from = rw (
    from.at_host,
    from.with_uuid,
    lookup_known from.host n.quorum.servers from.server from.known_host,
    modify_known from.host (told_of c.highest_proposal_id from.uuid) n.quorum.servers from.server
        from.known_host,
  )

module _ {S P D : Type 0} {b : Backend S} {Holds : S → Log → Type 0} (laws : IsBackend b Holds)
    (processor : ℤ → Bytes → P → Bytes × P) (start : P) where
  -- An entry that is written, but for its endpoint, changes nothing of a history.
  pub insert-Replica :
      (e : ℕ) (f : Server → Server) (s : Server) {n : Node S P D} {history : List Bytes}
      → ((u : Server) → (f u).endpoint ≡ u.endpoint)
      → find e n.quorum.servers ≡ some s
      → (r : Replica laws processor start n history)
      → (r' : Replica laws processor start
          (record n { quorum = record n.quorum { servers = insert e (f s) n.quorum.servers } })
          history)
        × (r'.log ≡ r.log)
  insert-Replica e f s {n} keep at r =
      let (us, known, same) =
        told_insert e n.quorum.our_endpoint f s n.quorum.servers keep at r.known in
      (
        record {
          log = r.log;
          holds = r.holds;
          keeps = r.keeps;
          applied = r.applied;
          size = r.size;
          sized = r.sized;
          some_size = r.some_size;
          us = us;
          known = known;
          named = same ∙ r.named;
        },
        refl,
      )

  pub process_remote :
      {n : Node S P D} {history : List Bytes} (c : Command)
      → IsFrom c n
      → Replica laws processor start n history
      → (n' : Node S P D) × (process_remote_host_information c n ≡ ok n')
        × Replica laws processor start n' history
        × (n'.application ≡ n.application)
        × (n'.quorum.our_endpoint ≡ n.quorum.our_endpoint)
  process_remote {n} c from r = (
    hears from.host c.highest_proposal_id from.uuid from.server n,
    hears_lem c from,
    (insert-Replica from.host (told_of c.highest_proposal_id from.uuid) from.server (λ s. refl)
        from.known_host r).0,
    refl,
    refl,
  )

  -- The host information of a server that knows itself.
  pub add_local-Replica :
      {n : Node S P D} {history : List Bytes} (c : Command)
      → (r : Replica laws processor start n history)
      → add_local_host_information b n c
        ≡ ok (
            set_highest_proposal_id
              (pos (length history))
              (set_host_endpoint r.us.endpoint (set_host_id r.us.id c)))
  unfolding add_local_host_information
  add_local-Replica {n} {history} c r = rw (
    lookup_known n.quorum.our_endpoint n.quorum.servers r.us r.known,
    Replica-proposal_id laws processor start r,
  )

  local_information :
      {n : Node S P D} {history : List Bytes} (c : Command)
      → Replica laws processor start n history
      → (c' : Command) × (add_local_host_information b n c ≡ ok c')
        × (c'.type_ ≡ c.type_)
        × (c'.proposed_workload ≡ c.proposed_workload)
        × (c'.highest_proposal_id ≡ pos (length history))
        × ((id : ℕ) × (c'.host_id ≡ some id))
        × (c'.host_endpoint ≡ some n.quorum.our_endpoint)
  local_information c r =
      (_, add_local-Replica c r, refl, refl, refl, (r.us.id, refl), ap some r.named)

  -- Over any storage that fulfils IsBackend and with a callback that never answers with nothing, a
  -- follower that has stored and applied exactly a history, under a positive history size, and
  -- lists itself is sent the values that come next, at least one, by a host that it knows, with a
  -- lowest proposal id that is not negative: it applies all of them in order, each once, stores
  -- them, and answers with what its callback said to each.
  pub accept-Replica :
      (connection : ℕ) (c : Command) (v : Bytes) (vs : List Bytes) (q : ℕ) {n : Node S P D}
      {history : List Bytes}
      → ((i : ℤ) (w : Bytes) (s : P) → is_empty (processor i w s).0 ≡ false)
      → Replica laws processor start n history
      → IsFrom c n
      → c.proposed_workload ≡ enumerate (suc (length history)) (v ∷ vs)
      → c.lowest_proposal_id ≡ pos q
      → (n' : Node S P D) × (response : Command) × (accept b processor connection c n
          ≡ ok (n', write connection response ∷ []))
        × Replica laws processor start n' (history ++ v ∷ vs)
        × IsAccepted response
            (enumerate
              (suc (length history))
              (answers processor (length history) (v ∷ vs) (replay processor 0 history start)))
            (pos (length (history ++ v ∷ vs)))
            n.quorum.our_endpoint
  unfolding accept
  accept-Replica connection c v vs q {n} {history} total r from sent lowest =
      let (n1, heard, r1, state, ours) = process_remote c from r in
      let (n2, done, r2, same) =
        accept_rest laws processor start (v ∷ vs) [] (suc (length history)) q
          (set_type type_request_accepted new_command) total r1 refl (omega arith) in
      let (c', told, kind, body, top, (id, signed), from_us) =
        local_information
          (record new_command {
            type_ = type_request_accepted;
            proposed_workload =
                enumerate (suc (length history))
                  (answers processor (length history) (v ∷ vs) n1.application);
          })
          r2 in
      (
        n2,
        c',
        rw (heard, sent, lowest, done, told),
        r2,
        record {
          accepted = kind;
          answered =
              body
              ∙ ap
                  (λ a.
                    enumerate (suc (length history))
                      (answers processor (length history) (v ∷ vs) a))
                  r1.applied;
          reached = top;
          uuid = id;
          signed = signed;
          from_us = from_us ∙ ap some (same ∙ ours);
        },
      )
