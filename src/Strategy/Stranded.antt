-- ===== src/Strategy/Stranded.antt =====
-- A follower that lacks values which the leader's heap has removed.
use libpaxos_cpp.Base.{
  Bytes, List, [], aborted, ap, arith, false, fault, from_key, length, length-take, ok, pos, refl,
  suc, take, ℕ, ℕ_order, ℤ, ℤ_order, ◌<◌, ◌==ℤ◌, ◌∙◌, ◌∷◌, ◌≡◌,
}
use libpaxos_cpp.Command.{Command, add_proposed_workload}
use libpaxos_cpp.Storage.Log.{Log, enumerate, from_key-enumerate_below}
use libpaxos_cpp.Storage.Backend.{Backend, IsBackend}
use libpaxos_cpp.Storage.Heap.{Heap, heap, retrieve}
use libpaxos_cpp.Storage.Heap.Refines.{heap-IsBackend}
use libpaxos_cpp.Strategy.Node.{Node}
use libpaxos_cpp.Strategy.Leader.{proposal}
use libpaxos_cpp.Strategy.Follower.{accept_one, accept_all, accept}
use libpaxos_cpp.Strategy.Follower.CatchUp.{Replica, Replica-proposal_id}
use libpaxos_cpp.Strategy.Follower.Replication.{IsFrom, process_remote}

module _ {T P E : Type 0} {b : Backend T} {Holds : T → Log → Type 0} (laws : IsBackend b Holds)
    (processor : ℤ → Bytes → P → Bytes × P) (start : P) where
  -- A follower that is sent a value with an id beyond its next one aborts.
  gap_aborts :
      (back k : ℕ) (v : Bytes) (vs : List Bytes) (c : Command) {n : Node T P E}
      {history : List Bytes}
      → Replica laws processor start n history
      → IsFrom c n
      → suc (length history) < k
      → c.proposed_workload ≡ enumerate k (v ∷ vs)
      → accept b processor back c n ≡ fault aborted
  unfolding accept accept_all accept_one
  gap_aborts back k v vs c {n} {history} r from far sent =
      let (n1, heard, r1, state, _) = process_remote laws processor start c from r in
      let wrong : (pos k ==ℤ pos (suc (length history))) ≡ false = ground arith in
      rw (heard, sent, Replica-proposal_id laws processor start r1, wrong)

  -- Where the leader's heap has removed values that a follower lacks, the leader proposes the new
  -- value alone, and the follower, to which that id is not the next one, aborts.
  pub stranded_aborts :
      {D : Type 0} (v : Bytes) (back p : ℕ) (c : Command) {n : Node Heap P D} {m : Node T P E}
      {history : List Bytes}
      → (r : Replica heap-IsBackend processor start n history) → p < r.log.base
      → Replica laws processor start m (take p history)
      → IsFrom c m
      → (c' : Command) × (proposal heap n v (pos p) c ≡ ok c')
        × (c'.proposed_workload ≡ enumerate (suc (length history)) (v ∷ []))
        × (accept b processor back c' m ≡ fault aborted)
  unfolding proposal add_proposed_workload retrieve
  stranded_aborts v back p c {n} {m} {history} r removed behind from =
      let nothing : retrieve n.storage.state (pos p) ≡ [] =
        ap (from_key (pos (suc p))) r.holds.entries
        ∙ from_key-enumerate_below (suc r.log.base) r.log.values (suc p) (omega arith) in
      let c' : Command = record c {
        proposed_workload = enumerate (suc (length history)) (v ∷ []);
      } in
      let from' : IsFrom c' m = record {
        host = from.host;
        uuid = from.uuid;
        server = from.server;
        at_host = from.at_host;
        with_uuid = from.with_uuid;
        known_host = from.known_host;
      } in
      let short : length (take p history) ≡ p =
        length-take p history (omega (arith, r.keeps.within)) in
      (
        c',
        rw (nothing, Replica-proposal_id heap-IsBackend processor start r),
        refl,
        gap_aborts back (suc (length history)) v [] c' behind from' (omega (arith, r.keeps.within))
            refl,
      )
