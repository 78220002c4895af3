-- ===== src/Strategy/Arrival.antt =====
-- The answers of the followers that strategy.cpp waits for, in whatever order they arrive.
pub mod Tally
pub mod Waiting
pub mod Promises
pub mod Replying
pub mod Gathers
pub mod Conclusion
pub mod Replies
use libpaxos_cpp.Base.{
  Ascending, List, Map, Option, Outcome, [], ap, arith, erase, false, fault, find, find-erase, inl,
  inr, insert, length, length-erase, none, ok, refl, some, true, ℕ, ℕ_order, ℤ, ◌++◌, ◌+◌, ◌==◌,
  ◌>>=◌, ◌∷◌, ◌≡◌, ◌≢◌, ◌⊎◌,
}
use mathlib.Core.List.{append-nil}
use libpaxos_cpp.Errors.{ErrorCode}
use libpaxos_cpp.Command.{
  Command, CommandType, new_command, set_type, set_error_code, set_host_id, set_host_endpoint,
  set_highest_proposal_id, type_request_fail, type_request_error,
}
use libpaxos_cpp.Storage.Backend.{Backend}
use libpaxos_cpp.Quorum.Server.{Server}
use libpaxos_cpp.Quorum.Server
use libpaxos_cpp.Quorum.View.{connection_died}
use libpaxos_cpp.Quorum.View.Laws.{modify_known, known-insert, lookup_known}
use libpaxos_cpp.Strategy.Node.{
  Node, Effect, write, proposal_id, add_local_host_information, handle_error,
  process_remote_host_information,
}
use libpaxos_cpp.Strategy.Leader.{Round, is_error}
use libpaxos_cpp.Strategy.Callbacks.{lost}

-- What the other handlers of the leader did since the last answer, and the next answer.
pub record Arrival (S P D : Type 0) : Type 0 where
  pub meanwhile : Node S P D → Node S P D
  pub error : Option ErrorCode
  pub follower : ℕ
  pub connection : ℕ
  pub command : Command

abbrev pub refused_by : CommandType → ErrorCode → Option ErrorCode
refused_by type_request_fail code = some code
refused_by _ code = none

-- The error that an answer refuses with.
abbrev pub refusal : Option ErrorCode → Command → Option ErrorCode
refusal (some error) c = some error
refusal none c = refused_by c.type_ c.error_code

-- A follower answers with its endpoint and id, and refuses with an error that is not `no_error`.
abbrev pub IsAnswer : (Command → Type 0) → Option ErrorCode → ℕ → Command → Type 0
IsAnswer Agrees (some error) e c = is_error error ≡ true
IsAnswer Agrees none e c =
    (c.host_endpoint ≡ some e)
    × ((id : ℕ) × (c.host_id ≡ some id))
    × (Agrees c ⊎ ((c.type_ ≡ type_request_fail) × (is_error c.error_code ≡ true)))

module _ {S P D : Type 0} where
  -- Every follower answers once, over the connection of the round.
  abbrev pub Owed : Map ℕ ℕ → List (Arrival S P D) → Type 0
  Owed m [] = m ≡ []
  Owed m (a ∷ rest) = (find a.follower m ≡ some a.connection) × Owed (erase a.follower m) rest

  -- All answers but the last.
  abbrev pub but_last : List (Arrival S P D) → List (Arrival S P D)
  but_last [] = []
  but_last (a ∷ []) = []
  but_last (a ∷ a2 ∷ rest) = a ∷ but_last (a2 ∷ rest)

  abbrev pub AllAgree : List (Arrival S P D) → Type 0
  AllAgree [] = Unit {0}
  AllAgree (a ∷ rest) = (refusal a.error a.command ≡ none) × AllAgree rest

  -- Some answer refuses with this error.
  abbrev pub Refused : ErrorCode → List (Arrival S P D) → Type 0
  Refused code [] = ⊥
  Refused code (a ∷ rest) = (refusal a.error a.command ≡ some code) ⊎ Refused code rest

module _ {S P D : Type 0} (b : Backend S) (connections : Map ℕ ℕ) where
  -- The leader lists itself and the followers of the round, and its storage is in order.
  pub record CanReply (n : Node S P D) : Type 0 where
    pub us : Server
    pub listed_us : find n.quorum.our_endpoint n.quorum.servers ≡ some us
    pub highest : ℤ
    pub stored : proposal_id b n ≡ ok highest
    pub listed :
        (e c : ℕ) → find e connections ≡ some c → (s : Server) × (find e n.quorum.servers ≡ some s)

  module _ (Agrees : Command → Type 0) where
    abbrev pub AllAnswers : List (Arrival S P D) → Type 0
    AllAnswers [] = Unit {0}
    AllAnswers (a ∷ rest) =
        IsAnswer Agrees a.error a.follower a.command
        × ((n : Node S P D) → CanReply n → CanReply (a.meanwhile n))
        × AllAnswers rest

module _ {S P D : Type 0} {b : Backend S} {connections : Map ℕ ℕ} where
  insert-CanReply :
      (e : ℕ) (s : Server) {n : Node S P D}
      → CanReply b connections n
      → CanReply b connections
          (record n { quorum = record n.quorum { servers = insert e s n.quorum.servers } })
  unfolding proposal_id
  insert-CanReply e s {n} k =
      let (us, at) = known-insert e n.quorum.our_endpoint s n.quorum.servers k.listed_us in
      record {
        us = us;
        listed_us = at;
        highest = k.highest;
        stored = k.stored;
        listed = λ j c h. known-insert e j s n.quorum.servers (k.listed j c h).1;
      }

  pub lost-CanReply :
      (e c : ℕ) {n : Node S P D}
      → find e connections ≡ some c
      → CanReply b connections n
      → (n' : Node S P D) × (lost e n ≡ ok n') × CanReply b connections n'
  unfolding connection_died
  lost-CanReply e c {n} h k =
      let (s, at) = k.listed e c h in
      (
        _,
        rw (modify_known e Server.reset_connection n.quorum.servers s at),
        insert-CanReply e (Server.reset_connection s) k,
      )

  pub process-CanReply :
      (e c id : ℕ) (command : Command) {n : Node S P D}
      → find e connections ≡ some c
      → command.host_endpoint ≡ some e
      → command.host_id ≡ some id
      → CanReply b connections n
      → (n' : Node S P D) × (process_remote_host_information command n ≡ ok n')
        × CanReply b connections n'
  unfolding process_remote_host_information
  process-CanReply e c id command {n} h from is k =
      let (s, at) = k.listed e c h in
      let f : Server → Server =
        λ s. Server.set_highest_proposal_id command.highest_proposal_id (Server.set_id id s) in
      (
        _,
        rw (from, is, lookup_known e n.quorum.servers s at, modify_known e f n.quorum.servers s at),
        insert-CanReply e (f s) k,
      )

  pub add_local-CanReply :
      (c : Command) {n : Node S P D}
      → (k : CanReply b connections n)
      → add_local_host_information b n c
        ≡ ok (
            set_highest_proposal_id k.highest
              (set_host_endpoint k.us.endpoint (set_host_id k.us.id c)))
  unfolding add_local_host_information
  add_local-CanReply c {n} k =
      rw (lookup_known n.quorum.our_endpoint n.quorum.servers k.us k.listed_us, k.stored)

  pub handle_error-CanReply :
      (code : ErrorCode) (client : ℕ) {n : Node S P D}
      → CanReply b connections n
      → (response : Command) × (handle_error b code client n ≡ ok (write client response ∷ []))
        × (response.type_ ≡ type_request_error)
        × (response.error_code ≡ code)
  unfolding handle_error
  handle_error-CanReply code client k =
      let c : Command = set_error_code code (set_type type_request_error new_command) in
      (
        set_highest_proposal_id k.highest (set_host_endpoint k.us.endpoint (set_host_id k.us.id c)),
        rw (add_local-CanReply c k),
        refl,
        refl,
      )

module _ (Agrees : Command → Type 0)
    (agreed : (c : Command) → Agrees c → refused_by c.type_ c.error_code ≡ none) where
  pub refusal-IsAnswer :
      (error : Option ErrorCode) (e : ℕ) (c : Command)
      → IsAnswer Agrees error e c
      → (refusal error c ≡ none)
        ⊎ ((code : ErrorCode) × (refusal error c ≡ some code) × (is_error code ≡ true))
  refusal-IsAnswer (some error) e c h = inr (error, refl, h)
  refusal-IsAnswer none e c (from, is, inl agree) = inl (agreed c agree)
  refusal-IsAnswer none e c (from, is, inr (fail, real)) = inr (c.error_code, rw fail refl, real)

-- What was owed before an answer is owed after it, but for the answer.
pub find_owed :
    (e j c : ℕ) (m : Map ℕ ℕ)
    → Ascending m
    → find j (erase e m) ≡ some c
    → (e ≢ j) × (find j m ≡ some c)
find_owed e j c m a h = ground (arith, find-erase e j m a)

-- What a handler leaves: the node, the round, and what it writes.
abbrev pub Left : (S P D : Type 0) → Type 0
Left S P D = Node S P D × Round × List Effect

module _ {S P D : Type 0} where
  -- Nothing is written after the last answer.
  pub last_lem :
      (n : Node S P D) (r : Round) (o : Outcome (List Effect))
      → ◌>>=◌ {A = Left S P D} {B = Left S P D}
          (◌>>=◌ {B = Left S P D} o (λ es. ok (n, r, es)))
          (λ p. ok (p.0, p.1, p.2 ++ []))
        ≡ ◌>>=◌ {B = Left S P D} o (λ es. ok (n, r, es))
  last_lem n r (ok es) = ap {B = Outcome (Left S P D)} (λ es. ok (n, r, es)) (append-nil es)
  last_lem n r (fault e) = refl

  -- Nothing is written before it.
  pub more_lem :
      (o : Outcome (Left S P D))
      → ◌>>=◌ {A = Left S P D} {B = Left S P D} o (λ p. ok (p.0, p.1, [] ++ p.2)) ≡ o
  more_lem (ok (n, r, more)) = refl
  more_lem (fault e) = refl

-- The tests with which the leader sees whether all have answered.
pub all_answered :
    {A : Type 0} (sent connections : Map ℕ ℕ) (heard : Map ℕ A)
    → sent ≡ connections
    → length heard + 0 ≡ length connections
    → (length sent == length heard) ≡ true
all_answered sent connections heard same count = ground (arith, count, ap length same)

pub one_owed :
    {A : Type 0} (e c : ℕ) (m sent connections : Map ℕ ℕ) (heard : Map ℕ A)
    → find e m ≡ some c
    → sent ≡ connections
    → length heard + length m ≡ length connections
    → (length sent == length heard) ≡ false
one_owed e c m sent connections heard at same count =
    ground (arith, count, ap length same, length-erase e c m at)
