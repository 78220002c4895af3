-- ===== src/Server/Dispatch.antt =====
-- command_dispatcher::dispatch_command, and the callback of the request queue.
pub mod Turns
pub mod Rounds
pub mod Serves
use libpaxos_cpp.Errors.{ErrorCode}
use libpaxos_cpp.Command.{
  Command, CommandType, type_request_initiate, type_request_prepare, type_request_accept,
}
use libpaxos_cpp.Queue.{Queue, push_locked, pop_locked}
use libpaxos_cpp.Strategy.Node.{Node, Effect}
use libpaxos_cpp.Strategy.Interface.{Strategy}
use libpaxos_cpp.Strategy.Leader.{Round, Request}
use libpaxos_cpp.Base.{
  Bytes, List, Option, Outcome, [], fault, length, none, ok, some, suc, unreachable, zero, ℕ, ℤ,
  ◌++◌, ◌>>=◌,
}

-- strategy::request, less the references to the quorum and the context of the server itself.
pub record Pending : Type 0 where
  pub connection : ℕ
  pub command : Command

-- A server: its node, the queue of paxos_context, and the round in progress with its request.
pub record Server (S P D : Type 0) : Type 0 where
  pub node : Node S P D
  pub request_queue : Queue Pending
  pub round : Option (Request × Round)

-- What dispatching a command asks of the connections.
pub data Output : Type 0 where
  effects : List Effect → Output
  close : ℕ → Output

abbrev request_of : Pending → Request
request_of p = record { client_connection = p.connection; byte_array = p.command.workload }

module _ {S P D : Type 0} (x : Strategy S P D) (processor : ℤ → Bytes → P → Bytes × P) where
  -- The callback of the queue. Where `initiate` keeps no round the queue guard is dropped at once,
  -- and the destructor pops: as many times as requests wait.
  unfoldable pub process :
      ℕ → ℕ → Option Pending → Server S P D → Outcome (Server S P D × List Effect)
  process rounds now none s = ok (s, [])
  process zero now (some p) s = ok (s, [])
  process (suc rounds) now (some p) s = elim (x.initiate (request_of p) now s.node) [
    | fault e ↦ fault e
    | ok (n, some r, es) ↦ ok (record s { node = n; round = some (request_of p, r) }, es)
    | ok (n, none, es) ↦
        (pop_locked s.request_queue >>= λ next.
        process rounds now next.1 (record s { node = n; request_queue = next.0 }) >>= λ rest.
        ok (rest.0, es ++ rest.1))
  ]

  -- request_queue ().push. Each turn of `process` takes a request off the queue, so its length bounds
  -- the turns.
  unfoldable pub push : ℕ → Pending → Server S P D → Outcome (Server S P D × List Effect)
  push now p s = do
    (queue, next) ← push_locked p s.request_queue
    process (length queue.queue) now next (record s { request_queue = queue })

  -- The last reference to the round goes: its guard is destroyed.
  unfoldable pub release : ℕ → Server S P D → Outcome (Server S P D × List Effect)
  release now s = do
    (queue, next) ← pop_locked s.request_queue
    process (length queue.queue) now next (record s { request_queue = queue; round = none })

  unfoldable pub dispatch_type :
      CommandType → ℕ → Command → ℕ → Server S P D → Outcome (Server S P D × Output)
  dispatch_type type_request_initiate connection c now s =
      push now (record { connection = connection; command = c }) s >>= λ r. ok (r.0, effects r.1)
  dispatch_type type_request_prepare connection c now s =
      x.prepare connection c now s.node >>= λ r. ok (record s { node = r.0 }, effects r.1)
  dispatch_type type_request_accept connection c now s =
      x.accept processor connection c s.node >>= λ r. ok (record s { node = r.0 }, effects r.1)
  dispatch_type _ connection c now s = fault unreachable

  unfoldable pub dispatch_command :
      Option ErrorCode → ℕ → Command → ℕ → Server S P D → Outcome (Server S P D × Output)
  dispatch_command (some error) connection c now s = ok (s, close connection)
  dispatch_command none connection c now s = dispatch_type c.type_ connection c now s
