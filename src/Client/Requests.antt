-- ===== src/Client/Requests.antt =====
-- client.hpp and client.cpp: a client with all its requests, of which one at a time is worked on.
pub mod Owed
pub mod Events
pub mod Turns
pub mod Accounted
use libpaxos_cpp.Base.{
  Bytes, List, Option, Outcome, [], fault, length, none, ok, some, suc, zero, ℕ, ◌++◌, ◌>>=◌, ◌∷◌,
}
use libpaxos_cpp.Errors.{ErrorCode}
use libpaxos_cpp.Command.{Command}
use libpaxos_cpp.Queue.{Queue, new_queue, push_locked, pop_locked}
use libpaxos_cpp.Quorum.View.{add}
use libpaxos_cpp.Quorum.ClientView.{ClientView}
use libpaxos_cpp.Client.InitiateRequest.{Reply, Attempt, replied, awaiting, step1, receive}
use libpaxos_cpp.Client.Retry.{Promise, Next, retry_after, finish, on_reply}

-- A request: the value, and the promise and the retries that its callback is bound to.
pub record Pending : Type 0 where
  pub promise : ℕ
  pub byte_array : Bytes
  pub retries : ℕ

-- A client: the request whose answer is read, with the server that it went to, the timers that are
-- armed, and the promises that are set.
pub record Client : Type 0 where
  pub quorum : ClientView
  pub request_queue : Queue Pending
  pub reading : Option (ℕ × Pending)
  pub timers : List Pending
  pub promises : List (ℕ × Promise)

abbrev pub new_client : Client
new_client = record {
  quorum = record { servers = []; next_leader = none };
  request_queue = new_queue;
  reading = none;
  timers = [];
  promises = [];
}

-- client::add
unfoldable pub add_server : ℕ → Client → Client
add_server e s = record s { quorum = record s.quorum { servers = add e s.quorum.servers } }

-- The callback of a request: a timer for the next attempt, or the promise.
unfoldable pub callback : Pending → Reply → Client → Outcome Client
callback p reply s = do
  next ← on_reply p.retries reply
  elim next [
    | finish r ↦ ok (record s { promises = s.promises ++ (p.promise, r) ∷ [] })
    | retry_after _ fewer ↦ ok (record s { timers = s.timers ++ record p { retries = fewer } ∷ [] })
  ]

-- What is written to the connections.
abbrev pub Writes : Type 0
Writes = List (ℕ × Command)

-- The callback of the queue. An attempt that is given up drops the guard, whose destructor pops.
unfoldable pub start : ℕ → ℕ → Option Pending → Client → Outcome (Client × Writes)
start turns now none s = ok (s, [])
start zero now (some p) s = ok (s, [])
start (suc turns) now (some p) s = elim (step1 p.byte_array now s.quorum) [
  | fault e ↦ fault e
  | ok (q, awaiting leader connection c) ↦
      ok (record s { quorum = q; reading = some (leader, p) }, (connection, c) ∷ [])
  | ok (q, replied reply) ↦
      (callback p reply (record s { quorum = q }) >>= λ s. pop_locked s.request_queue >>= λ next.
      start turns now next.1 (record s { request_queue = next.0 }))
]

-- Each turn takes a request off the queue, so its length bounds the turns.
unfoldable pub do_request : ℕ → Pending → Client → Outcome (Client × Writes)
do_request now p s = do
  (queue, next) ← push_locked p s.request_queue
  start (length queue.queue) now next (record s { request_queue = queue })

-- The answer is read, or the connection fails: the callback is called, and the guard goes.
unfoldable pub answered :
    ℕ → Option ErrorCode → Command → ℕ × Pending → Client → Outcome (Client × Writes)
answered now error c (leader, p) s = do
  (q, reply) ← receive now leader error c s.quorum
  s ← callback p reply (record s { quorum = q; reading = none })
  (queue, next) ← pop_locked s.request_queue
  start (length queue.queue) now next (record s { request_queue = queue })

-- The first timer expires: all wait for the same time.
unfoldable pub expired : ℕ → List Pending → Client → Outcome (Client × Writes)
expired now [] s = ok (s, [])
expired now (p ∷ timers) s = do_request now p (record s { timers = timers })
