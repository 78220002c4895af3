-- ===== src/Client/Send.antt =====
-- client.cpp: client::send, a request with its attempts at the servers and the waits between them.
pub mod Attempts
pub mod Finds
use libpaxos_cpp.Base.{Bytes, List, Option, Outcome, [], none, ok, some, ℕ, ◌>>=◌, ◌∷◌}
use libpaxos_cpp.Errors.{ErrorCode}
use libpaxos_cpp.Command.{Command}
use libpaxos_cpp.Quorum.ClientView.{ClientView}
use libpaxos_cpp.Client.InitiateRequest.{Reply, Attempt, replied, awaiting, step1, receive}
use libpaxos_cpp.Client.Retry.{Promise, Next, retry_after, finish, on_reply}

-- What each server answers over its connection: an error of the connection, or a command.
abbrev pub Answers : Type 0
Answers = ℕ → Option ErrorCode × Command

-- One attempt: the request to the server that is taken for the leader, and its answer.
unfoldable pub attempt_request : Bytes → Answers → ℕ → ClientView → Outcome (ClientView × Reply)
attempt_request byte_array answers now q = do
  (q, attempt) ← step1 byte_array now q
  elim attempt [
    | replied reply ↦ ok (q, reply)
    | awaiting leader connection c ↦ receive now leader (answers leader).0 (answers leader).1 q
  ]

-- The attempts at one request at these times, the timer not cancelled: the promise as it is set, or
-- none yet where the times run out.
unfoldable pub send :
    Bytes → Answers → ℕ → List ℕ → ClientView → Outcome (Option Promise × ClientView)
send byte_array answers retries [] q = ok (none, q)
send byte_array answers retries (now ∷ times) q = do
  (q, reply) ← attempt_request byte_array answers now q
  next ← on_reply retries reply
  elim next [
    | finish p ↦ ok (some p, q)
    | retry_after _ fewer ↦ send byte_array answers fewer times q
  ]
