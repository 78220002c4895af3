-- ===== src/Client/Retry.antt =====
-- client.cpp: client::do_request, which retries a failed request and sets the promise.
pub mod Settles
use libpaxos_cpp.Errors.{
  ErrorCode, no_error, error_no_leader, error_incorrect_proposal, error_inconsistent_response,
  error_connection_close, error_no_majority,
}
use libpaxos_cpp.Client.InitiateRequest.{Reply}
use libpaxos_cpp.Base.{
  Bytes, List, Option, Outcome, [], fault, none, ok, some, suc, unreachable, zero, ℕ, ◌>>=◌, ◌∷◌,
}

-- exception/exception.hpp
pub data Exception : Type 0 where
  no_leader : Exception
  incorrect_proposal : Exception
  inconsistent_response : Exception
  connection_close : Exception
  no_majority : Exception

-- What becomes of the promise.
pub data Promise : Type 0 where
  set_value : Bytes → Promise
  set_exception : Exception → Promise

unfoldable pub exception_of : ErrorCode → Outcome Exception
exception_of error_no_leader = ok no_leader
exception_of error_incorrect_proposal = ok incorrect_proposal
exception_of error_inconsistent_response = ok inconsistent_response
exception_of error_connection_close = ok connection_close
exception_of error_no_majority = ok no_majority
exception_of no_error = fault unreachable

-- What the callback of a request does: wait on the timer and make the request again with this many
-- retries, or set the promise.
pub data Next : Type 0 where
  retry_after : (milliseconds retries : ℕ) → Next
  finish : Promise → Next

unfoldable pub on_reply : ℕ → Reply → Outcome Next
on_reply retries (none, response) = ok (finish (set_value response))
on_reply zero (some error, response) = do e ← exception_of error; ok (finish (set_exception e))
on_reply (suc retries) (some error, response) = ok (retry_after 500 retries)

-- The replies to the attempts at one request, the timer not cancelled: the promise as it is set, the
-- attempts made, or no promise yet where the replies run out.
unfoldable pub do_request : ℕ → List Reply → Outcome (Option Promise × ℕ)
do_request retries [] = ok (none, 0)
do_request retries (reply ∷ replies) = elim (on_reply retries reply) [
  | fault e ↦ fault e
  | ok (finish p) ↦ ok (some p, 1)
  | ok (retry_after _ fewer) ↦ (do_request fewer replies >>= λ r. ok (r.0, suc r.1))
]
