-- ===== src/Client/Retry/Settles.antt =====
-- A request is settled after at most one attempt more than it has retries.
use libpaxos_cpp.Base.{
  List, Option, [], ap, arith, get_elem?, length, none, ok, refl, some, suc, take, zero, ℕ, ◌<◌,
  ◌∷◌, ◌≡◌, ◌≢◌, ◌≤◌,
}
use libpaxos_cpp.Errors.{
  ErrorCode, no_error, error_no_leader, error_incorrect_proposal, error_inconsistent_response,
  error_connection_close, error_no_majority,
}
use libpaxos_cpp.Client.InitiateRequest.{Reply}
use libpaxos_cpp.Client.Retry.{
  Exception, Promise, set_value, set_exception, exception_of, on_reply, do_request,
}

-- Replies that carry an error.
abbrev pub AllFailed : List Reply → Type 0
AllFailed [] = Unit {0}
AllFailed ((none, _) ∷ replies) = ⊥
AllFailed ((some _, _) ∷ replies) = AllFailed replies

-- An error that is reported is one.
abbrev pub AllErrors : List Reply → Type 0
AllErrors [] = Unit {0}
AllErrors ((none, _) ∷ replies) = AllErrors replies
AllErrors ((some e, _) ∷ replies) = (e ≢ no_error) × AllErrors replies

-- What the promise is set to by the reply to the last attempt that is made, after `m` others.
abbrev pub Settles : ℕ → ℕ → Promise → Option Reply → Type 0
Settles retries m p none = ⊥
Settles retries m p (some (none, response)) = p ≡ set_value response
Settles retries m p (some (some error, response)) =
    (m ≡ retries) × ((x : Exception) × (exception_of error ≡ ok x) × (p ≡ set_exception x))

pub exception_of_lem : (e : ErrorCode) → e ≢ no_error → (x : Exception) × (exception_of e ≡ ok x)
unfolding exception_of
exception_of_lem no_error h = absurd (h refl)
exception_of_lem error_no_leader h = (_, refl)
exception_of_lem error_incorrect_proposal h = (_, refl)
exception_of_lem error_inconsistent_response h = (_, refl)
exception_of_lem error_connection_close h = (_, refl)
exception_of_lem error_no_majority h = (_, refl)

Settles-suc :
    (retries m : ℕ) (p : Promise) (o : Option Reply)
    → Settles retries m p o
    → Settles (suc retries) (suc m) p o
Settles-suc retries m p none s = s
Settles-suc retries m p (some (none, response)) s = s
Settles-suc retries m p (some (some error, response)) (e, x) = (ap suc e, x)

-- Given a reply to every attempt, of which no error is no_error, the promise is set after at most
-- one attempt more than there are retries: by the first reply without an error, or else by the
-- exception for the error of the last attempt.
pub do_request-Settles :
    (retries : ℕ) (replies : List Reply)
    → retries < length replies
    → AllErrors replies
    → (m : ℕ) × (p : Promise) × (do_request retries replies ≡ ok (some p, suc m))
      × (m ≤ retries)
      × AllFailed (take m replies)
      × Settles retries m p (get_elem? replies m)
unfolding do_request on_reply
do_request-Settles retries [] h a = absurd (omega arith)
do_request-Settles retries ((none, response) ∷ replies) h a =
    (0, set_value response, refl, omega arith, tt, refl)
do_request-Settles zero ((some error, response) ∷ replies) h (real, a) =
    let (x, e) = exception_of_lem error real in
    (0, set_exception x, rw (e, do_request), omega arith, tt, (refl, (x, e, refl)))
do_request-Settles (suc retries) ((some error, response) ∷ replies) h (real, a) =
    let (m, p, done, few, failed, s) = do_request-Settles retries replies (omega arith) a in
    (suc m, p, rw done, omega arith, failed, Settles-suc retries m p (get_elem? replies m) s)
