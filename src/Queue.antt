-- ===== src/Queue.antt =====
-- detail/request_queue/queue.hpp and queue.inl: at most one request is processed at a time.
pub mod Fifo
use libpaxos_cpp.Base.{
  Bool, List, Option, Outcome, [], assert, drop, false, if◌then◌else◌, is_empty, none, not, ok,
  some, true, ◌++◌, ◌>>=◌, ◌>>◌, ◌∷◌,
}

-- The mutex makes `push` and `pop` atomic up to the call of the callback.
pub record Queue {ℓ} (A : Type ℓ) : Type ℓ where
  pub request_being_processed : Bool
  pub queue : List A

module _ {ℓ} {A : Type ℓ} where
  abbrev pub new_queue : Queue A
  new_queue = record { request_being_processed = false; queue = [] }

  -- A queue that works on its first request.
  abbrev pub busy : A → List A → Queue A
  busy request rest = record { request_being_processed = true; queue = request ∷ rest }

  unfoldable pub start_request_locked : Queue A → Outcome (Queue A)
  start_request_locked q = do
    assert (not q.request_being_processed)
    ok (record q { request_being_processed = true })

  -- The request that the callback must be called with, if any.
  unfoldable pub push_locked : A → Queue A → Outcome (Queue A × Option A)
  push_locked request q =
      let q = record q { queue = q.queue ++ request ∷ [] } in
      if q.request_being_processed
      then ok (q, none)
      else (start_request_locked q >>= λ q. ok (q, some request))

  unfoldable pub pop_locked : Queue A → Outcome (Queue A × Option A)
  pop_locked q = do
    assert (not (is_empty q.queue))
    assert q.request_being_processed
    let q = record q { queue = drop 1 q.queue; request_being_processed = false }
    elim q.queue [
      | [] ↦ ok (q, none)
      | request ∷ rest ↦ (start_request_locked q >>= λ q. ok (q, some request))
    ]
