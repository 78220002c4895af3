-- ===== src/Strategy/Answer.antt =====
-- What the leader answers to the client once every follower has answered.
use libpaxos_cpp.Base.{
  Bool-cases, Bytes, List, Map, Option, [], ap, arith, false, inl, inr, length, none, ok, pos, refl,
  some, true, ℕ, ℕ_order, ℤ, ◌∙◌, ◌∷◌, ◌≡◌, ◌≢◌, ◌⊎◌,
}
use libpaxos_cpp.Errors.{ErrorCode, error_inconsistent_response}
use libpaxos_cpp.Command.{
  Command, new_command, set_type, set_workload, set_error_code, set_host_id, set_host_endpoint,
  set_highest_proposal_id, type_request_accepted, type_request_error,
}
use libpaxos_cpp.Storage.Log.{Log}
use libpaxos_cpp.Storage.Backend.{Backend, IsBackend}
use libpaxos_cpp.Strategy.Node.{Node, write, handle_error}
use libpaxos_cpp.Strategy.Leader.{
  Response, Round, Request, response_ack, same_bytes, note_error, last_error, compare_responses,
}
use libpaxos_cpp.Strategy.Callbacks.{conclude_accepted}
use libpaxos_cpp.Strategy.Follower.CatchUp.{Replica}
use libpaxos_cpp.Strategy.Follower.Replication.{add_local-Replica}

-- Every follower accepted.
abbrev pub AllAck : Map ℕ Response → Type 0
AllAck [] = Unit {0}
AllAck ((e, r) ∷ accepted) = (r ≡ response_ack) × AllAck accepted

-- Every follower gave this response.
abbrev pub AllSame : Bytes → Map ℕ Bytes → Type 0
AllSame w [] = Unit {0}
AllSame w ((e, r) ∷ responses) = (r ≡ w) × AllSame w responses

-- Some follower gave another response.
abbrev pub Differs : Bytes → Map ℕ Bytes → Type 0
Differs w [] = ⊥
Differs w ((e, r) ∷ responses) = (r ≢ w) ⊎ Differs w responses

pub same_bytes_lem : (s t : Bytes) → same_bytes s t ≡ true → t ≡ s
same_bytes_lem [] [] h = refl
same_bytes_lem [] (c ∷ t) h = cc
same_bytes_lem (a ∷ s) [] h = cc
same_bytes_lem (a ∷ s) (c ∷ t) h = ground (arith, same_bytes_lem s t)

pub same_bytes_refl : (s : Bytes) → same_bytes s s ≡ true
same_bytes_refl [] = refl
same_bytes_refl (a ∷ s) = ground (arith, same_bytes_refl s)

last_error-AllAck :
    (accepted : Map ℕ Response) (codes : Map ℕ ErrorCode)
    → AllAck accepted
    → last_error accepted codes none ≡ ok none
unfolding last_error note_error
last_error-AllAck [] codes a = refl
last_error-AllAck ((e, r) ∷ accepted) codes (ack, a) = rw ack (last_error-AllAck accepted codes a)

-- Comparing with a response that is not empty.
pub compare_lem :
    (x : ℕ) (w : Bytes) (responses : Map ℕ Bytes) (before : Option ErrorCode)
    → (after : Option ErrorCode) × (compare_responses responses (x ∷ w) before ≡ ok (x ∷ w, after))
      × ((AllSame (x ∷ w) responses × (after ≡ before))
          ⊎ (Differs (x ∷ w) responses × (after ≡ some error_inconsistent_response)))
unfolding compare_responses
compare_lem x w [] before = (before, refl, inl (tt, refl))
compare_lem x w ((e, r) ∷ responses) before = elim (Bool-cases (same_bytes (x ∷ w) r)) [
  | inl same ↦
      let (after, done, which) = compare_lem x w responses before in
      (after, rw (same, compare_responses) done, agree after which (same_bytes_lem (x ∷ w) r same))
  | inr other ↦
      let (after, done, which) = compare_lem x w responses (some error_inconsistent_response) in
      (after, rw (other, compare_responses) done, inr (inl (differ other), late after which))
]
  where
    agree :
        (after : Option ErrorCode)
        → (AllSame (x ∷ w) responses × (after ≡ before))
          ⊎ (Differs (x ∷ w) responses × (after ≡ some error_inconsistent_response))
        → r ≡ x ∷ w
        → (((r ≡ x ∷ w) × AllSame (x ∷ w) responses) × (after ≡ before))
          ⊎ (((r ≢ x ∷ w) ⊎ Differs (x ∷ w) responses) × (after ≡ some error_inconsistent_response))
    agree after (inl (a, e)) h = inl ((h, a), e)
    agree after (inr (d, e)) h = inr (inr d, e)

    late :
        (after : Option ErrorCode)
        → (AllSame (x ∷ w) responses × (after ≡ some error_inconsistent_response))
          ⊎ (Differs (x ∷ w) responses × (after ≡ some error_inconsistent_response))
        → after ≡ some error_inconsistent_response
    late after (inl (a, e)) = e
    late after (inr (d, e)) = e

    differ : same_bytes (x ∷ w) r ≡ false → r ≢ x ∷ w
    differ other e =
        let yes_same : same_bytes (x ∷ w) r ≡ true =
          ap (same_bytes (x ∷ w)) e ∙ same_bytes_refl (x ∷ w) in
        cc

module _ {S P D : Type 0} {b : Backend S} {Holds : S → Log → Type 0} (laws : IsBackend b Holds)
    (processor : ℤ → Bytes → P → Bytes × P) (start : P) where
  -- Once every follower has accepted and the first response is not empty, the leader, whose own
  -- entry and storage are in order, answers the client exactly once: with the common response
  -- where all responses are the same, and with an inconsistent response where one differs from the
  -- first.
  pub conclude_accepted-AllAck :
      (q : Request) (r : Round) (e x : ℕ) (w : Bytes) (responses : Map ℕ Bytes) {n : Node S P D}
      {history : List Bytes}
      → Replica laws processor start n history
      → AllAck r.accepted
      → r.responses ≡ (e, x ∷ w) ∷ responses
      → (response : Command) × (conclude_accepted b q r n
          ≡ ok (write q.client_connection response ∷ []))
        × ((AllSame (x ∷ w) responses
              × (response.type_ ≡ type_request_accepted)
              × (response.workload ≡ x ∷ w))
            ⊎ (Differs (x ∷ w) responses
                × (response.type_ ≡ type_request_error)
                × (response.error_code ≡ error_inconsistent_response)))
  unfolding conclude_accepted compare_responses handle_error
  conclude_accepted-AllAck q r e x w responses {n} {history} replica acks given =
      let signed : Command → Command = λ c.
        set_highest_proposal_id (pos (length history))
          (set_host_endpoint replica.us.endpoint (set_host_id replica.us.id c)) in
      let agreed : Command = set_workload (x ∷ w) (set_type type_request_accepted new_command) in
      let failed : Command =
        set_error_code error_inconsistent_response (set_type type_request_error new_command) in
      let (after, done, which) = compare_lem x w responses none in
      elim which [
        | inl (same, none_after) ↦ (
          signed agreed,
          rw (
            last_error-AllAck r.accepted r.error_codes acks,
            given,
            done,
            none_after,
            add_local-Replica laws processor start agreed replica,
          ),
          inl (same, refl, refl),
        )
        | inr (differs, some_after) ↦ (
          signed failed,
          rw (
            last_error-AllAck r.accepted r.error_codes acks,
            given,
            done,
            some_after,
            add_local-Replica laws processor start failed replica,
          ),
          inr (differs, refl, refl),
        )
      ]
