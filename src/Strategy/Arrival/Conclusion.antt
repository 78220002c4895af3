-- ===== src/Strategy/Arrival/Conclusion.antt =====
-- `conclude_accepted` of strategy.cpp: what the leader tells the client.
use libpaxos_cpp.Base.{
  Bytes, Map, Option, [], find, inl, inr, none, ok, refl, some, subst, sym, ℕ, ℕ_order, ◌∷◌, ◌≡◌,
  ◌≢◌, ◌⊎◌,
}
use libpaxos_cpp.Errors.{ErrorCode, error_inconsistent_response}
use libpaxos_cpp.Command.{
  Command, new_command, set_type, set_workload, set_host_id, set_host_endpoint,
  set_highest_proposal_id, type_request_accepted, type_request_error,
}
use libpaxos_cpp.Storage.Backend.{Backend}
use libpaxos_cpp.Strategy.Node.{Node, write}
use libpaxos_cpp.Strategy.Leader.{Round, Request, compare_responses}
use libpaxos_cpp.Strategy.Callbacks.{conclude_accepted}
use libpaxos_cpp.Strategy.Answer.{AllAck, AllSame, Differs, compare_lem}
use libpaxos_cpp.Strategy.Arrival.{CanReply, add_local-CanReply, handle_error-CanReply}
use libpaxos_cpp.Strategy.Arrival.Tally.{last_error-AllCoded}
use libpaxos_cpp.Strategy.Arrival.Replying.{AllFull, Expects}

Differs-AllSame : (w : Bytes) (m : Map ℕ Bytes) → Differs w m → ¬ AllSame w m
Differs-AllSame w [] d a = absurd d
Differs-AllSame w ((e, r) ∷ m) (inl other) a = other a.0
Differs-AllSame w ((e, r) ∷ m) (inr later) a = Differs-AllSame w m later a.1

-- Comparing the responses of a round in which none is empty.
compare_responses-AllFull :
    (m : Map ℕ Bytes)
    → m ≢ []
    → AllFull m
    → (w : Bytes) × (after : Option ErrorCode) × (compare_responses m [] none ≡ ok (w, after))
      × ((AllSame w m × (after ≡ none))
          ⊎ (((u : Bytes) → ¬ AllSame u m) × (after ≡ some error_inconsistent_response)))
unfolding compare_responses
compare_responses-AllFull [] h a = absurd (h refl)
compare_responses-AllFull ((e, []) ∷ m) h a = absurd (a.0 refl)
compare_responses-AllFull ((e, x ∷ w) ∷ m) h a =
    let (after, done, which) = compare_lem x w m none in
    (
      x ∷ w,
      after,
      done,
      elim which [
        | inl (same, agreed) ↦ inl ((refl, same), agreed)
        | inr (differ, inconsistent) ↦ inr (
          λ u all. Differs-AllSame (x ∷ w) m differ (subst (λ u. AllSame u m) (sym all.0) all.1),
          inconsistent,
        )
      ],
    )

module _ {S P D : Type 0} {b : Backend S} {connections : Map ℕ ℕ} where
  -- What the client is told once every follower has answered.
  pub conclude-Expects :
      (q : Request) {r : Round} {n : Node S P D}
      → Expects connections [] r
      → r.responses ≢ []
      → CanReply b connections n
      → (response : Command) × (conclude_accepted b q r n
          ≡ ok (write q.client_connection response ∷ []))
        × ((AllAck r.accepted
              × ((w : Bytes) × AllSame w r.responses
                  × (response.type_ ≡ type_request_accepted)
                  × (response.workload ≡ w)))
            ⊎ (AllAck r.accepted
                × ((w : Bytes) → ¬ AllSame w r.responses)
                × (response.type_ ≡ type_request_error)
                × (response.error_code ≡ error_inconsistent_response))
            ⊎ (¬ AllAck r.accepted
                × ((e : ℕ) × (code : ErrorCode) × (find e r.error_codes ≡ some code)
                    × (response.type_ ≡ type_request_error)
                    × (response.error_code ≡ code))))
  unfolding conclude_accepted
  conclude-Expects q {r} {n} x some_response k =
      let (last, done, which) = last_error-AllCoded r.accepted r.error_codes none x.coded in
      elim which [
        | inl (acks, no_error) ↦
            let (w, after, compared, how) =
              compare_responses-AllFull r.responses some_response (x.full acks) in
            elim how [
              | inl (same, agreed) ↦
                  let c : Command = set_workload w (set_type type_request_accepted new_command) in
                  (
                    set_highest_proposal_id k.highest
                        (set_host_endpoint k.us.endpoint (set_host_id k.us.id c)),
                    rw (done, no_error, compared, agreed, add_local-CanReply c k) refl,
                    inl (acks, (w, same, refl, refl)),
                  )
              | inr (differ, inconsistent) ↦
                  let (response, written, type_, because) =
                    handle_error-CanReply error_inconsistent_response q.client_connection k in
                  (
                    response,
                    rw (done, no_error, compared, inconsistent) written,
                    inr (inl (acks, differ, type_, because)),
                  )
            ]
        | inr (refused, (e, code, at, last_code)) ↦
            let (response, written, type_, because) =
              handle_error-CanReply code q.client_connection k in
            (
              response,
              rw (done, last_code) written,
              inr (inr (refused, (e, code, at, type_, because))),
            )
      ]
