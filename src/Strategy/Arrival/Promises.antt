-- ===== src/Strategy/Arrival/Promises.antt =====
-- `receive_promise` of strategy.cpp over all the answers to a prepare.
use libpaxos_cpp.Base.{
  List, Map, Outcome, [], find, inl, inr, none, ok, refl, some, ℕ, ℕ_order, ◌++◌, ◌>>=◌, ◌∷◌, ◌≡◌,
  ◌⊎◌,
}
use libpaxos_cpp.Errors.{ErrorCode}
use libpaxos_cpp.Command.{Command, type_request_error}
use libpaxos_cpp.Storage.Backend.{Backend}
use libpaxos_cpp.Strategy.Node.{Node, Effect, write}
use libpaxos_cpp.Strategy.Leader.{Round, Request, send_accept_all}
use libpaxos_cpp.Strategy.Callbacks.{conclude_promises, receive_promise}
use libpaxos_cpp.Strategy.Answer.{AllAck}
use libpaxos_cpp.Strategy.Arrival.{Arrival, AllAgree, Refused, CanReply, handle_error-CanReply}
use libpaxos_cpp.Strategy.Arrival.Tally.{last_error-AllCoded}
use libpaxos_cpp.Strategy.Arrival.Waiting.{Promised, Waits}

module _ {S P D : Type 0} (b : Backend S) (q : Request) where
  -- The answers to a prepare, one after the other.
  abbrev pub promises :
      List (Arrival S P D) → Round → Node S P D → Outcome (Node S P D × Round × List Effect)
  promises [] r n = ok (n, r, [])
  promises (a ∷ rest) r n = do
    (n, r, effects) ←
        receive_promise b q a.error a.follower a.connection a.command r (a.meanwhile n)
    (n, r, more) ← promises rest r n
    ok (n, r, effects ++ more)

module _ {S P D : Type 0} (b : Backend S) (connections : Map ℕ ℕ) where
  -- What comes of the answers that are left: the accept to all, or one error to the client.
  abbrev pub Concludes : Request → List (Arrival S P D) → Round → Node S P D → Type 0
  Concludes q rest r n =
      (n' : Node S P D) × (r' : Round) × CanReply b connections n'
      × ((AllAck r.accepted
            × AllAgree rest
            × Promised connections r'
            × (promises b q rest r n
                ≡ (send_accept_all b q connections n' r' >>= λ es. ok (n', r', es))))
          ⊎ (¬ (AllAck r.accepted × AllAgree rest)
              × ((code : ErrorCode) × (response : Command) × (((e : ℕ) × (find e r.error_codes
                        ≡ some code))
                    ⊎ Refused code rest)
                  × (promises b q rest r n ≡ ok (n', r', write q.client_connection response ∷ []))
                  × (response.type_ ≡ type_request_error)
                  × (response.error_code ≡ code))))

module _ {S P D : Type 0} {b : Backend S} {connections : Map ℕ ℕ} where
  -- The last answer.
  pub conclude-Waits :
      (q : Request) {r : Round} {n : Node S P D}
      → Waits connections [] r
      → CanReply b connections n
      → (AllAck r.accepted × (conclude_promises b q r n ≡ send_accept_all b q connections n r))
        ⊎ (¬ AllAck r.accepted
            × ((e : ℕ) × (code : ErrorCode) × (response : Command) × (find e r.error_codes
                  ≡ some code)
                × (conclude_promises b q r n ≡ ok (write q.client_connection response ∷ []))
                × (response.type_ ≡ type_request_error)
                × (response.error_code ≡ code)))
  unfolding conclude_promises
  conclude-Waits q {r} w k =
      let (last, done, which) = last_error-AllCoded r.accepted r.error_codes none w.coded in
      elim which [
        | inl (acks, no_error) ↦ inl (acks, rw (done, no_error, w.clean acks, w.same) refl)
        | inr (refused, (e, code, at, last_code)) ↦
            let (response, written, type_, because) =
              handle_error-CanReply code q.client_connection k in
            inr (refused, (e, code, response, at, rw (done, last_code) written, type_, because))
      ]
