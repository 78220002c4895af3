-- ===== src/Strategy/Arrival/Replies.antt =====
-- `receive_accepted` of strategy.cpp over all the answers to an accept.
use libpaxos_cpp.Base.{
  Ascending, Bytes, List, Map, Option, Outcome, [], ap, arith, erase, false, inl, inr, length,
  length-erase, ok, refl, subst, true, ℕ, ℕ_order, ◌++◌, ◌==◌, ◌>>=◌, ◌∙◌, ◌∷◌, ◌≡◌, ◌≢◌, ◌⊎◌,
}
use libpaxos_cpp.Errors.{ErrorCode, error_inconsistent_response}
use libpaxos_cpp.Command.{Command, type_request_accepted, type_request_error}
use libpaxos_cpp.Storage.Backend.{Backend}
use libpaxos_cpp.Strategy.Node.{Node, Effect, write}
use libpaxos_cpp.Strategy.Leader.{Round, Request}
use libpaxos_cpp.Strategy.Callbacks.{conclude_accepted, receive_accepted}
use libpaxos_cpp.Strategy.Arrival.{
  Arrival, last_lem, more_lem, refusal, Owed, but_last, AllAgree, Refused, CanReply, AllAnswers,
  all_answered, one_owed,
}
use libpaxos_cpp.Strategy.Arrival.Tally.{AllAck-AllCoded}
use libpaxos_cpp.Strategy.Arrival.Replying.{
  IsAccepted, reply, replied, Expects, replied-Expects, refusal-IsAccepted, absorb_accepted-Expects,
}
use libpaxos_cpp.Strategy.Arrival.Gathers.{AllReply, Gathers, Gathers-cons, Gathers-one}
use libpaxos_cpp.Strategy.Arrival.Waiting.{Promised}
use libpaxos_cpp.Strategy.Arrival.Conclusion.{conclude-Expects}

module _ {S P D : Type 0} (b : Backend S) (q : Request) where
  -- The answers to an accept, one after the other.
  abbrev pub replies :
      List (Arrival S P D) → Round → Node S P D → Outcome (Node S P D × Round × List Effect)
  replies [] r n = ok (n, r, [])
  replies (a ∷ rest) r n = do
    (n, r, effects) ← receive_accepted b q a.error a.follower a.command r (a.meanwhile n)
    (n, r, more) ← replies rest r n
    ok (n, r, effects ++ more)

-- A round that every follower has promised expects all their replies.
start_of_replies :
    {connections : Map ℕ ℕ} {r : Round}
    → Ascending connections
    → Promised connections r
    → Expects connections connections r
start_of_replies {connections} {r} ascending p = record {
  same = p.same;
  ascending = ascending;
  within = λ e c h. h;
  count = omega (arith, ap length p.silent);
  fresh = λ e c h. rw p.silent refl;
  promised = p.each;
  uncoded = λ e c h. rw p.clean refl;
  coded = AllAck-AllCoded r.accepted r.error_codes p.acks;
  full = λ acks. rw p.silent tt;
}

module _ {S P D : Type 0} {b : Backend S} {connections : Map ℕ ℕ} where
  replies-Gathers :
      (q : Request) (a : Arrival S P D) (rest : List (Arrival S P D)) {m : Map ℕ ℕ} {r : Round}
      {n : Node S P D}
      → AllAnswers b connections IsAccepted (a ∷ rest)
      → Owed m (a ∷ rest)
      → Expects connections m r
      → CanReply b connections n
      → (n' : Node S P D) × (r' : Round) × CanReply b connections n'
        × Expects connections [] r'
        × Gathers (a ∷ rest) r r'
        × (replies b q (a ∷ rest) r n ≡ (conclude_accepted b q r' n' >>= λ es. ok (n', r', es)))
  unfolding receive_accepted
  replies-Gathers q a [] {m} {r} {n} (answer, keep, _) (at, none_left) x k =
      let v : Option ErrorCode = refusal a.error a.command in
      let r1 : Round = replied a.follower v (reply a.error a.command) r in
      let (n1, absorbed, k1) =
        absorb_accepted-Expects a.error a.follower a.connection a.command answer at x (keep n k) in
      let x1 : Expects connections [] r1 =
        subst (λ m. Expects connections m r1) none_left
          (replied-Expects a.follower a.connection v (reply a.error a.command) at
            (refusal-IsAccepted a.error a.follower a.command answer) x) in
      let full : (length r1.connections == length r1.responses) ≡ true =
        all_answered r1.connections connections r1.responses x1.same x1.count in
      (
        n1,
        r1,
        k1,
        x1,
        Gathers-one a r at x,
        rw (absorbed, full) (last_lem n1 r1 (conclude_accepted b q r1 n1)),
      )
  replies-Gathers q a (a2 ∷ rest) {m} {r} {n} (answer, keep, answers) (at, owed) x k =
      let v : Option ErrorCode = refusal a.error a.command in
      let r1 : Round = replied a.follower v (reply a.error a.command) r in
      let (n1, absorbed, k1) =
        absorb_accepted-Expects a.error a.follower a.connection a.command answer at x (keep n k) in
      let x1 : Expects connections (erase a.follower m) r1 =
        replied-Expects a.follower a.connection v (reply a.error a.command) at
          (refusal-IsAccepted a.error a.follower a.command answer) x in
      let waiting : (length r1.connections == length r1.responses) ≡ false =
        one_owed a2.follower a2.connection (erase a.follower m) r1.connections connections
          r1.responses owed.0 x1.same x1.count in
      let step : replies b q (a ∷ a2 ∷ rest) r n ≡ replies b q (a2 ∷ rest) r1 n1 =
        rw (absorbed, waiting) (more_lem (replies b q (a2 ∷ rest) r1 n1)) in
      let (n', r', k', x', g, done) = replies-Gathers q a2 rest answers owed x1 k1 in
      (n', r', k', x', Gathers-cons a r at x (a2 ∷ rest) g, step ∙ done)

  -- Before the last answer nothing is written.
  replies_silent :
      (q : Request) (a : Arrival S P D) (rest : List (Arrival S P D)) {m : Map ℕ ℕ} {r : Round}
      {n : Node S P D}
      → AllAnswers b connections IsAccepted (a ∷ rest)
      → Owed m (a ∷ rest)
      → Expects connections m r
      → CanReply b connections n
      → (n' : Node S P D) × (r' : Round) × (replies b q (but_last (a ∷ rest)) r n ≡ ok (n', r', []))
  unfolding receive_accepted
  replies_silent q a [] {m} {r} {n} answers owed x k = (n, r, refl)
  replies_silent q a (a2 ∷ rest) {m} {r} {n} (answer, keep, answers) (at, owed) x k =
      let v : Option ErrorCode = refusal a.error a.command in
      let r1 : Round = replied a.follower v (reply a.error a.command) r in
      let (n1, absorbed, k1) =
        absorb_accepted-Expects a.error a.follower a.connection a.command answer at x (keep n k) in
      let x1 : Expects connections (erase a.follower m) r1 =
        replied-Expects a.follower a.connection v (reply a.error a.command) at
          (refusal-IsAccepted a.error a.follower a.command answer) x in
      let waiting : (length r1.connections == length r1.responses) ≡ false =
        one_owed a2.follower a2.connection (erase a.follower m) r1.connections connections
          r1.responses owed.0 x1.same x1.count in
      let (n', r', silent) = replies_silent q a2 rest answers owed x1 k1 in
      (n', r', rw (absorbed, waiting, silent) refl)

  -- In a round that every follower has promised, of a leader that is able to reply, if each
  -- follower answers the accept once, with its endpoint and its id and either a response that is
  -- not empty or a real error, or loses its connection, then in whatever order the answers arrive
  -- and whatever the leader's other handlers do in between that leaves it able to reply: all
  -- answers but the last write nothing, and all together write one message, to the client: the
  -- common response where all accepted and gave the same, an inconsistent response where all
  -- accepted and two differ, and else an error that some follower refused with.
  pub replies_any_order :
      (q : Request) (a : Arrival S P D) (rest : List (Arrival S P D)) (r : Round) (n : Node S P D)
      → Ascending connections
      → Promised connections r
      → Owed connections (a ∷ rest)
      → AllAnswers b connections IsAccepted (a ∷ rest)
      → CanReply b connections n
      → (before : Node S P D) × (r0 : Round) × (n' : Node S P D) × (r' : Round)
        × (response : Command) × (replies b q (but_last (a ∷ rest)) r n ≡ ok (before, r0, []))
        × (replies b q (a ∷ rest) r n ≡ ok (n', r', write q.client_connection response ∷ []))
        × ((AllAgree (a ∷ rest)
              × ((w : Bytes) × AllReply w (a ∷ rest)
                  × (response.type_ ≡ type_request_accepted)
                  × (response.workload ≡ w)))
            ⊎ (AllAgree (a ∷ rest)
                × ((w : Bytes) → ¬ AllReply w (a ∷ rest))
                × (response.type_ ≡ type_request_error)
                × (response.error_code ≡ error_inconsistent_response))
            ⊎ (¬ AllAgree (a ∷ rest)
                × ((code : ErrorCode) × Refused code (a ∷ rest)
                    × (response.type_ ≡ type_request_error)
                    × (response.error_code ≡ code))))
  replies_any_order q a rest r n ascending p owed answers k =
      let x : Expects connections connections r = start_of_replies ascending p in
      let (before, r0, silent) = replies_silent q a rest answers owed x k in
      let (n', r', k', x', g, run) = replies-Gathers q a rest answers owed x k in
      let some_response : r'.responses ≢ [] = λ empty. ground (
        arith,
        x'.count,
        ap length empty,
        length-erase a.follower a.connection connections owed.0,
      ) in
      let (response, written, which) = conclude-Expects q x' some_response k' in
      (
        before,
        r0,
        n',
        r',
        response,
        silent,
        rw (run, written) refl,
        elim which [
          | inl (acks, (w, same, type_, workload)) ↦
              inl ((g.acks acks).1, (w, (g.same w same).1, type_, workload))
          | inr (inl (acks, differ, type_, because)) ↦ inr (
              inl (
                (g.acks acks).1,
                λ w all. differ w (g.shared w (rw p.silent tt) all),
                type_,
                because,
              ))
          | inr (inr (refused, (e, code, at, type_, because))) ↦ inr (
              inr (
                λ agree. refused (g.acked p.acks agree),
                (
                  code,
                  elim (g.codes e code at) [ inl (j, before) ↦ cc | inr given ↦ given ],
                  type_,
                  because,
                ),
              ))
        ],
      )
