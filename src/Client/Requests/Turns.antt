-- ===== src/Client/Requests/Turns.antt =====
-- The requests that a client works on, and what it owes for them.
use libpaxos_cpp.Base.{
  List, Outcome, [], ap, arith, find, inl, inr, length, none, ok, refl, some, subst, suc, sym, zero,
  ℕ, ℕ_order, ◌+◌, ◌<◌, ◌>>=◌, ◌∙◌, ◌∷◌, ◌≡◌, ◌≤◌, ◌⊎◌,
}
use libpaxos_cpp.Errors.{error_no_leader}
use libpaxos_cpp.Command.{Command}
use libpaxos_cpp.Queue.{Queue, new_queue, busy, start_request_locked, pop_locked}
use libpaxos_cpp.Quorum.Server.{Server}
use libpaxos_cpp.Quorum.View.{View}
use libpaxos_cpp.Quorum.View.Follows.{Follows, Follows-trans}
use libpaxos_cpp.Quorum.ClientView.Selection.{IsReady}
use libpaxos_cpp.Client.InitiateRequest.{Reply, Attempt, replied, awaiting}
use libpaxos_cpp.Client.InitiateRequest.Ready.{IsAttempt, step1-IsReady}
use libpaxos_cpp.Client.Requests.{Pending, Client, Writes, callback, start}
use libpaxos_cpp.Client.Requests.Owed.{count, owed, settled, account, IsReal, callback_lem}

-- The client is idle, or reads the answer to the first request of the queue from a known server.
abbrev pub IsTurn : Client → Type 0
IsTurn s =
    ((s.reading ≡ none) × (s.request_queue ≡ new_queue))
    ⊎ ((leader : ℕ) × (p : Pending) × (rest : List Pending) × (t : Server) × (s.reading
          ≡ some (leader, p))
        × (s.request_queue ≡ busy p rest)
        × (find leader s.quorum.servers ≡ some t))

pub record IsOrderly (v : View) (s : Client) : Type 0 where
  pub ready : IsReady s.quorum
  pub follows : Follows v s.quorum.servers
  pub turn : IsTurn s

-- A call ends well, with so much more to account for.
abbrev pub EndsWell : View → Outcome (Client × Writes) → (ℕ → ℕ) → Type 0
EndsWell v o total =
    (s : Client) × (writes : Writes) × (o ≡ ok (s, writes))
    × IsOrderly v s
    × ((k : ℕ) → account k s ≡ total k)

Attempt-cases :
    (a : Attempt)
    → ((r : Reply) × (a ≡ replied r)) ⊎ ((l : ℕ) × (c : ℕ) × (d : Command) × (a ≡ awaiting l c d))
Attempt-cases (replied r) = inl (r, refl)
Attempt-cases (awaiting l c d) = inr (l, c, d, refl)

-- What is left of a client when the first request of its queue goes.
abbrev pub left : List Pending → Client → ℕ → ℕ
left rest s k = count k (owed rest) + (count k (owed s.timers) + count k (settled s.promises))

queued :
    (k : ℕ) (p : Pending) (rest : List Pending) (s : Client)
    → s.request_queue ≡ busy p rest
    → account k s ≡ count k (p.promise ∷ []) + left rest s k
queued k p rest s queue =
    ap (λ q. count k (owed q.queue) + (count k (owed s.timers) + count k (settled s.promises)))
      queue
    ∙ ground arith

no_leader-IsReal : (r : Reply) → r ≡ (some error_no_leader, []) → IsReal r
no_leader-IsReal r h = subst IsReal (sym h) (λ e. cc)

-- The client goes on once it is done with a request.
abbrev go_on : ℕ → ℕ → Client → Queue Pending → Outcome (Client × Writes)
go_on turns now s queue =
    pop_locked queue >>= λ next. start turns now next.1 (record s { request_queue = next.0 })

-- As `answered` does, with as many turns as there are requests.
abbrev pub go_on_all : ℕ → Client → Queue Pending → Outcome (Client × Writes)
go_on_all now s queue = pop_locked queue >>= λ next.
    start (length next.0.queue) now next.1 (record s { request_queue = next.0 })

abbrev StartsWell : View → ℕ → ℕ → Type 0
StartsWell v turns now =
    (p : Pending) (rest : List Pending) (s : Client)
    → length rest < turns
    → s.reading ≡ none
    → s.request_queue ≡ busy p rest
    → IsReady s.quorum
    → Follows v s.quorum.servers
    → EndsWell v (start turns now (some p) s) (λ k. account k s)

go_on-IsOrderly :
    (v : View) (turns now : ℕ) (p : Pending) (rest : List Pending) (s : Client)
    → StartsWell v turns now
    → length rest ≤ turns
    → s.reading ≡ none
    → s.request_queue ≡ busy p rest
    → IsReady s.quorum
    → Follows v s.quorum.servers
    → EndsWell v (go_on turns now s s.request_queue) (left rest s)
unfolding start pop_locked start_request_locked
go_on-IsOrderly v turns now p [] s starts enough idle queue ready follows = (
  record s { request_queue = new_queue },
  [],
  ap (go_on turns now s) queue,
  record { ready = ready; follows = follows; turn = inl (idle, refl) },
  λ k. refl,
)
go_on-IsOrderly v turns now p (p2 ∷ rest) s starts enough idle queue ready follows =
    let (s', writes, done, orderly, total) =
      starts p2 rest (record s { request_queue = busy p2 rest }) (omega arith) idle refl ready
        follows in
    (s', writes, ap (go_on turns now s) queue ∙ done, orderly, total)

-- The client works on the first request of the queue, or gives it up and goes on to the next.
pub start-IsOrderly : (v : View) (turns now : ℕ) → StartsWell v turns now
unfolding start
start-IsOrderly v zero now p rest s enough idle queue ready follows = absurd (omega arith)
start-IsOrderly v (suc turns) now p rest s enough idle queue ready follows =
    let (q, attempt, stepped, ready', again, is) = step1-IsReady p.byte_array now s.quorum ready in
    let follows' : Follows v q.servers = Follows-trans follows again in
    elim (Attempt-cases attempt) [
      | inr (l, c, d, sent) ↦
          let (_, (t, at, _), _) = subst (IsAttempt _ q.servers p.byte_array) sent is in
          (
            record s { quorum = q; reading = some (l, p) },
            (c, d) ∷ [],
            rw (stepped, start, sent) refl,
            record {
              ready = ready';
              follows = follows';
              turn = inr (l, p, rest, t, refl, queue, at);
            },
            λ k. refl,
          )
      | inl (r, gave_up) ↦
          let (_, one) = subst (IsAttempt _ q.servers p.byte_array) gave_up is in
          let (ts, ps, called, more) =
            callback_lem p r (record s { quorum = q }) (no_leader-IsReal r one) in
          let (s', writes, done, orderly, total) =
            go_on-IsOrderly v turns now p rest (record s { quorum = q; timers = ts; promises = ps })
              (start-IsOrderly v turns now) (omega arith) idle queue ready' follows' in
          (
            s',
            writes,
            rw (stepped, start, gave_up, called) done,
            orderly,
            λ k. omega (arith, total k, more k, queued k p rest s queue),
          )
    ]

popped_all :
    (now : ℕ) (p : Pending) (rest : List Pending) (s : Client)
    → go_on_all now s (busy p rest) ≡ go_on (length rest) now s (busy p rest)
unfolding pop_locked start_request_locked
popped_all now p [] s = refl
popped_all now p (p2 ∷ rest) s = refl

-- The answer to the request that is worked on is passed on, and the client goes on.
pub conclude-IsOrderly :
    (v : View) (now : ℕ) (p : Pending) (rest : List Pending) (reply : Reply) (s : Client)
    → IsReal reply
    → s.reading ≡ none
    → s.request_queue ≡ busy p rest
    → IsReady s.quorum
    → Follows v s.quorum.servers
    → EndsWell v (callback p reply s >>= λ s. go_on_all now s s.request_queue) (λ k. account k s)
conclude-IsOrderly v now p rest reply s real idle queue ready follows =
    let (ts, ps, called, more) = callback_lem p reply s real in
    let s1 : Client = record s { timers = ts; promises = ps } in
    let (s', writes, done, orderly, total) =
      go_on-IsOrderly v (length rest) now p rest s1 (start-IsOrderly v (length rest) now)
        (omega arith) idle queue ready follows in
    (
      s',
      writes,
      rw called (
          ap (go_on_all now s1) queue
          ∙ popped_all now p rest s1
          ∙ ap (go_on (length rest) now s1) (sym queue)
          ∙ done),
      orderly,
      λ k. omega (arith, total k, more k, queued k p rest s queue),
    )
