-- ===== src/Client/Requests/Accounted.antt =====
-- A client neither loses a request nor settles one twice.
use libpaxos_cpp.Base.{
  Ascending, List, Option, Outcome, [], ap, arith, find, inl, inr, length, none, ok, refl, some, ℕ,
  ℕ_order, ◌++◌, ◌+◌, ◌>>=◌, ◌∙◌, ◌∷◌, ◌≡◌, ◌≢◌, ◌⊎◌,
}
use libpaxos_cpp.Errors.{ErrorCode, no_error}
use libpaxos_cpp.Command.{Command, type_request_accepted, type_request_error}
use libpaxos_cpp.Queue.{Queue, new_queue, busy, start_request_locked, push_locked}
use libpaxos_cpp.Quorum.Server.{Server}
use libpaxos_cpp.Quorum.View.{View}
use libpaxos_cpp.Quorum.View.Follows.{Follows, Follows-trans, self-Follows}
use libpaxos_cpp.Quorum.ClientView.{ClientView}
use libpaxos_cpp.Quorum.ClientView.Selection.{IsReady}
use libpaxos_cpp.Client.InitiateRequest.{Reply, receive}
use libpaxos_cpp.Client.InitiateRequest.Ready.{
  IsAnswer, answered, receive-IsReady, receive_error-IsReady,
}
use libpaxos_cpp.Client.Requests.{Pending, Client, new_client, Writes, start, do_request, expired}
use libpaxos_cpp.Client.Requests
use libpaxos_cpp.Client.Requests.Turns.{
  IsTurn, IsOrderly, EndsWell, start-IsOrderly, conclude-IsOrderly,
}
use libpaxos_cpp.Client.Requests.Owed.{count, owed, owed-snoc, account, IsReal}
use libpaxos_cpp.Client.Requests.Events.{
  Event, sends, answers, expires, read_answer, handle, run, sent, IsValid, AllValid, IsNamed,
}

abbrev pushing : ℕ → Pending → Client → Queue Pending → Outcome (Client × Writes)
pushing now p s queue = push_locked p queue >>= λ next.
    start (length next.0.queue) now next.1 (record s { request_queue = next.0 })

account_at :
    (k : ℕ) (s : Client) (queue : Queue Pending)
    → s.request_queue ≡ queue
    → account k s ≡ account k (record s { request_queue = queue })
account_at k s queue h = ap (λ q. account k (record s { request_queue = q })) h

do_request-IsOrderly :
    (v : View) (now : ℕ) (p : Pending) (s : Client)
    → IsOrderly v s
    → EndsWell v (do_request now p s) (λ k. count k (p.promise ∷ []) + account k s)
unfolding do_request push_locked start_request_locked start
do_request-IsOrderly v now p s o = elim o.turn [
  | inl (idle, empty) ↦
      let (s', writes, done, orderly, total) =
        start-IsOrderly v 1 now p [] (record s { request_queue = busy p [] }) (omega arith) idle
          refl o.ready o.follows in
      (
        s',
        writes,
        ap (pushing now p s) empty ∙ done,
        orderly,
        λ k. ground (arith, total k, account_at k s new_queue empty),
      )
  | inr (l, p0, rest, t, reading, queue, at) ↦ (
    record s { request_queue = busy p0 (rest ++ p ∷ []) },
    [],
    ap (pushing now p s) queue,
    record {
      ready = o.ready;
      follows = o.follows;
      turn = inr (l, p0, rest ++ p ∷ [], t, reading, refl, at);
    },
    λ k. omega (arith, owed-snoc k (p0 ∷ rest) p, account_at k s (busy p0 rest) queue),
  )
]

-- What the callback is called with is no success that is an error.
received_well :
    (v : View) (now l : ℕ) (t : Server) (error : Option ErrorCode) (c : Command) (q : ClientView)
    → IsNamed v
    → IsValid v (answers now error c)
    → find l q.servers ≡ some t
    → IsReady q
    → Follows v q.servers
    → (q' : ClientView) × (reply : Reply) × (receive now l error c q ≡ ok (q', reply))
      × IsReady q'
      × Follows v q'.servers
      × IsReal reply
received_well v now l t (some error) c q named valid at ready follows =
    let (s, listed, same) = follows.before l t at in
    let (q', done, ready', again) =
      receive_error-IsReady now l error c t q ready.in_order at (same ∙ named l s listed) in
    (q', (some error, []), done, ready', Follows-trans follows again, valid)
received_well v now l t none c q named (host, uuid, s, from, with_id, listed, kind) at ready
      follows =
    let (u, there) = follows.after host s listed in
    let (q', done, ready', again) =
      receive-IsReady now l host uuid c u q ready from with_id there (kind_of kind) in
    (q', answered c.type_ c, done, ready', Follows-trans follows again, real_answer kind)
  where
    kind_of :
        (c.type_ ≡ type_request_accepted)
          ⊎ ((c.type_ ≡ type_request_error) × (c.error_code ≢ no_error))
        → IsAnswer c.type_
    kind_of (inl h) = inl h
    kind_of (inr (h, real)) = inr h

    real_answer :
        (c.type_ ≡ type_request_accepted)
          ⊎ ((c.type_ ≡ type_request_error) × (c.error_code ≢ no_error))
        → IsReal (answered c.type_ c)
    real_answer (inl h) = rw h tt
    real_answer (inr (h, real)) = rw h real

sent_cons :
    (k : ℕ) (e : Event) (es : List Event)
    → count k (sent (e ∷ es)) ≡ count k (sent (e ∷ [])) + count k (sent es)
sent_cons k (sends now p) es = ground arith
sent_cons k (answers now error c) es = omega arith
sent_cons k (expires now) es = omega arith

answered-IsOrderly :
    (v : View) (now l : ℕ) (p : Pending) (rest : List Pending) (t : Server)
    (error : Option ErrorCode) (c : Command) (s : Client)
    → IsNamed v
    → IsValid v (answers now error c)
    → find l s.quorum.servers ≡ some t
    → s.request_queue ≡ busy p rest
    → IsOrderly v s
    → EndsWell v (Requests.answered now error c (l, p) s) (λ k. account k s)
unfolding Requests.answered
answered-IsOrderly v now l p rest t error c s named valid at queue o =
    let (q', reply, done, ready, follows, real) =
      received_well v now l t error c s.quorum named valid at o.ready o.follows in
    let (s', writes, on, orderly, total) =
      conclude-IsOrderly v now p rest reply (record s { quorum = q'; reading = none }) real refl
        queue ready follows in
    (s', writes, rw done on, orderly, total)

List-cases :
    (ps : List Pending) → (ps ≡ []) ⊎ ((p : Pending) × (rest : List Pending) × (ps ≡ p ∷ rest))
List-cases [] = inl refl
List-cases (p ∷ ps) = inr (p, ps, refl)

handle-IsOrderly :
    (v : View) (e : Event) (s : Client)
    → IsNamed v
    → IsValid v e
    → IsOrderly v s
    → EndsWell v (handle e s) (λ k. count k (sent (e ∷ [])) + account k s)
unfolding expired
handle-IsOrderly v (sends now p) s named valid o = do_request-IsOrderly v now p s o
handle-IsOrderly v (answers now error c) s named valid o = elim o.turn [
  | inl (idle, empty) ↦ (s, [], ap (λ r. read_answer now error c r s) idle, o, λ k. omega arith)
  | inr (l, p, rest, t, reading, queue, at) ↦
      let (s', writes, done, orderly, total) =
        answered-IsOrderly v now l p rest t error c s named valid at queue o in
      (
        s',
        writes,
        ap (λ r. read_answer now error c r s) reading ∙ done,
        orderly,
        λ k. omega (arith, total k),
      )
]
handle-IsOrderly v (expires now) s named valid o = elim (List-cases s.timers) [
  | inl none_left ↦ (s, [], ap (λ ps. expired now ps s) none_left, o, λ k. omega arith)
  | inr (p, ts, timers) ↦
      let s1 : Client = record s { timers = ts } in
      let o1 : IsOrderly v s1 = record { ready = o.ready; follows = o.follows; turn = o.turn } in
      let (s', writes, done, orderly, total) = do_request-IsOrderly v now p s1 o1 in
      let before : (k : ℕ) → count k (owed s.timers) ≡ count k (owed (p ∷ ts)) =
        λ k. ap (λ ps. count k (owed ps)) timers in
      (
        s',
        writes,
        ap (λ ps. expired now ps s) timers ∙ done,
        orderly,
        λ k. ground (arith, total k, before k),
      )
]

run-IsOrderly :
    (v : View) (es : List Event) (s : Client)
    → IsNamed v
    → AllValid v es
    → IsOrderly v s
    → EndsWell v (run es s) (λ k. count k (sent es) + account k s)
unfolding run
run-IsOrderly v [] s named valid o = (s, [], refl, o, λ k. omega arith)
run-IsOrderly v (e ∷ es) s named (valid, more) o =
    let (s1, writes, done, o1, total) = handle-IsOrderly v e s named valid o in
    let (s2, rest, done2, o2, total2) = run-IsOrderly v es s1 named more o1 in
    (
      s2,
      writes ++ rest,
      rw (done, done2) refl,
      o2,
      λ k. omega (arith, total k, total2 k, sent_cons k e es),
    )

-- A client of these servers.
abbrev pub client_of : View → Client
client_of v = record new_client { quorum = record { servers = v; next_leader = none } }

-- For a client whose servers are in order, each listed under its own endpoint, and however sends,
-- answers, errors of the connection and timers interleave, where no error is no_error and every
-- answer is one of the type accepted or error from a listed server: the client never aborts, reads
-- an answer exactly while its queue holds requests, that to the first of them from a listed
-- server, and every promise is as often in the queue, behind a timer or set as a request was sent
-- for it.
pub run-Accounted :
    (v : View) (es : List Event)
    → Ascending v
    → IsNamed v
    → AllValid v es
    → (s : Client) × (writes : Writes) × (run es (client_of v) ≡ ok (s, writes))
      × IsTurn s
      × ((k : ℕ) → account k s ≡ count k (sent es))
run-Accounted v es ascending named valid =
    let o : IsOrderly v (client_of v) = record {
      ready = record { in_order = ascending; next_live = tt };
      follows = self-Follows v;
      turn = inl (refl, refl);
    } in
    let (s, writes, done, orderly, total) = run-IsOrderly v es (client_of v) named valid o in
    (s, writes, done, orderly.turn, λ k. omega (arith, total k))
