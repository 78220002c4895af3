-- ===== src/Server/Dispatch/Serves.antt =====
-- A server neither loses a request nor works on two at once.
use libpaxos_cpp.Base.{
  Bytes, List, Option, Outcome, [], ap, arith, inl, inr, length, length-append, none, ok, refl,
  some, suc, sym, ℕ, ℕ_order, ℤ, ◌++◌, ◌+◌, ◌>>=◌, ◌∙◌, ◌∷◌, ◌≡◌,
}
use libpaxos_cpp.Queue.{Queue, busy, start_request_locked, push_locked, pop_locked}
use libpaxos_cpp.Storage.Log.{Log}
use libpaxos_cpp.Storage.Backend.{Backend, IsBackend}
use libpaxos_cpp.Quorum.ServerView.{Floats}
use libpaxos_cpp.Strategy.Node.{Node, Effect}
use libpaxos_cpp.Strategy.Leader.{Round, Request}
use libpaxos_cpp.Strategy.Interface.{basic_paxos}
use libpaxos_cpp.Server.Dispatch.{Pending, Server, process, push, release}
use libpaxos_cpp.Server.Dispatch.Rounds.{
  refusals, refusals-append, CanLead, IsTurn, EndsWell, go_on, go_on-EndsWell, process-EndsWell,
}

-- What happens to a server: a client's request arrives, the last reference to the round goes, or
-- another handler changes the node.
pub data Event (S P D : Type 0) : Type 0 where
  arrives : ℕ → Pending → Event S P D
  finishes : ℕ → Event S P D
  meanwhile : (Node S P D → Node S P D) → Event S P D

-- How many requests arrive.
abbrev pub arrivals : {S P D : Type 0} → List (Event S P D) → ℕ
arrivals [] = 0
arrivals (arrives now p ∷ es) = suc (arrivals es)
arrivals (finishes now ∷ es) = arrivals es
arrivals (meanwhile g ∷ es) = arrivals es

module _ {S P : Type 0} {b : Backend S} {Holds : S → Log → Type 0} (laws : IsBackend b Holds)
    (processor : ℤ → Bytes → P → Bytes × P) (start : P) (f : Floats) where
  pushing :
      ℕ
      → Pending
      → Server S P f.Double
      → Queue Pending
      → Outcome (Server S P f.Double × List Effect)
  pushing now p s queue = push_locked p queue >>= λ next.
      process (basic_paxos b f) processor (length next.0.queue) now next.1
        (record s { request_queue = next.0 })

  push-EndsWell :
      (now : ℕ) (p : Pending) (s : Server S P f.Double)
      → CanLead laws processor start f s.node
      → IsTurn laws processor start f s
      → EndsWell laws processor start f
          (push (basic_paxos b f) processor now p s)
          (suc (length s.request_queue.queue))
  unfolding push pushing push_locked start_request_locked process
  push-EndsWell now p s k (inl (idle, empty)) =
      let (s', es, done, k', turn, total) =
        process-EndsWell laws processor start f 1 now p [] (record s { request_queue = busy p [] })
          (omega arith) idle refl k in
      (
        s',
        es,
        ap (pushing now p s) empty ∙ done,
        k',
        turn,
        total ∙ ap (λ q. suc (length q.queue)) (sym empty),
      )
  push-EndsWell now p s k (inr (p0, rest, r, round, queue)) = (
    record s { request_queue = busy p0 (rest ++ p ∷ []) },
    [],
    ap (pushing now p s) queue,
    k,
    inr (p0, rest ++ p ∷ [], r, round, refl),
    ap (λ n. suc n + 0) (length-append rest (p ∷ []))
        ∙ omega arith
        ∙ ap (λ q. suc (length q.queue)) (sym queue),
  )

  releasing : ℕ → Server S P f.Double → Queue Pending → Outcome (Server S P f.Double × List Effect)
  releasing now s queue = pop_locked queue >>= λ next.
      process (basic_paxos b f) processor (length next.0.queue) now next.1
        (record s { request_queue = next.0; round = none })

  popped_all :
      (now : ℕ) (p : Pending) (rest : List Pending) (s : Server S P f.Double)
      → releasing now s (busy p rest)
        ≡ go_on laws processor start f (length rest) now (record s { round = none }) (busy p rest)
  unfolding releasing pop_locked start_request_locked
  popped_all now p [] s = refl
  popped_all now p (p2 ∷ rest) s = refl

  release-EndsWell :
      (now : ℕ) (p : Pending) (rest : List Pending) (s : Server S P f.Double)
      → CanLead laws processor start f s.node
      → s.request_queue ≡ busy p rest
      → EndsWell laws processor start f (release (basic_paxos b f) processor now s) (length rest)
  unfolding release releasing
  release-EndsWell now p rest s k queue =
      let s1 : Server S P f.Double = record s { round = none } in
      let (s', es, done, k', turn, total) =
        go_on-EndsWell laws processor start f (length rest) now p rest s1
          (process-EndsWell laws processor start f (length rest) now) (omega arith) refl queue k in
      (
        s',
        es,
        ap (releasing now s) queue
            ∙ popped_all now p rest s
            ∙ ap (go_on laws processor start f (length rest) now s1) (sym queue)
            ∙ done,
        k',
        turn,
        total,
      )

  -- The server, what it writes, and how many rounds ended.
  abbrev pub Run : Type 0
  Run = Server S P f.Double × List Effect × ℕ

  abbrev finish : ℕ → Option (Request × Round) → Server S P f.Double → Outcome Run
  finish now none s = ok (s, [], 0)
  finish now (some r) s = release (basic_paxos b f) processor now s >>= λ r. ok (r.0, r.1, 1)

  abbrev handle : Event S P f.Double → Server S P f.Double → Outcome Run
  handle (arrives now p) s = push (basic_paxos b f) processor now p s >>= λ r. ok (r.0, r.1, 0)
  handle (finishes now) s = finish now s.round s
  handle (meanwhile g) s = ok (record s { node = g s.node }, [], 0)

  unfoldable pub run : List (Event S P f.Double) → Server S P f.Double → Outcome Run
  run [] s = ok (s, [], 0)
  run (e ∷ events) s = do
    (s, es, n) ← handle e s
    (s, more, m) ← run events s
    ok (s, es ++ more, n + m)

  -- The other handlers leave the server able to lead.
  abbrev pub AllKeep : List (Event S P f.Double) → Type 0
  AllKeep [] = Unit {0}
  AllKeep (meanwhile g ∷ events) =
      ((n : Node S P f.Double)
        → CanLead laws processor start f n
        → CanLead laws processor start f (g n))
      × AllKeep events
  AllKeep (e ∷ events) = AllKeep events

  abbrev pub Serves : Outcome Run → ℕ → Type 0
  Serves o total =
      (s : Server S P f.Double) × (es : List Effect) × (rounds : ℕ) × (o ≡ ok (s, es, rounds))
      × CanLead laws processor start f s.node
      × IsTurn laws processor start f s
      × (length s.request_queue.queue + refusals es + rounds ≡ total)

  finish-Serves :
      (now : ℕ) (s : Server S P f.Double)
      → CanLead laws processor start f s.node
      → IsTurn laws processor start f s
      → Serves (finish now s.round s) (length s.request_queue.queue)
  finish-Serves now s k (inl (idle, empty)) =
      (s, [], 0, ap (λ r. finish now r s) idle, k, inl (idle, empty), omega arith)
  finish-Serves now s k (inr (p, rest, r, round, queue)) =
      let (s', es, done, k', turn, total) = release-EndsWell now p rest s k queue in
      let size : length s.request_queue.queue ≡ suc (length rest) =
        ap (λ q. length q.queue) queue in
      (
        s',
        es,
        1,
        ap (λ r. finish now r s) round ∙ (rw done refl),
        k',
        turn,
        omega (arith, total, size),
      )

  -- Take a server whose node has stored and applied a history, with its view in order and every
  -- server under its own endpoint, and that is idle with an empty queue or leads a round for the
  -- first request of its queue. However the arrivals of requests, the ends of rounds and the other
  -- handlers interleave, where each of those keeps such a node such: it does not abort, it stays
  -- so, and the requests in its queue, the errors written to clients and the rounds that ended add
  -- up to the requests in the queue at the start and those that arrived.
  pub run-Serves :
      (events : List (Event S P f.Double)) (s : Server S P f.Double)
      → AllKeep events
      → CanLead laws processor start f s.node
      → IsTurn laws processor start f s
      → Serves (run events s) (length s.request_queue.queue + arrivals events)
  unfolding run
  run-Serves [] s keep k turn = (s, [], 0, refl, k, turn, omega arith)
  run-Serves (arrives now p ∷ events) s keep k turn =
      let (s1, es, done, k1, turn1, total) = push-EndsWell now p s k turn in
      let (s2, more, m, done2, k2, turn2, total2) = run-Serves events s1 keep k1 turn1 in
      (
        s2,
        es ++ more,
        0 + m,
        rw (done, done2) refl,
        k2,
        turn2,
        omega (arith, total, total2, refusals-append es more),
      )
  run-Serves (finishes now ∷ events) s keep k turn =
      let (s1, es, n, done, k1, turn1, total) = finish-Serves now s k turn in
      let (s2, more, m, done2, k2, turn2, total2) = run-Serves events s1 keep k1 turn1 in
      (
        s2,
        es ++ more,
        n + m,
        rw (done, done2) refl,
        k2,
        turn2,
        omega (arith, total, total2, refusals-append es more),
      )
  run-Serves (meanwhile g ∷ events) s (keep, later) k turn =
      let (s2, more, m, done2, k2, turn2, total2) =
        run-Serves events (record s { node = g s.node }) later (keep s.node k) turn in
      (s2, more, 0 + m, rw done2 refl, k2, turn2, omega (arith, total2))
