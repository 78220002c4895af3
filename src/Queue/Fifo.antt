-- ===== src/Queue/Fifo.antt =====
-- Requests are started in the order of their arrival, each once, and one at a time.
use mathlib.Core.List.{append-nil, append_assoc}
use libpaxos_cpp.Base.{
  List, Option, Outcome, [], ap, arith, drop, is_empty, length, length-append, none, not, ok, refl,
  some, subst, suc, sym, zero, ℕ, ◌++◌, ◌>>=◌, ◌∙◌, ◌∷◌, ◌≡◌,
}
use libpaxos_cpp.Queue.{Queue, new_queue, start_request_locked, push_locked, pop_locked}

-- A call of `push`, or the destruction of a guard.
pub data Event {ℓ} (A : Type ℓ) : Type ℓ where
  pushes : A → Event A
  releases : Event A

module _ {ℓ} {A : Type ℓ} where
  -- A request is processed exactly while the queue holds one: the first.
  abbrev pub IsBusy : Queue A → Type 0
  IsBusy q = q.request_being_processed ≡ not (is_empty q.queue)

  -- The requests that wait behind the one that is processed.
  abbrev pub waiting : Queue A → List A
  waiting q = drop 1 q.queue

  abbrev started : Option A → List A
  started none = []
  started (some a) = a ∷ []

  -- The requests that the callback is called with.
  unfoldable pub run : List (Event A) → Queue A → Outcome (Queue A × List A)
  run [] q = ok (q, [])
  run (pushes a ∷ es) q = do
    (q, first) ← push_locked a q
    (q, rest) ← run es q
    ok (q, started first ++ rest)
  run (releases ∷ es) q = do
    (q, first) ← pop_locked q
    (q, rest) ← run es q
    ok (q, started first ++ rest)

  abbrev pub pushed : List (Event A) → List A
  pushed [] = []
  pushed (pushes a ∷ es) = a ∷ pushed es
  pushed (releases ∷ es) = pushed es

  -- Guards are destroyed only while there is one, over a queue of `n` requests.
  abbrev pub HasGuards : ℕ → List (Event A) → Type 0
  HasGuards n [] = Unit {0}
  HasGuards n (pushes a ∷ es) = HasGuards (suc n) es
  HasGuards zero (releases ∷ es) = ⊥
  HasGuards (suc n) (releases ∷ es) = HasGuards n es

  abbrev queue_of : List A → Queue A
  queue_of l = record { request_being_processed = not (is_empty l); queue = l }

  abbrev Runs : List (Event A) → List A → Type ℓ
  Runs es l =
      (m r : List A) × (run es (queue_of l) ≡ ok (queue_of m, r))
      × (drop 1 l ++ pushed es ≡ r ++ drop 1 m)

  length-snoc : (l : List A) (a : A) → length (l ++ a ∷ []) ≡ suc (length l)
  length-snoc l a = omega (arith, length-append l (a ∷ []))

  run-Runs : (es : List (Event A)) (l : List A) → HasGuards (length l) es → Runs es l
  unfolding run push_locked pop_locked start_request_locked
  run-Runs [] l h = (l, [], refl, append-nil (drop 1 l))
  run-Runs (pushes a ∷ es) [] h =
      let (m, r, e, o) = run-Runs es (a ∷ []) h in (m, a ∷ r, rw e, ap (λ k. a ∷ k) o)
  run-Runs (pushes a ∷ es) (b ∷ l) h =
      let (m, r, e, o) =
        run-Runs es (b ∷ l ++ a ∷ [])
          (subst (λ n. HasGuards n es) (sym (ap suc (length-snoc l a))) h) in
      (m, r, rw e, sym (append_assoc l (a ∷ []) (pushed es)) ∙ o)
  run-Runs (releases ∷ es) [] h = absurd h
  run-Runs (releases ∷ es) (b ∷ []) h = let (m, r, e, o) = run-Runs es [] h in (m, r, rw e, o)
  run-Runs (releases ∷ es) (b ∷ c ∷ l) h =
      let (m, r, e, o) = run-Runs es (c ∷ l) h in (m, c ∷ r, rw e, ap (λ k. c ∷ k) o)

  -- However pushes and destroyed guards interleave, where a guard is destroyed only while a
  -- request is held, the queue never aborts; the callback is called with the pushed requests in
  -- order, each once, all but those that still wait behind the one that is processed; and one is
  -- processed exactly while the queue is not empty.
  pub run_in_order :
      (es : List (Event A))
      → HasGuards 0 es
      → (q : Queue A) × (calls : List A) × (run es new_queue ≡ ok (q, calls))
        × (pushed es ≡ calls ++ waiting q)
        × IsBusy q
  run_in_order es h = let (m, r, e, o) = run-Runs es [] h in (queue_of m, r, e, o, refl)
