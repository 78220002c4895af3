-- ===== src/Server/Dispatch/Rounds.antt =====
-- The rounds that a server starts for the requests that it gets.
use libpaxos_cpp.Base.{
  Ascending, Bool, Bytes, List, Map, Option, Outcome, [], ap, arith, bind_after, false,
  if◌then◌else◌, inl, inr, length, none, ok, refl, some, suc, true, zero, ℕ, ℕ_order, ℤ, ◌++◌, ◌+◌,
  ◌<◌, ◌>>=◌, ◌∙◌, ◌∷◌, ◌≡◌, ◌≤◌, ◌⊎◌,
}
use libpaxos_cpp.Command.{Command, CommandType, type_request_error, type_request_prepare}
use libpaxos_cpp.Queue.{Queue, new_queue, busy, start_request_locked, pop_locked}
use libpaxos_cpp.Storage.Log.{Log}
use libpaxos_cpp.Storage.Backend.{Backend, IsBackend}
use libpaxos_cpp.Quorum.ServerView.{Floats}
use libpaxos_cpp.Strategy.Node.{Node, Effect, write, await_promise, await_accepted}
use libpaxos_cpp.Strategy.Leader.{Round, Request}
use libpaxos_cpp.Strategy.Interface.{basic_paxos}
use libpaxos_cpp.Strategy.Initiate.{initiate_lem}
use libpaxos_cpp.Strategy.Initiate.Links.{AllNamed, AllNamed-attempt_all, prepares}
use libpaxos_cpp.Strategy.Initiate.Attempts.{tried, attempt_all-Replica}
use libpaxos_cpp.Quorum.View.Live.{attempt_all-Ascending}
use libpaxos_cpp.Strategy.Callbacks.{initiate}
use libpaxos_cpp.Strategy.Follower.CatchUp.{Replica}
use libpaxos_cpp.Server.Dispatch.{Pending, Server, request_of, process}

abbrev is_refusal : CommandType → Bool
is_refusal type_request_error = true
is_refusal _ = false

-- How many errors are written to clients.
abbrev pub refusals : List Effect → ℕ
refusals [] = 0
refusals (write k c ∷ es) = let rest = refusals es in if is_refusal c.type_ then suc rest else rest
refusals (await_promise e k ∷ es) = refusals es
refusals (await_accepted e k ∷ es) = refusals es

pub refusals-append : (es fs : List Effect) → refusals (es ++ fs) ≡ refusals es + refusals fs
refusals-append [] fs = omega arith
refusals-append (write k c ∷ es) fs = ground (arith, refusals-append es fs)
refusals-append (await_promise e k ∷ es) fs = refusals-append es fs
refusals-append (await_accepted e k ∷ es) fs = refusals-append es fs

refusals-prepares :
    (c : Command) (m : Map ℕ ℕ) → c.type_ ≡ type_request_prepare → refusals (prepares c m) ≡ 0
refusals-prepares c [] h = refl
refusals-prepares c ((e, k) ∷ m) h = rw h (refusals-prepares c m h)

module _ {S P : Type 0} {b : Backend S} {Holds : S → Log → Type 0} (laws : IsBackend b Holds)
    (processor : ℤ → Bytes → P → Bytes × P) (start : P) (f : Floats) where
  -- A server that can lead: it has stored and applied a history, and its view is in order.
  pub record CanLead (n : Node S P f.Double) : Type 0 where
    pub history : List Bytes
    pub replica : Replica laws processor start n history
    pub ascending : Ascending n.quorum.servers
    pub named : AllNamed n.quorum.servers

  -- Attempts to connect keep it so.
  pub tried-CanLead : (now : ℕ) (n : Node S P f.Double) → CanLead n → CanLead (tried now n)
  tried-CanLead now n k = record {
    history = k.history;
    replica = attempt_all-Replica laws processor start now k.replica;
    ascending = attempt_all-Ascending now n.quorum.servers k.ascending;
    named = AllNamed-attempt_all now n.quorum.servers k.named;
  }

  -- What comes of the start of a round: the round, or one error to the client.
  abbrev Starts : Request → ℕ → Node S P f.Double → Type 0
  Starts q now n =
      (n' : Node S P f.Double) × (o : Option Round) × (es : List Effect) × (initiate b f q now n
        ≡ ok (n', o, es))
      × CanLead n'
      × (((o ≡ none) × (refusals es ≡ 1)) ⊎ ((r : Round) × (o ≡ some r) × (refusals es ≡ 0)))

  one_refusal : (k : ℕ) (c : Command) → c.type_ ≡ type_request_error → refusals (write k c ∷ []) ≡ 1
  one_refusal k c h = rw h refl

  initiate-Starts : (q : Request) (now : ℕ) (n : Node S P f.Double) → CanLead n → Starts q now n
  initiate-Starts q now n k =
      let (n', r, a, named, which) =
        initiate_lem laws processor start f q now n k.history k.ascending k.named k.replica in
      let k' : CanLead n' = record {
        history = k.history;
        replica = r;
        ascending = a;
        named = named;
      } in
      elim which [
        | inl (_, (response, done, error, _)) ↦
            (n', none, _, done, k', inl (refl, one_refusal q.client_connection response error))
        | inr (inl (_, _, (response, done, error, _))) ↦
            (n', none, _, done, k', inl (refl, one_refusal q.client_connection response error))
        | inr (inr (_, _, (c, done, prepare, _))) ↦
            (n', some _, _, done, k', inr (_, refl, refusals-prepares c _ prepare))
      ]

  -- The server is idle, or leads a round for the first request of its queue.
  abbrev pub IsTurn : Server S P f.Double → Type 0
  IsTurn s =
      ((s.round ≡ none) × (s.request_queue ≡ new_queue))
      ⊎ ((p : Pending) × (rest : List Pending) × (r : Round) × (s.round ≡ some (request_of p, r))
          × (s.request_queue ≡ busy p rest))

  abbrev pub EndsWell : Outcome (Server S P f.Double × List Effect) → ℕ → Type 0
  EndsWell o total =
      (s : Server S P f.Double) × (es : List Effect) × (o ≡ ok (s, es))
      × CanLead s.node
      × IsTurn s
      × (length s.request_queue.queue + refusals es ≡ total)

  abbrev pub go_on :
      ℕ → ℕ → Server S P f.Double → Queue Pending → Outcome (Server S P f.Double × List Effect)
  go_on turns now s queue = pop_locked queue >>= λ next.
      process (basic_paxos b f) processor turns now next.1 (record s { request_queue = next.0 })

  abbrev StartsWell : ℕ → ℕ → Type 0
  StartsWell turns now =
      (p : Pending) (rest : List Pending) (s : Server S P f.Double)
      → length rest < turns
      → s.round ≡ none
      → s.request_queue ≡ busy p rest
      → CanLead s.node
      → EndsWell (process (basic_paxos b f) processor turns now (some p) s) (suc (length rest))

  pub go_on-EndsWell :
      (turns now : ℕ) (p : Pending) (rest : List Pending) (s : Server S P f.Double)
      → StartsWell turns now
      → length rest ≤ turns
      → s.round ≡ none
      → s.request_queue ≡ busy p rest
      → CanLead s.node
      → EndsWell (go_on turns now s s.request_queue) (length rest)
  unfolding process pop_locked start_request_locked
  go_on-EndsWell turns now p [] s starts enough idle queue k = (
    record s { request_queue = new_queue },
    [],
    ap (go_on turns now s) queue,
    k,
    inl (idle, refl),
    refl,
  )
  go_on-EndsWell turns now p (p2 ∷ rest) s starts enough idle queue k =
      let (s', es, done, k', turn, total) =
        starts p2 rest (record s { request_queue = busy p2 rest }) (omega arith) idle refl k in
      (s', es, ap (go_on turns now s) queue ∙ done, k', turn, total)

  pub process-EndsWell : (turns now : ℕ) → StartsWell turns now
  unfolding process
  process-EndsWell zero now p rest s enough idle queue k = absurd (omega arith)
  process-EndsWell (suc turns) now p rest s enough idle queue k =
      let (n, o, es, done, k', which) = initiate-Starts (request_of p) now s.node k in
      elim which [
        | inr (r, some_round, quiet) ↦ (
          record s { node = n; round = some (request_of p, r) },
          es,
          rw (done, process, some_round) refl,
          k',
          inr (p, rest, r, refl, queue),
          ap (λ q. length q.queue + refusals es) queue ∙ omega (arith, quiet),
        )
        | inl (nothing, one) ↦
            let (s', more, on, k2, turn, total) =
              go_on-EndsWell turns now p rest (record s { node = n }) (process-EndsWell turns now)
                (omega arith) idle queue k' in
            (
              s',
              es ++ more,
              rw (done, process, nothing)
                  (bind_after (pop_locked s.request_queue)
                    (λ next.
                      process (basic_paxos b f) processor turns now next.1
                        (record s { node = n; request_queue = next.0 }))
                    (λ rest. ok (rest.0, es ++ rest.1)) (s', more) on),
              k2,
              turn,
              omega (arith, refusals-append es more, total, one),
            )
      ]
