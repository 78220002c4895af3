-- ===== src/Storage/Interchange.antt =====
-- Two storages that accept the same values cannot be told apart by what any host still needs.
use libpaxos_cpp.Base.{
  Bytes, List, Outcome, [], ap, arith, drop, length, length-append, ok, pos, refl, subst, suc, sym,
  ℕ, ◌++◌, ◌<◌, ◌>>=◌, ◌∙◌, ◌∷◌, ◌≡◌, ◌≤◌,
}
use mathlib.Core.List.{append-nil, append_assoc}
use libpaxos_cpp.Storage.Log.{Log, append, trim, enumerate}
use libpaxos_cpp.Storage.Backend.{Backend, Durable, IsBackend}
use libpaxos_cpp.Storage.Backend
use libpaxos_cpp.Storage.Accept.{accept-Holds}
use libpaxos_cpp.Storage.Keeps.{Keeps, Keeps-highest, Keeps-trim, above-Keeps}

-- Accepting values one after the other, each with the lowest proposal id that the leader reports.
abbrev pub accept_each :
    {S : Type 0} → Backend S → ℕ → List (Bytes × ℕ) → Durable S → Outcome (Durable S)
accept_each b n [] d = ok d
accept_each b n ((v, q) ∷ rest) d =
    Backend.accept b d (pos (suc n)) v (pos q) >>= λ d. accept_each b (suc n) rest d

abbrev pub values_of : List (Bytes × ℕ) → List Bytes
values_of [] = []
values_of ((v, q) ∷ rest) = v ∷ values_of rest

-- No lowest proposal id is above `w`.
abbrev pub AllBelow : ℕ → List (Bytes × ℕ) → Type 0
AllBelow w [] = Unit {0}
AllBelow w ((v, q) ∷ rest) = (q ≤ w) × AllBelow w rest

-- A storage that keeps the newest values of a history, and all those above `w`.
pub record Stores {S : Type 0} (Holds : S → Log → Type 0) (w size : ℕ) (history : List Bytes)
    (d : Durable S) : Type 0 where
  pub log : Log
  pub holds : Holds d.state log
  pub keeps : Keeps log history
  pub needed : log.base ≤ w
  pub sized : d.history_size ≡ pos size

module _ {S : Type 0} {b : Backend S} {Holds : S → Log → Type 0} (laws : IsBackend b Holds)
    (size w : ℕ) (some_size : 0 < size) where
  accept-Stores :
      (v : Bytes) (q : ℕ) (history : List Bytes) (d : Durable S)
      → q ≤ w
      → Stores Holds w size history d
      → (d' : Durable S) × (Backend.accept b d (pos (suc (length history))) v (pos q) ≡ ok d')
        × Stores Holds w size (history ++ v ∷ []) d'
  accept-Stores v q history d low k =
      let (t, n, done, few, holds) = accept-Holds laws d k.log v size q k.holds k.sized some_size in
      (
        record d { state = t },
        rw (← Keeps-highest k.keeps) done,
        record {
          log = trim n (append k.log v);
          holds = holds;
          keeps = Keeps-trim v size q n k.keeps some_size few;
          needed = omega (arith, k.needed, few);
          sized = k.sized;
        },
      )

  accept_each-Stores :
      (each : List (Bytes × ℕ)) (history : List Bytes) (d : Durable S)
      → AllBelow w each
      → Stores Holds w size history d
      → (d' : Durable S) × (accept_each b (length history) each d ≡ ok d')
        × Stores Holds w size (history ++ values_of each) d'
  accept_each-Stores [] history d low k =
      (d, refl, subst (λ h. Stores Holds w size h d) (sym (append-nil history)) k)
  accept_each-Stores ((v, q) ∷ rest) history d low k =
      let (d1, done, k1) = accept-Stores v q history d low.0 k in
      let longer : length (history ++ v ∷ []) ≡ suc (length history) =
        omega (arith, length-append history (v ∷ [])) in
      let (d2, more, k2) = accept_each-Stores rest (history ++ v ∷ []) d1 low.1 k1 in
      (
        d2,
        rw done (ap (λ n. accept_each b n rest d1) (sym longer) ∙ more),
        subst (λ h. Stores Holds w size h d2) (append_assoc history (v ∷ []) (values_of rest)) k2,
      )

  highest-Stores :
      (history : List Bytes) (d : Durable S)
      → Stores Holds w size history d
      → b.highest_proposal_id d.state ≡ ok (pos (length history))
  highest-Stores history d k =
      laws.highest-Holds k.holds ∙ ap (λ n. ok (pos n)) (Keeps-highest k.keeps)

  retrieve-Stores :
      (history : List Bytes) (d : Durable S) (p : ℕ)
      → Stores Holds w size history d
      → w ≤ p
      → b.retrieve d.state (pos p) ≡ ok (enumerate (suc p) (drop p history))
  retrieve-Stores history d p k h =
      laws.retrieve-Holds p k.holds (omega (arith, k.needed))
      ∙ ap (λ vs. ok (enumerate (suc p) vs)) (above-Keeps p k.keeps (omega (arith, k.needed)))

module _ {S T : Type 0} {b : Backend S} {c : Backend T} {Holds : S → Log → Type 0}
    {Holds' : T → Log → Type 0} (laws : IsBackend b Holds) (laws' : IsBackend c Holds') where
  -- Two storages that fulfil IsBackend, so that both retrieve all values above an id at once, with
  -- the same positive history size, that start with the newest values of the same history, all
  -- those above w among them, and accept the same values with lowest proposal ids of at most w,
  -- none negative, all succeed, and after that agree on the highest proposal id and on everything
  -- that is retrieved from w on.
  pub accept_each-interchange :
      (size w : ℕ) (history : List Bytes) (each : List (Bytes × ℕ)) (d : Durable S) (e : Durable T)
      → 0 < size
      → AllBelow w each
      → Stores Holds w size history d
      → Stores Holds' w size history e
      → (d' : Durable S) × (e' : Durable T) × (accept_each b (length history) each d ≡ ok d')
        × (accept_each c (length history) each e ≡ ok e')
        × (b.highest_proposal_id d'.state ≡ c.highest_proposal_id e'.state)
        × ((p : ℕ) → w ≤ p → b.retrieve d'.state (pos p) ≡ c.retrieve e'.state (pos p))
  accept_each-interchange size w history each d e some_size low k k' =
      let (d', done, s) = accept_each-Stores laws size w some_size each history d low k in
      let (e', done', s') = accept_each-Stores laws' size w some_size each history e low k' in
      let all : List Bytes = history ++ values_of each in
      (
        d',
        e',
        done,
        done',
        highest-Stores laws size w some_size all d' s
            ∙ sym (highest-Stores laws' size w some_size all e' s'),
        λ p h.
            retrieve-Stores laws size w some_size all d' p s h
            ∙ sym (retrieve-Stores laws' size w some_size all e' p s' h),
      )
