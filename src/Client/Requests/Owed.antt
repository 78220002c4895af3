-- ===== src/Client/Requests/Owed.antt =====
-- Where the requests of a client are, and what a reply does to them.
use libpaxos_cpp.Base.{
  List, [], arith, if◌then◌else◌, inl, inr, none, ok, refl, some, suc, zero, ℕ, ◌++◌, ◌+◌, ◌==◌,
  ◌∷◌, ◌≡◌, ◌≢◌, ◌⊎◌,
}
use libpaxos_cpp.Errors.{no_error}
use libpaxos_cpp.Client.InitiateRequest.{Reply}
use libpaxos_cpp.Client.Retry.{Promise, set_value, set_exception, on_reply}
use libpaxos_cpp.Client.Retry.Settles.{exception_of_lem}
use libpaxos_cpp.Client.Requests.{Pending, Client, callback}

-- How often a promise is among others.
abbrev pub count : ℕ → List ℕ → ℕ
count k [] = 0
count k (j ∷ js) = let rest = count k js in if j == k then suc rest else rest

abbrev pub owed : List Pending → List ℕ
owed [] = []
owed (p ∷ ps) = p.promise ∷ owed ps

abbrev pub settled : List (ℕ × Promise) → List ℕ
settled [] = []
settled ((k, p) ∷ ps) = k ∷ settled ps

pub owed-snoc :
    (k : ℕ) (ps : List Pending) (p : Pending)
    → count k (owed (ps ++ p ∷ [])) ≡ count k (p.promise ∷ []) + count k (owed ps)
owed-snoc k [] p = omega arith
owed-snoc k (q ∷ ps) p = ground (arith, owed-snoc k ps p)

settled-snoc :
    (k j : ℕ) (ps : List (ℕ × Promise)) (r : Promise)
    → count k (settled (ps ++ (j, r) ∷ [])) ≡ count k (j ∷ []) + count k (settled ps)
settled-snoc k j [] r = omega arith
settled-snoc k j ((i, q) ∷ ps) r = ground (arith, settled-snoc k j ps r)

-- Where a request is: in the queue, waiting for a timer, or with its promise set.
abbrev pub account : ℕ → Client → ℕ
account k s =
    count k (owed s.request_queue.queue) + (count k (owed s.timers) + count k (settled s.promises))

abbrev pub IsReal : Reply → Type 0
IsReal (none, w) = Unit {0}
IsReal (some e, w) = e ≢ no_error

zero_or_suc : (n : ℕ) → (n ≡ 0) ⊎ ((m : ℕ) × (n ≡ suc m))
zero_or_suc zero = inl refl
zero_or_suc (suc n) = inr (n, refl)

pub callback_lem :
    (p : Pending) (reply : Reply) (s : Client)
    → IsReal reply
    → (ts : List Pending) × (ps : List (ℕ × Promise)) × (callback p reply s
        ≡ ok (record s { timers = ts; promises = ps }))
      × ((k : ℕ)
          → count k (owed ts) + count k (settled ps)
            ≡ count k (p.promise ∷ []) + (count k (owed s.timers) + count k (settled s.promises)))
unfolding callback on_reply
callback_lem p (none, w) s real = (
  s.timers,
  s.promises ++ (p.promise, set_value w) ∷ [],
  refl,
  λ k. omega (arith, settled-snoc k p.promise s.promises (set_value w)),
)
callback_lem p (some e, w) s real = elim (zero_or_suc p.retries) [
  | inl last ↦
      let (x, raised) = exception_of_lem e real in
      (
        s.timers,
        s.promises ++ (p.promise, set_exception x) ∷ [],
        rw (last, raised) refl,
        λ k. omega (arith, settled-snoc k p.promise s.promises (set_exception x)),
      )
  | inr (n, more) ↦ (
    s.timers ++ record p { retries = n } ∷ [],
    s.promises,
    rw more refl,
    λ k. omega (arith, owed-snoc k s.timers (record p { retries = n })),
  )
]
