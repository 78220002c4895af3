-- ===== src/Strategy/Arrival/Tally.antt =====
-- What a round of the leader has noted of the followers that answered.
use libpaxos_cpp.Base.{
  Bool-cases, Map, Option, [], arith, find, find-insert, inl, inr, insert, ltb, none, ok, refl,
  some, true, ℕ, ℕ_order, ◌==◌, ◌∙◌, ◌∷◌, ◌≡◌, ◌⊎◌,
}
use libpaxos_cpp.Errors.{ErrorCode}
use libpaxos_cpp.Strategy.Leader.{
  Response, response_none, response_ack, response_reject, is_error, note_error, last_error,
}
use libpaxos_cpp.Strategy.Answer.{AllAck}

-- A follower that refused left an error.
abbrev pub IsCoded : ℕ → Response → Map ℕ ErrorCode → Type 0
IsCoded e response_none codes = ⊥
IsCoded e response_ack codes = Unit {0}
IsCoded e response_reject codes =
    (code : ErrorCode) × (find e codes ≡ some code) × (is_error code ≡ true)

abbrev pub AllCoded : Map ℕ Response → Map ℕ ErrorCode → Type 0
AllCoded [] codes = Unit {0}
AllCoded ((e, r) ∷ accepted) codes = IsCoded e r codes × AllCoded accepted codes

IsCoded-insert :
    (e k : ℕ) (code : ErrorCode) (r : Response) (codes : Map ℕ ErrorCode)
    → is_error code ≡ true
    → IsCoded e r codes
    → IsCoded e r (insert k code codes)
IsCoded-insert e k code response_none codes h c = c
IsCoded-insert e k code response_ack codes h c = tt
IsCoded-insert e k code response_reject codes h (old, at, real) = elim (Bool-cases (k == e)) [
  | inl here ↦ (code, find-insert k e code codes ∙ (rw here), h)
  | inr there ↦ (old, find-insert k e code codes ∙ (rw there at), real)
]

pub AllCoded-note :
    (k : ℕ) (code : ErrorCode) (accepted : Map ℕ Response) (codes : Map ℕ ErrorCode)
    → is_error code ≡ true
    → AllCoded accepted codes
    → AllCoded accepted (insert k code codes)
AllCoded-note k code [] codes h c = tt
AllCoded-note k code ((e, r) ∷ accepted) codes h c =
    (IsCoded-insert e k code r codes h c.0, AllCoded-note k code accepted codes h c.1)

pub AllCoded-insert :
    (k : ℕ) (r : Response) (accepted : Map ℕ Response) (codes : Map ℕ ErrorCode)
    → IsCoded k r codes
    → AllCoded accepted codes
    → AllCoded (insert k r accepted) codes
AllCoded-insert k r [] codes h c = (h, tt)
AllCoded-insert k r ((e, s) ∷ accepted) codes h c = elim (Bool-cases (ltb e k)) [
  | inl later ↦ rw later (c.0, AllCoded-insert k r accepted codes h c.1)
  | inr here ↦ elim (Bool-cases (ltb k e)) [
    | inl missing ↦ rw (here, missing) (h, c)
    | inr found ↦ rw (here, found) (h, c.1)
  ]
]

pub insert-AllAck :
    (k : ℕ) (accepted : Map ℕ Response) → AllAck accepted → AllAck (insert k response_ack accepted)
insert-AllAck k [] a = (refl, tt)
insert-AllAck k ((e, s) ∷ accepted) a = ground (arith, insert-AllAck k accepted a.1)

-- An entry that is written replaces nothing but an acknowledgement.
pub AllAck-insert :
    (k : ℕ) (r : Response) (accepted : Map ℕ Response)
    → (find k accepted ≡ none) ⊎ (find k accepted ≡ some response_ack)
    → AllAck (insert k r accepted)
    → (r ≡ response_ack) × AllAck accepted
AllAck-insert k r [] h a = a
AllAck-insert k r ((e, s) ∷ accepted) h a = ground (arith, AllAck-insert k r accepted)

-- The last error: none where all accepted, and else one that is noted.
pub last_error-AllCoded :
    (accepted : Map ℕ Response) (codes : Map ℕ ErrorCode) (before : Option ErrorCode)
    → AllCoded accepted codes
    → (last : Option ErrorCode) × (last_error accepted codes before ≡ ok last)
      × ((AllAck accepted × (last ≡ before))
          ⊎ (¬ AllAck accepted
              × ((e : ℕ) × (code : ErrorCode) × (find e codes ≡ some code) × (last ≡ some code))))
unfolding last_error note_error
last_error-AllCoded [] codes before c = (before, refl, inl (tt, refl))
last_error-AllCoded ((e, response_none) ∷ accepted) codes before c = absurd c.0
last_error-AllCoded ((e, response_ack) ∷ accepted) codes before c =
    let (last, done, which) = last_error-AllCoded accepted codes before c.1 in
    (
      last,
      done,
      elim which [
        | inl (acks, same) ↦ inl ((refl, acks), same)
        | inr (refused, why) ↦ inr (λ a. refused a.1, why)
      ],
    )
last_error-AllCoded ((e, response_reject) ∷ accepted) codes before ((code, at, real), c) =
    let (last, done, which) = last_error-AllCoded accepted codes (some code) c in
    (
      last,
      rw (at, real, last_error, note_error) done,
      inr (
        λ a. ground (arith, a.0),
        elim which [ inl (acks, same) ↦ (e, code, at, same) | inr (refused, why) ↦ why ],
      ),
    )

pub AllAck-AllCoded :
    (accepted : Map ℕ Response) (codes : Map ℕ ErrorCode)
    → AllAck accepted
    → AllCoded accepted codes
AllAck-AllCoded [] codes a = tt
AllAck-AllCoded ((e, r) ∷ accepted) codes (ack, a) = (rw ack tt, AllAck-AllCoded accepted codes a)
