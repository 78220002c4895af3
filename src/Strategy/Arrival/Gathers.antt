-- ===== src/Strategy/Arrival/Gathers.antt =====
-- What a round of strategy.cpp gathers from the answers to an accept.
use libpaxos_cpp.Base.{
  Bytes, List, Map, Option, [], arith, find, find-insert, inl, inr, insert, none, refl, some, ℕ,
  ℕ_order, ◌∷◌, ◌≡◌, ◌⊎◌,
}
use libpaxos_cpp.Errors.{ErrorCode}
use libpaxos_cpp.Strategy.Leader.{Round, response_ack, response_reject}
use libpaxos_cpp.Strategy.Answer.{AllAck, AllSame}
use libpaxos_cpp.Strategy.Arrival.{Arrival, refusal, AllAgree, Refused}
use libpaxos_cpp.Strategy.Arrival.Tally.{insert-AllAck, AllAck-insert}
use libpaxos_cpp.Strategy.Arrival.Replying.{reply, replied, Expects, insert-AllSame, AllSame-insert}

module _ {S P D : Type 0} where
  -- Every follower gave this response.
  abbrev pub AllReply : Bytes → List (Arrival S P D) → Type 0
  AllReply w [] = Unit {0}
  AllReply w (a ∷ rest) = (reply a.error a.command ≡ w) × AllReply w rest

-- What the round knows in the end, of what it knew before and of the answers since.
pub record Gathers {S P D : Type 0} (rest : List (Arrival S P D)) (r r' : Round) : Type 0 where
  pub acks : AllAck r'.accepted → AllAck r.accepted × AllAgree rest
  pub acked : AllAck r.accepted → AllAgree rest → AllAck r'.accepted
  pub same : (w : Bytes) → AllSame w r'.responses → AllSame w r.responses × AllReply w rest
  pub shared : (w : Bytes) → AllSame w r.responses → AllReply w rest → AllSame w r'.responses
  pub codes :
      (e : ℕ) (code : ErrorCode)
      → find e r'.error_codes ≡ some code
      → ((j : ℕ) × (find j r.error_codes ≡ some code)) ⊎ Refused code rest

replied-AllAck :
    (e : ℕ) (v : Option ErrorCode) (w : Bytes) (r : Round)
    → (find e r.accepted ≡ none) ⊎ (find e r.accepted ≡ some response_ack)
    → AllAck (replied e v w r).accepted
    → (v ≡ none) × AllAck r.accepted
replied-AllAck e none w r h a = (refl, (AllAck-insert e response_ack r.accepted h a).1)
replied-AllAck e (some code) w r h a =
    ground (arith, (AllAck-insert e response_reject r.accepted h a).0)

replied_agreed :
    (e : ℕ) (v : Option ErrorCode) (w : Bytes) (r : Round)
    → v ≡ none
    → AllAck r.accepted
    → AllAck (replied e v w r).accepted
replied_agreed e none w r h a = insert-AllAck e r.accepted a
replied_agreed e (some code) w r h a = cc

replied_code :
    (e j : ℕ) (code : ErrorCode) (v : Option ErrorCode) (w : Bytes) (r : Round)
    → find j (replied e v w r).error_codes ≡ some code
    → (find j r.error_codes ≡ some code) ⊎ (v ≡ some code)
replied_code e j code none w r h = inl h
replied_code e j code (some given) w r h = ground (arith, find-insert e j given r.error_codes)

replied_responses :
    (e : ℕ) (v : Option ErrorCode) (w : Bytes) (r : Round)
    → (replied e v w r).responses ≡ insert e w r.responses
replied_responses e none w r = refl
replied_responses e (some code) w r = refl

module _ {S P D : Type 0} {connections m : Map ℕ ℕ} (a : Arrival S P D) (r : Round)
    (at : find a.follower m ≡ some a.connection) (x : Expects connections m r) where
  abbrev pub after : Round
  after = replied a.follower (refusal a.error a.command) (reply a.error a.command) r

  -- One answer, before those that follow.
  pub Gathers-cons :
      (rest : List (Arrival S P D)) {r' : Round} → Gathers rest after r' → Gathers (a ∷ rest) r r'
  Gathers-cons rest {r'} g =
      let v : Option ErrorCode = refusal a.error a.command in
      let w : Bytes = reply a.error a.command in
      let written : after.responses ≡ insert a.follower w r.responses =
        replied_responses a.follower v w r in
      let fresh : find a.follower r.responses ≡ none = x.fresh a.follower a.connection at in
      record {
        acks = λ h.
            let (acks, agree) = g.acks h in
            let (agreed, before) =
              replied-AllAck a.follower v w r (inr (x.promised a.follower a.connection at)) acks in
            (before, (agreed, agree));
        acked = λ acks agree. g.acked (replied_agreed a.follower v w r agree.0 acks) agree.1;
        same = λ u h.
            let (now, later) = g.same u h in
            let (this, before) =
              AllSame-insert u a.follower w r.responses fresh (rw written at now) in
            (before, (this, later));
        shared = λ u before all.
            g.shared u (rw written (insert-AllSame u a.follower w r.responses all.0 before)) all.1;
        codes = λ e code h. elim (g.codes e code h) [
          | inl (j, now) ↦ elim (replied_code a.follower j code v w r now) [
            | inl before ↦ inl (j, before)
            | inr this ↦ inr (inl this)
          ]
          | inr later ↦ inr (inr later)
        ];
      }

  pub Gathers-one : Gathers (a ∷ []) r after
  Gathers-one = Gathers-cons [] (record {
    acks = λ h. (h, tt);
    acked = λ h _. h;
    same = λ w h. (h, tt);
    shared = λ w h _. h;
    codes = λ e code h. inl (e, h);
  })
