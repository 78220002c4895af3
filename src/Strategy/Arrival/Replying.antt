-- ===== src/Strategy/Arrival/Replying.antt =====
-- What the answer to an accept, or its refusal, leaves in a round of strategy.cpp.
use libpaxos_cpp.Base.{
  Ascending, Bool-cases, Bytes, Map, Option, [], arith, erase, erase-Ascending, false, find,
  find-insert, find-insert_self, get_last?, inl, inr, insert, is_empty, length, length-erase,
  length-insert, ltb, none, ok, refl, some, true, ℕ, ℕ_order, ℤ, ◌+◌, ◌∷◌, ◌≡◌, ◌≢◌, ◌⊎◌,
}
use libpaxos_cpp.Errors.{ErrorCode}
use libpaxos_cpp.Command.{Command, CommandType, type_request_accepted}
use libpaxos_cpp.Storage.Backend.{Backend}
use libpaxos_cpp.Strategy.Node.{Node}
use libpaxos_cpp.Strategy.Leader.{Round, response_ack, response_reject, is_error}
use libpaxos_cpp.Strategy.Callbacks.{note_lost, note_accepted, absorb_accepted}
use libpaxos_cpp.Strategy.Answer.{AllAck, AllSame}
use libpaxos_cpp.Strategy.Arrival.{
  refused_by, refusal, IsAnswer, CanReply, find_owed, lost-CanReply, process-CanReply,
}
use libpaxos_cpp.Strategy.Arrival.Tally.{AllCoded, AllCoded-note, AllCoded-insert, AllAck-insert}

-- An accept is answered with what the follower's callback said, which is not empty.
abbrev pub IsAccepted : Command → Type 0
IsAccepted c =
    (c.type_ ≡ type_request_accepted)
    × ((id : ℤ) × (x : ℕ) × (w : Bytes) × (get_last? c.proposed_workload ≡ some (id, x ∷ w)))

pub accepted_agrees : (c : Command) → IsAccepted c → refused_by c.type_ c.error_code ≡ none
accepted_agrees c h = rw h.0 refl

abbrev last_of : CommandType → Option (ℤ × Bytes) → Bytes
last_of type_request_accepted (some (id, answer)) = answer
last_of _ _ = []

-- The response of a follower, empty where it refused.
abbrev pub reply : Option ErrorCode → Command → Bytes
reply (some error) c = []
reply none c = last_of c.type_ (get_last? c.proposed_workload)

abbrev pub AllFull : Map ℕ Bytes → Type 0
AllFull [] = Unit {0}
AllFull ((e, w) ∷ m) = (w ≢ []) × AllFull m

insert-AllFull : (e : ℕ) (w : Bytes) (m : Map ℕ Bytes) → w ≢ [] → AllFull m → AllFull (insert e w m)
insert-AllFull e w [] h a = (h, tt)
insert-AllFull e w ((f, v) ∷ m) h a = elim (Bool-cases (ltb f e)) [
  | inl later ↦ rw later (a.0, insert-AllFull e w m h a.1)
  | inr here ↦ elim (Bool-cases (ltb e f)) [
    | inl missing ↦ rw (here, missing) (h, a)
    | inr found ↦ rw (here, found) (h, a.1)
  ]
]

pub insert-AllSame :
    (w : Bytes) (e : ℕ) (v : Bytes) (m : Map ℕ Bytes)
    → v ≡ w
    → AllSame w m
    → AllSame w (insert e v m)
insert-AllSame w e v [] h a = (h, tt)
insert-AllSame w e v ((f, u) ∷ m) h a = elim (Bool-cases (ltb f e)) [
  | inl later ↦ rw later (a.0, insert-AllSame w e v m h a.1)
  | inr here ↦ elim (Bool-cases (ltb e f)) [
    | inl missing ↦ rw (here, missing) (h, a)
    | inr found ↦ rw (here, found) (h, a.1)
  ]
]

pub AllSame-insert :
    (w : Bytes) (e : ℕ) (v : Bytes) (m : Map ℕ Bytes)
    → find e m ≡ none
    → AllSame w (insert e v m)
    → (v ≡ w) × AllSame w m
AllSame-insert w e v [] h a = a
AllSame-insert w e v ((f, u) ∷ m) h a = ground (arith, AllSame-insert w e v m)

abbrev pub replied : ℕ → Option ErrorCode → Bytes → Round → Round
replied e none w r = record r {
  accepted = insert e response_ack r.accepted;
  responses = insert e w r.responses;
}
replied e (some code) w r = record (note_lost e code r) { responses = insert e w r.responses }

-- A round in which everybody promised, and the followers of `m` still have to answer the accept.
pub record Expects (connections m : Map ℕ ℕ) (r : Round) : Type 0 where
  pub same : r.connections ≡ connections
  pub ascending : Ascending m
  pub within : (e c : ℕ) → find e m ≡ some c → find e connections ≡ some c
  pub count : length r.responses + length m ≡ length connections
  pub fresh : (e c : ℕ) → find e m ≡ some c → find e r.responses ≡ none
  pub promised : (e c : ℕ) → find e m ≡ some c → find e r.accepted ≡ some response_ack
  pub uncoded : (e c : ℕ) → find e m ≡ some c → find e r.error_codes ≡ none
  pub coded : AllCoded r.accepted r.error_codes
  pub full : AllAck r.accepted → AllFull r.responses

pub replied-Expects :
    (e c : ℕ) (v : Option ErrorCode) (w : Bytes) {connections m : Map ℕ ℕ} {r : Round}
    → find e m ≡ some c
    → ((v ≡ none) × (w ≢ [])) ⊎ ((code : ErrorCode) × (v ≡ some code) × (is_error code ≡ true))
    → Expects connections m r
    → Expects connections (erase e m) (replied e v w r)
replied-Expects e c none w {connections} {m} {r} h (inr (code', same, real)) x = cc
replied-Expects e c none w {connections} {m} {r} h (inl (agreed, some_bytes)) x = record {
  same = x.same;
  ascending = erase-Ascending e m x.ascending;
  within = λ j d k. x.within j d (find_owed e j d m x.ascending k).1;
  count =
      omega (arith, x.count, length-erase e c m h, length-insert e w r.responses (x.fresh e c h));
  fresh = λ j d k.
      let (other, still) = find_owed e j d m x.ascending k in
      ground (arith, find-insert e j w r.responses, other, x.fresh j d still);
  promised = λ j d k.
      let (other, still) = find_owed e j d m x.ascending k in
      ground (arith, find-insert e j response_ack r.accepted, other, x.promised j d still);
  uncoded = λ j d k. x.uncoded j d (find_owed e j d m x.ascending k).1;
  coded = AllCoded-insert e response_ack r.accepted r.error_codes tt x.coded;
  full = λ a.
      insert-AllFull e w r.responses some_bytes
        (x.full (AllAck-insert e response_ack r.accepted (inr (x.promised e c h)) a).1);
}
replied-Expects e c (some code) w {connections} {m} {r} h (inl (agreed, some_bytes)) x = cc
replied-Expects e c (some code) w {connections} {m} {r} h (inr (code', same, real)) x =
    let real' : is_error code ≡ true = cc in
    record {
      same = x.same;
      ascending = erase-Ascending e m x.ascending;
      within = λ j d k. x.within j d (find_owed e j d m x.ascending k).1;
      count =
          omega
            (arith, x.count, length-erase e c m h, length-insert e w r.responses (x.fresh e c h));
      fresh = λ j d k.
          let (other, still) = find_owed e j d m x.ascending k in
          ground (arith, find-insert e j w r.responses, other, x.fresh j d still);
      promised = λ j d k.
          let (other, still) = find_owed e j d m x.ascending k in
          ground (arith, find-insert e j response_reject r.accepted, other, x.promised j d still);
      uncoded = λ j d k.
          let (other, still) = find_owed e j d m x.ascending k in
          ground (arith, find-insert e j code r.error_codes, other, x.uncoded j d still);
      coded =
          AllCoded-insert e response_reject r.accepted (insert e code r.error_codes)
            (code, find-insert_self e code r.error_codes, real')
            (AllCoded-note e code r.accepted r.error_codes real' x.coded);
      full = λ a.
          ground (arith, (AllAck-insert e response_reject r.accepted (inr (x.promised e c h)) a).0);
    }

-- What an answer gives: a response, or an error.
pub refusal-IsAccepted :
    (error : Option ErrorCode) (e : ℕ) (c : Command)
    → IsAnswer IsAccepted error e c
    → ((refusal error c ≡ none) × (reply error c ≢ []))
      ⊎ ((code : ErrorCode) × (refusal error c ≡ some code) × (is_error code ≡ true))
refusal-IsAccepted (some error) e c h = inr (error, refl, h)
refusal-IsAccepted none e c (from, is, inl (type_, (id, x, w, last))) =
    inl (rw type_ refl, λ h. ground (arith, rw (type_, last) at h))
refusal-IsAccepted none e c (from, is, inr (fail, real)) = inr (c.error_code, rw fail refl, real)

some_last : (m : Map ℤ Bytes) (p : ℤ × Bytes) → get_last? m ≡ some p → is_empty m ≡ false
some_last [] p h = cc
some_last (q ∷ m) p h = refl

module _ {S P D : Type 0} {b : Backend S} {connections : Map ℕ ℕ} where
  pub absorb_accepted-Expects :
      (error : Option ErrorCode) (e d : ℕ) (c : Command) {m : Map ℕ ℕ} {r : Round} {n : Node S P D}
      → IsAnswer IsAccepted error e c
      → find e m ≡ some d
      → Expects connections m r
      → CanReply b connections n
      → (n' : Node S P D) × (absorb_accepted error e c r n
          ≡ ok (n', replied e (refusal error c) (reply error c) r))
        × CanReply b connections n'
  unfolding absorb_accepted note_accepted
  absorb_accepted-Expects (some error) e d c real h x k =
      let (n', died, k') = lost-CanReply e d (x.within e d h) k in (n', rw died refl, k')
  absorb_accepted-Expects none e d c {m} {r} (from, (id, is), inl (type_, (i, y, w, last))) h x k =
      let (n', processed, k') = process-CanReply e d id c (x.within e d h) from is k in
      (
        n',
        rw
            (
              processed,
              x.promised e d h,
              x.fresh e d h,
              x.uncoded e d h,
              type_,
              some_last c.proposed_workload (i, y ∷ w) last,
              last,
            )
            refl,
        k',
      )
  absorb_accepted-Expects none e d c {m} {r} (from, (id, is), inr (fail, real)) h x k =
      let (n', processed, k') = process-CanReply e d id c (x.within e d h) from is k in
      (n', rw (processed, x.promised e d h, x.fresh e d h, x.uncoded e d h, fail) refl, k')
