-- ===== src/Strategy/Arrival/Waiting.antt =====
-- What a promise, or its refusal, leaves in a round of strategy.cpp.
use libpaxos_cpp.Base.{
  ==_refl, Ascending, Bool-cases, Map, Option, [], ap, arith, erase, erase-Ascending, find,
  find-erase, find-insert, find-insert_self, inl, inr, insert, length, length-erase, length-insert,
  none, ok, refl, some, true, ℕ, ℕ_order, ◌+◌, ◌==◌, ◌∙◌, ◌∷◌, ◌≡◌, ◌⊎◌,
}
use libpaxos_cpp.Errors.{ErrorCode}
use libpaxos_cpp.Command.{Command, type_request_promise}
use libpaxos_cpp.Storage.Backend.{Backend}
use libpaxos_cpp.Strategy.Node.{Node}
use libpaxos_cpp.Strategy.Leader.{
  Response, Round, new_round, response_ack, response_reject, is_error,
}
use libpaxos_cpp.Strategy.Callbacks.{note_promise, note_lost, absorb_promise}
use libpaxos_cpp.Strategy.Answer.{AllAck}
use libpaxos_cpp.Strategy.Arrival.{
  find_owed, refused_by, refusal, IsAnswer, CanReply, lost-CanReply, process-CanReply,
}
use libpaxos_cpp.Strategy.Arrival.Tally.{
  AllCoded, AllCoded-note, AllCoded-insert, insert-AllAck, AllAck-insert,
}

abbrev pub IsPromise : Command → Type 0
IsPromise c = c.type_ ≡ type_request_promise

-- What an answer leaves in the round.
abbrev pub noted : ℕ → Option ErrorCode → Round → Round
noted e none r = record r { accepted = insert e response_ack r.accepted }
noted e (some code) r = note_lost e code r

-- A round in which the followers of `m` still have to answer.
pub record Waits (connections m : Map ℕ ℕ) (r : Round) : Type 0 where
  pub same : r.connections ≡ connections
  pub ascending : Ascending m
  pub within : (e c : ℕ) → find e m ≡ some c → find e connections ≡ some c
  pub count : length r.accepted + length m ≡ length connections
  pub fresh : (e c : ℕ) → find e m ≡ some c → find e r.accepted ≡ none
  pub coded : AllCoded r.accepted r.error_codes
  pub clean : AllAck r.accepted → r.error_codes ≡ []
  pub heard :
      (e c : ℕ)
      → find e connections ≡ some c
      → (find e m ≡ some c) ⊎ ((s : Response) × (find e r.accepted ≡ some s))
  pub silent : r.responses ≡ []

-- A round that starts.
pub starts :
    (connections : Map ℕ ℕ)
    → Ascending connections
    → Waits connections connections (record new_round { connections = connections })
starts connections ascending = record {
  same = refl;
  ascending = ascending;
  within = λ e c h. h;
  count = omega arith;
  fresh = λ e c h. refl;
  coded = tt;
  clean = λ a. refl;
  heard = λ e c h. inl h;
  silent = refl;
}

-- A round in which every follower has promised.
pub record Promised (connections : Map ℕ ℕ) (r : Round) : Type 0 where
  pub same : r.connections ≡ connections
  pub acks : AllAck r.accepted
  pub each : (e c : ℕ) → find e connections ≡ some c → find e r.accepted ≡ some response_ack
  pub clean : r.error_codes ≡ []
  pub silent : r.responses ≡ []

find-AllAck :
    (e : ℕ) (s : Response) (accepted : Map ℕ Response)
    → AllAck accepted
    → find e accepted ≡ some s
    → s ≡ response_ack
find-AllAck e s [] a h = cc
find-AllAck e s ((f, t) ∷ accepted) a h = ground (arith, find-AllAck e s accepted)

pub Waits-Promised :
    {connections : Map ℕ ℕ} {r : Round}
    → Waits connections [] r
    → AllAck r.accepted
    → Promised connections r
Waits-Promised {connections} {r} w acks = record {
  same = w.same;
  acks = acks;
  clean = w.clean acks;
  silent = w.silent;
  each = λ e c h. elim (w.heard e c h) [
    | inl waiting ↦ cc
    | inr (s, at) ↦ at ∙ ap some (find-AllAck e s r.accepted acks at)
  ];
}

heard_step :
    (e : ℕ) (s : Response) (m : Map ℕ ℕ) (accepted : Map ℕ Response)
    → Ascending m
    → (j d : ℕ) → (find j m ≡ some d) ⊎ ((t : Response) × (find j accepted ≡ some t))
    → (find j (erase e m) ≡ some d) ⊎ ((t : Response) × (find j (insert e s accepted) ≡ some t))
heard_step e s m accepted a j d h = elim (Bool-cases (e == j)) [
  | inl this ↦ inr (s, find-insert e j s accepted ∙ (rw this refl))
  | inr other ↦ elim h [
    | inl waiting ↦ inl (find-erase e j m a ∙ (rw other waiting))
    | inr (t, at) ↦ inr (t, find-insert e j s accepted ∙ (rw other at))
  ]
]

pub promise_agrees : (c : Command) → IsPromise c → refused_by c.type_ c.error_code ≡ none
promise_agrees c h = rw h refl

pub noted-Waits :
    (e c : ℕ) (v : Option ErrorCode) {connections m : Map ℕ ℕ} {r : Round}
    → find e m ≡ some c
    → (v ≡ none) ⊎ ((code : ErrorCode) × (v ≡ some code) × (is_error code ≡ true))
    → Waits connections m r
    → Waits connections (erase e m) (noted e v r)
noted-Waits e c none {connections} {m} {r} h agreed w = record {
  same = w.same;
  ascending = erase-Ascending e m w.ascending;
  within = λ j d k. w.within j d (find_owed e j d m w.ascending k).1;
  count = omega (
    arith,
    w.count,
    length-erase e c m h,
    length-insert e response_ack r.accepted (w.fresh e c h),
  );
  fresh = λ j d k.
      let (other, still) = find_owed e j d m w.ascending k in
      ground (arith, find-insert e j response_ack r.accepted, other, w.fresh j d still);
  coded = AllCoded-insert e response_ack r.accepted r.error_codes tt w.coded;
  heard = λ j d k. heard_step e response_ack m r.accepted w.ascending j d (w.heard j d k);
  silent = w.silent;
  clean = λ a. w.clean (AllAck-insert e response_ack r.accepted (inl (w.fresh e c h)) a).1;
}
noted-Waits e c (some code) {connections} {m} {r} h (inl agreed) w = cc
noted-Waits e c (some code) {connections} {m} {r} h (inr (code', same, real)) w =
    let real' : is_error code ≡ true = cc in
    record {
      same = w.same;
      ascending = erase-Ascending e m w.ascending;
      within = λ j d k. w.within j d (find_owed e j d m w.ascending k).1;
      count = omega (
        arith,
        w.count,
        length-erase e c m h,
        length-insert e response_reject r.accepted (w.fresh e c h),
      );
      fresh = λ j d k.
          let (other, still) = find_owed e j d m w.ascending k in
          ground (arith, find-insert e j response_reject r.accepted, other, w.fresh j d still);
      coded =
          AllCoded-insert e response_reject r.accepted (insert e code r.error_codes)
            (code, find-insert_self e code r.error_codes, real')
            (AllCoded-note e code r.accepted r.error_codes real' w.coded);
      heard = λ j d k. heard_step e response_reject m r.accepted w.ascending j d (w.heard j d k);
      silent = w.silent;
      clean = λ a.
          ground (arith, (AllAck-insert e response_reject r.accepted (inl (w.fresh e c h)) a).0);
    }

pub noted-AllAck :
    (e : ℕ) (v : Option ErrorCode) (r : Round)
    → find e r.accepted ≡ none
    → AllAck (noted e v r).accepted
    → (v ≡ none) × AllAck r.accepted
noted-AllAck e none r h a = (refl, (AllAck-insert e response_ack r.accepted (inl h) a).1)
noted-AllAck e (some code) r h a =
    ground (arith, (AllAck-insert e response_reject r.accepted (inl h) a).0)

pub noted_agreed :
    (e : ℕ) (v : Option ErrorCode) (r : Round)
    → v ≡ none
    → AllAck r.accepted
    → AllAck (noted e v r).accepted
noted_agreed e none r h a = insert-AllAck e r.accepted a
noted_agreed e (some code) r h a = cc

pub noted_code :
    (e j : ℕ) (code : ErrorCode) (v : Option ErrorCode) (r : Round)
    → find j (noted e v r).error_codes ≡ some code
    → (find j r.error_codes ≡ some code) ⊎ (v ≡ some code)
noted_code e j code none r h = inl h
noted_code e j code (some given) r h = ground (arith, find-insert e j given r.error_codes)

module _ {S P D : Type 0} {b : Backend S} {connections : Map ℕ ℕ} where
  pub absorb_promise-Waits :
      (error : Option ErrorCode) (e d : ℕ) (c : Command) {m : Map ℕ ℕ} {r : Round} {n : Node S P D}
      → IsAnswer IsPromise error e c
      → find e m ≡ some d
      → Waits connections m r
      → CanReply b connections n
      → (n' : Node S P D) × (absorb_promise error e d c r n ≡ ok (n', noted e (refusal error c) r))
        × CanReply b connections n'
  unfolding absorb_promise note_promise
  absorb_promise-Waits (some error) e d c real h w k =
      let (n', died, k') = lost-CanReply e d (w.within e d h) k in (n', rw died refl, k')
  absorb_promise-Waits none e d c {m} {r} (from, (id, is), inl promise) h w k =
      let (n', processed, k') = process-CanReply e d id c (w.within e d h) from is k in
      let ours : find e r.connections ≡ some d = rw w.same (w.within e d h) in
      (n', rw (processed, ours, ==_refl d, promise) refl, k')
  absorb_promise-Waits none e d c {m} {r} (from, (id, is), inr (fail, real)) h w k =
      let (n', processed, k') = process-CanReply e d id c (w.within e d h) from is k in
      let ours : find e r.connections ≡ some d = rw w.same (w.within e d h) in
      (n', rw (processed, ours, ==_refl d, fail) refl, k')
