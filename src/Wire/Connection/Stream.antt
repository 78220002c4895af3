-- ===== src/Wire/Connection/Stream.antt =====
-- The socket gets the messages in order, each once, where the bytes of the buffer stay in place; where
-- they move while a write is pending, it reads what is no longer there.
use mathlib.Core.List.{append-nil, append_assoc}
use libpaxos_cpp.Base.{
  Bool, Bytes, List, Option, Outcome, [], ap, arith, drop, drop-append_length, false, fault, leb,
  length, length-append, none, ok, refl, some, subst, sym, take, take-append_length, true,
  undefined, ℕ, ◌++◌, ◌>>=◌, ◌||◌, ◌∙◌, ◌∷◌, ◌≡◌, ◌≢◌,
}
use libpaxos_cpp.Wire.Connection.{
  Reference, Connection, new_connection, start_write_locked, write_locked, handle_write_locked,
  handle_write, complete,
}

-- What the peer has or will have received.
abbrev pub stream : Connection → Bytes
stream c = c.sent ++ c.write_buffer

-- A write is pending exactly while the buffer holds bytes, and refers to the front of the buffer,
-- which has not moved.
abbrev pub IsWriting : Bytes → Option Reference → Type 0
IsWriting buffer none = buffer ≡ []
IsWriting buffer (some r) =
    (p later : Bytes) × (buffer ≡ p ++ later) × (r.size ≡ length p) × (p ≢ []) × (r.moved ≡ false)

abbrev pub IsSound : Connection → Type 0
IsSound c = IsWriting c.write_buffer c.writing

-- A connection by its fields.
abbrev at : Bytes → Option Reference → Bytes → Connection
at buffer writing sent = record { write_buffer = buffer; writing = writing; sent = sent }

-- A write of this many bytes, which have not moved.
abbrev pub pending : Bytes → Option Reference
pending p = some (record { size = length p; moved = false })

abbrev Sends : Connection → Outcome Connection → Bytes → Type 0
Sends c o m = (d : Connection) × (o ≡ ok d) × IsSound d × (stream d ≡ stream c ++ m)

not_empty : (x : ℕ) (buffer : Bytes) → x ∷ buffer ≢ []
not_empty x buffer e = cc

front_empty : (p later : Bytes) → p ++ later ≡ [] → p ≡ []
front_empty [] later e = refl
front_empty (z ∷ p) later e = cc

write_locked-Sends :
    (m buffer : Bytes) (w : Option Reference) (sent : Bytes)
    → m ≢ []
    → IsWriting buffer w
    → Sends (at buffer w sent) (write_locked false m (at buffer w sent)) m
unfolding write_locked start_write_locked
write_locked-Sends [] buffer w sent h s = absurd (h refl)
write_locked-Sends (x ∷ m) [] none sent h s = (
  at (x ∷ m) (pending (x ∷ m)) sent,
  refl,
  (x ∷ m, [], sym (append-nil (x ∷ m)), refl, h, refl),
  rw append-nil,
)
write_locked-Sends (x ∷ m) (y ∷ buffer) none sent h s = absurd (not_empty y buffer s)
write_locked-Sends (x ∷ m) [] (some r) sent h (p, later, e, size, full, stays) =
    absurd (full (front_empty p later (sym e)))
write_locked-Sends (x ∷ m) (y ∷ buffer) (some r) sent h (p, later, e, size, full, stays) = (
  at (y ∷ buffer ++ x ∷ m) (some (record r { moved = r.moved || false })) sent,
  refl,
  (
    p,
    later ++ x ∷ m,
    ap (λ l. l ++ x ∷ m) e ∙ append_assoc p later (x ∷ m),
    size,
    full,
    rw stays refl,
  ),
  sym (append_assoc sent (y ∷ buffer) (x ∷ m)),
)

-- The socket took the pending bytes, and these are left; a new write is started for them.
abbrev after : Bytes → Bytes → Connection
after [] sent = at [] none sent
after (x ∷ later) sent = at (x ∷ later) (pending (x ∷ later)) sent

after-IsSound : (later sent : Bytes) → IsSound (after later sent)
after-IsSound [] sent = refl
after-IsSound (x ∷ later) sent =
    (x ∷ later, [], sym (append-nil (x ∷ later)), refl, not_empty x later, refl)

taken : (buffer p later : Bytes) → buffer ≡ p ++ later → take (length p) buffer ≡ p
taken buffer p later e = ap (take (length p)) e ∙ take-append_length p later

left : (buffer p later : Bytes) → buffer ≡ p ++ later → drop (length p) buffer ≡ later
left buffer p later e = ap (drop (length p)) e ∙ drop-append_length p later

enough : (buffer p later : Bytes) → buffer ≡ p ++ later → leb (length p) (length buffer) ≡ true
enough buffer p later e = ground (arith, ap length e, length-append p later)

complete_pending :
    (buffer p later sent : Bytes)
    → buffer ≡ p ++ later
    → complete false 0 (at buffer (pending p) sent) ≡ ok (after later (sent ++ p))
unfolding complete handle_write handle_write_locked start_write_locked
complete_pending buffer p [] sent e =
    rw (enough buffer p [] e, left buffer p [] e, taken buffer p [] e)
complete_pending buffer p (x ∷ later) sent e =
    rw (enough buffer p (x ∷ later) e, left buffer p (x ∷ later) e, taken buffer p (x ∷ later) e)

-- The same by what is known of the reference.
complete_reference :
    (buffer : Bytes) (r : Reference) (p later sent : Bytes)
    → buffer ≡ p ++ later
    → r.size ≡ length p
    → r.moved ≡ false
    → complete false 0 (at buffer (some r) sent) ≡ ok (after later (sent ++ p))
complete_reference buffer r p later sent e size stays =
    let same : r ≡ record { size = length p; moved = false } = cc in
    ap (λ r. complete false 0 (at buffer (some r) sent)) same
    ∙ complete_pending buffer p later sent e

stream_after : (sent p later : Bytes) → stream (after later (sent ++ p)) ≡ sent ++ (p ++ later)
stream_after sent p [] = append_assoc sent p []
stream_after sent p (x ∷ l) = append_assoc sent p (x ∷ l)

complete-Sends :
    (buffer : Bytes) (w : Option Reference) (sent : Bytes)
    → IsWriting buffer w
    → Sends (at buffer w sent) (complete false 0 (at buffer w sent)) []
unfolding complete
complete-Sends buffer none sent s =
    (at buffer none sent, refl, s, sym (append-nil (sent ++ buffer)))
complete-Sends buffer (some r) sent (p, later, e, size, full, stays) = (
  after later (sent ++ p),
  complete_reference buffer r p later sent e size stays,
  after-IsSound later (sent ++ p),
  stream_after sent p later ∙ ap (λ l. sent ++ l) (sym e) ∙ sym (append-nil (sent ++ buffer)),
)

-- What happens to a connection while its socket works; the flag of a message says whether appending
-- it moves the bytes of the buffer.
pub data Event : Type 0 where
  writes : Bool → Bytes → Event
  completes : Event

unfoldable pub run : List Event → Connection → Outcome Connection
run [] c = ok c
run (writes moves m ∷ es) c = write_locked moves m c >>= λ c. run es c
run (completes ∷ es) c = complete false 0 c >>= λ c. run es c

abbrev pub messages : List Event → Bytes
messages [] = []
messages (writes moves m ∷ es) = m ++ messages es
messages (completes ∷ es) = messages es

-- No message is empty, and none moves the bytes of the buffer.
abbrev pub AllStay : List Event → Type 0
AllStay [] = Unit {0}
AllStay (writes moves m ∷ es) = (m ≢ []) × (moves ≡ false) × AllStay es
AllStay (completes ∷ es) = AllStay es

run-Sends :
    (es : List Event) (c : Connection) → AllStay es → IsSound c → Sends c (run es c) (messages es)
unfolding run
run-Sends [] c stay s = (c, refl, s, sym (append-nil (stream c)))
run-Sends (writes moves m ∷ es) c (full, still, stay) s =
    let (d, done, s', e) = write_locked-Sends m c.write_buffer c.writing c.sent full s in
    let (d', done', s'', e') = run-Sends es d stay s' in
    (
      d',
      rw (still, done) done',
      s'',
      e' ∙ ap (λ l. l ++ messages es) e ∙ append_assoc (stream c) m (messages es),
    )
run-Sends (completes ∷ es) c stay s =
    let (d, done, s', e) = complete-Sends c.write_buffer c.writing c.sent s in
    let (d', done', s'', e') = run-Sends es d stay s' in
    (d', rw done done', s'', e' ∙ ap (λ l. l ++ messages es) (e ∙ append-nil (stream c)))

-- Two completions with no new message in between drain the buffer.
abbrev Drains : Connection → Type 0
Drains c = (d : Connection) × (run (completes ∷ completes ∷ []) c ≡ ok d) × (d.sent ≡ stream c)

drain_pending :
    (buffer : Bytes) (r : Reference) (p later sent : Bytes)
    → buffer ≡ p ++ later
    → r.size ≡ length p
    → r.moved ≡ false
    → Drains (at buffer (some r) sent)
unfolding run complete
drain_pending buffer r p [] sent e size stays = (
  at [] none (sent ++ p),
  rw (complete_reference buffer r p [] sent e size stays),
  ap (λ l. sent ++ l) (sym (append-nil p) ∙ sym e),
)
drain_pending buffer r p (x ∷ l) sent e size stays = (
  at [] none ((sent ++ p) ++ x ∷ l),
  rw (
    complete_reference buffer r p (x ∷ l) sent e size stays,
    complete_pending (x ∷ l) (x ∷ l) [] (sent ++ p) (sym (append-nil (x ∷ l))),
  ),
  append_assoc sent p (x ∷ l) ∙ ap (λ k. sent ++ k) (sym e),
)

drain_at :
    (buffer : Bytes) (w : Option Reference) (sent : Bytes)
    → IsWriting buffer w
    → Drains (at buffer w sent)
unfolding run complete
drain_at buffer none sent s =
    (at buffer none sent, refl, sym (append-nil sent) ∙ ap (λ l. sent ++ l) (sym s))
drain_at buffer (some r) sent (p, later, e, size, full, stays) =
    drain_pending buffer r p later sent e size stays

-- Where appending to the write buffer never moves its bytes, to which the pending write refers:
-- whatever the order of messages, none of them empty, and of writes that complete without an
-- error, the connection never aborts, and two completions after the last message the socket has
-- taken all messages, in order, each once.
pub run-sent :
    (es : List Event)
    → AllStay es
    → (c d : Connection) × (run es new_connection ≡ ok c)
      × (run (completes ∷ completes ∷ []) c ≡ ok d)
      × (d.sent ≡ messages es)
run-sent es stay =
    let (c, done, s, e) = run-Sends es new_connection stay refl in
    let (d, done', all) = drain_at c.write_buffer c.writing c.sent s in (c, d, done, done', all ∙ e)

moved_at :
    (m buffer : Bytes) (w : Option Reference) (sent : Bytes) (es : List Event)
    → IsWriting buffer w
    → buffer ≢ []
    → run (writes true m ∷ completes ∷ es) (at buffer w sent) ≡ fault undefined
unfolding run write_locked complete
moved_at m buffer none sent es s full = absurd (full s)
moved_at m [] (some r) sent es s full = absurd (full refl)
moved_at m (x ∷ buffer) (some r) sent es (p, later, e, size, some_p, stays) full = rw stays refl

-- A message that moves the bytes of the buffer while a write is pending makes the completion of that
-- write undefined.
run_moved :
    (before after : List Event) (m : Bytes) (c : Connection)
    → AllStay before
    → run before new_connection ≡ ok c
    → c.write_buffer ≢ []
    → run (writes true m ∷ completes ∷ after) c ≡ fault undefined
run_moved before after m c stay done full =
    let (d, done', s, e) = run-Sends before new_connection stay refl in
    let same : d ≡ c = same_result d c (sym done' ∙ done) in
    moved_at m c.write_buffer c.writing c.sent after (subst IsSound same s) full
  where
    same_result : (d c : Connection) → ◌≡◌ {A = Outcome Connection} (ok d) (ok c) → d ≡ c
    same_result d c h = cc
