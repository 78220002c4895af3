-- ===== src/Client/InitiateRequest/Ready.antt =====
-- A request leaves the view of the client ready for the next one.
use libpaxos_cpp.Base.{
  Ascending, Bool-cases, Bytes, In, List, Option-cases, [], ap, ap₂, find, inl, inr, insert,
  insert-Ascending, none, ok, refl, some, subst, sym, ℕ, ℕ_order, ◌∙◌, ◌≡◌, ◌⊎◌,
}
use libpaxos_cpp.Errors.{ErrorCode, error_no_leader}
use libpaxos_cpp.Command.{
  Command, CommandType, host_id, host_endpoint, type_request_accepted, type_request_error,
}
use libpaxos_cpp.Quorum.Server.{Server}
use libpaxos_cpp.Quorum.Server
use libpaxos_cpp.Quorum.View.{View, connection_died}
use libpaxos_cpp.Quorum.View.Laws.{modify_known, lookup_known}
use libpaxos_cpp.Quorum.View.Live.{live, live-attempt_all}
use libpaxos_cpp.Quorum.View.Listed.{live_listed}
use libpaxos_cpp.Quorum.View.Follows.{
  Follows, self-Follows, Follows-trans, attempt_all-Follows, insert-Follows,
}
use libpaxos_cpp.Quorum.ClientView.{ClientView}
use libpaxos_cpp.Quorum.ClientView.Selection.{
  IsReady, select_leader-IsReady, advance_leader-IsReady,
}
use libpaxos_cpp.Client.InitiateRequest.Noted.{
  connection_of, step_to_connected, noted, noted-IsReady, noted-Follows, noting, noting_lem,
}
use libpaxos_cpp.Client.InitiateRequest.{
  Reply, Attempt, replied, awaiting, initiate_command, step_to, step1, is_no_leader, answer,
  receive,
}

-- An attempt is given up only where no server is live; otherwise the request goes to a live server,
-- over its connection.
abbrev pub IsAttempt : List ℕ → View → Bytes → Attempt → Type 0
IsAttempt es v byte_array (replied reply) = (es ≡ []) × (reply ≡ (some error_no_leader, []))
IsAttempt es v byte_array (awaiting leader connection c) =
    In leader es
    × ((s : Server) × (find leader v ≡ some s) × (s.connection ≡ some connection))
    × (c ≡ initiate_command byte_array)

-- On a ready view an attempt never fails and leaves the view ready. It is given up only where no
-- server is live; otherwise the request goes to a live server, over its connection; the same
-- servers stay listed.
pub step1-IsReady :
    (byte_array : Bytes) (now : ℕ) (q : ClientView)
    → IsReady q
    → (q' : ClientView) × (attempt : Attempt) × (step1 byte_array now q ≡ ok (q', attempt))
      × IsReady q'
      × Follows q.servers q'.servers
      × IsAttempt (live q.servers) q'.servers byte_array attempt
unfolding step1 step_to
step1-IsReady byte_array now q ready =
    let (r, q1, selected, ready1, same, selects) = select_leader-IsReady now q ready in
    let follows : Follows q.servers q1.servers =
      subst (Follows q.servers) (sym same) (attempt_all-Follows now q.servers) in
    elim (Option-cases r) [
      | inl nothing ↦
          let (q2, advanced, ready2, again) = advance_leader-IsReady now q1 ready1.in_order in
          (
            q2,
            replied (some error_no_leader, []),
            rw (selected, nothing, step_to, advanced),
            ready2,
            Follows-trans follows again,
            ((rw nothing at selects), refl),
          )
      | inr (leader, something) ↦
          let (chosen, _) = rw something at selects in
          let still : In leader (live q1.servers) =
            subst (λ es. In leader es) (sym (ap live same ∙ live-attempt_all now q.servers))
              chosen in
          let (s, at, connected) = live_listed q1.servers ready1.in_order leader still in
          let (connection, over) = connection_of s connected in
          (
            q1,
            awaiting leader connection (initiate_command byte_array),
            rw (
              selected,
              something,
              step_to_connected byte_array now leader connection q1 s
                  (lookup_known leader q1.servers s at) over,
            ),
            ready1,
            follows,
            (chosen, (s, at, over), refl),
          )
    ]

-- Answers of a leader to an initiated request.
abbrev pub IsAnswer : CommandType → Type 0
IsAnswer t = (t ≡ type_request_accepted) ⊎ (t ≡ type_request_error)

abbrev pub answered : CommandType → Command → Reply
answered type_request_accepted c = (none, c.workload)
answered _ c = (some c.error_code, c.workload)

error-IsReady :
    (c : Command) (now : ℕ) (q : ClientView)
    → IsReady q
    → (q' : ClientView) × (answer type_request_error c now q
        ≡ ok (q', (some c.error_code, c.workload)))
      × IsReady q'
      × Follows q.servers q'.servers
unfolding answer
error-IsReady c now q ready = elim (Bool-cases (is_no_leader c.error_code)) [
  | inl no_leader ↦
      let (q', advanced, ready', follows) = advance_leader-IsReady now q ready.in_order in
      (q', rw (no_leader, advanced), ready', follows)
  | inr other ↦ (q, rw other, ready, self-Follows q.servers)
]

abbrev AnsweredOk : CommandType → Command → ℕ → ClientView → Type 0
AnsweredOk t c now q =
    (q' : ClientView) × (answer t c now q ≡ ok (q', answered t c))
    × IsReady q'
    × Follows q.servers q'.servers

answer-IsReady :
    (t : CommandType) (c : Command) (now : ℕ) (q : ClientView)
    → IsAnswer t
    → IsReady q
    → AnsweredOk t c now q
unfolding answer
answer-IsReady t c now q (inl e) ready =
    subst (λ t. AnsweredOk t c now q) (sym e) (q, refl, ready, self-Follows q.servers)
answer-IsReady t c now q (inr e) ready =
    subst (λ t. AnsweredOk t c now q) (sym e) (error-IsReady c now q ready)

-- On a ready view, an answer of the type accepted or error that comes from a known host is passed
-- on to the callback, and the view stays ready, with the same servers.
pub receive-IsReady :
    (now leader host uuid : ℕ) (c : Command) (s : Server) (q : ClientView)
    → IsReady q
    → host_endpoint c ≡ ok host
    → host_id c ≡ ok uuid
    → find host q.servers ≡ some s
    → IsAnswer c.type_
    → (q' : ClientView) × (receive now leader none c q ≡ ok (q', answered c.type_ c))
      × IsReady q'
      × Follows q.servers q'.servers
unfolding receive
receive-IsReady now leader host uuid c s q ready from with_id at kind =
    let (q', answers, ready', follows) =
      answer-IsReady c.type_ c now (record q { servers = noted uuid c host s q.servers }) kind
        (noted-IsReady uuid c host s q at ready) in
    (
      q',
      ap₂ (noting now c q) from with_id ∙ noting_lem now host uuid c s q at ∙ answers,
      ready',
      Follows-trans (noted-Follows uuid c host s q.servers at) follows,
    )

-- After an error of the connection to a leader that is listed in a view in order, the callback
-- gets the error and the view is ready, with the same servers, whatever leader it had in mind.
pub receive_error-IsReady :
    (now leader : ℕ) (error : ErrorCode) (c : Command) (s : Server) (q : ClientView)
    → Ascending q.servers
    → find leader q.servers ≡ some s
    → s.endpoint ≡ leader
    → (q' : ClientView) × (receive now leader (some error) c q ≡ ok (q', (some error, [])))
      × IsReady q'
      × Follows q.servers q'.servers
unfolding receive connection_died
receive_error-IsReady now leader error c s q a at same =
    let there : find s.endpoint q.servers ≡ some s = ap (λ k. find k q.servers) same ∙ at in
    let gone : Server = Server.reset_connection s in
    let v : View = insert s.endpoint gone q.servers in
    let (q', advanced, ready, follows) =
      advance_leader-IsReady now (record q { servers = v })
        (insert-Ascending s.endpoint gone q.servers a) in
    (
      q',
      rw (
        lookup_known leader q.servers s at,
        modify_known s.endpoint Server.reset_connection q.servers s there,
        advanced,
      ),
      ready,
      Follows-trans (insert-Follows s.endpoint s gone q.servers there refl) follows,
    )
