-- ===== src/Strategy/Callbacks.antt =====
-- strategy.cpp: `initiate`, `receive_promise` and `receive_accepted`, which drive a round.
use libpaxos_cpp.Base.{
  List, Option, Outcome, [], assert, contains, fault, find, get_last?, if◌then◌else◌, insert,
  is_empty, length, none, not, ok, some, unreachable, ℕ, ℕ_order, ◌==◌, ◌>>=◌, ◌>>◌, ◌∷◌,
}
use libpaxos_cpp.Errors.{ErrorCode, error_no_leader, error_no_majority}
use libpaxos_cpp.Command.{
  Command, CommandType, new_command, set_type, set_workload, type_request_promise,
  type_request_fail, type_request_accepted,
}
use libpaxos_cpp.Storage.Backend.{Backend}
use libpaxos_cpp.Quorum.View.{connection_died}
use libpaxos_cpp.Quorum.View
use libpaxos_cpp.Quorum.ServerView.{Floats, has_majority}
use libpaxos_cpp.Strategy.Node.{
  Node, Effect, write, add_local_host_information, process_remote_host_information, handle_error,
}
use libpaxos_cpp.Strategy.Leader.{
  Round, response_ack, response_reject, new_round, Request, is_ack, is_connection, deref,
  last_error, compare_responses, prepare_all, send_accept_all,
}

-- `connection_died` on the view of a node.
abbrev pub lost : {S P D : Type 0} → ℕ → Node S P D → Outcome (Node S P D)
lost follower n = connection_died follower n.quorum.servers >>= λ v.
    ok (record n { quorum = record n.quorum { servers = v } })

module _ {S P : Type 0} (b : Backend S) (f : Floats) where
  -- The round is absent where nothing keeps the queue guard alive.
  unfoldable pub initiate :
      Request → ℕ → Node S P f.Double → Outcome (Node S P f.Double × Option Round × List Effect)
  initiate q now n = do
    (majority, v) ← has_majority f now n.quorum
    let n = record n { quorum = v }
    if not majority
        then (handle_error b error_no_majority q.client_connection n >>= λ es. ok (n, none, es))
        else do
          (live, v) ← View.live_servers now n.quorum.servers
          let n = record n { quorum = record n.quorum { servers = v } }
          if is_empty live
              then (handle_error b error_no_leader q.client_connection n >>= λ es. ok (n, none, es))
              else (prepare_all b live n new_round >>= λ p. ok (n, some p.0, p.1))

-- What the answer of a follower to the prepare puts into the round.
unfoldable pub note_promise : ℕ → Command → CommandType → Round → Outcome Round
note_promise e c type_request_promise r =
    ok (record r { accepted = insert e response_ack r.accepted })
note_promise e c type_request_fail r = ok (record r {
  accepted = insert e response_reject r.accepted;
  error_codes = insert e c.error_code r.error_codes;
})
note_promise e c _ r = fault unreachable

abbrev pub note_lost : ℕ → ErrorCode → Round → Round
note_lost e error r = record r {
  accepted = insert e response_reject r.accepted;
  error_codes = insert e error r.error_codes;
}

-- What the answer of a follower to the accept puts into the round.
unfoldable pub note_accepted : ℕ → Command → CommandType → Round → Outcome Round
note_accepted e c type_request_accepted r = do
  assert (not (is_empty c.proposed_workload))
  (_, answer) ← deref (get_last? c.proposed_workload)
  assert (not (is_empty answer))
  ok (record r {
    accepted = insert e response_ack r.accepted;
    responses = insert e answer r.responses;
  })
note_accepted e c type_request_fail r = ok (record r {
  accepted = insert e response_reject r.accepted;
  error_codes = insert e c.error_code r.error_codes;
  responses = insert e [] r.responses;
})
note_accepted e c _ r = fault unreachable

module _ {S P D : Type 0} where
  unfoldable pub absorb_promise :
      Option ErrorCode → ℕ → ℕ → Command → Round → Node S P D → Outcome (Node S P D × Round)
  absorb_promise (some error) e connection c r n = do n ← lost e n; ok (n, note_lost e error r)
  absorb_promise none e connection c r n = do
    n ← process_remote_host_information c n
    assert (is_connection connection (find e r.connections))
    r ← note_promise e c c.type_ r
    ok (n, r)

  unfoldable pub absorb_accepted :
      Option ErrorCode → ℕ → Command → Round → Node S P D → Outcome (Node S P D × Round)
  absorb_accepted (some error) e c r n = do
    n ← lost e n
    ok (n, record (note_lost e error r) { responses = insert e [] r.responses })
  absorb_accepted none e c r n = do
    n ← process_remote_host_information c n
    assert (is_ack (find e r.accepted))
    assert (not (contains e r.responses))
    assert (not (contains e r.error_codes))
    r ← note_accepted e c c.type_ r
    ok (n, r)

module _ {S P D : Type 0} (b : Backend S) where
  -- Once every follower has answered: propose the value to all of them, or report the last error.
  unfoldable pub conclude_promises : Request → Round → Node S P D → Outcome (List Effect)
  conclude_promises q r n = do
    last ← last_error r.accepted r.error_codes none
    elim last [
      | none ↦ (assert (is_empty r.error_codes) >> send_accept_all b q r.connections n r)
      | some error ↦ handle_error b error q.client_connection n
    ]

  unfoldable pub receive_promise :
      Request
      → Option ErrorCode
      → ℕ
      → ℕ
      → Command
      → Round
      → Node S P D
      → Outcome (Node S P D × Round × List Effect)
  receive_promise q error e connection c r n = do
    (n, r) ← absorb_promise error e connection c r n
    effects ← (if length r.connections == length r.accepted then conclude_promises q r n else ok [])
    ok (n, r, effects)

  -- The answer to the client: the common response, or the last error.
  unfoldable pub conclude_accepted : Request → Round → Node S P D → Outcome (List Effect)
  conclude_accepted q r n = do
    last ← last_error r.accepted r.error_codes none
    (workload, last) ← elim last [
      | none ↦ compare_responses r.responses [] none
      | some error ↦ ok ([], some error)
    ]
    elim last [
      | none ↦ do
        response ←
            add_local_host_information b n
              (set_workload workload (set_type type_request_accepted new_command))
        ok (write q.client_connection response ∷ [])
      | some error ↦ handle_error b error q.client_connection n
    ]

  unfoldable pub receive_accepted :
      Request
      → Option ErrorCode
      → ℕ
      → Command
      → Round
      → Node S P D
      → Outcome (Node S P D × Round × List Effect)
  receive_accepted q error e c r n = do
    (n, r) ← absorb_accepted error e c r n
    effects ←
        (if length r.connections == length r.responses then conclude_accepted q r n else ok [])
    ok (n, r, effects)
