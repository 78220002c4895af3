-- ===== src/Tests/Client.antt =====
-- Two errors and a response, with one retry.
mod Requests
use libpaxos_cpp.Base.{
  ==_iff, Ascending, Bool-cases, List, Option, [], arith, false, get_elem?, inl, inr, none, ok, pos,
  refl, some, suc, take, true, ℕ, ℕ_order, ◌==◌, ◌∷◌, ◌≡◌, ◌≤◌, ◌⊎◌,
}
use libpaxos_cpp.Errors.{ErrorCode, error_no_leader, error_connection_close}
use libpaxos_cpp.Command.{Command, new_command, type_request_accepted, type_request_error}
use libpaxos_cpp.Quorum.Server.{Server}
use libpaxos_cpp.Quorum.View.Live.{live}
use libpaxos_cpp.Quorum.View.Follows.{Follows}
use libpaxos_cpp.Quorum.ClientView.{ClientView}
use libpaxos_cpp.Quorum.ClientView.Selection.{IsReady}
use libpaxos_cpp.Client.InitiateRequest.{Reply, Attempt, step1, receive}
use libpaxos_cpp.Client.InitiateRequest.Ready.{
  IsAttempt, step1-IsReady, receive-IsReady, receive_error-IsReady,
}
use libpaxos_cpp.Client.Send.{send}
use libpaxos_cpp.Client.Send.Attempts.{Serves, Refuses}
use libpaxos_cpp.Client.Send.Finds.{send_finds_leader}
use libpaxos_cpp.Client.Retry.{Promise, set_value, do_request}
use libpaxos_cpp.Client.Retry.Settles.{AllFailed, Settles, do_request-Settles}

abbrev replies : List Reply
replies = (some error_no_leader, []) ∷ (some error_connection_close, []) ∷ (none, 7 ∷ []) ∷ []

do_request-Settles_example :
    (m : ℕ) × (p : Promise) × (do_request 1 replies ≡ ok (some p, suc m))
    × (m ≤ 1)
    × AllFailed (take m replies)
    × Settles 1 m p (get_elem? replies m)
do_request-Settles_example = do_request-Settles 1 replies (omega arith) ((λ e. cc), ((λ e. cc), tt))

abbrev server : ℕ → Option ℕ → Server
server e c = record {
  endpoint = e;
  id = e;
  highest_proposal_id = pos e;
  most_recent_connection_attempt = none;
  connection = c;
}

abbrev view : ClientView
view = record { servers = (1, server 1 (some 11)) ∷ (2, server 2 none) ∷ []; next_leader = some 1 }

in_order : Ascending view.servers
in_order = ((omega arith, tt), (tt, tt))

view-IsReady : IsReady view
view-IsReady = record { in_order = in_order; next_live = inl refl }

step1-IsReady_example :
    (q : ClientView) × (attempt : Attempt) × (step1 (7 ∷ []) 5 view ≡ ok (q, attempt))
    × IsReady q
    × Follows view.servers q.servers
    × IsAttempt (live view.servers) q.servers (7 ∷ []) attempt
step1-IsReady_example = step1-IsReady (7 ∷ []) 5 view view-IsReady

-- The second server knows no leader.
abbrev response : Command
response = record new_command {
  type_ = type_request_error;
  error_code = error_no_leader;
  host_id = some 9;
  host_endpoint = some 2;
}

receive-IsReady_example :
    (q : ClientView) × (receive 5 1 none response view ≡ ok (q, (some error_no_leader, [])))
    × IsReady q
    × Follows view.servers q.servers
receive-IsReady_example =
    receive-IsReady 5 1 2 9 response (server 2 none) view view-IsReady refl refl refl (inr refl)

receive_error-IsReady_example :
    (q : ClientView) × (receive 5 1 (some error_connection_close) new_command view
      ≡ ok (q, (some error_connection_close, [])))
    × IsReady q
    × Follows view.servers q.servers
receive_error-IsReady_example =
    receive_error-IsReady 5 1 error_connection_close new_command (server 1 (some 11)) view in_order
      refl refl

-- The third server is asked first, and the second is the leader.
abbrev three : ClientView
three = record {
  servers = (1, server 1 (some 11)) ∷ (2, server 2 (some 12)) ∷ (3, server 3 (some 13)) ∷ [];
  next_leader = some 3;
}

abbrev says : ℕ → Option ErrorCode × Command
says e = elim (e == 2) [
  | true ↦ (
    none,
    record new_command {
      type_ = type_request_accepted;
      host_id = some 2;
      host_endpoint = some 2;
      workload = 5 ∷ [];
    },
  )
  | false ↦ (none, record response { host_endpoint = some e })
]

serves : Serves says 2 (5 ∷ [])
serves = record {
  command = (says 2).1;
  uuid = 2;
  says = refl;
  from = refl;
  with_id = refl;
  accepted = refl;
  workload = refl;
}

refuses : (e : ℕ) → (e == 2) ≡ false → Refuses says e
refuses e other = record {
  command = record response { host_endpoint = some e };
  uuid = 9;
  says = rw (other, says) refl;
  from = refl;
  with_id = refl;
  failed = refl;
  because = refl;
}

serves_or_refuses : (e : ℕ) → (e ≡ 2) ⊎ Refuses says e
serves_or_refuses e = elim (Bool-cases (e == 2)) [
  | inl same ↦ inl ((==_iff e 2).0 same)
  | inr other ↦ inr (refuses e other)
]

send_finds_leader_example :
    (q : ClientView) × (send (7 ∷ []) says 2 (5 ∷ 6 ∷ 7 ∷ []) three
      ≡ ok (some (set_value (5 ∷ [])), q))
send_finds_leader_example =
    send_finds_leader 2 2 (5 ∷ []) (7 ∷ []) says (5 ∷ 6 ∷ 7 ∷ []) three
      (record {
        in_order = ((omega arith, (omega arith, tt)), ((omega arith, tt), (tt, tt)));
        next_live = inr (inr (inl refl));
      })
      (inr (inl refl)) serves (λ e m. serves_or_refuses e) (omega arith) (omega arith)
