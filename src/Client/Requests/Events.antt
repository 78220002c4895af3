-- ===== src/Client/Requests/Events.antt =====
-- What can happen to a client, one thing after the other.
use libpaxos_cpp.Base.{
  List, Option, Outcome, [], find, none, ok, some, ℕ, ℕ_order, ◌++◌, ◌>>=◌, ◌∷◌, ◌≡◌, ◌≢◌, ◌⊎◌,
}
use libpaxos_cpp.Errors.{ErrorCode, no_error}
use libpaxos_cpp.Command.{
  Command, host_id, host_endpoint, type_request_accepted, type_request_error,
}
use libpaxos_cpp.Quorum.Server.{Server}
use libpaxos_cpp.Quorum.View.{View}
use libpaxos_cpp.Client.Requests.{Pending, Client, Writes, do_request, expired}
use libpaxos_cpp.Client.Requests

-- What happens to a client: a request is sent, the answer that it reads comes or the connection
-- fails, or a timer expires.
pub data Event : Type 0 where
  sends : ℕ → Pending → Event
  answers : ℕ → Option ErrorCode → Command → Event
  expires : ℕ → Event

abbrev pub read_answer :
    ℕ → Option ErrorCode → Command → Option (ℕ × Pending) → Client → Outcome (Client × Writes)
read_answer now error c none s = ok (s, [])
read_answer now error c (some r) s = Requests.answered now error c r s

abbrev pub handle : Event → Client → Outcome (Client × Writes)
handle (sends now p) s = do_request now p s
handle (answers now error c) s = read_answer now error c s.reading s
handle (expires now) s = expired now s.timers s

unfoldable pub run : List Event → Client → Outcome (Client × Writes)
run [] s = ok (s, [])
run (e ∷ es) s = do (s, writes) ← handle e s; (s, more) ← run es s; ok (s, writes ++ more)

abbrev pub sent : List Event → List ℕ
sent [] = []
sent (sends now p ∷ es) = p.promise ∷ sent es
sent (answers now error c ∷ es) = sent es
sent (expires now ∷ es) = sent es

-- An error is not no_error, and an answer comes from a server that was listed.
abbrev pub IsValid : View → Event → Type 0
IsValid v (answers now (some error) c) = error ≢ no_error
IsValid v (answers now none c) =
    (host : ℕ) × (uuid : ℕ) × (t : Server) × (host_endpoint c ≡ ok host)
    × (host_id c ≡ ok uuid)
    × (find host v ≡ some t)
    × ((c.type_ ≡ type_request_accepted)
        ⊎ ((c.type_ ≡ type_request_error) × (c.error_code ≢ no_error)))
IsValid v e = Unit {0}

abbrev pub AllValid : View → List Event → Type 0
AllValid v [] = Unit {0}
AllValid v (e ∷ es) = IsValid v e × AllValid v es

-- Every server is listed under its endpoint.
abbrev pub IsNamed : View → Type 0
IsNamed v = (e : ℕ) (s : Server) → find e v ≡ some s → s.endpoint ≡ e
