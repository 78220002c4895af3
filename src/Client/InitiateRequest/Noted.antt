-- ===== src/Client/InitiateRequest/Noted.antt =====
-- What a client notes of a server that it asks, and that answers.
use libpaxos_cpp.Base.{
  Ascending, Bytes, Option-cases, Outcome, [], ap, arith, false, find, find-insert_self, inl, inr,
  insert, insert-Ascending, is_some, ok, refl, some, subst, sym, true, ℕ, ℕ_order, ◌>>=◌, ◌∙◌, ◌∷◌,
  ◌≡◌,
}
use libpaxos_cpp.Command.{Command}
use libpaxos_cpp.Quorum.Server.{Server, has_connection}
use libpaxos_cpp.Quorum.Server
use libpaxos_cpp.Quorum.View.{View, lookup_server, modify_server}
use libpaxos_cpp.Quorum.View.Laws.{modify_known}
use libpaxos_cpp.Quorum.View.Live.{live}
use libpaxos_cpp.Quorum.View.Follows.{Follows, Follows-trans, insert-Follows}
use libpaxos_cpp.Quorum.ClientView.{ClientView}
use libpaxos_cpp.Quorum.ClientView.Selection.{IsReady, IsLive}
use libpaxos_cpp.Client.InitiateRequest.{Reply, awaiting, initiate_command, step_to, answer}

pub connection_of : (s : Server) → has_connection s ≡ true → (c : ℕ) × (s.connection ≡ some c)
connection_of s h = elim (Option-cases s.connection) [
  | inl gone ↦ let not_there : has_connection s ≡ false = ap is_some gone in absurd (cc)
  | inr there ↦ there
]

pub step_to_connected :
    (byte_array : Bytes) (now leader connection : ℕ) (q : ClientView) (s : Server)
    → lookup_server leader q.servers ≡ ok s
    → s.connection ≡ some connection
    → step_to byte_array now (some leader) q
      ≡ ok (q, awaiting leader connection (initiate_command byte_array))
unfolding step_to
step_to_connected byte_array now leader connection q s at over = rw at (rw over refl)

-- A server that keeps its connection stays as live as it was.
pub live-insert :
    (e : ℕ) (s t : Server) (v : View)
    → Ascending v
    → find e v ≡ some s
    → t.connection ≡ s.connection
    → live (insert e t v) ≡ live v
live-insert e s t [] a at same = cc
live-insert e s t ((f, u) ∷ v) a at same = ground (arith, live-insert e s t v a.1)

-- Noting the host information of an answer.
pub noted : ℕ → Command → ℕ → Server → View → View
noted uuid c host s v =
    insert host (Server.set_highest_proposal_id c.highest_proposal_id (Server.set_id uuid s))
      (insert host (Server.set_id uuid s) v)

pub noted-Ascending :
    (uuid : ℕ) (c : Command) (host : ℕ) (s : Server) (v : View)
    → Ascending v
    → Ascending (noted uuid c host s v)
unfolding noted
noted-Ascending uuid c host s v a =
    let s1 : Server = Server.set_id uuid s in
    insert-Ascending host (Server.set_highest_proposal_id c.highest_proposal_id s1)
      (insert host s1 v) (insert-Ascending host s1 v a)

pub live-noted :
    (uuid : ℕ) (c : Command) (host : ℕ) (s : Server) (v : View)
    → Ascending v
    → find host v ≡ some s
    → live (noted uuid c host s v) ≡ live v
unfolding noted
live-noted uuid c host s v a at =
    let s1 : Server = Server.set_id uuid s in
    let v1 : View = insert host s1 v in
    live-insert host s1 (Server.set_highest_proposal_id c.highest_proposal_id s1) v1
      (insert-Ascending host s1 v a) (find-insert_self host s1 v) refl
    ∙ live-insert host s s1 v a at refl

pub noted-Follows :
    (uuid : ℕ) (c : Command) (host : ℕ) (s : Server) (v : View)
    → find host v ≡ some s
    → Follows v (noted uuid c host s v)
unfolding noted
noted-Follows uuid c host s v at =
    let s1 : Server = Server.set_id uuid s in
    Follows-trans (insert-Follows host s s1 v at refl) (
      insert-Follows host s1 (Server.set_highest_proposal_id c.highest_proposal_id s1)
        (insert host s1 v) (find-insert_self host s1 v) refl)

pub noted-IsReady :
    (uuid : ℕ) (c : Command) (host : ℕ) (s : Server) (q : ClientView)
    → find host q.servers ≡ some s
    → IsReady q
    → IsReady (record q { servers = noted uuid c host s q.servers })
noted-IsReady uuid c host s q at ready = record {
  in_order = noted-Ascending uuid c host s q.servers ready.in_order;
  next_live =
      subst (λ es. IsLive es q.next_leader)
        (sym (live-noted uuid c host s q.servers ready.in_order at)) ready.next_live;
}

-- The rest of `receive`, after the host of the answer is read.
abbrev pub noting : ℕ → Command → ClientView → Outcome ℕ → Outcome ℕ → Outcome (ClientView × Reply)
noting now c q host uuid = do
  host ← host
  uuid ← uuid
  v ← modify_server host (Server.set_id uuid) q.servers
  v ← modify_server host (Server.set_highest_proposal_id c.highest_proposal_id) v
  answer c.type_ c now (record q { servers = v })

pub noting_lem :
    (now host uuid : ℕ) (c : Command) (s : Server) (q : ClientView)
    → find host q.servers ≡ some s
    → noting now c q (ok host) (ok uuid)
      ≡ answer c.type_ c now (record q { servers = noted uuid c host s q.servers })
unfolding noted
noting_lem now host uuid c s q at =
    let s1 : Server = Server.set_id uuid s in
    let tell : Server → Server = Server.set_highest_proposal_id c.highest_proposal_id in
    rw
      (
        modify_known host (Server.set_id uuid) q.servers s at,
        modify_known host tell (insert host s1 q.servers) s1 (find-insert_self host s1 q.servers),
      )
      refl
