-- ===== src/Client/Send/Attempts.antt =====
-- One attempt of a client: the server that it has in mind, and what it makes of its answer.
use libpaxos_cpp.Base.{
  ==_refl, Ascending, Bytes, In, IsRising, List, Outcome, [], ap, ap₂, arith, find, get_elem?, inl,
  inr, length, none, ok, refl, some, subst, suc, sym, zero, ℕ, ℕ_order, ◌<◌, ◌∙◌, ◌∷◌, ◌≡◌, ◌⊎◌,
}
use libpaxos_cpp.Errors.{error_no_leader}
use libpaxos_cpp.Command.{Command, or_throw, type_request_accepted, type_request_error}
use libpaxos_cpp.Quorum.Server.{Server}
use libpaxos_cpp.Quorum.View.{View}
use libpaxos_cpp.Quorum.View.Laws.{lookup_known}
use libpaxos_cpp.Quorum.View.Live.{
  live, attempt_all, live-attempt_all, live_servers_lem, attempt_all-Ascending,
}
use libpaxos_cpp.Quorum.View.Listed.{live_listed}
use libpaxos_cpp.Quorum.ClientView.{
  ClientView, select_leader, select_live, select_among, advance_leader,
}
use libpaxos_cpp.Quorum.ClientView.Selection.{live-IsRising, lower_bound-In}
use libpaxos_cpp.Quorum.ClientView.Rotation.{after, advance_once}
use libpaxos_cpp.Client.InitiateRequest.{Reply, awaiting, initiate_command, step1, receive, answer}
use libpaxos_cpp.Client.InitiateRequest.Noted.{
  noted, noted-Ascending, live-noted, noting, noting_lem, connection_of, step_to_connected,
}
use libpaxos_cpp.Client.Send.{Answers, attempt_request}

pub get_elem?-In : (es : List ℕ) (i e : ℕ) → get_elem? es i ≡ some e → In e es
get_elem?-In [] i e h = cc
get_elem?-In (f ∷ es) zero e h = inl (ground arith)
get_elem?-In (f ∷ es) (suc i) e h = inr (get_elem?-In es i e h)

-- The client has in mind the i-th of the live servers.
pub record At (es : List ℕ) (i : ℕ) (q : ClientView) : Type 0 where
  pub in_order : Ascending q.servers
  pub lives : live q.servers ≡ es
  pub next : (q.next_leader ≡ get_elem? es i) ⊎ ((q.next_leader ≡ none) × (i ≡ 0))

-- The client with this leader in mind, after attempts to connect.
abbrev selected : ℕ → ℕ → ClientView → ClientView
selected now e q = record { servers = attempt_all now q.servers; next_leader = some e }

select_live_at :
    (es : List ℕ) (i e : ℕ) (q : ClientView)
    → IsRising es
    → get_elem? es i ≡ some e
    → (q.next_leader ≡ get_elem? es i) ⊎ ((q.next_leader ≡ none) × (i ≡ 0))
    → select_live es q ≡ ok (some e, record q { next_leader = some e })
unfolding select_live select_among
select_live_at [] i e q r at next = cc
select_live_at (f ∷ es) i e q r at (inl next) =
    rw (next ∙ at, lower_bound-In (f ∷ es) e r (get_elem?-In (f ∷ es) i e at), ==_refl e) refl
select_live_at (f ∷ es) i e q r at (inr (none_yet, first)) =
    let same : some f ≡ some e = ap (get_elem? (f ∷ es)) (sym first) ∙ at in
    let one : f ≡ e = ground arith in
    rw (none_yet, lower_bound-In (f ∷ es) f r (inl refl), ==_refl f)
      (ap (λ e. ok (some e, record q { next_leader = some e })) one)

refused_answer :
    (c : Command) (now : ℕ) (q q' : ClientView)
    → c.error_code ≡ error_no_leader
    → advance_leader now q ≡ ok q'
    → answer type_request_error c now q ≡ ok (q', (some error_no_leader, c.workload))
unfolding answer
refused_answer c now q q' because advanced = rw (because, advanced) refl

accepted_answer :
    (c : Command) (now : ℕ) (q : ClientView)
    → answer type_request_accepted c now q ≡ ok (q, (none, c.workload))
unfolding answer
accepted_answer c now q = refl

advance_at :
    (es : List ℕ) (i e now : ℕ) (q : ClientView)
    → Ascending q.servers
    → live q.servers ≡ es
    → IsRising es
    → get_elem? es i ≡ some e
    → i < length es
    → q.next_leader ≡ some e
    → advance_leader now q
      ≡ ok (record {
        servers = attempt_all now q.servers;
        next_leader = get_elem? es (after (length es) i);
      })
unfolding advance_leader
advance_at es i e now q order lives rising at within next =
    rw (live_servers_lem now q.servers order, lives)
      (advance_once es i e (record q { servers = attempt_all now q.servers }) rising at within next)

-- A server that takes another for the leader.
pub record Refuses (answers : Answers) (e : ℕ) : Type 0 where
  pub command : Command
  pub uuid : ℕ
  pub says : answers e ≡ (none, command)
  pub from : command.host_endpoint ≡ some e
  pub with_id : command.host_id ≡ some uuid
  pub failed : command.type_ ≡ type_request_error
  pub because : command.error_code ≡ error_no_leader

-- The server that carries out requests, and answers this one.
pub record Serves (answers : Answers) (e : ℕ) (w : Bytes) : Type 0 where
  pub command : Command
  pub uuid : ℕ
  pub says : answers e ≡ (none, command)
  pub from : command.host_endpoint ≡ some e
  pub with_id : command.host_id ≡ some uuid
  pub accepted : command.type_ ≡ type_request_accepted
  pub workload : command.workload ≡ w

module _ (es : List ℕ) (i e now : ℕ) (byte_array : Bytes) (q : ClientView) (k : At es i q)
    (at : get_elem? es i ≡ some e) where
  select_at : select_leader now q ≡ ok (some e, selected now e q)
  unfolding select_leader
  select_at =
      rw (live_servers_lem now q.servers k.in_order, k.lives)
        (select_live_at es i e (record q { servers = attempt_all now q.servers })
          (subst IsRising k.lives (live-IsRising q.servers k.in_order)) at k.next)

  live-selected : live (selected now e q).servers ≡ es
  live-selected = live-attempt_all now q.servers ∙ k.lives

  selected_order : Ascending (selected now e q).servers
  selected_order = attempt_all-Ascending now q.servers k.in_order

  -- The request goes to that server.
  step1_at :
      (s : Server) × (connection : ℕ) × (find e (selected now e q).servers ≡ some s)
      × (step1 byte_array now q
          ≡ ok (selected now e q, awaiting e connection (initiate_command byte_array)))
  unfolding step1
  step1_at =
      let (s, listed, connected) =
        live_listed (selected now e q).servers selected_order e
          (subst (λ es. In e es) (sym live-selected) (get_elem?-In es i e at)) in
      let (connection, over) = connection_of s connected in
      (
        s,
        connection,
        listed,
        rw
            (
              select_at,
              step_to_connected byte_array now e connection (selected now e q) s
                  (lookup_known e (selected now e q).servers s listed) over,
            )
            refl,
      )

  -- What becomes of its answer.
  received :
      (c : Command) (uuid : ℕ) (answers : Answers)
      → answers e ≡ (none, c)
      → c.host_endpoint ≡ some e
      → c.host_id ≡ some uuid
      → (s : Server) × (find e (selected now e q).servers ≡ some s)
        × (attempt_request byte_array answers now q
            ≡ answer c.type_ c now (record (selected now e q) {
              servers = noted uuid c e s (selected now e q).servers;
            }))
  unfolding attempt_request receive
  received c uuid answers says from with_id =
      let (s, connection, listed, sent) = step1_at in
      (
        s,
        listed,
        rw (sent, says)
            (ap₂ (noting now c (selected now e q)) (ap or_throw from) (ap or_throw with_id)
              ∙ noting_lem now e uuid c s (selected now e q) listed),
      )

  -- If it takes another for the leader, the next live server is tried.
  pub attempt_refused :
      (answers : Answers)
      → IsRising es
      → i < length es
      → Refuses answers e
      → (q' : ClientView) × (w : Bytes) × (attempt_request byte_array answers now q
          ≡ ok (q', (some error_no_leader, w)))
        × At es (after (length es) i) q'
  attempt_refused answers rising within r =
      let (s, listed, reply) = received r.command r.uuid answers r.says r.from r.with_id in
      let v : View = noted r.uuid r.command e s (selected now e q).servers in
      let order : Ascending v =
        noted-Ascending r.uuid r.command e s (selected now e q).servers selected_order in
      let lives : live v ≡ es =
        live-noted r.uuid r.command e s (selected now e q).servers selected_order listed
        ∙ live-selected in
      (
        record { servers = attempt_all now v; next_leader = get_elem? es (after (length es) i) },
        r.command.workload,
        reply
            ∙ ap (λ t. answer t r.command now (record (selected now e q) { servers = v })) r.failed
            ∙ refused_answer r.command now (record (selected now e q) { servers = v })
                (record {
                  servers = attempt_all now v;
                  next_leader = get_elem? es (after (length es) i);
                })
                r.because
                (advance_at es i e now (record (selected now e q) { servers = v }) order lives
                  rising at within refl),
        record {
          in_order = attempt_all-Ascending now v order;
          lives = live-attempt_all now v ∙ lives;
          next = inl refl;
        },
      )

  pub attempt_accepted :
      (answers : Answers) (w : Bytes)
      → Serves answers e w
      → (q' : ClientView) × (attempt_request byte_array answers now q ≡ ok (q', (none, w)))
  attempt_accepted answers w r =
      let (s, listed, reply) = received r.command r.uuid answers r.says r.from r.with_id in
      let q' : ClientView = record (selected now e q) {
        servers = noted r.uuid r.command e s (selected now e q).servers;
      } in
      (
        q',
        reply
            ∙ ap (λ t. answer t r.command now q') r.accepted
            ∙ accepted_answer r.command now q'
            ∙ ap {B = Outcome (ClientView × Reply)} (λ w. ok (q', (none, w))) r.workload,
      )
