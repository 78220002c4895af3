-- ===== src/Strategy/Initiate.antt =====
-- `initiate` of strategy.cpp: the start of a round.
pub mod Links
pub mod Prepares
pub mod Attempts
use libpaxos_cpp.Base.{
  Ascending, Bool, Bool-cases, Bytes, List, [], ap, ap₂, false, inl, inr, is_empty, length, none,
  ok, pos, refl, some, suc, sym, true, ℕ, ℕ_order, ℤ, ◌∙◌, ◌∷◌, ◌≡◌, ◌≢◌, ◌⊎◌,
}
use libpaxos_cpp.Errors.{ErrorCode, error_no_leader, error_no_majority}
use libpaxos_cpp.Command.{
  Command, new_command, set_type, set_host_id, set_host_endpoint, set_highest_proposal_id,
  set_error_code, set_next_proposal_id, type_request_prepare, type_request_error,
}
use libpaxos_cpp.Storage.Log.{Log}
use libpaxos_cpp.Storage.Backend.{Backend, IsBackend}
use libpaxos_cpp.Quorum.Server.{Server}
use libpaxos_cpp.Quorum.View.{View}
use libpaxos_cpp.Quorum.View.Live.{
  live, attempt, attempt_all, attempt-endpoint, live-attempt_all, live_servers_lem,
  attempt_all-Ascending,
}
use libpaxos_cpp.Quorum.ServerView.Leader.{attempt_keeps}
use libpaxos_cpp.Quorum.ServerView.{Floats, has_majority}
use libpaxos_cpp.Strategy.Initiate.Links.{
  links, AllNamed, prepares, AllNamed-attempt_all, links-attempt_all, empty_lem, full_lem,
  length-attempt_all,
}
use libpaxos_cpp.Strategy.Initiate.Prepares.{asks, prepare_message, prepare_all_lem}
use libpaxos_cpp.Strategy.Initiate.Attempts.{
  tried, attempt_all-stored, attempt_all-Replica, handle_error-Replica,
}
use libpaxos_cpp.Strategy.Node.{Node, write, handle_error}
use libpaxos_cpp.Strategy.Leader.{Request, new_round, prepare_all}
use libpaxos_cpp.Strategy.Callbacks.{initiate}
use libpaxos_cpp.Strategy.Follower.CatchUp.{Replica}
use libpaxos_cpp.Strategy.Follower.Replication.{add_local-Replica}

-- What the prepare says does not depend on the attempts to connect.
asks-attempt : (now length : ℕ) (s : Server) → asks length (attempt now s) ≡ asks length s
asks-attempt now length s =
    ap₂
      (λ id e. set_highest_proposal_id (pos length) (
        set_host_endpoint e (
          set_host_id id
            (set_next_proposal_id (pos (suc length)) (set_type type_request_prepare new_command)))))
      (attempt_keeps now s).0 (attempt-endpoint now s)

-- The test for the majority: at least as many live servers as the factor asks for.
abbrev pub majority : (f : Floats) → View → f.Double → Bool
majority f v factor =
    f.at_least (f.of_size (length (live v))) (f.times (f.of_size (length v)) factor)

module _ {S P : Type 0} {b : Backend S} {Holds : S → Log → Type 0} (laws : IsBackend b Holds)
    (processor : ℤ → Bytes → P → Bytes × P) (start : P) (f : Floats) where
  -- The prepare of a leader with this entry for itself, that has so many values.
  pub initiate_sends :
      (q : Request) (now : ℕ) (n : Node S P f.Double) (history : List Bytes)
      → Ascending n.quorum.servers
      → AllNamed n.quorum.servers
      → (k : Replica laws processor start n history)
      → majority f n.quorum.servers n.quorum.majority_factor ≡ true
      → is_empty (live n.quorum.servers) ≡ false
      → initiate b f q now n
        ≡ ok (
          tried now (tried now n),
          some (record new_round { connections = links n.quorum.servers }),
          prepares (asks (length history) k.us) (links n.quorum.servers),
        )
  unfolding initiate has_majority
  initiate_sends q now n history a named k enough somebody =
      let v : View = n.quorum.servers in
      let v1 : View = attempt_all now v in
      let v2 : View = attempt_all now v1 in
      let (k1, _, us1) = attempt_all-stored laws processor start now k in
      let (k2, _, us2) = attempt_all-stored laws processor start now k1 in
      let a1 : Ascending v1 = attempt_all-Ascending now v a in
      let same_live : live v1 ≡ live v = live-attempt_all now v in
      let same_length : length v1 ≡ length v = length-attempt_all now v in
      let same_message : prepare_message laws processor start k2 ≡ asks (length history) k.us =
        ap (asks (length history)) us2
        ∙ asks-attempt now (length history) k1.us
        ∙ ap (asks (length history)) us1
        ∙ asks-attempt now (length history) k.us in
      let named2 : AllNamed v2 = AllNamed-attempt_all now v1 (AllNamed-attempt_all now v named) in
      let same_links : links v2 ≡ links v = links-attempt_all now v1 ∙ links-attempt_all now v in
      let prepared : prepare_all b (live v) (tried now (tried now n)) new_round
          ≡ ok (
            record new_round { connections = links v },
            prepares (asks (length history) k.us) (links v),
          ) =
        ap (λ es. prepare_all b es (tried now (tried now n)) new_round)
          (sym (live-attempt_all now v1 ∙ same_live))
        ∙ prepare_all_lem laws processor start v2 new_round k2 (attempt_all-Ascending now v1 a1)
            named2 (λ e s h. (h, tt))
        ∙ ap₂ (λ m c. ok (record new_round { connections = m }, prepares c m)) same_links
            same_message in
      rw
        (
          live_servers_lem now v a,
          same_length,
          enough,
          live_servers_lem now v1 a1,
          same_live,
          somebody,
          prepared,
        )
        refl

  -- A leader that has stored and applied a history, whose view is in order with every server under
  -- its own endpoint, answers the client with one error where the live servers are no majority,
  -- and with another where there is none, and otherwise sends the same prepare, with the id after
  -- its history, to every live server, waits for the answer of each, and records exactly their
  -- connections; its history and the order of its view stay.
  pub initiate_lem :
      (q : Request) (now : ℕ) (n : Node S P f.Double) (history : List Bytes)
      → Ascending n.quorum.servers
      → AllNamed n.quorum.servers
      → Replica laws processor start n history
      → (n' : Node S P f.Double) × Replica laws processor start n' history
        × Ascending n'.quorum.servers
        × AllNamed n'.quorum.servers
        × (((majority f n.quorum.servers n.quorum.majority_factor ≡ false)
              × ((response : Command) × (initiate b f q now n
                    ≡ ok (n', none, write q.client_connection response ∷ []))
                  × (response.type_ ≡ type_request_error)
                  × (response.error_code ≡ error_no_majority)))
            ⊎ ((majority f n.quorum.servers n.quorum.majority_factor ≡ true)
                × (live n.quorum.servers ≡ [])
                × ((response : Command) × (initiate b f q now n
                      ≡ ok (n', none, write q.client_connection response ∷ []))
                    × (response.type_ ≡ type_request_error)
                    × (response.error_code ≡ error_no_leader)))
            ⊎ ((majority f n.quorum.servers n.quorum.majority_factor ≡ true)
                × (live n.quorum.servers ≢ [])
                × ((c : Command) × (initiate b f q now n
                      ≡ ok (
                        n',
                        some (record new_round { connections = links n.quorum.servers }),
                        prepares c (links n.quorum.servers),
                      ))
                    × (c.type_ ≡ type_request_prepare)
                    × (c.next_proposal_id ≡ pos (suc (length history))))))
  unfolding initiate has_majority
  initiate_lem q now n history a named k =
      let v : View = n.quorum.servers in
      let v1 : View = attempt_all now v in
      let v2 : View = attempt_all now v1 in
      let n1 : Node S P f.Double = record n { quorum = record n.quorum { servers = v1 } } in
      let n2 : Node S P f.Double = record n { quorum = record n.quorum { servers = v2 } } in
      let k1 : Replica laws processor start n1 history =
        attempt_all-Replica laws processor start now k in
      let k2 : Replica laws processor start n2 history =
        attempt_all-Replica laws processor start now k1 in
      let a1 : Ascending v1 = attempt_all-Ascending now v a in
      let a2 : Ascending v2 = attempt_all-Ascending now v1 a1 in
      let named1 : AllNamed v1 = AllNamed-attempt_all now v named in
      let named2 : AllNamed v2 = AllNamed-attempt_all now v1 named1 in
      let asked = live_servers_lem now v a in
      let again = live_servers_lem now v1 a1 in
      let same_live : live v1 ≡ live v = live-attempt_all now v in
      let same_length : length v1 ≡ length v = length-attempt_all now v in
      elim (Bool-cases (majority f v n.quorum.majority_factor)) [
        | inl enough ↦ elim (Bool-cases (is_empty (live v))) [
          | inl nobody ↦
              let (response, written, type_, because) =
                handle_error-Replica laws processor start error_no_leader q.client_connection k2 in
              (
                n2,
                k2,
                a2,
                named2,
                inr (
                    inl (
                      enough,
                      empty_lem (live v) nobody,
                      (
                        response,
                        rw (asked, same_length, enough, again, same_live, nobody, written) refl,
                        type_,
                        because,
                      ),
                    )),
              )
          | inr somebody ↦ (
            n2,
            k2,
            a2,
            named2,
            inr (
                inr (
                  enough,
                  full_lem (live v) somebody,
                  (
                    asks (length history) k.us,
                    initiate_sends q now n history a named k enough somebody,
                    refl,
                    refl,
                  ),
                )),
          )
        ]
        | inr few ↦
            let (response, written, type_, because) =
              handle_error-Replica laws processor start error_no_majority q.client_connection k1 in
            (
              n1,
              k1,
              a1,
              named1,
              inl (few, (response, rw (asked, same_length, few, written) refl, type_, because)),
            )
      ]
