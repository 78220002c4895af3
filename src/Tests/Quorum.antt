-- ===== src/Tests/Quorum.antt =====
-- A view of three servers, of which two are connected.
use libpaxos_cpp.Base.{
  Ascending, In, Option, [], arith, fault, find, get_elem?, inl, inr, negsuc, none, ok, pos, refl,
  some, sym, undefined, ℕ, ℕ_order, ◌%◌, ◌<◌, ◌∙◌, ◌∷◌, ◌≡◌, ◌≢◌,
}
use libpaxos_cpp.Quorum.Server.{Server}
use libpaxos_cpp.Quorum.View.{View, lowest_proposal_id}
use libpaxos_cpp.Quorum.View.Lowest.{
  AllReach, SomeAt, lowest_proposal_id-AllKnown, lowest_proposal_id-forgets,
}
use libpaxos_cpp.Quorum.View.Live.{live, attempt_all}
use libpaxos_cpp.Quorum.ServerView.{ServerView, who_is_our_leader}
use libpaxos_cpp.Quorum.ServerView.Election.{Elects}
use libpaxos_cpp.Quorum.ServerView.Sorting.{IsElectable}
use libpaxos_cpp.Quorum.ServerView.Leader.{who_is_our_leader-Elects}
use libpaxos_cpp.Quorum.ClientView.{ClientView, select_leader}
use libpaxos_cpp.Quorum.ClientView.Selection.{
  IsReady, Selects, select_leader-IsReady, select_leader_past_end,
}
use libpaxos_cpp.Quorum.ClientView.Rotation.{advance_times, advance_times-rotates}

abbrev server : ℕ → Option ℕ → Server
server e c = record {
  endpoint = e;
  id = e;
  highest_proposal_id = pos e;
  most_recent_connection_attempt = none;
  connection = c;
}

abbrev servers : View
servers = (1, server 1 (some 11)) ∷ (2, server 2 none) ∷ (3, server 3 (some 13)) ∷ []

in_order : Ascending servers
in_order = ((omega arith, (omega arith, tt)), ((omega arith, tt), (tt, tt)))

abbrev view : Option ℕ → ClientView
view next = record { servers = servers; next_leader = next }

view-IsReady : IsReady (view (some 3))
view-IsReady = record { in_order = in_order; next_live = inr (inl refl) }

select_leader-IsReady_example :
    (r : Option ℕ) × (q' : ClientView) × (select_leader 5 (view (some 3)) ≡ ok (r, q'))
    × IsReady q'
    × (q'.servers ≡ attempt_all 5 servers)
    × Selects (live servers) (some 3) r
select_leader-IsReady_example = select_leader-IsReady 5 (view (some 3)) view-IsReady

some_live : live servers ≢ []
some_live e = cc

below : (f : ℕ) → In f (live servers) → f < 4
below f (inl e) = omega (arith, e)
below f (inr (inl e)) = omega (arith, e)
below f (inr (inr x)) = absurd x

select_leader_past_end_example : select_leader 5 (view (some 4)) ≡ fault undefined
select_leader_past_end_example =
    select_leader_past_end 5 4 (view (some 4)) in_order refl some_live below

advance_times-rotates_example :
    advance_times 4 (1 ∷ 3 ∷ 6 ∷ []) (view (some 3))
    ≡ ok (record (view (some 3)) { next_leader = get_elem? (1 ∷ 3 ∷ 6 ∷ []) (5 % 3) })
advance_times-rotates_example =
    advance_times-rotates 4 (1 ∷ 3 ∷ 6 ∷ []) 1 (view (some 3)) (omega arith, (omega arith, tt))
      (omega arith) refl

lowest_proposal_id-AllKnown_example :
    (k : ℕ) × (lowest_proposal_id servers ≡ pos k) × AllReach k servers × SomeAt k servers
lowest_proposal_id-AllKnown_example =
    lowest_proposal_id-AllKnown 1 (server 1 (some 11))
      ((2, server 2 none) ∷ (3, server 3 (some 13)) ∷ []) ((1, refl), ((2, refl), ((3, refl), tt)))

-- The second of three servers was never heard of.
abbrev unheard : Server
unheard = record (server 2 none) { highest_proposal_id = negsuc 0 }

lowest_proposal_id-forgets_example :
    lowest_proposal_id ((1, server 1 (some 11)) ∷ (2, unheard) ∷ (3, server 3 (some 13)) ∷ [])
    ≡ lowest_proposal_id ((3, server 3 (some 13)) ∷ [])
lowest_proposal_id-forgets_example =
    lowest_proposal_id-forgets ((1, server 1 (some 11)) ∷ []) ((3, server 3 (some 13)) ∷ []) 2
      unheard (inr (1, refl), tt) refl

server_id :
    (e : ℕ) (s : Server) → find e servers ≡ some s → (s.id ≡ e) × (s.highest_proposal_id ≡ pos e)
server_id e s h = ground arith

electable : IsElectable servers
electable = record {
  unique = λ e f s t c d same. sym (server_id e s c.listed).0 ∙ same ∙ (server_id f t d.listed).0;
  from_none = λ e s h. ground (arith, (server_id e s h).1);
}

abbrev server_view : ServerView (Unit {0})
server_view = record { servers = servers; majority_factor = tt; our_endpoint = 1 }

who_is_our_leader-Elects_example :
    (o : Option ℕ) × (who_is_our_leader 5 server_view
      ≡ ok (o, record server_view { servers = attempt_all 5 servers }))
    × Elects servers (live servers) o
who_is_our_leader-Elects_example = who_is_our_leader-Elects 5 server_view in_order electable
