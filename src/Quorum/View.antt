-- ===== src/Quorum/View.antt =====
-- detail/quorum/view.hpp and view.cpp: the servers of the quorum, by endpoint.
pub mod Laws
pub mod Live
pub mod Lowest
pub mod Listed
pub mod Follows
use libpaxos_cpp.Base.{
  Bool, List, Map, Outcome, [], aborted, assert, contains, false, fault, find, if◌then◌else◌,
  insert, ltb, min_ℤ, negsuc, none, not, ok, some, true, ℕ, ℕ_order, ℤ, ◌&&◌, ◌==ℤ◌, ◌>>=◌, ◌>>◌,
  ◌∷◌,
}
use libpaxos_cpp.Quorum.Server.{
  Server, new_server, has_connection, reset_connection, establish_connection,
}

abbrev pub View : Type 0
View = Map ℕ Server

-- `servers_.insert` leaves an entry that is there.
unfoldable pub add : ℕ → View → View
add e v = if contains e v then v else insert e (new_server e) v

unfoldable pub lookup_server : ℕ → View → Outcome Server
lookup_server e v = elim (find e v) [ none ↦ fault aborted | some s ↦ ok s ]

-- `lookup_server (e)` as a reference that is written through.
unfoldable pub modify_server : ℕ → (Server → Server) → View → Outcome View
modify_server e f v = do s ← lookup_server e v; ok (insert e (f s) v)

-- One round of the loop of `live_servers`: the server, and whether it goes to the result.
unfoldable pub visit : ℕ → Server → Outcome (Server × Bool)
visit now s =
    if has_connection s then ok (s, true) else (establish_connection now s >>= λ p. ok (p.0, false))

unfoldable pub visit_all : ℕ → View → Outcome (List ℕ × View)
visit_all now [] = ok ([], [])
visit_all now ((e, s) ∷ v) = do
  (s', live) ← visit now s
  (es, v') ← visit_all now v
  ok ((if live then e ∷ es else es), (e, s') ∷ v')

-- `std::adjacent_find` with `std::greater` reaches the end.
abbrev pub is_sorted : List ℕ → Bool
is_sorted [] = true
is_sorted (e ∷ []) = true
is_sorted (e ∷ f ∷ es) = not (ltb f e) && is_sorted (f ∷ es)

unfoldable pub live_servers : ℕ → View → Outcome (List ℕ × View)
live_servers now v = do (es, v') ← visit_all now v; assert (is_sorted es); ok (es, v')

unfoldable pub connection_died : ℕ → View → Outcome View
connection_died e v = modify_server e reset_connection v

-- One round of the loop of `lowest_proposal_id`.
abbrev pub lower : ℤ → Server → ℤ
lower lowest s =
    if lowest ==ℤ negsuc 0 then s.highest_proposal_id else min_ℤ lowest s.highest_proposal_id

unfoldable pub lowest_from : ℤ → View → ℤ
lowest_from lowest [] = lowest
lowest_from lowest ((e, s) ∷ v) = lowest_from (lower lowest s) v

unfoldable pub lowest_proposal_id : View → ℤ
lowest_proposal_id v = lowest_from (negsuc 0) v
