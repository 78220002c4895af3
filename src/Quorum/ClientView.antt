-- ===== src/Quorum/ClientView.antt =====
-- detail/quorum/client_view.cpp: the quorum as a client sees it, and the leader that it tries next.
pub mod Rotation
pub mod Selection
use libpaxos_cpp.Base.{
  List, Option, Outcome, [], assert, drop, fault, head?, if◌then◌else◌, is_empty, ltb, none, not,
  ok, some, undefined, ℕ, ℕ_order, ◌==◌, ◌>>=◌, ◌>>◌, ◌∷◌,
}
use libpaxos_cpp.Quorum.View
use libpaxos_cpp.Quorum.View.{View}

pub record ClientView : Type 0 where
  pub servers : View
  pub next_leader : Option ℕ

-- The dereferenced `std::lower_bound` of a sorted vector; at the end that is undefined.
unfoldable pub lower_bound : List ℕ → ℕ → Outcome ℕ
lower_bound [] e = fault undefined
lower_bound (f ∷ es) e = let rest = lower_bound es e in if ltb f e then rest else ok f

-- The elements from `std::find` on.
unfoldable pub find_from : List ℕ → ℕ → List ℕ
find_from [] e = []
find_from (f ∷ es) e = let rest = find_from es e in if f == e then f ∷ es else rest

-- The position that `advance_leader` starts from, as the elements from there on.
abbrev pub position : List ℕ → Option ℕ → List ℕ
position live none = live
position live (some e) = if is_empty (find_from live e) then live else find_from live e

-- One further, or back to the beginning.
abbrev pub step_on : List ℕ → List ℕ → Option ℕ
step_on live at = elim (drop 1 at) [ [] ↦ head? live | f ∷ es ↦ some f ]

unfoldable pub advance_among : List ℕ → ClientView → Outcome ClientView
advance_among live q = if is_empty live then ok (record q { next_leader = none }) else do
  assert (not (is_empty (position live q.next_leader)))
  ok (record q { next_leader = step_on live (position live q.next_leader) })

unfoldable pub advance_leader : ℕ → ClientView → Outcome ClientView
advance_leader now q = do
  (live, v) ← View.live_servers now q.servers
  advance_among live (record q { servers = v })

-- The choice among live servers, of which there is one.
unfoldable pub select_among : ℕ → List ℕ → ClientView → Outcome (Option ℕ × ClientView)
select_among candidate live q = do
  found ← lower_bound live candidate
  if found == candidate
      then ok (some found, q)
      else (advance_among live q >>= λ q. ok (q.next_leader, q))

abbrev pub or_first : Option ℕ → ℕ → ℕ
or_first none first = first
or_first (some e) first = e

unfoldable pub select_live : List ℕ → ClientView → Outcome (Option ℕ × ClientView)
select_live [] q = ok (none, q)
select_live (first ∷ rest) q =
    let candidate = or_first q.next_leader first in
    select_among candidate (first ∷ rest) (record q { next_leader = some candidate })

unfoldable pub select_leader : ℕ → ClientView → Outcome (Option ℕ × ClientView)
select_leader now q = do
  (live, v) ← View.live_servers now q.servers
  select_live live (record q { servers = v })
