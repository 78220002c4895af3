-- ===== src/Quorum/ServerView.antt =====
-- detail/quorum/server_view.hpp and server_view.cpp: the quorum as one of its servers sees it.
pub mod Entries
pub mod Sorting
pub mod Election
pub mod Leader
use libpaxos_cpp.Base.{
  Bool, List, Map, Option, Outcome, [], fault, if◌then◌else◌, insert, is_empty, length, max_ℤ,
  negsuc, none, ok, some, unreachable, ℕ, ℕ_order, ℤ, ◌==ℤ◌, ◌>>=◌, ◌∷◌,
}
use libpaxos_cpp.Quorum.Server.{has_id, set_id}
use libpaxos_cpp.Quorum.View
use libpaxos_cpp.Quorum.View.{View, add, lookup_server, modify_server}

-- What the code uses of `double`.
pub record Floats : Type 1 where
  pub Double : Type 0
  pub of_size : ℕ → Double
  pub times : Double → Double → Double
  pub at_least : Double → Double → Bool
  pub half : Double

pub record ServerView (D : Type 0) : Type 0 where
  pub servers : View
  pub majority_factor : D
  pub our_endpoint : ℕ

-- The constructor, with the uuid that the generator gives.
unfoldable pub new_server_view : {D : Type 0} → ℕ → D → ℕ → Outcome (ServerView D)
new_server_view endpoint factor uuid = do
  v ← modify_server endpoint (set_id uuid) (add endpoint [])
  ok (record { servers = v; majority_factor = factor; our_endpoint = endpoint })

unfoldable pub has_majority :
    (f : Floats) → ℕ → ServerView f.Double → Outcome (Bool × ServerView f.Double)
has_majority f now q = do
  (live, v) ← View.live_servers now q.servers
  ok (
    f.at_least (f.of_size (length live)) (f.times (f.of_size (length v)) q.majority_factor),
    record q { servers = v },
  )

-- The loop that sorts the live servers with an id, and finds the highest proposal id.
unfoldable pub sort_live : View → List ℕ → Map ℕ ℕ × ℤ → Outcome (Map ℕ ℕ × ℤ)
sort_live v [] acc = ok acc
sort_live v (e ∷ es) (sorted, highest) = do
  s ← lookup_server e v
  sort_live v es (
      if has_id s
      then (insert s.id e sorted, max_ℤ highest s.highest_proposal_id)
      else (sorted, highest))

-- The loop over `sorted`, by ascending uuid.
unfoldable pub first_with : View → ℤ → Map ℕ ℕ → Outcome ℕ
first_with v highest [] = fault unreachable
first_with v highest ((id, e) ∷ rest) = do
  s ← lookup_server e v
  let other = first_with v highest rest
  if s.highest_proposal_id ==ℤ highest then ok e else other

-- The choice among the live servers.
unfoldable pub elect : View → List ℕ → Outcome (Option ℕ)
elect v live = if is_empty live then ok none else do
  (sorted, highest) ← sort_live v live ([], negsuc 0)
  if is_empty sorted then ok none else (first_with v highest sorted >>= λ e. ok (some e))

unfoldable pub who_is_our_leader :
    {D : Type 0} → ℕ → ServerView D → Outcome (Option ℕ × ServerView D)
who_is_our_leader now q = do
  (live, v) ← View.live_servers now q.servers
  leader ← elect v live
  ok (leader, record q { servers = v })
