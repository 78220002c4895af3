-- ===== src/Quorum/View/Live.antt =====
-- Which servers are live, and what asking for them changes.
use libpaxos_cpp.Base.{
  Above, Ascending, Bool-cases, List, Option, [], ap₂, arith, find, if◌then◌else◌, inl, inr,
  is_some, none, ok, refl, some, true, ℕ, ℕ_order, ◌∷◌, ◌≡◌,
}
use libpaxos_cpp.Quorum.Server.{Server, has_connection, attempted_recently, establish_connection}
use libpaxos_cpp.Quorum.View.{View, visit, visit_all, is_sorted, live_servers}

-- The endpoints with a connection, in order.
abbrev pub live : View → List ℕ
live [] = []
live ((e, s) ∷ v) = if has_connection s then e ∷ live v else live v

-- A server without a connection notes a new attempt, unless it made one lately.
abbrev pub attempt : ℕ → Server → Server
attempt now s =
    if has_connection s
    then s
    else if attempted_recently now s.most_recent_connection_attempt
    then s
    else record s { most_recent_connection_attempt = some now }

abbrev pub attempt_all : ℕ → View → View
attempt_all now [] = []
attempt_all now ((e, s) ∷ v) = (e, attempt now s) ∷ attempt_all now v

visit_lem : (now : ℕ) (s : Server) → visit now s ≡ ok (attempt now s, has_connection s)
unfolding visit establish_connection
visit_lem now s = ground arith

visit_all_lem : (now : ℕ) (v : View) → visit_all now v ≡ ok (live v, attempt_all now v)
unfolding visit_all
visit_all_lem now [] = refl
visit_all_lem now ((e, s) ∷ v) = rw (visit_lem now s, visit_all_lem now v)

live-is_sorted_after : (n : ℕ) (v : View) → Above n v → Ascending v → is_sorted (n ∷ live v) ≡ true
live-is_sorted_after n [] b a = refl
live-is_sorted_after n ((e, s) ∷ v) b a = elim (Bool-cases (has_connection s)) [
  | inl c ↦ rw c (ground (arith, live-is_sorted_after e v a.0 a.1))
  | inr c ↦ rw c (live-is_sorted_after n v b.1 a.1)
]

live-is_sorted : (v : View) → Ascending v → is_sorted (live v) ≡ true
live-is_sorted [] a = refl
live-is_sorted ((e, s) ∷ v) a = elim (Bool-cases (has_connection s)) [
  | inl c ↦ rw c (live-is_sorted_after e v a.0 a.1)
  | inr c ↦ rw c (live-is_sorted v a.1)
]

pub attempt_all-Above : (now n : ℕ) (v : View) → Above n v → Above n (attempt_all now v)
attempt_all-Above now n [] b = tt
attempt_all-Above now n ((e, s) ∷ v) b = (b.0, attempt_all-Above now n v b.1)

pub attempt_all-Ascending : (now : ℕ) (v : View) → Ascending v → Ascending (attempt_all now v)
attempt_all-Ascending now [] a = tt
attempt_all-Ascending now ((e, s) ∷ v) a =
    (attempt_all-Above now e v a.0, attempt_all-Ascending now v a.1)

pub attempt-connection : (now : ℕ) (s : Server) → (attempt now s).connection ≡ s.connection
attempt-connection now s = ground arith

pub attempt-endpoint : (now : ℕ) (s : Server) → (attempt now s).endpoint ≡ s.endpoint
attempt-endpoint now s = ground arith

-- Asking for the live servers does not change which are.
pub live-attempt_all : (now : ℕ) (v : View) → live (attempt_all now v) ≡ live v
live-attempt_all now [] = refl
live-attempt_all now ((e, s) ∷ v) =
    ap₂ (λ c es. if is_some c then e ∷ es else es) (attempt-connection now s)
      (live-attempt_all now v)

-- On a map in order, live_servers never aborts: it gives the connected endpoints in order, and
-- changes nothing but the time of the attempts to connect.
pub live_servers_lem :
    (now : ℕ) (v : View) → Ascending v → live_servers now v ≡ ok (live v, attempt_all now v)
unfolding live_servers
live_servers_lem now v a = rw (visit_all_lem now v, live-is_sorted v a)

abbrev pub attempted : ℕ → Option Server → Option Server
attempted now none = none
attempted now (some s) = some (attempt now s)

pub find-attempt_all :
    (now e : ℕ) (v : View) → find e (attempt_all now v) ≡ attempted now (find e v)
find-attempt_all now e [] = refl
find-attempt_all now e ((f, s) ∷ v) = ground (arith, find-attempt_all now e v)

pub attempted-some :
    (now : ℕ) (o : Option Server) (t : Server)
    → attempted now o ≡ some t
    → (s : Server) × (o ≡ some s) × (attempt now s ≡ t)
attempted-some now none t h = cc
attempted-some now (some s) t h = (s, refl, cc)
