-- ===== src/Quorum/ClientView/Selection.antt =====
-- Which leader a client tries, and that it is a live one.
use libpaxos_cpp.Base.{
  ==_refl, Above, Ascending, Bool-cases, In, IsRising, List, Option, Rising, [], arith, drop, false,
  fault, head?, inl, inr, is_empty, is_some, none, ok, refl, some, subst, suc, sym, undefined, zero,
  ℕ, ◌<◌, ◌==◌, ◌∷◌, ◌≡◌, ◌≢◌, ◌⊎◌,
}
use libpaxos_cpp.Quorum.View.{View}
use libpaxos_cpp.Quorum.View.Live.{
  live, attempt_all, attempt_all-Ascending, live-attempt_all, live_servers_lem,
}
use libpaxos_cpp.Quorum.View.Follows.{Follows, attempt_all-Follows}
use libpaxos_cpp.Quorum.ClientView.{
  ClientView, lower_bound, find_from, position, step_on, advance_among, advance_leader,
  select_among, select_live, select_leader,
}

-- The next leader, if there is one, is live.
abbrev pub IsLive : List ℕ → Option ℕ → Type 0
IsLive es none = Unit {0}
IsLive es (some e) = In e es

-- A view in order, whose next leader is live.
pub record IsReady (q : ClientView) : Type 0 where
  pub in_order : Ascending q.servers
  pub next_live : IsLive (live q.servers) q.next_leader

live-Rising : (n : ℕ) (v : View) → Above n v → Ascending v → Rising n (live v)
live-Rising n [] b a = tt
live-Rising n ((e, s) ∷ v) b a = elim (Bool-cases (is_some s.connection)) [
  | inl c ↦ rw c (b.0, live-Rising e v a.0 a.1)
  | inr c ↦ rw c (live-Rising n v b.1 a.1)
]

pub live-IsRising : (v : View) → Ascending v → IsRising (live v)
live-IsRising [] a = tt
live-IsRising ((e, s) ∷ v) a = elim (Bool-cases (is_some s.connection)) [
  | inl c ↦ rw c (live-Rising e v a.0 a.1)
  | inr c ↦ rw c (live-IsRising v a.1)
]

In-Rising : (n : ℕ) (es : List ℕ) (e : ℕ) → Rising n es → In e es → n < e
In-Rising n [] e r m = absurd m
In-Rising n (f ∷ es) e r (inl h) = ground arith
In-Rising n (f ∷ es) e r (inr m) = omega (arith, In-Rising f es e r.1 m)

Rising-IsRising : (n : ℕ) (es : List ℕ) → Rising n es → IsRising es
Rising-IsRising n [] r = tt
Rising-IsRising n (e ∷ es) r = r.1

pub lower_bound-In : (es : List ℕ) (e : ℕ) → IsRising es → In e es → lower_bound es e ≡ ok e
unfolding lower_bound
lower_bound-In [] e r m = absurd m
lower_bound-In (f ∷ es) e r (inl h) = ground arith
lower_bound-In (f ∷ es) e r (inr m) =
    ground (arith, In-Rising f es e r m, lower_bound-In es e (Rising-IsRising f es r) m)

-- Elements of a tail.
In-drop : (n : ℕ) (es : List ℕ) (e : ℕ) → In e (drop n es) → In e es
In-drop zero es e m = m
In-drop (suc n) [] e m = m
In-drop (suc n) (f ∷ es) e m = inr (In-drop n es e m)

In-find_from : (es : List ℕ) (e f : ℕ) → In f (find_from es e) → In f es
unfolding find_from
In-find_from [] e f m = m
In-find_from (g ∷ es) e f m = elim (Bool-cases (g == e)) [
  | inl here ↦ rw here at m
  | inr there ↦ inr (In-find_from es e f (rw there at m))
]

In-position : (es : List ℕ) (o : Option ℕ) (f : ℕ) → In f (position es o) → In f es
In-position es none f m = m
In-position es (some e) f m = elim (Bool-cases (is_empty (find_from es e))) [
  | inl gone ↦ rw gone at m
  | inr there ↦ In-find_from es e f (rw there at m)
]

head?-IsLive : (es : List ℕ) → IsLive es (head? es)
head?-IsLive [] = tt
head?-IsLive (e ∷ es) = inl refl

step_on-IsLive : (es from : List ℕ) → ((f : ℕ) → In f from → In f es) → IsLive es (step_on es from)
step_on-IsLive es [] sub = head?-IsLive es
step_on-IsLive es (x ∷ []) sub = head?-IsLive es
step_on-IsLive es (x ∷ f ∷ fs) sub = sub f (inr (inl refl))

position_some :
    (es : List ℕ) (o : Option ℕ) → is_empty es ≡ false → is_empty (position es o) ≡ false
position_some es none h = h
position_some es (some e) h = elim (Bool-cases (is_empty (find_from es e))) [
  | inl gone ↦ rw gone h
  | inr there ↦ rw (there, there)
]

advance_among-IsLive :
    (es : List ℕ) (q : ClientView)
    → (o : Option ℕ) × (advance_among es q ≡ ok (record q { next_leader = o })) × IsLive es o
unfolding advance_among
advance_among-IsLive [] q = (none, refl, tt)
advance_among-IsLive (e ∷ es) q =
    let found : is_empty (position (e ∷ es) q.next_leader) ≡ false =
      position_some (e ∷ es) q.next_leader refl in
    (
      step_on (e ∷ es) (position (e ∷ es) q.next_leader),
      rw found,
      step_on-IsLive (e ∷ es) (position (e ∷ es) q.next_leader)
          (In-position (e ∷ es) q.next_leader),
    )

-- Advancing makes any view whose servers are in order ready, whatever leader it had in mind.
pub advance_leader-IsReady :
    (now : ℕ) (q : ClientView)
    → Ascending q.servers
    → (q' : ClientView) × (advance_leader now q ≡ ok q') × IsReady q' × Follows q.servers q'.servers
unfolding advance_leader
advance_leader-IsReady now q a =
    let v : View = attempt_all now q.servers in
    let (o, e, l) = advance_among-IsLive (live q.servers) (record q { servers = v }) in
    (
      record { servers = v; next_leader = o },
      rw (live_servers_lem now q.servers a, e),
      record {
        in_order = attempt_all-Ascending now q.servers a;
        next_live = subst (λ es. IsLive es o) (sym (live-attempt_all now q.servers)) l;
      },
      attempt_all-Follows now q.servers,
    )

-- What a selection may give: the leader that was next, or else the first, if any server is live.
abbrev pub Selects : List ℕ → Option ℕ → Option ℕ → Type 0
Selects es before none = es ≡ []
Selects es before (some e) = In e es × ((before ≡ none) ⊎ (before ≡ some e))

select_live-IsReady :
    (es : List ℕ) (q : ClientView)
    → IsRising es
    → IsLive es q.next_leader
    → (r o : Option ℕ) × (select_live es q ≡ ok (r, record q { next_leader = o }))
      × IsLive es o
      × Selects es q.next_leader r
unfolding select_live select_among
select_live-IsReady [] q r l = (none, q.next_leader, refl, l, refl)
select_live-IsReady (e ∷ es) q r l = go q.next_leader refl l
  where
    es' : List ℕ
    es' = e ∷ es

    go :
        (o : Option ℕ)
        → q.next_leader ≡ o
        → IsLive (e ∷ es) o
        → (r o' : Option ℕ) × (select_live (e ∷ es) q ≡ ok (r, record q { next_leader = o' }))
          × IsLive (e ∷ es) o'
          × Selects (e ∷ es) q.next_leader r
    go none h l = (
      some e,
      some e,
      rw (h, lower_bound-In (e ∷ es) e r (inl refl), ==_refl e),
      inl refl,
      (inl refl, inl h),
    )
    go (some f) h l =
        (some f, some f, rw (h, lower_bound-In (e ∷ es) f r l, ==_refl f), l, (l, inr h))

-- On a ready view a selection neither aborts nor reads past the end: it gives a live server, the
-- one that was next if there was one, and none only if no server is live; and the view stays
-- ready, with nothing changed in its servers but the time of the attempts to connect.
pub select_leader-IsReady :
    (now : ℕ) (q : ClientView)
    → IsReady q
    → (r : Option ℕ) × (q' : ClientView) × (select_leader now q ≡ ok (r, q'))
      × IsReady q'
      × (q'.servers ≡ attempt_all now q.servers)
      × Selects (live q.servers) q.next_leader r
unfolding select_leader
select_leader-IsReady now q h =
    let v : View = attempt_all now q.servers in
    let (r, o, e, l, s) =
      select_live-IsReady (live q.servers) (record q { servers = v })
        (live-IsRising q.servers h.in_order) h.next_live in
    (
      r,
      record { servers = v; next_leader = o },
      rw (live_servers_lem now q.servers h.in_order, e),
      record {
        in_order = attempt_all-Ascending now q.servers h.in_order;
        next_live = subst (λ es. IsLive es o) (sym (live-attempt_all now q.servers)) l;
      },
      refl,
      s,
    )

lower_bound_past :
    (es : List ℕ) (e : ℕ) → ((f : ℕ) → In f es → f < e) → lower_bound es e ≡ fault undefined
unfolding lower_bound
lower_bound_past [] e h = refl
lower_bound_past (f ∷ es) e h =
    ground (arith, h f (inl refl), lower_bound_past es e (λ g m. h g (inr m)))

-- On a view that is not ready, whose next leader comes after every live server and which has one,
-- the selection dereferences the end of the vector.
pub select_leader_past_end :
    (now e : ℕ) (q : ClientView)
    → Ascending q.servers
    → q.next_leader ≡ some e
    → live q.servers ≢ []
    → ((f : ℕ) → In f (live q.servers) → f < e)
    → select_leader now q ≡ fault undefined
unfolding select_leader select_live select_among
select_leader_past_end now e q a next some_live past =
    rw (live_servers_lem now q.servers a) (go (live q.servers) some_live past)
  where
    go :
        (es : List ℕ)
        → es ≢ []
        → ((f : ℕ) → In f es → f < e)
        → select_live es (record q { servers = attempt_all now q.servers }) ≡ fault undefined
    go [] h p = absurd (h refl)
    go (f ∷ es) h p = rw (next, lower_bound_past (f ∷ es) e p)
