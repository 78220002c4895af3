-- ===== src/Quorum/ServerView/Leader.antt =====
-- Whom a server takes for the leader.
use libpaxos_cpp.Base.{
  Ascending, In, List, Option, ap, arith, find, none, not, ok, refl, some, sym, ℕ, ℕ_order, ◌==◌,
  ◌∙◌, ◌≡◌,
}
use libpaxos_cpp.Quorum.Server.{Server, has_id}
use libpaxos_cpp.Quorum.View.{View}
use libpaxos_cpp.Quorum.View.Live.{
  attempted, find-attempt_all, attempted-some, live, attempt, attempt_all, live_servers_lem,
}
use libpaxos_cpp.Quorum.View.Listed.{live_listed}
use libpaxos_cpp.Quorum.ServerView.{ServerView, who_is_our_leader}
use libpaxos_cpp.Quorum.ServerView.Entries.{IsCandidate}
use libpaxos_cpp.Quorum.ServerView.Sorting.{IsElectable}
use libpaxos_cpp.Quorum.ServerView.Election.{Elects, elect_lem}

-- An attempt to connect changes neither a server's uuid nor its proposal id.
pub attempt_keeps :
    (now : ℕ) (s : Server)
    → ((attempt now s).id ≡ s.id) × ((attempt now s).highest_proposal_id ≡ s.highest_proposal_id)
attempt_keeps now s = ground arith

-- A server before the attempts to connect, and after.
pub listed_before :
    (now : ℕ) (v : View) (e : ℕ) (t : Server)
    → find e (attempt_all now v) ≡ some t
    → (s : Server) × (find e v ≡ some s)
      × (t.id ≡ s.id)
      × (t.highest_proposal_id ≡ s.highest_proposal_id)
listed_before now v e t h =
    let (s, at, same) = attempted-some now (find e v) t (sym (find-attempt_all now e v) ∙ h) in
    let (id, highest) = attempt_keeps now s in
    (s, at, ap (λ u. u.id) (sym same) ∙ id, ap (λ u. u.highest_proposal_id) (sym same) ∙ highest)

has_id-cong : (s t : Server) → t.id ≡ s.id → has_id s ≡ has_id t
has_id-cong s t h = ap (λ i. not (i == 0)) (sym h)

IsCandidate-before :
    (now : ℕ) (v : View) (e : ℕ) (t : Server)
    → IsCandidate (attempt_all now v) e t
    → (s : Server) × IsCandidate v e s
      × (t.id ≡ s.id)
      × (t.highest_proposal_id ≡ s.highest_proposal_id)
IsCandidate-before now v e t c =
    let (s, at, id, highest) = listed_before now v e t c.listed in
    (s, record { listed = at; identified = has_id-cong s t id ∙ c.identified }, id, highest)

IsCandidate-after :
    (now : ℕ) (v : View) (e : ℕ) (s : Server)
    → IsCandidate v e s
    → IsCandidate (attempt_all now v) e (attempt now s)
IsCandidate-after now v e s c = record {
  listed = find-attempt_all now e v ∙ ap (attempted now) c.listed;
  identified = sym (has_id-cong s (attempt now s) (attempt_keeps now s).0) ∙ c.identified;
}

IsElectable-attempt_all : (now : ℕ) (v : View) → IsElectable v → IsElectable (attempt_all now v)
IsElectable-attempt_all now v k = record {
  unique = λ e f s t c d same.
      let (s', c', id, _) = IsCandidate-before now v e s c in
      let (t', d', id', _) = IsCandidate-before now v f t d in
      k.unique e f s' t' c' d' (sym id ∙ same ∙ id');
  from_none = λ e t h.
      let (s, at, _, highest) = listed_before now v e t h in rw highest (k.from_none e s at);
}

Elects-before :
    (now : ℕ) (v : View) (es : List ℕ) (o : Option ℕ)
    → Elects (attempt_all now v) es o
    → Elects v es o
Elects-before now v es none k = λ e s h c. k e (attempt now s) h (IsCandidate-after now v e s c)
Elects-before now v es (some e) k =
    let (s, c, id, high) = IsCandidate-before now v e k.server k.candidate in
    record {
      server = s;
      chosen = k.chosen;
      candidate = c;
      highest = λ f t h d.
          rw (← (attempt_keeps now t).1, ← high)
            (k.highest f (attempt now t) h (IsCandidate-after now v f t d));
      first = λ f t h d same.
          rw (← (attempt_keeps now t).0, ← id)
            (k.first f (attempt now t) h (IsCandidate-after now v f t d)
              ((attempt_keeps now t).1 ∙ same ∙ sym high));
    }

-- Where the view is in order, a uuid belongs to one server and no proposal id is below -1, the
-- election succeeds and changes nothing but the time of the attempts to connect. The leader is
-- live, has an id, lags behind no live server with an id, and has the lowest uuid of those that do
-- not lag behind either; there is none only where no live server has an id.
pub who_is_our_leader-Elects :
    {D : Type 0} (now : ℕ) (q : ServerView D)
    → Ascending q.servers
    → IsElectable q.servers
    → (o : Option ℕ) × (who_is_our_leader now q
        ≡ ok (o, record q { servers = attempt_all now q.servers }))
      × Elects q.servers (live q.servers) o
unfolding who_is_our_leader
who_is_our_leader-Elects now q a k =
    let v : View = attempt_all now q.servers in
    let (o, done, elects) =
      elect_lem v (IsElectable-attempt_all now q.servers k) (live q.servers)
        (listed_after v refl) in
    (
      o,
      rw (live_servers_lem now q.servers a, done),
      Elects-before now q.servers (live q.servers) o elects,
    )
  where
    listed_after :
        (v : View)
        → v ≡ attempt_all now q.servers
        → (e : ℕ) → In e (live q.servers)
        → (s : Server) × (find e v ≡ some s)
    listed_after v same e h =
        let (s, at, _) = live_listed q.servers a e h in
        (attempt now s, ap (find e) same ∙ find-attempt_all now e q.servers ∙ ap (attempted now) at)
