-- ===== src/Quorum/ServerView/Election.antt =====
-- Whom the election of `who_is_our_leader` chooses.
use libpaxos_cpp.Base.{
  In, List, Map, Option, [], ap, arith, find, if◌then◌else◌, inl, inr, is_empty, negsuc, none, ok,
  refl, some, subst, sym, ℕ, ℕ_order, ℤ, ◌>>=◌, ◌∙◌, ◌∷◌, ◌≡◌, ◌≤ℤ◌, ◌≤◌, ◌⊎◌,
}
use libpaxos_cpp.Quorum.Server.{Server}
use libpaxos_cpp.Quorum.View.{View}
use libpaxos_cpp.Quorum.ServerView.{first_with, elect}
use libpaxos_cpp.Quorum.ServerView.Entries.{Has, IsCandidate, TopAt, AllListed, first_with_lem}
use libpaxos_cpp.Quorum.ServerView.Sorting.{Sorted, IsElectable, sort_live_lem}

-- The leader among servers: of those with an id and the highest proposal id, the one with the lowest
-- uuid.
pub record IsLeader (v : View) (es : List ℕ) (e : ℕ) : Type 0 where
  pub server : Server
  pub chosen : In e es
  pub candidate : IsCandidate v e server
  pub highest :
      (f : ℕ) (t : Server)
      → In f es
      → IsCandidate v f t
      → t.highest_proposal_id ≤ℤ server.highest_proposal_id
  pub first :
      (f : ℕ) (t : Server)
      → In f es
      → IsCandidate v f t
      → t.highest_proposal_id ≡ server.highest_proposal_id
      → server.id ≤ t.id

-- No leader is elected only where no server has an id.
abbrev pub Elects : View → List ℕ → Option ℕ → Type 0
Elects v es none = (e : ℕ) (s : Server) → In e es → IsCandidate v e s → ⊥
Elects v es (some e) = IsLeader v es e

listed-AllListed :
    (v : View) (highest : ℤ) (m : Map ℕ ℕ)
    → ((id e : ℕ) → Has id e m → (s : Server) × (find e v ≡ some s))
    → AllListed v highest m
listed-AllListed v highest [] h = tt
listed-AllListed v highest ((id, e) ∷ m) h =
    (h id e (inl (refl, refl)), listed-AllListed v highest m (λ j f k. h j f (inr k)))

start_Sorted : (v : View) → Sorted v (λ e. ⊥) [] (negsuc 0)
start_Sorted v = record {
  order = tt;
  sound = λ id e h. absurd h;
  complete = λ e s d c. absurd d;
  top = inl (refl, refl);
}

elect_some :
    (v : View) (i : ℤ) (m : Map ℕ ℕ) (id e : ℕ)
    → Has id e m
    → (if is_empty m then ok none else (first_with v i m >>= λ e. ok (some e)))
      ≡ (first_with v i m >>= λ e. ok (some e))
elect_some v i [] id e h = absurd h
elect_some v i (x ∷ m) id e h = refl

module _ (v : View) (electable : IsElectable v) where
  elects_top :
      (es : List ℕ) (m : Map ℕ ℕ) (i : ℤ) (id e : ℕ)
      → Sorted v (λ f. In f es ⊎ ⊥) m i
      → TopAt v i id e m
      → (e' : ℕ) × (first_with v i m ≡ ok e') × IsLeader v es e'
  elects_top es m i id e k top =
      let listed : AllListed v i m =
        listed-AllListed v i m (λ j f h. let (d, (s, c, _, _)) = k.sound j f h in (s, c.listed)) in
      let (id', e', done, (has, (s, at, high)), least) =
        first_with_lem v i m id e k.order listed top in
      let (d, (t, c, same, low)) = k.sound id' e' has in
      let one : some t ≡ some s = sym c.listed ∙ at in
      (
        e',
        done,
        record {
          server = t;
          chosen = elim d [ inl h ↦ h | inr x ↦ absurd x ];
          candidate = c;
          highest = λ f u h c'.
              let (_, (w, cw, _, low')) = k.sound u.id f (k.complete f u (inl h) c') in
              below f u w t i c' cw low' (at_top t s one high);
          first = λ f u h c' equal. omega (
            arith,
            same,
            least u.id f (k.complete f u (inl h) c', (u, c'.listed, equal ∙ at_top t s one high)),
          );
        },
      )
    where
      at_top :
          (t s : Server) → some t ≡ some s → s.highest_proposal_id ≡ i → t.highest_proposal_id ≡ i
      at_top t s one high = let same : t ≡ s = cc in ap (λ u. u.highest_proposal_id) same ∙ high

      below :
          (f : ℕ) (u w t : Server) (i : ℤ)
          → IsCandidate v f u
          → IsCandidate v f w
          → w.highest_proposal_id ≤ℤ i
          → t.highest_proposal_id ≡ i
          → u.highest_proposal_id ≤ℤ t.highest_proposal_id
      below f u w t i cu cw low top =
          let one : some u ≡ some w = sym cu.listed ∙ cw.listed in
          let same : u ≡ w = cc in rw (same, top) low

  pub elect_lem :
      (es : List ℕ)
      → ((e : ℕ) → In e es → (s : Server) × (find e v ≡ some s))
      → (o : Option ℕ) × (elect v es ≡ ok o) × Elects v es o
  unfolding elect
  elect_lem [] listed = (none, refl, λ e s h c. h)
  elect_lem (e ∷ es) listed =
      let (m, i, done, k) =
        sort_live_lem v electable (e ∷ es) (λ f. ⊥) [] (negsuc 0) listed (start_Sorted v) in
      elim k.top [
        | inl (nothing, _) ↦ (
          none,
          rw (done, nothing),
          λ f s h c.
              let has : Has s.id f m = k.complete f s (inl h) c in subst (Has s.id f) nothing has,
        )
        | inr (id, f, top) ↦
            let (e', found, leader) = elects_top (e ∷ es) m i id f k top in
            (some e', rw (done, elect_some v i m id f top.0, found), leader)
      ]
