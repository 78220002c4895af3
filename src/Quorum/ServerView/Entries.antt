-- ===== src/Quorum/ServerView/Entries.antt =====
-- The map of uuids that the election sorts the live servers into.
use libpaxos_cpp.Base.{
  ==ℤ_iff, ==ℤ_refl, Above, Ascending, Bool-cases, Map, Option, [], ap, arith, false, find, inl,
  inr, insert, none, ok, refl, some, sym, true, ℕ, ℕ_order, ℤ, ◌<◌, ◌==ℤ◌, ◌∙◌, ◌∷◌, ◌≡◌, ◌≢◌, ◌≤◌,
  ◌⊎◌,
}
use libpaxos_cpp.Quorum.Server.{Server, has_id}
use libpaxos_cpp.Quorum.View.{View}
use libpaxos_cpp.Quorum.View.Laws.{lookup_known}
use libpaxos_cpp.Quorum.ServerView.{first_with}

-- The entries of a map.
abbrev pub Has : ℕ → ℕ → Map ℕ ℕ → Type 0
Has id e [] = ⊥
Has id e ((j, f) ∷ m) = ((id ≡ j) × (e ≡ f)) ⊎ Has id e m

pub Has-insert :
    (k f id e : ℕ) (m : Map ℕ ℕ) → Has id e (insert k f m) → ((id ≡ k) × (e ≡ f)) ⊎ Has id e m
Has-insert k f id e [] h = h
Has-insert k f id e ((j, g) ∷ m) h = ground (arith, Has-insert k f id e m)

pub Has-inserted : (k f : ℕ) (m : Map ℕ ℕ) → Has k f (insert k f m)
Has-inserted k f [] = inl (refl, refl)
Has-inserted k f ((j, g) ∷ m) = ground (arith, Has-inserted k f m)

pub Has-insert_other : (k f id e : ℕ) (m : Map ℕ ℕ) → Has id e m → id ≢ k → Has id e (insert k f m)
Has-insert_other k f id e [] h d = absurd h
Has-insert_other k f id e ((j, g) ∷ m) h d = ground (arith, Has-insert_other k f id e m)

pub Has-Above : (n id e : ℕ) (m : Map ℕ ℕ) → Above n m → Has id e m → n < id
Has-Above n id e [] a h = absurd h
Has-Above n id e ((j, f) ∷ m) a (inl (h, _)) = omega (arith, h, a.0)
Has-Above n id e ((j, f) ∷ m) a (inr h) = Has-Above n id e m a.1 h

-- `e` is a server of the view with this entry and an id.
pub record IsCandidate (v : View) (e : ℕ) (s : Server) : Type 0 where
  pub listed : find e v ≡ some s
  pub identified : has_id s ≡ true

module _ (v : View) (highest : ℤ) where
  -- An entry at the highest proposal id.
  abbrev pub TopAt : ℕ → ℕ → Map ℕ ℕ → Type 0
  TopAt id e m =
      Has id e m × ((s : Server) × (find e v ≡ some s) × (s.highest_proposal_id ≡ highest))

  abbrev pub AllListed : Map ℕ ℕ → Type 0
  AllListed [] = Unit {0}
  AllListed ((id, e) ∷ m) = ((s : Server) × (find e v ≡ some s)) × AllListed m

  not_top :
      (e f : ℕ) (s t : Server)
      → find f v ≡ some s
      → (s.highest_proposal_id ==ℤ highest) ≡ false
      → e ≡ f
      → find e v ≡ some t
      → t.highest_proposal_id ≢ highest
  not_top e f s t at other same found top =
      let one : some t ≡ some s = sym found ∙ ap (λ k. find k v) same ∙ at in
      let equal : s.highest_proposal_id ≡ highest = ap (λ o. highest_of o) (sym one) ∙ top in
      let yes : (s.highest_proposal_id ==ℤ highest) ≡ true = rw equal (==ℤ_refl highest) in cc
    where
      highest_of : Option Server → ℤ
      highest_of none = highest
      highest_of (some u) = u.highest_proposal_id

  -- The first entry at the highest id is found.
  pub first_with_lem :
      (m : Map ℕ ℕ) (id e : ℕ)
      → Ascending m
      → AllListed m
      → TopAt id e m
      → (id' e' : ℕ) × (first_with v highest m ≡ ok e')
        × TopAt id' e' m
        × ((j f : ℕ) → TopAt j f m → id' ≤ j)
  unfolding first_with
  first_with_lem [] id e a l (h, _) = absurd h
  first_with_lem ((j, f) ∷ m) id e a ((s, at), l) (h, (t, found, top)) =
      elim (Bool-cases (s.highest_proposal_id ==ℤ highest)) [
        | inl here ↦ (
          j,
          f,
          rw (lookup_known f v s at, here, first_with),
          (inl (refl, refl), (s, at, (==ℤ_iff s.highest_proposal_id highest).0 here)),
          least,
        )
        | inr other ↦
            let there : Has id e m = elim h [
              | inl (same, same_e) ↦ absurd (not_top e f s t at other same_e found top)
              | inr more ↦ more
            ] in
            let (id', e', done, (has, top'), least') =
              first_with_lem m id e a.1 l (there, (t, found, top)) in
            (
              id',
              e',
              rw (lookup_known f v s at, other, first_with) done,
              (inr has, top'),
              later other id' least',
            )
      ]
    where
      least : (k g : ℕ) → TopAt k g ((j, f) ∷ m) → j ≤ k
      least k g (inl (h, _), _) = omega (arith, h)
      least k g (inr h, _) = omega (arith, Has-Above j k g m a.0 h)

      later :
          (s.highest_proposal_id ==ℤ highest) ≡ false
          → (id' : ℕ) → ((k g : ℕ) → TopAt k g m → id' ≤ k)
          → (k g : ℕ) → TopAt k g ((j, f) ∷ m)
          → id' ≤ k
      later other id' least' k g (inl (_, same), (u, found, top)) =
          absurd (not_top g f s u at other same found top)
      later other id' least' k g (inr h, u) = least' k g (h, u)
