-- ===== src/Quorum/ServerView/Sorting.antt =====
-- What the loop over the live servers collects.
use libpaxos_cpp.Base.{
  ==_iff, Ascending, Bool-cases, In, List, Map, [], ap, arith, false, find, inl, inr, insert,
  insert-Ascending, ltb_ℤ, max_ℤ, negsuc, ok, refl, some, subst, sym, true, ℕ, ℕ_order, ℤ, ◌==◌,
  ◌∙◌, ◌∷◌, ◌≡◌, ◌≢◌, ◌≤ℤ◌, ◌⊎◌,
}
use libpaxos_cpp.Quorum.Server.{Server, has_id}
use libpaxos_cpp.Quorum.View.{View}
use libpaxos_cpp.Quorum.View.Laws.{lookup_known}
use libpaxos_cpp.Quorum.ServerView.{sort_live}
use libpaxos_cpp.Quorum.ServerView.Entries.{
  Has, Has-insert, Has-inserted, Has-insert_other, IsCandidate, TopAt,
}

-- The servers of `D` with an id, sorted by it, and the highest of their proposal ids.
pub record Sorted (v : View) (D : ℕ → Type 0) (sorted : Map ℕ ℕ) (highest : ℤ) : Type 0 where
  pub order : Ascending sorted
  pub sound :
      (id e : ℕ)
      → Has id e sorted
      → D e × ((s : Server) × IsCandidate v e s × (s.id ≡ id) × (s.highest_proposal_id ≤ℤ highest))
  pub complete : (e : ℕ) (s : Server) → D e → IsCandidate v e s → Has s.id e sorted
  pub top : ((sorted ≡ []) × (highest ≡ negsuc 0)) ⊎ ((id e : ℕ) × TopAt v highest id e sorted)

Sorted-map :
    (v : View) (D E : ℕ → Type 0) (sorted : Map ℕ ℕ) (highest : ℤ)
    → ((e : ℕ) → D e → E e)
    → ((e : ℕ) → E e → D e)
    → Sorted v D sorted highest
    → Sorted v E sorted highest
Sorted-map v D E sorted highest to from k = record {
  order = k.order;
  sound = λ id e h. let (d, rest) = k.sound id e h in (to e d, rest);
  complete = λ e s d c. k.complete e s (from e d) c;
  top = k.top;
}

max_ℤ-above : (a b : ℤ) → (a ≤ℤ max_ℤ a b) × (b ≤ℤ max_ℤ a b)
max_ℤ-above a b = ground arith

≤ℤ_trans : (a b c : ℤ) → a ≤ℤ b → b ≤ℤ c → a ≤ℤ c
≤ℤ_trans a b c h g = ground arith

-- What the election relies on: a uuid belongs to one server, and no proposal id is below -1.
pub record IsElectable (v : View) : Type 0 where
  pub unique :
      (e f : ℕ) (s t : Server) → IsCandidate v e s → IsCandidate v f t → s.id ≡ t.id → e ≡ f
  pub from_none : (e : ℕ) (s : Server) → find e v ≡ some s → negsuc 0 ≤ℤ s.highest_proposal_id

module _ (v : View) (electable : IsElectable v) where
  open electable use {unique, from_none}

  differ : {a b : ℕ} → a ≡ b → (a == b) ≡ false → ⊥
  differ same unequal = ground arith

  -- One more server with an id.
  module _ (D : ℕ → Type 0) (sorted : Map ℕ ℕ) (highest : ℤ) (e : ℕ) (s : Server)
      (k : Sorted v D sorted highest) (c : IsCandidate v e s) where
    same_id : (f : ℕ) (t : Server) → f ≡ e → IsCandidate v f t → t.id ≡ s.id
    same_id f t one c' =
        let both : some t ≡ some s = sym c'.listed ∙ ap (λ g. find g v) one ∙ c.listed in cc

    complete :
        (f : ℕ) (t : Server) → (f ≡ e) ⊎ D f → IsCandidate v f t → Has t.id f (insert s.id e sorted)
    complete f t h c' = elim (Bool-cases (t.id == s.id)) [
      | inl equal ↦
          let same : t.id ≡ s.id = (==_iff t.id s.id).0 equal in
          let one : f ≡ e = unique f e t s c' c same in
          subst (λ i. Has i f (insert s.id e sorted)) (sym same)
            (subst (λ g. Has s.id g (insert s.id e sorted)) (sym one) (Has-inserted s.id e sorted))
      | inr unequal ↦
          let other : t.id ≢ s.id = λ same. differ same unequal in
          elim h [
            | inl one ↦ absurd (other (same_id f t one c'))
            | inr d ↦ Has-insert_other s.id e t.id f sorted (k.complete f t d c') other
          ]
    ]

    -- An entry that was there stays there.
    kept : (id f : ℕ) → Has id f sorted → Has id f (insert s.id e sorted)
    kept id f h = elim (Bool-cases (id == s.id)) [
      | inl equal ↦
          let (d, (t, c', same, low)) = k.sound id f h in
          let here : id ≡ s.id = (==_iff id s.id).0 equal in
          let one : f ≡ e = unique f e t s c' c (same ∙ here) in
          subst (λ i. Has i f (insert s.id e sorted)) (sym here)
            (subst (λ g. Has s.id g (insert s.id e sorted)) (sym one) (Has-inserted s.id e sorted))
      | inr unequal ↦ Has-insert_other s.id e id f sorted h (λ same. differ same unequal)
    ]

    new_top :
        (i : ℤ) → s.highest_proposal_id ≡ i → (id f : ℕ) × TopAt v i id f (insert s.id e sorted)
    new_top i at = (s.id, e, (Has-inserted s.id e sorted, (s, c.listed, at)))

    top :
        ((sorted ≡ []) × (highest ≡ negsuc 0)) ⊎ ((id f : ℕ) × TopAt v highest id f sorted)
        → (id f : ℕ) × TopAt v (max_ℤ highest s.highest_proposal_id) id f (insert s.id e sorted)
    top (inl (_, none_yet)) =
        new_top (max_ℤ highest s.highest_proposal_id)
          (ground (arith, none_yet, from_none e s c.listed))
    top (inr (id, f, (h, (t, found, at)))) =
        elim (Bool-cases (ltb_ℤ highest s.highest_proposal_id)) [
          | inl higher ↦ rw higher (new_top s.highest_proposal_id refl)
          | inr lower ↦ rw lower (id, f, (kept id f h, (t, found, at)))
        ]

    sort_one :
        Sorted v (λ f. (f ≡ e) ⊎ D f) (insert s.id e sorted) (max_ℤ highest s.highest_proposal_id)
    sort_one = record {
      order = insert-Ascending s.id e sorted k.order;
      sound = λ id f h. elim (Has-insert s.id e id f sorted h) [
        | inl (same, same_e) ↦ (
          inl same_e,
          (
            s,
            subst (λ g. IsCandidate v g s) (sym same_e) c,
            sym same,
            (max_ℤ-above highest s.highest_proposal_id).1,
          ),
        )
        | inr old ↦
            let (d, (t, c', same, low)) = k.sound id f old in
            (
              inr d,
              (
                t,
                c',
                same,
                ≤ℤ_trans t.highest_proposal_id highest (max_ℤ highest s.highest_proposal_id) low
                    (max_ℤ-above highest s.highest_proposal_id).0,
              ),
            )
      ];
      complete = complete;
      top = inr (top k.top);
    }

  skip_one :
      (D : ℕ → Type 0) (sorted : Map ℕ ℕ) (highest : ℤ) (e : ℕ) (s : Server)
      → Sorted v D sorted highest
      → find e v ≡ some s
      → has_id s ≡ false
      → Sorted v (λ f. (f ≡ e) ⊎ D f) sorted highest
  skip_one D sorted highest e s k at unknown = record {
    order = k.order;
    sound = λ id f h. let (d, rest) = k.sound id f h in (inr d, rest);
    complete = complete;
    top = k.top;
  }
    where
      complete : (f : ℕ) (t : Server) → (f ≡ e) ⊎ D f → IsCandidate v f t → Has t.id f sorted
      complete f t (inr d) c = k.complete f t d c
      complete f t (inl one) c =
          let both : some t ≡ some s = sym c.listed ∙ ap (λ g. find g v) one ∙ at in
          let known : has_id t ≡ true = c.identified in absurd (cc)

  pub sort_live_lem :
      (es : List ℕ) (D : ℕ → Type 0) (sorted : Map ℕ ℕ) (highest : ℤ)
      → ((e : ℕ) → In e es → (s : Server) × (find e v ≡ some s))
      → Sorted v D sorted highest
      → (m : Map ℕ ℕ) × (i : ℤ) × (sort_live v es (sorted, highest) ≡ ok (m, i))
        × Sorted v (λ f. In f es ⊎ D f) m i
  unfolding sort_live
  sort_live_lem [] D sorted highest listed k =
      (sorted, highest, refl, Sorted-map v D (λ f. ⊥ ⊎ D f) sorted highest (λ f d. inr d) none_or k)
    where
      none_or : (f : ℕ) → ⊥ ⊎ D f → D f
      none_or f (inl x) = absurd x
      none_or f (inr d) = d
  sort_live_lem (e ∷ es) D sorted highest listed k =
      let (s, at) = listed e (inl refl) in
      elim (Bool-cases (has_id s)) [
        | inl known ↦
            let (m, i, done, k') =
              sort_live_lem es (λ f. (f ≡ e) ⊎ D f) (insert s.id e sorted)
                (max_ℤ highest s.highest_proposal_id) (λ f h. listed f (inr h))
                (sort_one D sorted highest e s k (record { listed = at; identified = known })) in
            (
              m,
              i,
              rw (lookup_known e v s at, known, sort_live) done,
              Sorted-map v _ _ m i to from k',
            )
        | inr unknown ↦
            let (m, i, done, k') =
              sort_live_lem es (λ f. (f ≡ e) ⊎ D f) sorted highest (λ f h. listed f (inr h))
                (skip_one D sorted highest e s k at unknown) in
            (
              m,
              i,
              rw (lookup_known e v s at, unknown, sort_live) done,
              Sorted-map v _ _ m i to from k',
            )
      ]
    where
      to : (f : ℕ) → In f es ⊎ ((f ≡ e) ⊎ D f) → ((f ≡ e) ⊎ In f es) ⊎ D f
      to f (inl h) = inl (inr h)
      to f (inr (inl h)) = inl (inl h)
      to f (inr (inr d)) = inr d

      from : (f : ℕ) → ((f ≡ e) ⊎ In f es) ⊎ D f → In f es ⊎ ((f ≡ e) ⊎ D f)
      from f (inl (inl h)) = inr (inl h)
      from f (inl (inr h)) = inl h
      from f (inr d) = inr (inr d)
