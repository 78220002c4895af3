-- ===== src/Quorum/View/Follows.antt =====
-- A view that lists the same servers as another, under the same endpoints.
use libpaxos_cpp.Base.{
  ==_iff, Bool-cases, ap, find, find-insert, inl, inr, insert, refl, some, sym, ℕ, ℕ_order, ◌==◌,
  ◌∙◌, ◌≡◌,
}
use libpaxos_cpp.Quorum.Server.{Server}
use libpaxos_cpp.Quorum.View.{View}
use libpaxos_cpp.Quorum.View.Live.{
  attempt, attempt_all, attempt-endpoint, find-attempt_all, attempted, attempted-some,
}

pub record Follows (v w : View) : Type 0 where
  pub before :
      (e : ℕ) (t : Server)
      → find e w ≡ some t
      → (s : Server) × (find e v ≡ some s) × (t.endpoint ≡ s.endpoint)
  pub after : (e : ℕ) (s : Server) → find e v ≡ some s → (t : Server) × (find e w ≡ some t)

pub self-Follows : (v : View) → Follows v v
self-Follows v = record { before = λ e t h. (t, h, refl); after = λ e s h. (s, h) }

pub Follows-trans : {u v w : View} → Follows u v → Follows v w → Follows u w
Follows-trans f g = record {
  before = λ e t h.
      let (s, at, same) = g.before e t h in
      let (r, at', same') = f.before e s at in (r, at', same ∙ same');
  after = λ e r h. let (s, at) = f.after e r h in g.after e s at;
}

pub attempt_all-Follows : (now : ℕ) (v : View) → Follows v (attempt_all now v)
attempt_all-Follows now v = record {
  before = λ e t h.
      let (s, at, same) = attempted-some now (find e v) t (sym (find-attempt_all now e v) ∙ h) in
      (s, at, ap (λ u. u.endpoint) (sym same) ∙ attempt-endpoint now s);
  after = λ e s h. (attempt now s, find-attempt_all now e v ∙ ap (attempted now) h);
}

pub insert-Follows :
    (e : ℕ) (s t : Server) (v : View)
    → find e v ≡ some s
    → t.endpoint ≡ s.endpoint
    → Follows v (insert e t v)
insert-Follows e s t v at same = record {
  before = λ f u h. elim (Bool-cases (e == f)) [
    | inl here ↦
        let e_f : e ≡ f = (==_iff e f).0 here in
        let one : some t ≡ some u = sym (find-insert e f t v ∙ (rw here refl)) ∙ h in
        let u_t : t ≡ u = cc in
        (s, ap (λ k. find k v) (sym e_f) ∙ at, ap (λ u. u.endpoint) (sym u_t) ∙ same)
    | inr there ↦ (u, sym (find-insert e f t v ∙ (rw there refl)) ∙ h, refl)
  ];
  after = λ f u h. elim (Bool-cases (e == f)) [
    | inl here ↦ (t, find-insert e f t v ∙ (rw here refl))
    | inr there ↦ (u, find-insert e f t v ∙ (rw there h))
  ];
}
