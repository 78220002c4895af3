-- ===== src/Quorum/View/Laws.antt =====
-- What the operations on a view do to the servers in it.
use libpaxos_cpp.Base.{
  ==_iff, Bool-cases, ap, find, find-insert, inl, inr, insert, ok, refl, some, sym, ℕ, ℕ_order,
  ◌==◌, ◌∙◌, ◌≡◌,
}
use libpaxos_cpp.Quorum.Server.{Server}
use libpaxos_cpp.Quorum.View.{View, lookup_server, modify_server}

pub modify_known :
    (e : ℕ) (f : Server → Server) (v : View) (s : Server)
    → find e v ≡ some s
    → modify_server e f v ≡ ok (insert e (f s) v)
unfolding modify_server lookup_server
modify_known e f v s h = rw (h, lookup_server)

-- A server that is known stays known when an entry is written.
pub known-insert :
    (e j : ℕ) (t : Server) (v : View) {s : Server}
    → find j v ≡ some s
    → (s' : Server) × (find j (insert e t v) ≡ some s')
known-insert e j t v {s} h = elim (Bool-cases (e == j)) [
  | inl here ↦ (t, find-insert e j t v ∙ (rw here))
  | inr there ↦ (s, find-insert e j t v ∙ (rw there h))
]

some_inj : {s t : Server} → some s ≡ some t → s ≡ t
some_inj h = cc

-- Writing to a server leaves the endpoints of all.
pub told_insert :
    (e j : ℕ) (f : Server → Server) (t : Server) (v : View) {s : Server}
    → ((u : Server) → (f u).endpoint ≡ u.endpoint)
    → find e v ≡ some t
    → find j v ≡ some s
    → (s' : Server) × (find j (insert e (f t) v) ≡ some s') × (s'.endpoint ≡ s.endpoint)
told_insert e j f t v {s} keep at h = elim (Bool-cases (e == j)) [
  | inl here ↦
      let same : e ≡ j = (==_iff e j).0 here in
      let one : t ≡ s = some_inj (sym at ∙ ap (λ k. find k v) same ∙ h) in
      (f t, find-insert e j (f t) v ∙ (rw here refl), keep t ∙ ap (λ u. u.endpoint) one)
  | inr there ↦ (s, find-insert e j (f t) v ∙ (rw there h), refl)
]

pub lookup_known : (e : ℕ) (v : View) (s : Server) → find e v ≡ some s → lookup_server e v ≡ ok s
unfolding lookup_server
lookup_known e v s h = rw (h, lookup_server)
