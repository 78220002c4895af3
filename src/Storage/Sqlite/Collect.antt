-- ===== src/Storage/Sqlite/Collect.antt =====
-- What `retrieve` collects does not depend on the order of the rows.
use libpaxos_cpp.Base.{
  Bool, Bytes, List, [], ap, ap₂, arith, dec_lt, drop, drop-nil, false, if◌then◌else◌, is_empty,
  leb, length, length-append, negsuc, ok, pos, refl, subst, suc, sym, true, ℕ, ℤ, ℤ_order, ◌++◌,
  ◌+◌, ◌-◌, ◌<◌, ◌∙◌, ◌∷◌, ◌≡◌, ◌≢◌, ◌≤◌,
}
use mathlib.Core.List.{append-nil, append_assoc}
use libpaxos_cpp.Storage.Log.{enumerate}
use libpaxos_cpp.Storage.Sqlite.{append_to, collect}
use libpaxos_cpp.Storage.Sqlite.Sql.{Statement}
use libpaxos_cpp.Sql.{Engine, Rows}
use libpaxos_cpp.Storage.Sqlite.Laws.{
  Table, select_where, max_id, min_id, IsFresh, Shuffle, none_left, next, Shows,
}

append_all : Table → Table → Table
append_all [] m = m
append_all ((id, b) ∷ rs) m = append_all rs (append_to id b m)

append_to_comm :
    (i j : ℕ) (b c : Bytes) (m : Table)
    → i ≢ j
    → append_to (pos i) b (append_to (pos j) c m) ≡ append_to (pos j) c (append_to (pos i) b m)
unfolding append_to
append_to_comm i j b c [] h = ground arith
append_to_comm i j b c ((pos k, v) ∷ m) h = ground (arith, append_to_comm i j b c m h)
append_to_comm i j b c ((negsuc k, v) ∷ m) h = ground (arith, append_to_comm i j b c m h)

-- All ids of the rows are natural, and differ from this one.
abbrev Differ : ℕ → Table → Type 0
Differ i [] = Unit {0}
Differ i ((j, b) ∷ t) = ((k : ℕ) × (j ≡ pos k) × (i ≢ k)) × Differ i t

Differ-append : (i : ℕ) (xs ys : Table) → Differ i (xs ++ ys) → Differ i xs × Differ i ys
Differ-append i [] ys d = (tt, d)
Differ-append i ((j, b) ∷ xs) ys (h, d) = let (l, r) = Differ-append i xs ys d in ((h, l), r)

Differ-insert :
    (i : ℕ) (xs ys : Table) (id : ℤ) (b : Bytes)
    → Differ i (xs ++ ys)
    → (k : ℕ) × (id ≡ pos k) × (i ≢ k)
    → Differ i (xs ++ (id, b) ∷ ys)
Differ-insert i [] ys id b d h = (h, d)
Differ-insert i ((j, c) ∷ xs) ys id b (g, d) h = (g, Differ-insert i xs ys id b d h)

-- Rows in any order are as different as in order.
Shuffle-Differ : (i : ℕ) {rs l : Table} → Shuffle rs l → Differ i l → Differ i rs
Shuffle-Differ i none_left d = tt
Shuffle-Differ i (next xs ys id b e s) (h, d) =
    subst (Differ i) (sym e) (Differ-insert i xs ys id b (Shuffle-Differ i s d) h)

-- A row can be appended first.
append_all-middle :
    (i : ℕ) (b : Bytes) (xs ys : Table) (m : Table)
    → Differ i xs
    → append_all (xs ++ (pos i, b) ∷ ys) m ≡ append_all (xs ++ ys) (append_to (pos i) b m)
unfolding append_all
append_all-middle i b [] ys m d = refl
append_all-middle i b ((j, c) ∷ xs) ys m ((k, e, differ), d) =
    append_all-middle i b xs ys (append_to j c m) d
    ∙ ap (append_all (xs ++ ys)) (
        ap (λ z. append_to (pos i) b (append_to z c m)) e
        ∙ append_to_comm i k b c m differ
        ∙ ap (λ z. append_to z c (append_to (pos i) b m)) (sym e))

-- The rows are those of consecutive ids.
Differ-enumerate : (i n : ℕ) (vs : List Bytes) → i < n → Differ i (enumerate n vs)
Differ-enumerate i n [] h = tt
Differ-enumerate i n (v ∷ vs) h =
    ((n, refl, λ e. omega (arith, e)), Differ-enumerate i (suc n) vs (omega arith))

append_all-Shuffle :
    (n : ℕ) (vs : List Bytes) {rs l : Table} (m : Table)
    → Shuffle rs l
    → l ≡ enumerate n vs
    → append_all rs m ≡ append_all (enumerate n vs) m
unfolding append_all
append_all-Shuffle n [] m none_left e = refl
append_all-Shuffle n (v ∷ vs) m none_left e = cc
append_all-Shuffle n [] m (next xs ys id b same s) e = cc
append_all-Shuffle n (v ∷ vs) {rs} m (next xs ys id b {l = l} same s) e =
    let first : id ≡ pos n = cc in
    let value : b ≡ v = cc in
    let rest : l ≡ enumerate (suc n) vs = cc in
    let apart : Differ n xs =
      (Differ-append n xs ys (
        Shuffle-Differ n s
          (subst (Differ n) (sym rest) (Differ-enumerate n (suc n) vs (omega arith))))).0 in
    ap (λ r. append_all r m) same
    ∙ ap₂ (λ i c. append_all (xs ++ (i, c) ∷ ys) m) first value
    ∙ append_all-middle n v xs ys m apart
    ∙ append_all-Shuffle (suc n) vs (append_to (pos n) v m) s rest

-- Appending after the last id.
append_to-enumerate :
    (n k : ℕ) (vs : List Bytes) (v : Bytes)
    → k ≡ n + length vs
    → append_to (pos k) v (enumerate n vs) ≡ enumerate n (vs ++ v ∷ [])
unfolding append_to
append_to-enumerate n k [] v e = ground arith
append_to-enumerate n k (w ∷ vs) v e = ground (arith, append_to-enumerate (suc n) k vs v)

append_all-enumerate :
    (n k : ℕ) (us vs : List Bytes)
    → k ≡ n + length us
    → append_all (enumerate k vs) (enumerate n us) ≡ enumerate n (us ++ vs)
unfolding append_all
append_all-enumerate n k us [] e = ap (enumerate n) (sym (append-nil us))
append_all-enumerate n k us (v ∷ vs) e =
    ap (append_all (enumerate (suc k) vs)) (append_to-enumerate n k us v e)
    ∙ append_all-enumerate n (suc k) (us ++ v ∷ []) vs (omega (arith, length-append us (v ∷ [])))
    ∙ ap (enumerate n) (append_assoc us (v ∷ []) vs)

collect_lem :
    (e : Engine Statement) (rows : Rows e.Column) (t m : Table)
    → Shows e rows t
    → collect e rows m ≡ ok (append_all t m)
unfolding collect append_all
collect_lem e [] [] m s = refl
collect_lem e [] ((id, b) ∷ t) m s = absurd s
collect_lem e (row ∷ rows) [] m s = absurd s
collect_lem e (row ∷ rows) ((id, b) ∷ t) m ((c, d, same, at, holds), s) =
    ap (λ r. collect e (r ∷ rows) m) same
    ∙ collect_lem e rows t (append_to (e.column_int64 c) (e.column_blob d) m) s
    ∙ ap₂ (λ i x. ok (append_all t (append_to i x m))) at holds

-- Rows of consecutive ids in any order are collected in order.
pub collect-enumerate :
    (e : Engine Statement) (rows : Rows e.Column) (n : ℕ) (vs : List Bytes) {shown : Table}
    → Shows e rows shown
    → Shuffle shown (enumerate n vs)
    → collect e rows [] ≡ ok (enumerate n vs)
collect-enumerate e rows n vs {shown} s any =
    collect_lem e rows shown [] s
    ∙ ap ok (append_all-Shuffle n vs [] any refl ∙ append_all-enumerate n n [] vs (omega arith))

pub select_where-enumerate :
    (test : ℤ → Bool) (p n : ℕ) (vs : List Bytes)
    → ((k : ℕ) → test (pos k) ≡ leb p k)
    → select_where test (enumerate n vs) ≡ enumerate (n + (p - n)) (drop (p - n) vs)
select_where-enumerate test p n [] h = rw drop-nil
select_where-enumerate test p n (v ∷ vs) h = elim (dec_lt n p) [
  | yes low ↦
      let out : test (pos n) ≡ false = h n ∙ ground arith in
      let step : p - n ≡ suc (p - suc n) = omega arith in
      rw (out, step)
        (select_where-enumerate test p (suc n) vs h
          ∙ ap (λ k. enumerate k (drop (p - suc n) vs)) (omega arith))
  | no high ↦
      let here : test (pos n) ≡ true = h n ∙ ground arith in
      let none_out : p - n ≡ 0 = omega arith in
      let first : suc n + (p - suc n) ≡ suc n = omega arith in
      let whole : p - suc n ≡ 0 = omega arith in
      let rest : select_where test (enumerate (suc n) vs) ≡ enumerate (suc n) vs =
        select_where-enumerate test p (suc n) vs h
        ∙ ap₂ (λ k d. enumerate k (drop d vs)) first whole in
      rw (here, none_out, rest) (ap (λ k. enumerate k (v ∷ vs)) (omega arith))
]

pub max_id-enumerate :
    (n : ℕ) (v : Bytes) (vs : List Bytes) → max_id (enumerate n (v ∷ vs)) ≡ pos (n + length vs)
max_id-enumerate n v [] = ground arith
max_id-enumerate n v (w ∷ vs) = ground (arith, max_id-enumerate (suc n) w vs)

first_id : (n : ℕ) (v : Bytes) (vs : List Bytes) → min_id (enumerate n (v ∷ vs)) ≡ pos n
first_id n v [] = refl
first_id n v (w ∷ vs) = ground (arith, first_id (suc n) w vs)

pub min_id-enumerate :
    (n : ℕ) (vs : List Bytes)
    → min_id (enumerate (suc n) vs) ≡ pos (if is_empty vs then 0 else suc n)
min_id-enumerate n [] = refl
min_id-enumerate n (v ∷ vs) = first_id (suc n) v vs

pub IsFresh-enumerate :
    (k n : ℕ) (vs : List Bytes) → n + length vs ≤ k → IsFresh (pos k) (enumerate n vs)
IsFresh-enumerate k n [] h = tt
IsFresh-enumerate k n (v ∷ vs) h =
    ((λ e. absurd (clash e)), IsFresh-enumerate k (suc n) vs (omega arith))
  where
    clash : pos k ≡ pos n → ⊥
    clash e = let same : k ≡ n = cc in omega arith
