-- ===== src/Storage/Log.antt =====
-- What a storage component stands for: the accepted values, by consecutive proposal ids.
use libpaxos_cpp.Base.{
  Bytes, List, Map, [], ap, arith, contains, dec_lt, drop, drop-nil, find, from_key, get_last?,
  if◌then◌else◌, insert, is_empty, length, length-append, length-drop, none, pos, refl, some, suc,
  true, ℕ, ℤ, ℤ_order, ◌++◌, ◌+◌, ◌-◌, ◌<◌, ◌∙◌, ◌∷◌, ◌≡◌, ◌≤◌,
}

-- The values of the ids `base + 1`, `base + 2`, …; older ones have been removed.
pub record Log : Type 0 where
  pub base : ℕ
  pub values : List Bytes

-- The highest proposal id of a log, 0 if it has none.
abbrev pub highest : Log → ℕ
highest l = l.base + length l.values

-- The lowest proposal id of a log, 0 if it has none.
abbrev pub lowest_id : Log → ℕ
lowest_id l = if is_empty l.values then 0 else suc l.base

-- Only the empty log of a new storage holds no value.
pub record IsLog (l : Log) : Type 0 where
  pub rooted : length l.values ≡ 0 → l.base ≡ 0

abbrev pub append : Log → Bytes → Log
append l v = record l { values = l.values ++ v ∷ [] }

-- Forget the `n` oldest values.
abbrev pub trim : ℕ → Log → Log
trim n l = record { base = l.base + n; values = drop n l.values }

-- The entries of `std::map <int64_t, std::string>` for values that begin at id `n`.
abbrev pub enumerate : ℕ → List Bytes → Map ℤ Bytes
enumerate n [] = []
enumerate n (v ∷ vs) = (pos n, v) ∷ enumerate (suc n) vs

-- The values of a log with an id above `p`.
abbrev pub above : ℕ → Log → List Bytes
above p l = drop (p - l.base) l.values

pub enumerate-append :
    (n : ℕ) (vs ws : List Bytes)
    → enumerate n (vs ++ ws) ≡ enumerate n vs ++ enumerate (n + length vs) ws
enumerate-append n [] ws = ap (λ k. enumerate k ws) (omega arith)
enumerate-append n (v ∷ vs) ws =
    ap (λ m. (pos n, v) ∷ m)
      (enumerate-append (suc n) vs ws
        ∙ ap (λ k. enumerate (suc n) vs ++ enumerate k ws) (omega arith))

-- Assigning past the last id appends.
pub insert-enumerate :
    (n : ℕ) (vs : List Bytes) (k : ℕ) (v : Bytes)
    → k ≡ n + length vs
    → insert (pos k) v (enumerate n vs) ≡ enumerate n (vs ++ v ∷ [])
insert-enumerate n [] k v e = ground arith
insert-enumerate n (w ∷ vs) k v e = ground (arith, insert-enumerate (suc n) vs k v)

pub find-enumerate_above :
    (n : ℕ) (vs : List Bytes) (k : ℕ) → n + length vs ≤ k → find (pos k) (enumerate n vs) ≡ none
find-enumerate_above n [] k h = refl
find-enumerate_above n (v ∷ vs) k h = ground (arith, find-enumerate_above (suc n) vs k)

pub find-enumerate_below :
    (n : ℕ) (vs : List Bytes) (k : ℕ) → k < n → find (pos k) (enumerate n vs) ≡ none
find-enumerate_below n [] k h = refl
find-enumerate_below n (v ∷ vs) k h = ground arith

pub contains-enumerate :
    (n : ℕ) (vs : List Bytes) (k : ℕ)
    → n ≤ k
    → k < n + length vs
    → contains (pos k) (enumerate n vs) ≡ true
contains-enumerate n [] k h g = absurd (omega arith)
contains-enumerate n (v ∷ vs) k h g = ground (arith, contains-enumerate (suc n) vs k)

pub from_key-enumerate :
    (n : ℕ) (vs : List Bytes) (k : ℕ)
    → n ≤ k
    → from_key (pos k) (enumerate n vs) ≡ enumerate k (drop (k - n) vs)
from_key-enumerate n [] k h = rw drop-nil
from_key-enumerate n (v ∷ vs) k h = elim (dec_lt n k) [
  | yes more ↦
      let e : k - n ≡ suc (k - suc n) = omega arith in
      rw e (ground (arith, from_key-enumerate (suc n) vs k more))
  | no here ↦ let e : k - n ≡ 0 = omega arith in rw e (ground arith)
]

pub from_key-enumerate_below :
    (n : ℕ) (vs : List Bytes) (k : ℕ) → k < n → from_key (pos k) (enumerate n vs) ≡ []
from_key-enumerate_below n [] k h = refl
from_key-enumerate_below n (v ∷ vs) k h = ground arith

pub get_last?-enumerate :
    (n : ℕ) (v : Bytes) (vs : List Bytes)
    → (w : Bytes) × (get_last? (enumerate n (v ∷ vs)) ≡ some (pos (n + length vs), w))
get_last?-enumerate n v [] = (v, ground arith)
get_last?-enumerate n v (u ∷ vs) =
    let (w, e) = get_last?-enumerate (suc n) u vs in (w, ground arith)

pub append-IsLog : (l : Log) (v : Bytes) → IsLog (append l v)
append-IsLog l v = record { rooted = λ e. absurd (omega (arith, length-append l.values (v ∷ []))) }

pub trim-IsLog : (n : ℕ) (l : Log) → n < length l.values → IsLog (trim n l)
trim-IsLog n l h = record { rooted = λ e. absurd (omega (arith, length-drop n l.values)) }

pub highest-append : (l : Log) (v : Bytes) → highest (append l v) ≡ suc (highest l)
highest-append l v = omega (arith, length-append l.values (v ∷ []))

pub highest-trim : (n : ℕ) (l : Log) → n ≤ length l.values → highest (trim n l) ≡ highest l
highest-trim n l h = omega (arith, length-drop n l.values)

pub trim-zero : (l : Log) → trim 0 l ≡ l
trim-zero l = ground arith
