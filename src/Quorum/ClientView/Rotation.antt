-- ===== src/Quorum/ClientView/Rotation.antt =====
-- Advancing the leader goes round the live servers.
use native.Mathlib.Nat.{mod-lt, mod-eq_of_lt, mod_self, mod-add-mod}
use libpaxos_cpp.Base.{
  ==_refl, IsRising, List, Outcome, Rising, [], ap, arith, dec_lt, drop, drop_one, false, get_elem?,
  head?, if◌then◌else◌, is_empty, length, ok, refl, some, suc, sym, true, zero, ℕ, ◌%◌, ◌+◌, ◌<◌,
  ◌==◌, ◌>>=◌, ◌∙◌, ◌∷◌, ◌≡◌, ◌≤◌,
}
use libpaxos_cpp.Quorum.ClientView.{ClientView, find_from, position, step_on, advance_among}

get_elem?-Rising : (n i : ℕ) (es : List ℕ) (e : ℕ) → Rising n es → get_elem? es i ≡ some e → n < e
get_elem?-Rising n i [] e r h = cc
get_elem?-Rising n zero (f ∷ es) e r h = ground arith
get_elem?-Rising n (suc i) (f ∷ es) e r h = omega (arith, get_elem?-Rising f i es e r.1 h)

Rising-IsRising : (n : ℕ) (es : List ℕ) → Rising n es → IsRising es
Rising-IsRising n [] r = tt
Rising-IsRising n (e ∷ es) r = r.1

find_from_lem :
    (i : ℕ) (es : List ℕ) (e : ℕ)
    → IsRising es
    → get_elem? es i ≡ some e
    → find_from es e ≡ drop i es
unfolding find_from
find_from_lem i [] e r h = cc
find_from_lem zero (f ∷ es) e r h = ground arith
find_from_lem (suc i) (f ∷ es) e r h =
    ground (arith, get_elem?-Rising f i es e r, find_from_lem i es e (Rising-IsRising f es r))

-- The place after `i` among `n`, and the first after the last.
abbrev pub after : ℕ → ℕ → ℕ
after n i = if suc i == n then 0 else suc i

drop_past : (i : ℕ) (es : List ℕ) → length es ≤ i → drop i es ≡ []
drop_past zero [] h = refl
drop_past (suc i) [] h = refl
drop_past zero (e ∷ es) h = absurd (omega arith)
drop_past (suc i) (e ∷ es) h = drop_past i es (omega arith)

drop_at : (i : ℕ) (es : List ℕ) (e : ℕ) → get_elem? es i ≡ some e → drop i es ≡ e ∷ drop (suc i) es
drop_at i [] e h = cc
drop_at zero (f ∷ es) e h = ground arith
drop_at (suc i) (f ∷ es) e h = drop_at i es e h

pub get_elem?_within : (i : ℕ) (es : List ℕ) → i < length es → (e : ℕ) × (get_elem? es i ≡ some e)
get_elem?_within i [] h = absurd (omega arith)
get_elem?_within zero (e ∷ es) h = (e, refl)
get_elem?_within (suc i) (e ∷ es) h = get_elem?_within i es (omega arith)

head?-get_elem? : (es : List ℕ) → head? es ≡ get_elem? es 0
head?-get_elem? [] = refl
head?-get_elem? (e ∷ es) = refl

step_on_lem :
    (i : ℕ) (es : List ℕ)
    → i < length es
    → step_on es (drop i es) ≡ get_elem? es (after (length es) i)
step_on_lem i es h = elim (dec_lt (suc i) (length es)) [
  | yes more ↦
      let (f, there) = get_elem?_within (suc i) es more in
      let next : drop 1 (drop i es) ≡ f ∷ drop (suc (suc i)) es =
        drop_one i es ∙ drop_at (suc i) es f there in
      let go_on : (suc i == length es) ≡ false = ground arith in
      rw (next, step_on, go_on) (sym there)
  | no last ↦
      let over : drop 1 (drop i es) ≡ [] = drop_one i es ∙ drop_past (suc i) es (omega arith) in
      let wrap : (suc i == length es) ≡ true = ground arith in
      rw (over, step_on, wrap) (head?-get_elem? es)
]

-- One advance goes from a live server to the next one, and from the last to the first.
pub advance_once :
    (es : List ℕ) (i e : ℕ) (q : ClientView)
    → IsRising es
    → get_elem? es i ≡ some e
    → i < length es
    → q.next_leader ≡ some e
    → advance_among es q ≡ ok (record q { next_leader = get_elem? es (after (length es) i) })
unfolding advance_among
advance_once es i e q r at h next =
    let from : find_from es e ≡ e ∷ drop (suc i) es =
      find_from_lem i es e r at ∙ drop_at i es e at in
    let here : drop i es ≡ e ∷ drop (suc i) es = drop_at i es e at in
    let place : position es q.next_leader ≡ drop i es = rw (next, position, from) (sym here) in
    let some_live : is_empty es ≡ false = nonempty es i h in
    rw (some_live, place, here) (rw (← here, step_on_lem i es h))
  where
    nonempty : (es : List ℕ) (i : ℕ) → i < length es → is_empty es ≡ false
    nonempty [] i h = absurd (omega arith)
    nonempty (x ∷ es) i h = refl

-- Advancing `k` times.
pub advance_times : ℕ → List ℕ → ClientView → Outcome ClientView
advance_times zero es q = ok q
advance_times (suc k) es q = advance_among es q >>= λ q. advance_times k es q

pub after-mod : (n i : ℕ) → i < n → after n i ≡ suc i % n
after-mod n i h = elim (dec_lt (suc i) n) [
  | yes more ↦ let e : (suc i == n) ≡ false = ground arith in rw e (sym (mod-eq_of_lt more))
  | no last ↦ let e : suc i ≡ n = omega arith in rw (e, ==_refl n) (sym (mod_self n))
]

-- Among live servers that stay the same, the leader that is tried after k advances is the one k
-- places further, counted round.
pub advance_times-rotates :
    (k : ℕ) (es : List ℕ) (i : ℕ) (q : ClientView)
    → IsRising es
    → i < length es
    → q.next_leader ≡ get_elem? es i
    → advance_times k es q ≡ ok (record q { next_leader = get_elem? es ((i + k) % length es) })
unfolding advance_times
advance_times-rotates zero es i q r h next =
    let same : (i + 0) % length es ≡ i =
      ap (λ n. n % length es) {x = i + 0} {y = i} (omega arith) ∙ mod-eq_of_lt h in
    ap (λ n. ok (record q { next_leader = n })) (next ∙ ap (get_elem? es) (sym same))
advance_times-rotates (suc k) es i q r h next =
    let (e, at) = get_elem?_within i es h in
    let j : ℕ = suc i % length es in
    let once : advance_among es q ≡ ok (record q { next_leader = get_elem? es j }) =
      advance_once es i e q r at h (next ∙ at)
      ∙ ap (λ n. ok (record q { next_leader = get_elem? es n })) (after-mod (length es) i h) in
    let turn : (j + k) % length es ≡ (i + suc k) % length es =
      mod-add-mod (suc i) (length es) k
      ∙ ap (λ n. n % length es) {x = suc i + k} {y = i + suc k} (omega arith) in
    rw (once) (
      advance_times-rotates k es j (record q { next_leader = get_elem? es j }) r
        (mod-lt (suc i) (omega arith)) refl
      ∙ ap (λ n. ok (record q { next_leader = get_elem? es n })) turn)
