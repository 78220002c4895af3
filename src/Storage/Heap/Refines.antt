-- ===== src/Storage/Heap/Refines.antt =====
-- The heap storage holds a log, and fulfils IsBackend.
use libpaxos_cpp.Base.{
  ==ℤ_refl, Bytes, List, [], ap, arith, contains, dec_lt, drop, drop_one, erase, false,
  if◌then◌else◌, insert, is_empty, length, length-drop, ok, pos, refl, suc, true, ℕ, ℤ_order, ◌+◌,
  ◌-◌, ◌<◌, ◌∙◌, ◌∷◌, ◌≡◌, ◌≢◌, ◌≤◌,
}
use libpaxos_cpp.Storage.Log.{
  Log, IsLog, highest, lowest_id, append, trim, enumerate, above, insert-enumerate,
  contains-enumerate, find-enumerate_below, from_key-enumerate, get_last?-enumerate, append-IsLog,
  trim-IsLog,
}
use libpaxos_cpp.Storage.Backend.{IsBackend}
use libpaxos_cpp.Storage.Heap.{
  Heap, heap, retrieve, highest_proposal_id, lowest_proposal_id, store, erase_up_to, remove,
}

-- The map of a heap holds exactly the entries of the log.
pub record Holds (h : Heap) (l : Log) : Type 0 where
  pub is_log : IsLog l
  pub entries : h ≡ enumerate (suc l.base) l.values

highest_of :
    (n : ℕ) (vs : List Bytes)
    → (length vs ≡ 0 → n ≡ 0)
    → highest_proposal_id (enumerate (suc n) vs) ≡ pos (n + length vs)
unfolding highest_proposal_id
highest_of n [] h = ground arith
highest_of n (v ∷ vs) h = let (w, e) = get_last?-enumerate (suc n) v vs in ground arith

highest-Holds : {h : Heap} {l : Log} → Holds h l → highest_proposal_id h ≡ pos (highest l)
highest-Holds {h} {l} k = rw k.entries (highest_of l.base l.values k.is_log.rooted)

retrieve-Holds :
    {h : Heap} {l : Log} (p : ℕ)
    → Holds h l
    → l.base ≤ p
    → retrieve h (pos p) ≡ enumerate (suc p) (above p l)
unfolding retrieve
retrieve-Holds {h} {l} p k b =
    rw (k.entries, from_key-enumerate (suc l.base) l.values (suc p) (omega arith))
      (ap (λ n. enumerate (suc p) (drop n l.values)) (omega arith))

pub store-Holds :
    {h : Heap} {l : Log} (v : Bytes)
    → Holds h l
    → (t : Heap) × (store h (pos (suc (highest l))) v ≡ ok t) × Holds t (append l v)
unfolding store
store-Holds {h} {l} v k = (
  insert (pos (suc (highest l))) v h,
  ground (arith, highest-Holds k, ==ℤ_refl (pos (suc (highest l)))),
  record {
    is_log = append-IsLog l v;
    entries = rw k.entries (insert-enumerate (suc l.base) l.values _ v (omega arith));
  },
)

-- Dropping all entries up to an id of the log.
erase-enumerate :
    (p : ℕ) (vs : List Bytes) → erase (pos p) (enumerate p vs) ≡ enumerate (suc p) (drop 1 vs)
erase-enumerate p [] = refl
erase-enumerate p (v ∷ vs) = ground arith

erase_up_to_lem :
    (h : Heap) (l : Log) (p : ℕ)
    → Holds h l
    → l.base < p
    → erase_up_to h (pos p) ≡ enumerate (suc p) (drop (p - l.base) l.values)
unfolding erase_up_to
erase_up_to_lem h l p k b =
    rw (k.entries, from_key-enumerate (suc l.base) l.values p b, erase-enumerate p, drop_one)
      (ap (λ n. enumerate (suc p) (drop n l.values)) {x = suc (p - suc l.base)} (omega arith))

lowest_of : (n : ℕ) (vs : List Bytes) → length vs ≢ 0 → lowest_proposal_id (enumerate n vs) ≡ pos n
unfolding lowest_proposal_id
lowest_of n [] h = absurd (h refl)
lowest_of n (v ∷ vs) h = refl

first_id :
    (n : ℕ) (vs : List Bytes)
    → lowest_proposal_id (enumerate (suc n) vs) ≡ pos (if is_empty vs then 0 else suc n)
unfolding lowest_proposal_id
first_id n [] = refl
first_id n (v ∷ vs) = refl

lowest-Holds : {h : Heap} {l : Log} → Holds h l → lowest_proposal_id h ≡ pos (lowest_id l)
lowest-Holds {h} {l} k = rw k.entries (first_id l.base l.values)

remove_present :
    {h : Heap} {l : Log} (p : ℕ)
    → Holds h l
    → l.base < p
    → p < highest l
    → remove h (pos p) ≡ ok (erase_up_to h (pos p))
unfolding remove
remove_present {h} {l} p k b t =
    let there : contains (pos p) h ≡ true =
      rw k.entries (contains-enumerate (suc l.base) l.values p b (omega arith)) in
    let first : lowest_proposal_id (erase_up_to h (pos p)) ≡ pos (suc p) =
      rw (erase_up_to_lem h l p k b)
        (lowest_of (suc p) _ (omega (arith, length-drop (p - l.base) l.values))) in
    ground (arith, there, first)

remove_missing : {h : Heap} {l : Log} (p : ℕ) → Holds h l → p ≤ l.base → remove h (pos p) ≡ ok h
unfolding remove
remove_missing {h} {l} p k b =
    let gone : contains (pos p) h ≡ false =
      rw (k.entries, find-enumerate_below (suc l.base) l.values p (omega arith)) in
    ground (arith, gone)

-- Removing an id below the highest one from a heap that holds a log succeeds and forgets exactly
-- the entries up to that id.
pub remove-Holds :
    {h : Heap} {l : Log} (p : ℕ)
    → Holds h l
    → p < highest l
    → (t : Heap) × (remove h (pos p) ≡ ok t) × Holds t (trim (p - l.base) l)
remove-Holds {h} {l} p k b = elim (dec_lt l.base p) [
  | yes above_base ↦ (
    erase_up_to h (pos p),
    remove_present p k above_base b,
    record {
      is_log = trim-IsLog (p - l.base) l (omega arith);
      entries =
          erase_up_to_lem h l p k above_base
          ∙ ap (λ n. enumerate n (drop (p - l.base) l.values)) (omega arith);
    },
  )
  | no below ↦
      let e : p - l.base ≡ 0 = omega arith in
      (
        h,
        remove_missing p k (omega arith),
        rw e (record {
          is_log = record { rooted = λ z. omega (arith, k.is_log.rooted z) };
          entries = k.entries ∙ ap (λ n. enumerate n l.values) (omega arith);
        }),
      )
]

-- The heap fulfils IsBackend over the log that its map spells out: the highest and the lowest id,
-- 0 if there is none; all that is retrieved above an id that no removed one is above; storing the
-- next id; and removing an id below the highest, which forgets all ids below it, none above it,
-- and, other than storage.hpp says, maybe that id too.
pub heap-IsBackend : IsBackend heap Holds
heap-IsBackend = record {
  holds_IsLog = λ k. k.is_log;
  highest-Holds = λ k. ap ok (highest-Holds k);
  lowest-Holds = λ k. ap ok (lowest-Holds k);
  retrieve-Holds = λ p k b. ap ok (retrieve-Holds p k b);
  store-Holds = store-Holds;
  remove-Holds = λ {s} {l} p k b.
      let (t, e, k') = remove-Holds p k b in (t, p - l.base, e, omega arith, omega arith, k');
}
