-- ===== src/Storage/Backend.antt =====
-- durable/storage.hpp and durable/storage.cpp: the abstract class and its `accept`.
use libpaxos_cpp.Base.{
  Bytes, Map, Outcome, divides_ℤ, fault, if◌then◌else◌, ltb_ℤ, min_ℤ, ok, pos, suc, undefined, ℕ, ℤ,
  ◌&&◌, ◌-ℤ◌, ◌-◌, ◌<◌, ◌==ℤ◌, ◌>>=◌, ◌≡◌, ◌≤◌,
}
use libpaxos_cpp.Storage.Log.{Log, IsLog, highest, lowest_id, append, trim, enumerate, above}

-- The pure virtual functions, for a backend whose state is `S`.
pub record Backend (S : Type 0) : Type 0 where
  pub retrieve : S → ℤ → Outcome (Map ℤ Bytes)
  pub highest_proposal_id : S → Outcome ℤ
  pub lowest_proposal_id : S → Outcome ℤ
  pub store : S → ℤ → Bytes → Outcome S
  pub remove : S → ℤ → Outcome S

-- The object: the member of the base class beside the state of the derived class.
pub record Durable (S : Type 0) : Type 0 where
  pub history_size : ℤ
  pub state : S

-- The constructor of the base class.
abbrev pub new_durable : {S : Type 0} → S → Durable S
new_durable s = record { history_size = pos 10000; state = s }

abbrev pub set_history_size : {S : Type 0} → ℤ → Durable S → Durable S
set_history_size n d = record d { history_size = n }

module _ {S : Type 0} (b : Backend S) where
  -- Cleaning up divides by the history size, which is undefined for 0.
  unfoldable pub clean_up : Durable S → ℤ → ℤ → Outcome (Durable S)
  clean_up d proposal_id lowest =
      if divides_ℤ d.history_size proposal_id && ltb_ℤ d.history_size proposal_id
      then (b.remove d.state (min_ℤ (proposal_id -ℤ d.history_size) lowest) >>= λ s.
          ok (record d { state = s }))
      else ok d

  unfoldable pub accept : Durable S → ℤ → Bytes → ℤ → Outcome (Durable S)
  accept d proposal_id byte_array lowest = b.store d.state proposal_id byte_array >>= λ s.
      if d.history_size ==ℤ pos 0
      then fault undefined
      else clean_up (record d { state = s }) proposal_id lowest

-- The contract that both storages of the repository fulfil, over the log that their state holds. It
-- is not that of the comments in storage.hpp: `retrieve` gives all values above an id, where the
-- comment allows a part of them, and `remove p` forgets all ids below `p` and none above it, but
-- `p` itself or not, where the comment keeps `p`.
pub record IsBackend {S : Type 0} (b : Backend S) (Holds : S → Log → Type 0) : Type 0 where
  pub holds_IsLog : {s : S} {l : Log} → Holds s l → IsLog l
  pub highest-Holds : {s : S} {l : Log} → Holds s l → b.highest_proposal_id s ≡ ok (pos (highest l))
  pub lowest-Holds : {s : S} {l : Log} → Holds s l → b.lowest_proposal_id s ≡ ok (pos (lowest_id l))
  pub retrieve-Holds :
      {s : S} {l : Log} (p : ℕ)
      → Holds s l
      → l.base ≤ p
      → b.retrieve s (pos p) ≡ ok (enumerate (suc p) (above p l))
  pub store-Holds :
      {s : S} {l : Log} (v : Bytes)
      → Holds s l
      → (t : S) × (b.store s (pos (suc (highest l))) v ≡ ok t) × Holds t (append l v)
  pub remove-Holds :
      {s : S} {l : Log} (p : ℕ)
      → Holds s l
      → p < highest l
      → (t : S) × (n : ℕ) × (b.remove s (pos p) ≡ ok t)
        × (p - suc l.base ≤ n)
        × (n ≤ p - l.base)
        × Holds t (trim n l)
