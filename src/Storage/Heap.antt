-- ===== src/Storage/Heap.antt =====
-- durable/heap.hpp and durable/heap.cpp: the storage that lives in memory.
pub mod Refines
use libpaxos_cpp.Base.{
  Bytes, Map, Outcome, assert, contains, erase, from_key, get_last?, head?, if◌then◌else◌, insert,
  leb_ℤ, none, ok, pos, some, suc_ℤ, ℤ, ℤ_order, ◌==ℤ◌, ◌>>◌,
}
use libpaxos_cpp.Storage.Backend.{Backend}

abbrev pub Heap : Type 0
Heap = Map ℤ Bytes

unfoldable pub retrieve : Heap → ℤ → Map ℤ Bytes
retrieve h proposal_id = from_key (suc_ℤ proposal_id) h

unfoldable pub highest_proposal_id : Heap → ℤ
highest_proposal_id h = elim (get_last? h) [ none ↦ pos 0 | some (k, v) ↦ k ]

unfoldable pub lowest_proposal_id : Heap → ℤ
lowest_proposal_id h = elim (head? h) [ none ↦ pos 0 | some (k, v) ↦ k ]

unfoldable pub store : Heap → ℤ → Bytes → Outcome Heap
store h proposal_id byte_array = do
  assert (proposal_id ==ℤ suc_ℤ (highest_proposal_id h))
  ok (insert proposal_id byte_array h)

-- The two erasures: all before the id, and the id itself.
unfoldable pub erase_up_to : Heap → ℤ → Heap
erase_up_to h proposal_id = erase proposal_id (from_key proposal_id h)

unfoldable pub remove : Heap → ℤ → Outcome Heap
remove h proposal_id = do
  assert (leb_ℤ (pos 0) proposal_id)
  if contains proposal_id h
      then (assert (lowest_proposal_id (erase_up_to h proposal_id) ==ℤ suc_ℤ proposal_id)
          >> ok (erase_up_to h proposal_id))
      else ok h

abbrev pub heap : Backend Heap
heap = record {
  retrieve = λ h p. ok (retrieve h p);
  highest_proposal_id = λ h. ok (highest_proposal_id h);
  lowest_proposal_id = λ h. ok (lowest_proposal_id h);
  store = store;
  remove = remove;
}
