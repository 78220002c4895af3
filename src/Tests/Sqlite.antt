-- ===== src/Tests/Sqlite.antt =====
-- A database with two values, and the heap beside it.
use libpaxos_cpp.Base.{Bytes, List, Option, [], arith, ok, pos, refl, some, ℕ, ◌∷◌, ◌≡◌, ◌≤◌}
use libpaxos_cpp.Storage.Log.{Log, enumerate}
use libpaxos_cpp.Storage.Backend.{Durable, IsBackend}
use libpaxos_cpp.Storage.Heap.{Heap, heap}
use libpaxos_cpp.Storage.Heap.Refines
use libpaxos_cpp.Storage.Sqlite.{sqlite}
use libpaxos_cpp.Storage.Sqlite.Laws.{Table}
use libpaxos_cpp.Storage.Sqlite.Refines.{Holds, sqlite-IsBackend}
use libpaxos_cpp.Storage.Interchange.{accept_each, Stores, accept_each-interchange}
use libpaxos_cpp.Tests.Engine.{engine, engine-IsEngine}

sqlite-IsBackend_example : IsBackend (sqlite engine) (Holds engine engine-IsEngine)
sqlite-IsBackend_example = sqlite-IsBackend engine engine-IsEngine

abbrev values : List Bytes
values = (7 ∷ []) ∷ (8 ∷ []) ∷ []

abbrev log : Log
log = record { base = 0; values = values }

sqlite-Holds : Holds engine engine-IsEngine (some (enumerate 1 values)) log
sqlite-Holds = record { is_log = record { rooted = λ h. refl }; entries = refl }

abbrev durable : Durable (Option Table)
durable = record { history_size = pos 1; state = some (enumerate 1 values) }

abbrev heap_durable : Durable Heap
heap_durable = record { history_size = pos 1; state = enumerate 1 values }

sqlite-Stores : Stores (Holds engine engine-IsEngine) 2 1 values durable
sqlite-Stores = record {
  log = log;
  holds = sqlite-Holds;
  keeps = record { within = omega arith; newest = refl };
  needed = omega arith;
  sized = refl;
}

heap-Stores : Stores Refines.Holds 2 1 values heap_durable
heap-Stores = record {
  log = log;
  holds = record { is_log = record { rooted = λ h. refl }; entries = refl };
  keeps = record { within = omega arith; newest = refl };
  needed = omega arith;
  sized = refl;
}

abbrev each : List (Bytes × ℕ)
each = (9 ∷ [], 2) ∷ (10 ∷ [], 2) ∷ []

accept_each-interchange_example :
    (d : Durable Heap) × (e : Durable (Option Table)) × (accept_each heap 2 each heap_durable
      ≡ ok d)
    × (accept_each (sqlite engine) 2 each durable ≡ ok e)
    × (heap.highest_proposal_id d.state ≡ (sqlite engine).highest_proposal_id e.state)
    × ((p : ℕ) → 2 ≤ p → heap.retrieve d.state (pos p) ≡ (sqlite engine).retrieve e.state (pos p))
accept_each-interchange_example =
    accept_each-interchange Refines.heap-IsBackend (sqlite-IsBackend engine engine-IsEngine) 1 2
      values each heap_durable durable (omega arith) (omega arith, (omega arith, tt)) heap-Stores
      sqlite-Stores
