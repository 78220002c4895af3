-- ===== src/Tests/Storage.antt =====
-- A heap with two values.
use libpaxos_cpp.Base.{
  Bytes, List, [], aborted, arith, fault, inr, length, negsuc, ok, pos, refl, ℕ, ◌<◌, ◌∷◌, ◌≡◌, ◌≤◌,
  ◌⊎◌,
}
use libpaxos_cpp.Storage.Log.{Log, highest, append, trim, enumerate}
use libpaxos_cpp.Storage.Backend.{Durable, clean_up, accept}
use libpaxos_cpp.Storage.Heap.{Heap, heap, store, remove}
use libpaxos_cpp.Storage.Heap.Refines.{Holds, heap-IsBackend, remove-Holds}
use libpaxos_cpp.Storage.Accept.{Forgets, accept-Holds}
use libpaxos_cpp.Storage.Window.{Window, accept-Window, accept_unknown_host_aborts}

abbrev pub two_values : List Bytes
two_values = (7 ∷ []) ∷ (8 ∷ []) ∷ []

abbrev two : Log
two = record { base = 0; values = two_values }

abbrev durable : Durable Heap
durable = record { history_size = pos 1; state = enumerate 1 two_values }

two_holds : Holds (enumerate 1 two_values) two
two_holds = record { is_log = record { rooted = λ e. refl }; entries = refl }

remove-Holds_example :
    (t : Heap) × (remove (enumerate 1 two_values) (pos 1) ≡ ok t) × Holds t (trim 1 two)
remove-Holds_example = remove-Holds 1 two_holds (omega arith)

accept-Holds_example :
    (t : Heap) × (n : ℕ) × (accept heap durable (pos 3) (9 ∷ []) (pos 1)
      ≡ ok (record { history_size = pos 1; state = t }))
    × Forgets (append two (9 ∷ [])) 1 1 n
    × Holds t (trim n (append two (9 ∷ [])))
accept-Holds_example =
    accept-Holds heap-IsBackend durable two (9 ∷ []) 1 1 two_holds refl (omega arith)

abbrev one : Log
one = record { base = 1; values = (8 ∷ []) ∷ [] }

abbrev short_durable : Durable Heap
short_durable = record { history_size = pos 1; state = enumerate 2 ((8 ∷ []) ∷ []) }

one_holds : Holds (enumerate 2 ((8 ∷ []) ∷ [])) one
one_holds = record { is_log = record { rooted = λ e. absurd (omega arith) }; entries = refl }

one-Window : Window 1 one
one-Window = record { rounds = 1; cleaned = refl; short = omega arith; full = inr (omega arith) }

accept_unknown_host_aborts_example :
    (s : Heap) × (store (enumerate 1 two_values) (pos 3) (9 ∷ []) ≡ ok s)
    × Holds s (append two (9 ∷ []))
    × (clean_up heap (record durable { state = s }) (pos 3) (negsuc 0) ≡ fault aborted)
    × (accept heap durable (pos 3) (9 ∷ []) (negsuc 0) ≡ fault aborted)
accept_unknown_host_aborts_example =
    accept_unknown_host_aborts durable two (9 ∷ []) 1 0 two_holds refl (omega arith) (omega arith)
      refl

accept-Window_example :
    (t : Heap) × (m : Log) × (accept heap short_durable (pos 3) (9 ∷ []) (pos 2)
      ≡ ok (record { history_size = pos 1; state = t }))
    × Holds t m
    × Window 1 m
    × (highest m ≡ 3)
    × (length m.values < 2)
    × ((m.base ≡ 0) ⊎ (1 ≤ length m.values))
accept-Window_example =
    accept-Window short_durable one (9 ∷ []) 1 2 one_holds refl (omega arith) (omega arith)
      one-Window
