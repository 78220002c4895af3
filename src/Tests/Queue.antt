-- ===== src/Tests/Queue.antt =====
-- Three requests, of which two are finished.
use libpaxos_cpp.Base.{List, [], ok, ℕ, ◌++◌, ◌∷◌, ◌≡◌}
use libpaxos_cpp.Queue.{Queue, new_queue}
use libpaxos_cpp.Queue.Fifo.{Event, pushes, releases, run, pushed, waiting, IsBusy, run_in_order}

abbrev events : List (Event ℕ)
events = pushes 1 ∷ pushes 2 ∷ releases ∷ pushes 3 ∷ releases ∷ []

run_in_order_example :
    (q : Queue ℕ) × (calls : List ℕ) × (run events new_queue ≡ ok (q, calls))
    × (pushed events ≡ calls ++ waiting q)
    × IsBusy q
run_in_order_example = run_in_order events tt
