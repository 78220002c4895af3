-- ===== src/Tests/Server.antt =====
-- Two clients are accepted, then an accept fails, and no third gets in.
use libpaxos_cpp.Base.{[], false, none, true, ◌∷◌, ◌≡◌}
use libpaxos_cpp.Server.Acceptor.{new_acceptor}
use libpaxos_cpp.Server.Acceptor.Clients.{run, served, run_until_error}

run_until_error_example :
    run (false ∷ false ∷ true ∷ false ∷ []) new_acceptor.0
    ≡ (record { created = 3; awaited = none }, served 0 2)
run_until_error_example = run_until_error (false ∷ false ∷ true ∷ false ∷ [])
