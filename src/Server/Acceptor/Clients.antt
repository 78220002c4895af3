-- ===== src/Server/Acceptor/Clients.antt =====
-- Which clients a server gets to serve.
use libpaxos_cpp.Base.{
  Bool, List, [], ap, arith, false, if◌then◌else◌, none, refl, some, suc, true, zero, ℕ, ◌++◌, ◌+◌,
  ◌||◌, ◌∙◌, ◌∷◌, ◌≡◌,
}
use libpaxos_cpp.Server.Acceptor.{
  Acceptor, Action, async_accept, read_command_loop, accept, new_acceptor, handle_accept,
}

-- The accept that waits, if one does, ends with or without an error.
abbrev pub completes : Bool → Acceptor → Acceptor × List Action
completes error a = elim a.awaited [
  | none ↦ (a, [])
  | some c ↦ handle_accept c error (record a { awaited = none })
]

abbrev pub run : List Bool → Acceptor → Acceptor × List Action
run [] a = (a, [])
run (error ∷ errors) a =
    let first = completes error a in let rest = run errors first.0 in (rest.0, first.1 ++ rest.1)

-- How many accepts end well before the first that does not.
abbrev pub before_error : List Bool → ℕ
before_error [] = 0
before_error (error ∷ errors) = let rest = before_error errors in if error then 0 else suc rest

abbrev pub any_error : List Bool → Bool
any_error [] = false
any_error (error ∷ errors) = error || any_error errors

-- The loops that are started, and the connections that are waited with.
abbrev pub served : ℕ → ℕ → List Action
served c zero = []
served c (suc n) = read_command_loop c ∷ async_accept (suc c) ∷ served (suc c) n

run_stopped :
    (errors : List Bool) (n : ℕ)
    → run errors (record { created = n; awaited = none })
      ≡ (record { created = n; awaited = none }, [])
run_stopped [] n = refl
run_stopped (error ∷ errors) n = run_stopped errors n

run_waiting :
    (errors : List Bool) (c : ℕ)
    → run errors (record { created = suc c; awaited = some c }) ≡ (
      record {
        created = suc (before_error errors + c);
        awaited = if any_error errors then none else some (before_error errors + c);
      },
      served c (before_error errors),
    )
unfolding handle_accept accept
run_waiting [] c =
    ap {B = Acceptor × List Action} (λ k. (record { created = suc k; awaited = some k }, []))
      {y = 0 + c} (omega arith)
run_waiting (true ∷ errors) c =
    run_stopped errors (suc c)
    ∙ ap {B = Acceptor × List Action} (λ k. (record { created = suc k; awaited = none }, []))
        {y = 0 + c} (omega arith)
run_waiting (false ∷ errors) c =
    let n : ℕ = before_error errors in
    ap {B = Acceptor × List Action} (λ r. (r.0, read_command_loop c ∷ async_accept (suc c) ∷ r.1))
      (run_waiting errors (suc c))
    ∙ ap {B = Acceptor × List Action}
        (λ k. (
          record { created = suc k; awaited = if any_error errors then none else some k },
          read_command_loop c ∷ async_accept (suc c) ∷ served (suc c) n,
        ))
        {x = n + suc c} {y = suc n + c} (omega arith)

-- In whatever way its accepts end, a server serves the connections that come before the first
-- accept that ends with an error, each once and in order, and waits with the next one unless there
-- was an error; after one it neither serves nor waits again.
pub run_until_error :
    (errors : List Bool)
    → run errors new_acceptor.0 ≡ (
      record {
        created = suc (before_error errors);
        awaited = if any_error errors then none else some (before_error errors);
      },
      served 0 (before_error errors),
    )
unfolding accept
run_until_error errors =
    run_waiting errors 0
    ∙ ap {B = Acceptor × List Action}
        (λ k. (
          record { created = suc k; awaited = if any_error errors then none else some k },
          served 0 (before_error errors),
        ))
        {x = before_error errors + 0} (omega arith)
