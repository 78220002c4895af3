-- ===== src/Server/Acceptor.antt =====
-- server.cpp: accepting connections, and adding servers to the quorum.
pub mod Clients
use libpaxos_cpp.Base.{Bool, List, Option, [], if◌then◌else◌, none, some, suc, ℕ, ◌∷◌}
use libpaxos_cpp.Quorum.View.{View, add}

-- Connections are numbered in the order in which `tcp_connection::create` makes them.
pub record Acceptor : Type 0 where
  pub created : ℕ
  -- The connection that `async_accept` waits with, if it does.
  pub awaited : Option ℕ

pub data Action : Type 0 where
  async_accept : ℕ → Action
  -- The loop that hands each command of the connection to the dispatcher.
  read_command_loop : ℕ → Action

unfoldable pub accept : Acceptor → Acceptor × List Action
accept a =
    (record { created = suc a.created; awaited = some a.created }, async_accept a.created ∷ [])

-- The constructor.
abbrev pub new_acceptor : Acceptor × List Action
new_acceptor = accept (record { created = 0; awaited = none })

unfoldable pub handle_accept : ℕ → Bool → Acceptor → Acceptor × List Action
handle_accept new_connection error a =
    if error
    then (a, [])
    else (let next = accept a in (next.0, read_command_loop new_connection ∷ next.1))

-- `add` of a list of servers.
unfoldable pub add_all : List ℕ → View → View
add_all [] v = v
add_all (e ∷ endpoints) v = add_all endpoints (add e v)
