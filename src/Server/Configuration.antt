-- ===== src/Server/Configuration.antt =====
-- configuration.cpp, and the constructor of server.cpp that puts a server together from one.
use libpaxos_cpp.Base.{List, Outcome, none, ok, ℕ, ◌%◌, ◌>>=◌, ◌^◌}
use libpaxos_cpp.Queue.{new_queue}
use libpaxos_cpp.Storage.Backend.{Backend, Durable}
use libpaxos_cpp.Quorum.ServerView.{Floats, new_server_view}
use libpaxos_cpp.Strategy.Interface.{Strategy, basic_paxos}
use libpaxos_cpp.Server.Dispatch.{Server}
use libpaxos_cpp.Server.Acceptor.{Acceptor, Action, new_acceptor}

-- A strategy factory gives a strategy on the durable storage of its configuration.
abbrev pub Factory : (S P D : Type 0) → Type 0
Factory S P D = Durable S → Strategy S P D × Durable S

pub record Configuration (S P D : Type 0) : Type 0 where
  pub timeout : ℕ
  pub majority_factor : D
  pub durable_storage : Durable S
  pub strategy_factory : Factory S P D

-- detail/strategy/basic_paxos/factory.cpp
unfoldable pub basic_paxos_factory :
    {S P : Type 0} → Backend S → (f : Floats) → Factory S P f.Double
basic_paxos_factory b f storage = (basic_paxos b f, storage)

-- The constructor, with the factor 0.5, a new heap and the factory of basic_paxos.
unfoldable pub new_configuration :
    {S P : Type 0} → Backend S → (f : Floats) → Durable S → Configuration S P f.Double
new_configuration b f heap = record {
  timeout = 3000;
  majority_factor = f.half;
  durable_storage = heap;
  strategy_factory = basic_paxos_factory b f;
}

module _ {S P D : Type 0} where
  -- `uint32_t`
  unfoldable pub set_timeout : ℕ → Configuration S P D → Configuration S P D
  set_timeout timeout c = record c { timeout = timeout % 2 ^ 32 }

  unfoldable pub set_majority_factor : D → Configuration S P D → Configuration S P D
  set_majority_factor factor c = record c { majority_factor = factor }

  unfoldable pub set_strategy_factory : Factory S P D → Configuration S P D → Configuration S P D
  set_strategy_factory factory c = record c { strategy_factory = factory }

  unfoldable pub set_durable_storage : Durable S → Configuration S P D → Configuration S P D
  set_durable_storage storage c = record c { durable_storage = storage }

  -- `strategy_factory ().create ()`
  unfoldable pub create : Configuration S P D → Strategy S P D × Durable S
  create c = c.strategy_factory c.durable_storage

  -- The server at an endpoint, with its strategy, the uuid that the generator gives and the state of
  -- the callback.
  unfoldable pub new_server :
      ℕ
      → ℕ
      → P
      → Configuration S P D
      → Outcome (Server S P D × Strategy S P D × Acceptor × List Action)
  new_server endpoint uuid application c = do
    quorum ← new_server_view endpoint c.majority_factor uuid
    (strategy, storage) ← ok (create c)
    ok (
      record {
        node = record { storage = storage; quorum = quorum; application = application };
        request_queue = new_queue;
        round = none;
      },
      strategy,
      new_acceptor.0,
      new_acceptor.1,
    )
