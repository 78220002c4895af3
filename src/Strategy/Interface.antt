-- ===== src/Strategy/Interface.antt =====
-- detail/strategy/strategy.hpp: what a server asks of a strategy, and the strategy that there is.
use libpaxos_cpp.Base.{Bytes, List, Option, Outcome, ℕ, ℤ}
use libpaxos_cpp.Command.{Command}
use libpaxos_cpp.Storage.Backend.{Backend}
use libpaxos_cpp.Quorum.ServerView.{Floats}
use libpaxos_cpp.Strategy.Node.{Node, Effect}
use libpaxos_cpp.Strategy.Leader.{Round, Request}
use libpaxos_cpp.Strategy.Callbacks
use libpaxos_cpp.Strategy.Follower

-- The class of virtual functions. The processor is that of the context.
pub record Strategy (S P D : Type 0) : Type 0 where
  pub initiate : Request → ℕ → Node S P D → Outcome (Node S P D × Option Round × List Effect)
  pub prepare : ℕ → Command → ℕ → Node S P D → Outcome (Node S P D × List Effect)
  pub accept :
      (ℤ → Bytes → P → Bytes × P) → ℕ → Command → Node S P D → Outcome (Node S P D × List Effect)

abbrev pub basic_paxos : {S P : Type 0} → Backend S → (f : Floats) → Strategy S P f.Double
basic_paxos b f = record {
  initiate = Callbacks.initiate b f;
  prepare = Follower.prepare b;
  accept = Follower.accept b;
}
