-- ===== src/Strategy.antt =====
-- detail/strategy/basic_paxos/protocol/: what a server does with a request, as the leader that
-- proposes it and as a follower. The leader is one of its own followers, over its own connection.
pub mod Node
pub mod Replay
pub mod Follower
pub mod Leader
pub mod Callbacks
pub mod CatchUp
pub mod Stranded
pub mod Answer
pub mod Arrival
pub mod Cluster
pub mod Verdict
pub mod OneLeader
pub mod Initiate
pub mod Interface
