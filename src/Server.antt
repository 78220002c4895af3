-- ===== src/Server.antt =====
-- configuration.cpp, server.cpp, detail/command_dispatcher.cpp and detail/paxos_context.cpp: a server that reads commands
-- from its connections.
pub mod Dispatch
pub mod Acceptor
pub mod Configuration
