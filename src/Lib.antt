-- ===== src/Lib.antt =====
-- libpaxos-cpp: a replicated state machine by a leader-based protocol with two phases.
--
-- A client sends a request to the server that it takes for the leader. The leader queues requests
-- and works on one at a time: it sends a prepare to every live server, itself included, and once
-- all have promised an accept with the value and with the history that the server lacks. Each
-- server applies the user's callback to the values in order of their proposal ids, stores them,
-- and answers; the leader compares the answers and replies to the client, which retries on errors.
--
-- How the files correspond to the program:
-- - Base: lists, numbers, faults and ordered maps. A failed assertion is the fault `aborted`,
--   PAXOS_UNREACHABLE is `unreachable`, an exception `thrown`, undefined behaviour `undefined`.
--   int64_t is an integer without bounds, in the laws of the SQL engine too: proposal ids grow by
--   one with each accepted value. An endpoint and a uuid are natural numbers, in the order of
--   operator <.
-- - Errors, Command: paxos++/detail/error.hpp, error.cpp, command.hpp, command.inl, command.cpp.
-- - Wire: paxos++/detail/util/conversion.inl (Conversion), parser.cpp with
--   tcp_connection::read_command_loop (Parser), and the write buffer of tcp_connection.cpp
--   (Connection). A pending write is a reference to the front of the write buffer, and whether an
--   append moves the bytes of the buffer is an input of the append. Serialization is a parameter,
--   a pair of functions of which the theorems assume that the second reads what the first wrote.
--   boost::asio::async_read is one too, assumed to give exactly the bytes that it is asked for or
--   to fail. The integer at the front of a frame has 32 bits.
-- - Queue: paxos++/detail/request_queue/queue.inl. Storage: paxos++/durable/storage.cpp (Backend,
--   Accept), heap.cpp (Heap, Window), sqlite.cpp (Sqlite). Backend is the interface of virtual
--   functions, IsBackend the contract that both storages fulfil (Storage.Heap.Refines and
--   Storage.Sqlite.Refines), over an abstract log (Log). It asks more of retrieve than the comment
--   in storage.hpp, which allows a part of the values, and leaves open whether remove forgets the
--   id itself. Sqlite.Sql lists the statements that sqlite.cpp writes, Sqlite.Laws what the engine
--   documents of them; Interchange compares two storages.
-- - Quorum: paxos++/detail/quorum/server.cpp (Server), view.cpp (View), server_view.cpp
--   (ServerView), client_view.cpp (ClientView). A view is a std::map by endpoint. Time is in
--   seconds.
-- - Strategy: paxos++/detail/strategy/basic_paxos/protocol/strategy.cpp: the shared helpers
--   (Node), prepare and accept (Follower), the round of the leader (Leader) and the handlers of
--   its answers (Callbacks). A handler takes the state of the server and gives the new state and
--   the effects on the connections in order; the shared state of a round is a Round. Replay is the
--   specification, CatchUp and the modules below Follower and Leader the proofs about one
--   follower, Initiate those about the start of a round, Arrival those about all answers of a
--   round in any order, Cluster those about all followers (Hears to Phases: the promises,
--   Deliveries and Deliveries and Deliveries and Consensus: a whole round), OneLeader the one
--   about two followers. Interface is the class of paxos++/detail/strategy/strategy.hpp, which the
--   server takes as a record.
-- - Client: paxos++/detail/client/protocol/initiate_request.cpp (InitiateRequest) and
--   client::do_request of paxos++/client.cpp (Retry), a request with all its attempts (Send), and
--   all requests of a client (Requests).
-- - Server: paxos++/detail/command_dispatcher.cpp and the queue of paxos_context.cpp (Dispatch,
--   with Turns, Rounds and Serves the proofs about its rounds), the connections that
--   paxos++/server.cpp accepts (Acceptor), its constructor with paxos++/configuration.cpp
--   (Configuration).
-- - Examples: the callbacks of examples/lock_service_1/server.cpp (LockService) and of
--   examples/lock_service_2/server.cpp with datastore.cpp (Datastore). boost::split is a
--   parameter. A std::set is a list without its order. A failed assert is the fault `aborted`.
-- - Sql: the SQL engine, a parameter of Storage.Sqlite and Examples.Datastore. Its laws say what
--   its calls do where none fails for want of memory, disk or a lock.
-- - Tests: each theorem that has hypotheses, at a concrete input.
--
-- Fuel: the read loop is given rounds, of which one more than there are commands is enough, and
-- Server.Dispatch.process and Client.Requests.start as many turns as the queue holds requests,
-- since each turn takes one off.
--
-- Not modelled: the thread of boost::asio, logging, and the sockets themselves. Arithmetic on
-- double is a parameter.
mod Base
pub mod Sql
pub mod Storage
pub mod Errors
pub mod Command
pub mod Wire
pub mod Queue
pub mod Quorum
pub mod Strategy
pub mod Client
pub mod Server
pub mod Examples
mod Tests
