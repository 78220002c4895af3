-- ===== src/Quorum.antt =====
-- detail/quorum/: what a server or a client knows of the servers of the quorum. An endpoint and a
-- uuid are only compared and copied, so natural numbers stand for them; 0 is the nil uuid. A
-- connection is the number of a `tcp_connection`.
pub mod Server
pub mod View
pub mod ServerView
pub mod ClientView
