-- ===== src/Client.antt =====
-- client.cpp and detail/client/protocol/: a request as the client sends and retries it.
pub mod InitiateRequest
pub mod Retry
pub mod Send
pub mod Requests
