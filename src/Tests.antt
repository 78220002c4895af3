-- ===== src/Tests.antt =====
-- The theorems at concrete inputs.
mod Storage
mod Engine
mod Sqlite
mod Server
mod LockService
mod Strategy
mod Queue
mod Wire
mod Quorum
mod Client
