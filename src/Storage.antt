-- ===== src/Storage.antt =====
-- durable/: the storage interface, its two implementations and what they promise.
pub mod Log
pub mod Backend
pub mod Heap
pub mod Accept
pub mod Window
pub mod Sqlite
pub mod Keeps
pub mod Interchange
