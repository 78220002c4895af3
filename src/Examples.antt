-- ===== src/Examples.antt =====
-- examples/lock_service_1 and examples/lock_service_2: lock servers on top of the library.
pub mod LockService
pub mod Datastore
