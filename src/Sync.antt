-- ===== src/Sync.antt =====
-- crates/riscv/src/sync.rs: the ticket lock and the reader-writer lock, each with a step for every atomic operation.
pub mod Mutex
pub mod RwLock
pub mod Tests
