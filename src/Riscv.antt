-- ===== src/Riscv.antt =====
-- crates/riscv: the fields of the `satp` register (csr/satp.rs) and the causes of traps (trap.rs).
pub mod Satp
pub mod Trap
pub mod Causes
pub mod Tests
