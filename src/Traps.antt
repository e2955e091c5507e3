-- ===== src/Traps.antt =====
-- crates/kernel/src/trap.rs: the handler of traps. Log messages are left out.
pub mod Handler
pub mod Entry
mod Tests
use novos.Prelude.{ℕ, ◌^◌, bit_or, Option, none, some, Run, ok, panic}
use novos.Riscv.Trap.{
  Trap, from_cause, supervisor_software_interrupt, supervisor_timer_interrupt,
  supervisor_external_interrupt,
}

-- The control registers that the installation writes; `set` sets bits.
pub record Csrs : Type 0 where
  pub stvec : ℕ
  pub sie : ℕ
  pub sstatus : ℕ

unfoldable pub install_handler : ℕ → Csrs → Csrs
install_handler addr csrs = record {
  stvec = addr;
  sie = bit_or csrs.sie (bit_or (bit_or (2 ^ 9) (2 ^ 5)) (2 ^ 1));
  sstatus = bit_or csrs.sstatus (2 ^ 1);
}

-- The handler returns the new `sepc`, or keeps the hart in `loop {}`.
pub data Handled : Type 0 where
  returns : ℕ → Handled
  spins : Handled

abbrev pub handle : ℕ → Option Trap → Run Handled
handle sepc none = panic
handle sepc (some supervisor_external_interrupt) = ok (returns sepc)
handle sepc (some supervisor_timer_interrupt) = ok (returns sepc)
handle sepc (some supervisor_software_interrupt) = ok spins
handle sepc (some trap) = panic

unfoldable pub trap_handler : ℕ → ℕ → ℕ → Run Handled
trap_handler scause stval sepc = handle sepc (from_cause scause)
