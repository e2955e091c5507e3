-- ===== src/Traps/Tests.antt =====
-- The handler at a timer interrupt.
use novos.Prelude.{ℕ, ◌+◌, ◌^◌, ◌≡◌, ok, ◌<◌, ◌≤◌, ◌==◌, if◌then◌else◌, refl, arith}
use novos.Traps.Entry.{
  Machine, run_all, put, t0, a0, sscratch, scause, stval, sepc, before_call, trap_entry,
}
use novos.Traps.Entry.Frame.{frame_word}
use novos.Traps.Entry.Restores.{trap_entry-restores}
use novos.Traps.{returns, trap_handler}
use novos.Traps.Handler.{trap_handler-by_number}

trap_handler-by_number_example : trap_handler (2 ^ 63 + 5) 0 0x8020_1000 ≡ ok (returns 0x8020_1000)
trap_handler-by_number_example = trap_handler-by_number (2 ^ 63 + 5) 0 0x8020_1000 (omega arith)

-- Every register holds its number, the context of the hart is at 0x1000, and the trap stack ends at 0x9000.
abbrev interrupted : Machine
interrupted = record {
  regs = λ i. if i == sscratch then 0x1000 else i;
  mem = λ a. if a == 0x1008 then 0x9000 else 0;
}

-- A handler that skips an instruction and uses the temporary registers.
abbrev skips : Machine → Machine
skips m = record { regs = put a0 (m.regs 13 + 4) (put t0 0 m.regs); mem = m.mem }

trap_entry-restores_example :
    let at_call = run_all skips before_call interrupted in
    let m' = run_all skips trap_entry interrupted in
    (((i : ℕ) → 0 < i → i ≤ 64 → at_call.mem (frame_word (at_call.regs a0) i) ≡ interrupted.regs i)
      × (at_call.regs 11 ≡ scause)
      × (at_call.regs 12 ≡ stval)
      × (at_call.regs 13 ≡ sepc))
    × (((i : ℕ) → 0 < i → i ≤ 64 → m'.regs i ≡ interrupted.regs i)
        × (m'.regs sepc ≡ (skips at_call).regs a0))
trap_entry-restores_example =
    trap_entry-restores skips interrupted
      (record {
        context = omega arith;
        room = omega arith;
        end = omega arith;
        apart = λ e. omega (arith, e);
      })
      (λ m. (refl, λ i some_reg small. refl))
