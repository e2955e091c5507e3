-- ===== src/Riscv/Tests.antt =====
-- The theorems on the registers of crates/riscv at concrete values.
use novos.Prelude.{ℕ, ◌<◌, ◌≡◌, ◌^◌, refl, some, ok, arith}
use novos.Riscv.Satp
use novos.Riscv.Satp.{read_bits-as_bits}
use novos.Riscv.Trap.{from_cause, load_page_fault}
use novos.Riscv.Causes.{cause_of, from_cause-cause_of}

abbrev kernel_root : Satp.Satp
kernel_root = record { mode = Satp.sv48; asid = 3; root_table = 0x8020_0000 }

read_bits-as_bits_example : Satp.read_bits (Satp.as_bits kernel_root) ≡ ok kernel_root
read_bits-as_bits_example = read_bits-as_bits kernel_root (omega arith) refl (omega arith)

from_cause-cause_of_example :
    (from_cause (cause_of load_page_fault) ≡ some load_page_fault)
    × ((cause : ℕ)
        → cause < 2 ^ 64
        → from_cause cause ≡ some load_page_fault
        → cause ≡ cause_of load_page_fault)
from_cause-cause_of_example = from_cause-cause_of load_page_fault (λ e. cc)
