-- ===== src/Riscv/Trap.antt =====
-- crates/riscv/src/trap.rs: the causes of traps.
use novos.Prelude.{
  ℕ, ◌-◌, ◌^◌, bit_and, ◌==◌, if◌then◌else◌, Option, List, [], ◌∷◌, get_elem?, usize_max,
}

abbrev pub interrupt_bit : ℕ
interrupt_bit = 2 ^ 63

pub data Trap : Type 0 where
  user_software_interrupt supervisor_software_interrupt machine_software_interrupt : Trap
  user_timer_interrupt supervisor_timer_interrupt machine_timer_interrupt : Trap
  user_external_interrupt supervisor_external_interrupt machine_external_interrupt : Trap
  instruction_address_misaligned instruction_access_fault illegal_instruction breakpoint : Trap
  load_address_misaligned load_access_fault store_address_misaligned store_access_fault : Trap
  user_mode_environment_call supervisor_mode_environment_call machine_mode_environment_call : Trap
  instruction_page_fault load_page_fault store_page_fault : Trap
  reserved : Trap

abbrev pub non_interrupt_table : List Trap
non_interrupt_table =
    instruction_address_misaligned ∷ instruction_access_fault ∷ illegal_instruction ∷ breakpoint
    ∷ load_address_misaligned ∷ load_access_fault ∷ store_address_misaligned ∷ store_access_fault
    ∷ user_mode_environment_call ∷ supervisor_mode_environment_call ∷ reserved
    ∷ machine_mode_environment_call ∷ instruction_page_fault ∷ load_page_fault ∷ reserved
    ∷ store_page_fault ∷ []

abbrev pub interrupt_table : List Trap
interrupt_table =
    user_software_interrupt ∷ supervisor_software_interrupt ∷ reserved ∷ machine_software_interrupt
    ∷ user_timer_interrupt ∷ supervisor_timer_interrupt ∷ reserved ∷ machine_timer_interrupt
    ∷ user_external_interrupt ∷ supervisor_external_interrupt ∷ reserved
    ∷ machine_external_interrupt ∷ []

-- `Trap::from_cause`
unfoldable pub from_cause : ℕ → Option Trap
from_cause cause =
    if bit_and cause interrupt_bit == 0
    then get_elem? non_interrupt_table cause
    else get_elem? interrupt_table (bit_and cause (usize_max - interrupt_bit))
