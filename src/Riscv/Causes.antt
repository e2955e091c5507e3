-- ===== src/Riscv/Causes.antt =====
-- The cause numbers of the RISC-V privileged architecture, and `from_cause` of crates/riscv/src/trap.rs.
use novos.Prelude.{
  ℕ, zero, suc, ◌+◌, ◌-◌, ◌*◌, ◌/◌, ◌%◌, ◌^◌, ◌<◌, ◌≡◌, ◌≢◌, refl, sym, ap, ◌∙◌, ◌⊎◌, inl, inr,
  bit_and, ◌==◌, false, some, List, [], ◌∷◌, get_elem?, usize_max, arith, Bool-cases,
}
use novos.Prelude.Bits.{bit_and_shifted, bit_and_mask}
use novos.Riscv.Trap.{
  Trap, from_cause, interrupt_bit, non_interrupt_table, interrupt_table, user_software_interrupt,
  supervisor_software_interrupt, machine_software_interrupt, user_timer_interrupt,
  supervisor_timer_interrupt, machine_timer_interrupt, user_external_interrupt,
  supervisor_external_interrupt, machine_external_interrupt, instruction_address_misaligned,
  instruction_access_fault, illegal_instruction, breakpoint, load_address_misaligned,
  load_access_fault, store_address_misaligned, store_access_fault, user_mode_environment_call,
  supervisor_mode_environment_call, machine_mode_environment_call, instruction_page_fault,
  load_page_fault, store_page_fault, reserved,
}

-- The number of a trap; interrupts have the highest bit set.
abbrev pub cause_of : Trap → ℕ
cause_of user_software_interrupt = 2 ^ 63
cause_of supervisor_software_interrupt = 2 ^ 63 + 1
cause_of machine_software_interrupt = 2 ^ 63 + 3
cause_of user_timer_interrupt = 2 ^ 63 + 4
cause_of supervisor_timer_interrupt = 2 ^ 63 + 5
cause_of machine_timer_interrupt = 2 ^ 63 + 7
cause_of user_external_interrupt = 2 ^ 63 + 8
cause_of supervisor_external_interrupt = 2 ^ 63 + 9
cause_of machine_external_interrupt = 2 ^ 63 + 11
cause_of instruction_address_misaligned = 0
cause_of instruction_access_fault = 1
cause_of illegal_instruction = 2
cause_of breakpoint = 3
cause_of load_address_misaligned = 4
cause_of load_access_fault = 5
cause_of store_address_misaligned = 6
cause_of store_access_fault = 7
cause_of user_mode_environment_call = 8
cause_of supervisor_mode_environment_call = 9
cause_of machine_mode_environment_call = 11
cause_of instruction_page_fault = 12
cause_of load_page_fault = 13
cause_of store_page_fault = 15
cause_of reserved = 10

-- The entries of a table, from the cause `k` on, have their numbers.
abbrev Coded : ℕ → List Trap → Type 0
Coded k [] = Unit
Coded k (t ∷ ts) = ((t ≡ reserved) ⊎ (cause_of t ≡ k)) × Coded (k + 1) ts

Coded-get :
    (k : ℕ) (ts : List Trap) (i : ℕ) (t : Trap)
    → Coded k ts
    → get_elem? ts i ≡ some t
    → t ≢ reserved
    → cause_of t ≡ k + i
Coded-get k [] i t c e ne = absurd (ground arith)
Coded-get k (u ∷ ts) zero t c e ne =
    let same : u ≡ t = cc in
    elim (c.0) [
      | inl none_here ↦ absurd (ne (sym same ∙ none_here))
      | inr number ↦ ap cause_of (sym same) ∙ (number ∙ omega arith)
    ]
Coded-get k (u ∷ ts) (suc i) t c e ne = Coded-get (k + 1) ts i t c.1 e ne ∙ omega arith

non_interrupts-Coded : Coded 0 non_interrupt_table
non_interrupts-Coded = (
  inr refl,
  (
    inr refl,
    (
      inr refl,
      (
        inr refl,
        (
          inr refl,
          (
            inr refl,
            (
              inr refl,
              (
                inr refl,
                (
                  inr refl,
                  (
                    inr refl,
                    (inl refl, (inr refl, (inr refl, (inr refl, (inl refl, (inr refl, tt)))))),
                  ),
                ),
              ),
            ),
          ),
        ),
      ),
    ),
  ),
)

interrupts-Coded : Coded (2 ^ 63) interrupt_table
interrupts-Coded = (
  inr refl,
  (
    inr refl,
    (
      inl refl,
      (
        inr refl,
        (
          inr refl,
          (inr refl, (inl refl, (inr refl, (inr refl, (inr refl, (inl refl, (inr refl, tt))))))),
        ),
      ),
    ),
  ),
)

top_bit : (cause : ℕ) → cause < 2 ^ 64 → bit_and cause interrupt_bit ≡ cause / 2 ^ 63 * 2 ^ 63
top_bit cause h =
    bit_and_shifted 63 cause 1 ∙ ap (λ n. n * 2 ^ 63) (bit_and_mask 1 (cause / 2 ^ 63) ∙ small)
  where
    small : cause / 2 ^ 63 % 2 ^ 1 ≡ cause / 2 ^ 63
    small = omega arith

-- `from_cause` finds every trap but the reserved ones by its number, and finds a trap by no other 64-bit number.
pub from_cause-cause_of :
    (t : Trap)
    → t ≢ reserved
    → (from_cause (cause_of t) ≡ some t)
      × ((cause : ℕ) → cause < 2 ^ 64 → from_cause cause ≡ some t → cause ≡ cause_of t)
unfolding from_cause
from_cause-cause_of t ne = (there t ne, unique)
  where
    there : (t : Trap) → t ≢ reserved → from_cause (cause_of t) ≡ some t
    there user_software_interrupt ne = refl
    there supervisor_software_interrupt ne = refl
    there machine_software_interrupt ne = refl
    there user_timer_interrupt ne = refl
    there supervisor_timer_interrupt ne = refl
    there machine_timer_interrupt ne = refl
    there user_external_interrupt ne = refl
    there supervisor_external_interrupt ne = refl
    there machine_external_interrupt ne = refl
    there instruction_address_misaligned ne = refl
    there instruction_access_fault ne = refl
    there illegal_instruction ne = refl
    there breakpoint ne = refl
    there load_address_misaligned ne = refl
    there load_access_fault ne = refl
    there store_address_misaligned ne = refl
    there store_access_fault ne = refl
    there user_mode_environment_call ne = refl
    there supervisor_mode_environment_call ne = refl
    there machine_mode_environment_call ne = refl
    there instruction_page_fault ne = refl
    there load_page_fault ne = refl
    there store_page_fault ne = refl
    there reserved ne = absurd (ne refl)

    is_set : (n : ℕ) → (n == 0) ≡ false → n ≢ 0
    is_set n e = ground arith

    unique : (cause : ℕ) → cause < 2 ^ 64 → from_cause cause ≡ some t → cause ≡ cause_of t
    unique cause h e = elim (Bool-cases (bit_and cause interrupt_bit == 0)) [
      | inl low ↦
          let number =
            Coded-get 0 non_interrupt_table cause t non_interrupts-Coded (rw low at e) ne in
          omega (arith, number)
      | inr high ↦
          let set = is_set (bit_and cause interrupt_bit) high in
          let rest = bit_and_mask 63 cause in
          let number =
            Coded-get (2 ^ 63) interrupt_table (bit_and cause (usize_max - interrupt_bit)) t
              interrupts-Coded (rw high at e) ne in
          omega (arith, number, rest, top_bit cause h, set, h)
    ]
