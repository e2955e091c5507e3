-- ===== src/Drivers/Plic/Enable.antt =====
-- The enable bits of the interrupt controller: one for every context and interrupt.
use novos.Prelude.{
  ℕ, ◌+◌, ◌-◌, ◌*◌, ◌/◌, ◌%◌, ◌^◌, ◌<◌, ◌≡◌, refl, sym, ap, ◌∙◌, min, max, bit_and, bit_or, Bool,
  true, false, ◌&&◌, Bool-cases, inl, inr, ◌==◌, if◌then◌else◌, ok, le→not-ltb, usize_max, arith,
}
use novos.Prelude.Bits.{digit}
use novos.Prelude.Digits.{digit-bit_or, digit-bit_and, digit-two_pow, digit-all_but}
use novos.Drivers.Plic.{
  Volatile, Controller, Registers, context_count, write_register, enable_idx_bit, enable_interrupt,
  disable_interrupt,
}

-- An interrupt that the controller knows, and a context of it.
abbrev pub IsSource : ℕ → Type 0
IsSource id = (0 < id) × (id < 1024)

abbrev pub entry_of : ℕ → ℕ → ℕ
entry_of ctx id = ctx * 32 + id / 32

-- The bit of the interrupt for the context.
abbrev pub enabled : Controller → Registers → ℕ → ℕ → ℕ
enabled c regs ctx id = digit (regs (c.enable + 4 * entry_of ctx id)) (id % 32)

abbrev pub same_pair : ℕ → ℕ → ℕ → ℕ → Bool
same_pair ctx id ctx' id' = ctx' == ctx && id' == id

enable_idx_bit_lem :
    (ctx id : ℕ)
    → ctx < context_count
    → id < 1024
    → enable_idx_bit ctx id ≡ ok (entry_of ctx id, id % 32)
unfolding enable_idx_bit
enable_idx_bit_lem ctx id h k =
    rw
      (
        le→not-ltb usize_max (ctx * 32) (omega arith),
        le→not-ltb usize_max (entry_of ctx id) (omega arith),
      )
      refl

module _ (vol : Volatile) (c : Controller) (ctx id : ℕ) (known : ctx < context_count)
    (source : IsSource id) (regs : Registers) where
  abbrev addr : ℕ
  addr = c.enable + 4 * entry_of ctx id

  -- What a write of `value` to the word of the interrupt does to all bits, if it changes that one bit to `bit`.
  written :
      (value bit : ℕ)
      → ((j : ℕ) → j < 32 → digit value j ≡ (if j == id % 32 then bit else digit (regs addr) j))
      → (ctx' id' : ℕ) → id' < 1024
      → enabled c (write_register addr value regs) ctx' id'
        ≡ (if same_pair ctx id ctx' id' then bit else enabled c regs ctx' id')
  written value bit changed ctx' id' small =
      elim (Bool-cases (entry_of ctx' id' == entry_of ctx id)) [
        | inl here ↦
            let place : entry_of ctx' id' ≡ entry_of ctx id = ground arith in
            let hit : (c.enable + 4 * entry_of ctx' id' == addr) ≡ true = ground arith in
            let same_ctx : ctx' ≡ ctx = omega (arith, place) in
            let same_word : id' / 32 ≡ id / 32 = omega (arith, place) in
            let bits : (id' % 32 == id % 32) ≡ same_pair ctx id ctx' id' = ground arith in
            rw hit (
              changed (id' % 32) (omega arith)
              ∙ (ap
                    (λ e.
                      if id' % 32 == id % 32
                      then bit
                      else digit (regs (c.enable + 4 * e)) (id' % 32))
                    (sym place)
                  ∙ ap (λ (b : Bool). if b then bit else enabled c regs ctx' id') bits))
        | inr elsewhere ↦
            let miss : (c.enable + 4 * entry_of ctx' id' == addr) ≡ false = ground arith in
            let other : same_pair ctx id ctx' id' ≡ false = ground arith in rw (miss, other) refl
      ]

  set_bit :
      (j : ℕ)
      → j < 32
      → digit (bit_or (regs addr) (2 ^ (id % 32))) j
        ≡ (if j == id % 32 then 1 else digit (regs addr) j)
  set_bit j h =
      digit-bit_or (regs addr) (2 ^ (id % 32)) j
      ∙ (ap (max (digit (regs addr) j)) (digit-two_pow (id % 32) j) ∙ ground arith)

  clear_bit :
      (j : ℕ)
      → j < 32
      → digit (bit_and (regs addr) (2 ^ 32 - 1 - 2 ^ (id % 32))) j
        ≡ (if j == id % 32 then 0 else digit (regs addr) j)
  clear_bit j h =
      digit-bit_and (regs addr) (2 ^ 32 - 1 - 2 ^ (id % 32)) j
      ∙ (ap (min (digit (regs addr) j)) (digit-all_but 32 (id % 32) j (omega arith) h)
          ∙ ground arith)

  -- `enable` and `disable` of an interrupt below 1024 for a context of the controller return; one sets its bit, the
  -- other clears it, and both leave the bits of all other interrupts and of all other contexts as they were.
  pub enable-disable :
      ((regs' : Registers) × (enable_interrupt vol c ctx id regs ≡ ok regs')
        × ((ctx' id' : ℕ)
            → id' < 1024
            → enabled c regs' ctx' id'
              ≡ (if same_pair ctx id ctx' id' then 1 else enabled c regs ctx' id')))
      × ((regs' : Registers) × (disable_interrupt vol c ctx id regs ≡ ok regs')
          × ((ctx' id' : ℕ)
              → id' < 1024
              → enabled c regs' ctx' id'
                ≡ (if same_pair ctx id ctx' id' then 0 else enabled c regs ctx' id')))
  unfolding enable_interrupt disable_interrupt
  enable-disable =
      let some_id : (id == 0) ≡ false = ground (arith, source.0) in
      let index = enable_idx_bit_lem ctx id known source.1 in
      let inside =
        vol.block_inside (context_count * 32) c.enable (entry_of ctx id)
          (omega (arith, source.1)) in
      let on = bit_or (regs addr) (2 ^ (id % 32)) in
      let off = bit_and (regs addr) (2 ^ 32 - 1 - 2 ^ (id % 32)) in
      (
        (write_register addr on regs, rw (some_id, index, inside) refl, written on 1 set_bit),
        (write_register addr off regs, rw (some_id, index, inside) refl, written off 0 clear_bit),
      )
