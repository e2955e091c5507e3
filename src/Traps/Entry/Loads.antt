-- ===== src/Traps/Entry/Loads.antt =====
-- The end of the entry of the trap handler restores the registers from the frame.
use novos.Prelude.{
  ℕ, ◌+◌, ◌^◌, ◌<◌, ◌≤◌, ◌≡◌, refl, ap, subst, ◌∙◌, true, ◌==◌, if◌then◌else◌, Bool-cases, inl, inr,
  arith,
}
use novos.Traps.Entry.{
  Machine, sp, t0, fcsr, sepc, run_all, put, address, restore_status, restore_registers, after_call,
}
use novos.Traps.Entry.Frame.{HasFrame, frame_word, inside, run_all-loads}

module _ (handler : Machine → Machine) (orig : ℕ → ℕ) (base : ℕ) (fits : base + 512 ≤ 2 ^ 64) where
  -- The registers behind the loads of x1, fcsr, and x3 to f31, and of the stack pointer at last.
  all_loaded :
      (mem regs others : ℕ → ℕ)
      → ((i : ℕ) → 0 < i → i ≤ 64 → mem (frame_word base i) ≡ orig i)
      → ((i : ℕ)
          → regs i ≡ (
              if inside 3 61 i
              then mem (frame_word base i)
              else put 1 (mem (frame_word base 1)) (put fcsr (mem (frame_word base 64)) others) i))
      → (i : ℕ) → 0 < i
      → i ≤ 64
      → put sp (mem (frame_word base 2)) regs i ≡ orig i
  all_loaded mem regs others frame loaded i some_reg small = elim (Bool-cases (i == 2)) [
    | inl two ↦
        subst (λ j. put sp (mem (frame_word base 2)) regs j ≡ orig j) (ground arith)
          (frame 2 (omega arith) (omega arith))
    | inr not_two ↦ elim (Bool-cases (i == 1)) [
      | inl one ↦
          subst (λ j. put sp (mem (frame_word base 2)) regs j ≡ orig j) (ground arith)
            (loaded 1 ∙ frame 1 (omega arith) (omega arith))
      | inr not_one ↦ elim (Bool-cases (i == 64)) [
        | inl last ↦
            subst (λ j. put sp (mem (frame_word base 2)) regs j ≡ orig j) (ground arith)
              (loaded 64 ∙ frame 64 (omega arith) (omega arith))
        | inr not_last ↦
            let within : inside 3 61 i ≡ true =
              ground (arith, some_reg, small, not_two, not_one, not_last) in
            rw not_two (loaded i ∙ rw within (frame i some_reg small))
      ]
    ]
  ]

  pub restores :
      (m : Machine)
      → HasFrame orig base m
      → let m' = run_all handler after_call m in
        (m'.regs sepc ≡ m.regs sepc) × ((i : ℕ) → 0 < i → i ≤ 64 → m'.regs i ≡ orig i)
  restores m (at_sp, frame) =
      let status : address (m.regs sp) 504 ≡ frame_word base 64 = omega (arith, at_sp, fits) in
      let first : address (m.regs sp) 0 ≡ frame_word base 1 = omega (arith, at_sp, fits) in
      let second : address (m.regs sp) 8 ≡ frame_word base 2 = omega (arith, at_sp, fits) in
      let m1 = run_all handler restore_status m in
      let (mem2, regs2) =
        run_all-loads handler 3 61 base m1 at_sp fits (omega arith) (omega arith) in
      let m2 = run_all handler restore_registers m1 in
      let others = put t0 (m.mem (frame_word base 64)) m.regs in
      let loaded : (i : ℕ)
          → m2.regs i ≡ (
              if inside 3 61 i
              then m.mem (frame_word base i)
              else put 1 (m.mem (frame_word base 1)) (put fcsr (m.mem (frame_word base 64)) others)
                  i) =
        λ i. regs2 i ∙ rw (first, status) refl in
      (
        refl,
        λ i some_reg small.
            ap (λ a. put sp (m.mem a) m2.regs i) second
            ∙ all_loaded m.mem m2.regs others frame loaded i some_reg small,
      )
