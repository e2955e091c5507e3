-- ===== src/Traps/Entry/Frame.antt =====
-- The stores and loads of consecutive registers at the stack pointer.
use novos.Prelude.{
  ℕ, zero, suc, ◌+◌, ◌-◌, ◌*◌, ◌%◌, ◌^◌, ◌<◌, ◌≤◌, ◌≡◌, refl, ap, ◌∙◌, Bool, ◌&&◌, List, [], ◌∷◌,
  ◌++◌, ◌==◌, Bool-cases, inl, inr, ltb, leb, if◌then◌else◌, arith,
}
use novos.Traps.Entry.{
  Machine, Instruction, sd, ld, sp, execute, run_all, put, save_registers, restore_registers,
}

-- The place of a register in a frame, by the order of the fields of `TrapFrame`: x1 to x31, f0 to f31, fcsr.
abbrev pub frame_word : ℕ → ℕ → ℕ
frame_word base r = base + 8 * (r - 1)

-- The frame at `base`, the stack pointer, holds x1 to x31, f0 to f31 and fcsr of `orig`.
abbrev pub HasFrame : (ℕ → ℕ) → ℕ → Machine → Type 0
HasFrame orig base m =
    (m.regs sp ≡ base) × ((i : ℕ) → 0 < i → i ≤ 64 → m.mem (frame_word base i) ≡ orig i)

abbrev pub stores : ℕ → ℕ → List Instruction
stores r zero = []
stores r (suc n) = sd r (8 * (r - 1)) sp ∷ stores (suc r) n

abbrev pub loads : ℕ → ℕ → List Instruction
loads r zero = []
loads r (suc n) = ld r (8 * (r - 1)) sp ∷ loads (suc r) n

pub save_registers_lem : save_registers ≡ stores 3 61
save_registers_lem = refl

pub restore_registers_lem : restore_registers ≡ loads 3 61
restore_registers_lem = refl

pub run_all-append :
    (handler : Machine → Machine) (xs ys : List Instruction) (m : Machine)
    → run_all handler (xs ++ ys) m ≡ run_all handler ys (run_all handler xs m)
run_all-append handler [] ys m = refl
run_all-append handler (x ∷ xs) ys m = run_all-append handler xs ys (execute handler x m)

abbrev pub inside : ℕ → ℕ → ℕ → Bool
inside r n i = leb r i && ltb i (r + n)

module _ (handler : Machine → Machine) where
  pub run_all-stores :
      (r n base : ℕ) (m : Machine)
      → m.regs sp ≡ base
      → base + 512 ≤ 2 ^ 64
      → r + n ≤ 65
      → 0 < r
      → let m' = run_all handler (stores r n) m in
        (m'.regs ≡ m.regs)
        × ((i : ℕ)
            → 0 < i
            → m'.mem (frame_word base i)
              ≡ (if inside r n i then m.regs i else m.mem (frame_word base i)))
  run_all-stores r zero base m e fits few pos = (refl, λ i some_reg. ground arith)
  run_all-stores r (suc n) base m e fits few pos =
      let here : (m.regs sp + 8 * (r - 1)) % 2 ^ 64 ≡ frame_word base r =
        omega (arith, e, fits, few, pos) in
      let (same, all) =
        run_all-stores (suc r) n base (execute handler (sd r (8 * (r - 1)) sp) m) e fits
          (omega (arith, few)) (omega arith) in
      (
        same,
        λ i some_reg.
            all i some_reg
            ∙ rw here (elim (Bool-cases (i == r)) [
              | inl same_reg ↦
                  let value : m.regs i ≡ m.regs r = ap m.regs (ground arith) in
                  ground (arith, value, same_reg)
              | inr other ↦ ground (arith, other, pos, some_reg)
            ]),
      )

  pub run_all-loads :
      (r n base : ℕ) (m : Machine)
      → m.regs sp ≡ base
      → base + 512 ≤ 2 ^ 64
      → r + n ≤ 65
      → 2 < r
      → let m' = run_all handler (loads r n) m in
        (m'.mem ≡ m.mem)
        × ((i : ℕ) → m'.regs i ≡ (if inside r n i then m.mem (frame_word base i) else m.regs i))
  run_all-loads r zero base m e fits few pos = (refl, λ i. ground arith)
  run_all-loads r (suc n) base m e fits few pos =
      let here : (m.regs sp + 8 * (r - 1)) % 2 ^ 64 ≡ frame_word base r =
        omega (arith, e, fits, few, pos) in
      let kept : put r (m.mem ((m.regs sp + 8 * (r - 1)) % 2 ^ 64)) m.regs sp ≡ base =
        ground (arith, e, pos) in
      let (same, all) =
        run_all-loads (suc r) n base (execute handler (ld r (8 * (r - 1)) sp) m) kept fits
          (omega (arith, few)) (omega (arith, pos)) in
      (
        same,
        λ i.
            all i
            ∙ rw here (elim (Bool-cases (i == r)) [
              | inl same_reg ↦
                  let value : m.mem (frame_word base i) ≡ m.mem (frame_word base r) =
                    ap (λ j. m.mem (frame_word base j)) (ground arith) in
                  ground (arith, value, same_reg)
              | inr other ↦ ground (arith, other, pos)
            ]),
      )
