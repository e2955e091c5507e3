-- ===== src/Traps/Entry/Saves.antt =====
-- The start of the entry of the trap handler saves the registers in a frame.
use novos.Prelude.{
  ℕ, ◌+◌, ◌-◌, ◌^◌, ◌<◌, ◌≤◌, ◌≡◌, ◌≢◌, refl, ap, subst, ◌∙◌, true, false, ◌==◌, if◌then◌else◌,
  Bool-cases, inl, inr, arith,
}
use novos.Traps.Entry.{
  Machine, sp, a0, fcsr, sscratch, scause, stval, sepc, run_all, put, address, switch_stack,
  save_registers, before_call,
}
use novos.Traps.Entry.Frame.{HasFrame, frame_word, inside, run_all-stores}

-- The context of the hart at `sscratch` holds the end of the trap stack, which has room for the frame; the frame does
-- not lie on the word that keeps the old stack pointer.
pub record IsReady (m : Machine) : Type 0 where
  pub context : m.regs sscratch + 24 ≤ 2 ^ 64
  pub room : 512 ≤ m.mem (m.regs sscratch + 8)
  pub end : m.mem (m.regs sscratch + 8) < 2 ^ 64
  pub apart : m.mem (m.regs sscratch + 8) ≢ m.regs sscratch + 528

abbrev pub frame_base : Machine → ℕ
frame_base m = m.mem (m.regs sscratch + 8) - 512

module _ (handler : Machine → Machine) (m : Machine) (ready : IsReady m) where
  abbrev ctx : ℕ
  ctx = m.regs sscratch

  abbrev switched : Machine
  switched = run_all handler switch_stack m

  word_16 : address ctx 16 ≡ ctx + 16
  word_16 = omega (arith, ready.context)

  word_8 : address ctx 8 ≡ ctx + 8
  word_8 = omega (arith, ready.context)

  switched-sp : switched.regs sp ≡ frame_base m
  switched-sp =
      let miss : (ctx + 8 == ctx + 16) ≡ false = ground arith in
      rw (word_8, word_16, miss) (omega (arith, ready.room, ready.end))

  switched-regs : (i : ℕ) → 2 < i → i < 69 → switched.regs i ≡ m.regs i
  switched-regs i h k = elim (Bool-cases (i == 8)) [
    | inl eight ↦ subst (λ j. switched.regs j ≡ m.regs j) {x = 8} (ground arith) refl
    | inr not_eight ↦ elim (Bool-cases (i == 65)) [
      | inl last ↦ subst (λ j. switched.regs j ≡ m.regs j) {x = 65} (ground arith) refl
      | inr not_last ↦ ground (arith, h, k, not_eight, not_last)
    ]
  ]

  place_0 : address (switched.regs sp) 0 ≡ frame_word (frame_base m) 1
  place_0 = omega (arith, switched-sp, ready.room, ready.end)

  place_8 : address (switched.regs sp) 8 ≡ frame_word (frame_base m) 2
  place_8 = omega (arith, switched-sp, ready.room, ready.end)

  switched-one : switched.mem (frame_word (frame_base m) 1) ≡ m.regs 1
  switched-one =
      let miss : (frame_word (frame_base m) 1 == frame_word (frame_base m) 2) ≡ false =
        ground arith in
      let hit : (frame_word (frame_base m) 1 == frame_word (frame_base m) 1) ≡ true =
        ground arith in
      rw (place_8, place_0, miss, hit) refl

  switched-two : switched.mem (frame_word (frame_base m) 2) ≡ m.regs 2
  switched-two =
      let hit : (frame_word (frame_base m) 2 == frame_word (frame_base m) 2) ≡ true =
        ground arith in
      let miss : (ctx + 16 == frame_word (frame_base m) 1) ≡ false =
        ground (arith, ready.apart, ready.room) in
      let same : (ctx + 16 == ctx + 16) ≡ true = ground arith in
      rw (place_8, place_0, word_16, hit, miss, same) refl

  stored :
      let m' = run_all handler save_registers switched in
      (m'.regs ≡ switched.regs)
      × ((i : ℕ)
          → 0 < i
          → m'.mem (frame_word (frame_base m) i) ≡ (
              if inside 3 61 i
              then switched.regs i
              else switched.mem (frame_word (frame_base m) i)))
  stored =
      run_all-stores handler 3 61 (frame_base m) switched switched-sp
        (omega (arith, ready.room, ready.end)) (omega arith) (omega arith)

  -- The words of the frame behind the stores of x1, the stack pointer, x3 to f31, and of fcsr at last.
  all_stored :
      (mem : ℕ → ℕ)
      → ((i : ℕ)
          → 0 < i
          → mem (frame_word (frame_base m) i) ≡ (
              if inside 3 61 i
              then switched.regs i
              else switched.mem (frame_word (frame_base m) i)))
      → (i : ℕ) → 0 < i
      → i ≤ 64
      → put (frame_word (frame_base m) 64) (m.regs fcsr) mem (frame_word (frame_base m) i)
        ≡ m.regs i
  all_stored mem held i some_reg small = elim (Bool-cases (i == 64)) [
    | inl last ↦
        let hit : (frame_word (frame_base m) i == frame_word (frame_base m) 64) ≡ true =
          ground arith in
        rw hit (ap m.regs {x = 64} (ground arith))
    | inr not_last ↦
        let miss : (frame_word (frame_base m) i == frame_word (frame_base m) 64) ≡ false =
          ground (arith, not_last, some_reg, small) in
        rw miss (
          held i some_reg ∙ elim (Bool-cases (inside 3 61 i)) [
            | inl within ↦ rw within (switched-regs i (ground arith) (ground arith))
            | inr outside ↦ rw outside (elim (Bool-cases (i == 1)) [
              | inl one ↦
                  subst (λ j. switched.mem (frame_word (frame_base m) j) ≡ m.regs j) {x = 1}
                    (ground arith) switched-one
              | inr not_one ↦
                  subst (λ j. switched.mem (frame_word (frame_base m) j) ≡ m.regs j) {x = 2}
                    (ground (arith, outside, not_one, not_last, some_reg, small)) switched-two
            ])
          ])
  ]

  pub saves :
      let m' = run_all handler before_call m in
      HasFrame m.regs (frame_base m) m'
      × ((m'.regs a0 ≡ frame_base m)
          × (m'.regs 11 ≡ m.regs scause)
          × (m'.regs 12 ≡ m.regs stval)
          × (m'.regs 13 ≡ m.regs sepc))
  saves =
      let place : address (switched.regs sp) 504 ≡ frame_word (frame_base m) 64 =
        omega (arith, switched-sp, ready.room, ready.end) in
      let m2 = run_all handler save_registers switched in
      (
        (
          switched-sp,
          λ i some_reg small.
              ap (λ a. put a (m.regs fcsr) m2.mem (frame_word (frame_base m) i)) place
              ∙ all_stored m2.mem stored.1 i some_reg small,
        ),
        (switched-sp, refl, refl, refl),
      )
