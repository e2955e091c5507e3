-- ===== src/Drivers/Plic/Priorities.antt =====
-- The priorities that `init` of the interrupt controller writes.
use novos.Prelude.{
  ℕ, zero, suc, ◌+◌, ◌-◌, ◌*◌, ◌≤◌, ◌<◌, ◌≡◌, refl, ◌∙◌, ◌&&◌, Bool-cases, inl, inr, ltb, leb,
  if◌then◌else◌, ok, panic, arith,
}
use novos.Drivers.Plic.{
  Volatile, Controller, Registers, default_priority, write_register, write_priority, init_from,
  init,
}

-- The register of an interrupt's priority.
abbrev pub priority : Controller → Registers → ℕ → ℕ
priority c regs id = regs (c.priorities + 4 * id)

module _ (vol : Volatile) (c : Controller) where
  init_from_lem :
      (left id : ℕ) (regs : Registers)
      → id + left ≤ 1024
      → (regs' : Registers) × (init_from vol c left id regs ≡ ok regs')
        × ((other : ℕ)
            → priority c regs' other ≡ (
                if leb id other && ltb other (id + left)
                then default_priority
                else priority c regs other))
  unfolding init_from write_priority
  init_from_lem zero id regs h = (regs, refl, λ other. ground arith)
  init_from_lem (suc left) id regs h =
      let once = write_register (c.priorities + 4 * id) default_priority regs in
      let (regs', run, all) = init_from_lem left (suc id) once (omega arith) in
      (
        regs',
        rw (vol.block_inside 1024 c.priorities id (omega arith)) run,
        λ other. all other ∙ ground arith,
      )

  init_from_panics :
      (left id : ℕ) (regs : Registers)
      → 1024 < id + left
      → id ≤ 1024
      → init_from vol c left id regs ≡ panic
  unfolding init_from write_priority
  init_from_panics zero id regs h k = absurd (omega arith)
  init_from_panics (suc left) id regs h k = elim (Bool-cases (ltb id 1024)) [
    | inl inside ↦ rw (vol.block_inside 1024 c.priorities id (ground arith)) (
        init_from_panics left (suc id)
          (write_register (c.priorities + 4 * id) default_priority regs) (omega arith)
          (ground arith))
    | inr outside ↦ rw (vol.block_outside 1024 c.priorities id (λ below. ground arith)) refl
  ]

  -- `init` gives the default priority to the interrupts from 1 up to `max_interrupts`, that one excluded, and to no
  -- other, when the controller has at most 1024; with more of them it panics.
  pub init-priorities :
      (regs : Registers)
      → (c.max_interrupts ≤ 1024
          → (regs' : Registers) × (init vol c regs ≡ ok regs')
            × ((id : ℕ)
                → priority c regs' id
                  ≡ (if leb 1 id && ltb id c.max_interrupts then 1 else priority c regs id)))
        × (1024 < c.max_interrupts → init vol c regs ≡ panic)
  unfolding init
  init-priorities regs = (
    λ few.
        let (regs', run, all) = init_from_lem (c.max_interrupts - 1) 1 regs (omega arith) in
        (regs', run, λ id. all id ∙ ground arith),
    λ many. init_from_panics (c.max_interrupts - 1) 1 regs (omega arith) (omega arith),
  )
