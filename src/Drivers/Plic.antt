-- ===== src/Drivers/Plic.antt =====
-- crates/kernel/src/drivers/plic.rs: the interrupt controller. The registers are a memory of 32-bit words, by their addresses.
pub mod Enable
pub mod Priorities
use novos.Prelude.{
  ℕ, zero, suc, ◌+◌, ◌-◌, ◌*◌, ◌/◌, ◌%◌, ◌^◌, ◌<◌, ◌≡◌, bit_and, bit_or, List, [], ◌∷◌, Option,
  none, some, ltb, ◌==◌, if◌then◌else◌, Run, ok, panic, ◌>>=◌, Bool, add_usize, mul_usize,
}
use novos.DeviceTree.Level.{Node}
use novos.DeviceTree.Chosen.{compatible_with}
use novos.Drivers.Node.{first_start, prop_u32}

-- The crate voladdress: the address of an element of a block of words, and of a series with a stride. Inside of their
-- bounds an element is where an array has it; outside the access panics.
pub record Volatile : Type 0 where
  pub block_index : ℕ → ℕ → ℕ → Run ℕ
  pub series_index : ℕ → ℕ → ℕ → ℕ → Run ℕ
  pub block_inside : (count base i : ℕ) → i < count → block_index count base i ≡ ok (base + 4 * i)
  pub block_outside : (count base i : ℕ) → (i < count → ⊥) → block_index count base i ≡ panic
  pub series_inside :
      (count stride base i : ℕ)
      → i < count
      → series_index count stride base i ≡ ok (base + stride * i)
  pub series_outside :
      (count stride base i : ℕ) → (i < count → ⊥) → series_index count stride base i ≡ panic

abbrev pub context_count : ℕ
context_count = 15872

abbrev pub default_priority : ℕ
default_priority = 1

-- A context is its index. The three blocks are their base addresses.
pub record Controller : Type 0 where
  pub max_interrupts : ℕ
  pub priorities : ℕ
  pub enable : ℕ
  pub threshold_claim : ℕ

abbrev pub Registers : Type 0
Registers = ℕ → ℕ

abbrev pub write_register : ℕ → ℕ → Registers → Registers
write_register addr value regs at = if at == addr then value else regs at

unfoldable pub enable_idx_bit : ℕ → ℕ → Run (ℕ × ℕ)
enable_idx_bit ctx id = do
  first ← mul_usize ctx 32
  entry ← add_usize first (id / 32)
  ok (entry, id % 32)

-- The guard of a claimed interrupt.
pub record ClaimGuard : Type 0 where
  pub id : ℕ
  pub claim : ℕ

module _ (vol : Volatile) where
  abbrev pub enable_addr : Controller → ℕ → Run ℕ
  enable_addr c entry = vol.block_index (context_count * 32) c.enable entry

  unfoldable pub enable_interrupt : Controller → ℕ → ℕ → Registers → Run Registers
  unfolding enable_idx_bit
  enable_interrupt c ctx id regs = if id == 0 then panic else do
    (entry, bit) ← enable_idx_bit ctx id
    addr ← enable_addr c entry
    ok (write_register addr (bit_or (regs addr) (2 ^ bit)) regs)

  -- `!x` on a `u32`.
  unfoldable pub disable_interrupt : Controller → ℕ → ℕ → Registers → Run Registers
  unfolding enable_idx_bit
  disable_interrupt c ctx id regs = if id == 0 then panic else do
    (entry, bit) ← enable_idx_bit ctx id
    addr ← enable_addr c entry
    ok (write_register addr (bit_and (regs addr) (2 ^ 32 - 1 - 2 ^ bit)) regs)

  abbrev pub threshold_addr : Controller → ℕ → Run ℕ
  threshold_addr c ctx = vol.series_index context_count 4096 c.threshold_claim ctx

  -- `claimed` is the answer of the device to the read of a claim register, a word behind the threshold.
  unfoldable pub claim : Controller → (ℕ → ℕ) → ℕ → Run (Option ClaimGuard)
  claim c claimed ctx = do
    addr ← threshold_addr c ctx
    ok (
        if claimed (addr + 4) == 0
        then none
        else some (record { id = claimed (addr + 4); claim = addr + 4 }))

  unfoldable pub set_threshold : Controller → ℕ → ℕ → Registers → Run Registers
  set_threshold c ctx threshold regs = do
    addr ← threshold_addr c ctx
    ok (write_register addr threshold regs)

  unfoldable pub write_priority : Controller → ℕ → ℕ → Registers → Run Registers
  write_priority c id priority regs = do
    addr ← vol.block_index 1024 c.priorities id
    ok (write_register addr priority regs)

  unfoldable pub set_priority : Controller → ℕ → ℕ → Registers → Run Registers
  unfolding write_priority
  set_priority c id priority regs = if id == 0 then panic else write_priority c id priority regs

  -- `for id in 1..self.max_interrupts`: `left` rounds from `id` on.
  unfoldable pub init_from : Controller → ℕ → ℕ → Registers → Run Registers
  unfolding write_priority
  init_from c zero id regs = ok regs
  init_from c (suc left) id regs = do
    regs' ← write_priority c id default_priority regs
    init_from c left (suc id) regs'

  unfoldable pub init : Controller → Registers → Run Registers
  unfolding init_from
  init c regs = init_from c (c.max_interrupts - 1) 1 regs

-- `finish` writes the id back to the register that it was claimed from.
unfoldable pub finish : ClaimGuard → Registers → Registers
finish guard regs = write_register guard.claim guard.id regs

abbrev pub plic_name : List ℕ
plic_name = b'r' ∷ b'i' ∷ b's' ∷ b'c' ∷ b'v' ∷ b',' ∷ b'p' ∷ b'l' ∷ b'i' ∷ b'c' ∷ b'0' ∷ []

abbrev pub ndev_name : List ℕ
ndev_name = b'r' ∷ b'i' ∷ b's' ∷ b'c' ∷ b'v' ∷ b',' ∷ b'n' ∷ b'd' ∷ b'e' ∷ b'v' ∷ []

unfoldable pub plic_compatible : Node → Run Bool
plic_compatible node = compatible_with node plic_name

abbrev pub controller_at : ℕ → Option ℕ → Run (Option Controller)
controller_at base none = ok none
controller_at base (some ndev) = do
  enable ← add_usize base 0x2000
  threshold_claim ← add_usize base 0x200000
  ok (
      some (record {
        max_interrupts = ndev;
        priorities = base;
        enable = enable;
        threshold_claim = threshold_claim;
      }))

abbrev pub with_base : Node → Option ℕ → Run (Option Controller)
with_base node none = ok none
with_base node (some base) = prop_u32 node ndev_name >>= controller_at base

unfoldable pub plic_from_node : Node → Run (Option Controller)
unfolding first_start prop_u32
plic_from_node node = first_start node >>= with_base node
