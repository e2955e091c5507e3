-- ===== src/Drivers/Uart.antt =====
-- crates/kernel/src/drivers/ns16550a.rs: the serial port. The chip is a state that reads and writes of its registers change.
pub mod Chip
pub mod Sends
pub mod Receives
use novos.Prelude.{
  ℕ, zero, suc, ◌+◌, ◌*◌, ◌/◌, ◌%◌, ◌^◌, bit_and, bit_or, Bool, true, false, not, List, [], ◌∷◌,
  Option, none, some, ◌==◌, if◌then◌else◌, Run, ok, out_of_fuel, ◌>>=◌,
}
use novos.DeviceTree.Level.{Node}
use novos.DeviceTree.Chosen.{compatible_with}
use novos.Drivers.Node.{first_start, prop_u32}

-- `read_volatile` and `write_volatile` of a byte at an address, and `write_volatile` of a `u16`.
pub record Bus (S : Type 0) : Type 0 where
  pub read : ℕ → S → ℕ × S
  pub write : ℕ → ℕ → S → S
  pub write_u16 : ℕ → ℕ → S → S

pub record Device : Type 0 where
  pub interrupt_id : ℕ
  pub base : ℕ

module _ {S : Type 0} (bus : Bus S) (device : Device) where
  unfoldable pub init : S → S
  init s =
      let ptr = device.base in
      let s1 = bus.write (ptr + 2) 0x01 s in
      let s2 = bus.write (ptr + 3) 0x03 s1 in
      let s3 = bus.write (ptr + 1) 0x01 s2 in
      let s4 = bus.write (ptr + 3) (bit_or (2 ^ 7) 0x03) s3 in
      let s5 = bus.write_u16 ptr 592 s4 in bus.write (ptr + 3) 0x03 s5

  unfoldable pub data_ready : S → Bool × S
  data_ready s =
      let (value, s') = bus.read (device.base + 5) s in (not (bit_and value 0x01 == 0), s')

  unfoldable pub transmitter_empty : S → Bool × S
  transmitter_empty s =
      let (value, s') = bus.read (device.base + 5) s in (not (bit_and value (2 ^ 6) == 0), s')

  unfoldable pub read_data : S → ℕ × S
  read_data s = bus.read device.base s

  unfoldable pub write_data : ℕ → S → S
  write_data x s = bus.write device.base x s

  abbrev pub read_if : Bool × S → Option ℕ × S
  read_if (true, s) = let (value, s') = bus.read device.base s in (some value, s')
  read_if (false, s) = (none, s)

  unfoldable pub try_read : S → Option ℕ × S
  unfolding data_ready
  try_read s = read_if (data_ready s)

  abbrev pub write_if : ℕ → Bool × S → Option ℕ × S
  write_if x (true, s) = (none, bus.write device.base x s)
  write_if x (false, s) = (some x, s)

  unfoldable pub try_write : ℕ → S → Option ℕ × S
  unfolding transmitter_empty
  try_write x s = write_if x (transmitter_empty s)

  -- `while !ready {}`, behind which the state is that of the last read.
  abbrev pub again : (S → Run S) → Bool × S → Run S
  again rest (true, s) = ok s
  again rest (false, s) = rest s

  unfoldable pub spin : ℕ → (S → Bool × S) → S → Run S
  spin zero ready s = out_of_fuel
  spin (suc fuel) ready s = again (spin fuel ready) (ready s)

  unfoldable pub read : ℕ → S → Run (ℕ × S)
  unfolding spin data_ready read_data
  read fuel s = do s' ← spin fuel data_ready s; ok (read_data s')

  unfoldable pub write : ℕ → ℕ → S → Run S
  unfolding spin transmitter_empty write_data
  write fuel x s = do s' ← spin fuel transmitter_empty s; ok (write_data x s')

  -- `write_str`, over the bytes of the string.
  unfoldable pub write_str : ℕ → List ℕ → S → Run S
  unfolding write
  write_str fuel [] s = ok s
  write_str fuel (x ∷ bytes) s = do s' ← write fuel x s; write_str fuel bytes s'

  -- `handle_interrupt`: `true` if it shut the machine down, which does not return.
  abbrev pub drained : (S → Run (Bool × S)) → Option ℕ × S → Run (Bool × S)
  drained rest (none, s) = ok (false, s)
  drained rest (some c, s) = elim (c == b'S') [ true ↦ ok (true, s) | false ↦ rest s ]

  unfoldable pub handle_interrupt : ℕ → S → Run (Bool × S)
  unfolding try_read
  handle_interrupt zero s = out_of_fuel
  handle_interrupt (suc fuel) s = drained (handle_interrupt fuel) (try_read s)

abbrev pub uart_name : List ℕ
uart_name = b'n' ∷ b's' ∷ b'1' ∷ b'6' ∷ b'5' ∷ b'5' ∷ b'0' ∷ b'a' ∷ []

abbrev pub interrupts_name : List ℕ
interrupts_name = b'i' ∷ b'n' ∷ b't' ∷ b'e' ∷ b'r' ∷ b'r' ∷ b'u' ∷ b'p' ∷ b't' ∷ b's' ∷ []

unfoldable pub uart_compatible : Node → Run Bool
uart_compatible node = compatible_with node uart_name

abbrev pub device_with : ℕ → Option ℕ → Option Device
device_with base none = none
device_with base (some id) = some (record { interrupt_id = id; base = base })

-- `NonNull::new(base)?`
abbrev pub at_base : Node → Option ℕ → Run (Option Device)
at_base node none = ok none
at_base node (some base) =
    if base == 0 then ok none else (do id ← prop_u32 node interrupts_name; ok (device_with base id))

unfoldable pub uart_from_node : Node → Run (Option Device)
unfolding first_start prop_u32
uart_from_node node = first_start node >>= at_base node
