-- ===== src/Drivers/Uart/Chip.antt =====
-- What the driver in crates/kernel/src/drivers/ns16550a.rs relies on of the chip: its data sheet, as laws of the bus.
use novos.Prelude.{
  ℕ, ◌+◌, ◌*◌, ◌/◌, ◌%◌, ◌^◌, ◌<◌, ◌≤◌, ◌≡◌, bit_and, Bool, true, false, List, [], ◌∷◌, ◌++◌, ◌==◌,
  ltb, if◌then◌else◌,
}
use novos.Drivers.Uart.{Bus}

-- The registers that configure the chip.
pub record Setup : Type 0 where
  pub ier : ℕ
  pub fcr : ℕ
  pub lcr : ℕ
  pub divisor : ℕ

-- A write of the register at an offset. While bit 7 of LCR is set, the first two registers are the divisor latch.
abbrev pub set_register : ℕ → ℕ → Setup → Setup
set_register offset value s =
    let latch = ltb 127 s.lcr in
    record {
      ier = if offset == 1 then (if latch then s.ier else value) else s.ier;
      fcr = if offset == 2 then value else s.fcr;
      lcr = if offset == 3 then value else s.lcr;
      divisor =
          if latch
          then (if offset == 0
              then s.divisor / 256 * 256 + value
              else if offset == 1
              then value * 256 + s.divisor % 256
              else s.divisor)
          else s.divisor;
    }

-- The registers are bytes: the bus hands a write of 16 bits on as two writes, the low byte first.
pub record Configured {S : Type 0} (bus : Bus S) (base : ℕ) : Type 0 where
  pub setup : S → Setup
  pub setup-write :
      (offset value : ℕ) (s : S)
      → offset < 4
      → setup (bus.write (base + offset) value s) ≡ set_register offset value (setup s)
  pub split-write :
      (addr value : ℕ) (s : S)
      → bus.write_u16 addr value s
        ≡ bus.write (addr + 1) (value / 256) (bus.write addr (value % 256) s)

-- The side that sends, while the latch is closed: bit 6 of LSR is set once the chip has sent all it was given, which
-- takes at most `slowest` reads of the register.
pub record Transmitter {S : Type 0} (bus : Bus S) (base : ℕ) : Type 0 where
  pub latch : S → Bool
  pub sent : S → List ℕ
  pub waits : S → ℕ
  pub slowest : ℕ
  pub waits-slowest : (s : S) → waits s ≤ slowest
  pub lsr-waits : (s : S) → (bit_and (bus.read (base + 5) s).0 (2 ^ 6) == 0) ≡ ltb 0 (waits s)
  pub lsr-latch : (s : S) → latch (bus.read (base + 5) s).1 ≡ latch s
  pub lsr-sent : (s : S) → sent (bus.read (base + 5) s).1 ≡ sent s
  pub lsr-sooner : (s : S) → 0 < waits s → waits (bus.read (base + 5) s).1 < waits s
  pub lsr-ready : (s : S) → waits s ≡ 0 → waits (bus.read (base + 5) s).1 ≡ 0
  pub write-latch : (x : ℕ) (s : S) → latch s ≡ false → latch (bus.write base x s) ≡ false
  pub write-sent :
      (x : ℕ) (s : S) → latch s ≡ false → waits s ≡ 0 → sent (bus.write base x s) ≡ sent s ++ x ∷ []

-- The side that receives, while the latch is closed and no further byte comes in: bit 0 of LSR is set while bytes
-- wait to be read.
pub record Receiver {S : Type 0} (bus : Bus S) (base : ℕ) : Type 0 where
  pub latch : S → Bool
  pub pending : S → List ℕ
  pub lsr-empty : (s : S) → pending s ≡ [] → (bit_and (bus.read (base + 5) s).0 0x01 == 0) ≡ true
  pub lsr-filled :
      (s : S) (x : ℕ) (rest : List ℕ)
      → pending s ≡ x ∷ rest
      → (bit_and (bus.read (base + 5) s).0 0x01 == 0) ≡ false
  pub lsr-latch : (s : S) → latch (bus.read (base + 5) s).1 ≡ latch s
  pub lsr-pending : (s : S) → pending (bus.read (base + 5) s).1 ≡ pending s
  pub read-latch : (s : S) → latch (bus.read base s).1 ≡ latch s
  pub read-value :
      (s : S) (x : ℕ) (rest : List ℕ)
      → latch s ≡ false
      → pending s ≡ x ∷ rest
      → (bus.read base s).0 ≡ x
  pub read-pending :
      (s : S) (x : ℕ) (rest : List ℕ)
      → latch s ≡ false
      → pending s ≡ x ∷ rest
      → pending (bus.read base s).1 ≡ rest
