-- ===== src/Drivers/Uart/Sends.antt =====
-- The driver of the serial port configures the chip and sends the bytes of a string.
use novos.Prelude.{
  ℕ, zero, suc, ◌+◌, ◌<◌, ◌≡◌, refl, sym, ap, ◌∙◌, false, List, [], ◌∷◌, ◌++◌, ltb, Bool-cases, inl,
  inr, ok, arith,
}
use mathlib.Core.List.{append_assoc, append-nil}
use novos.Drivers.Uart.{Bus, Device, init, transmitter_empty, spin, write_data, write, write_str}
use novos.Drivers.Uart.Chip.{Setup, Configured, Transmitter, set_register}

module _ {S : Type 0} (bus : Bus S) (device : Device) (chip : Transmitter bus device.base) where
  -- The loop ends with a chip that has sent what it had.
  spin-transmitter_empty :
      (fuel : ℕ) (s : S)
      → chip.waits s < fuel
      → (s' : S) × (spin bus device fuel (transmitter_empty bus device) s ≡ ok s')
        × (chip.latch s' ≡ chip.latch s)
        × (chip.sent s' ≡ chip.sent s)
        × (chip.waits s' ≡ 0)
  unfolding spin transmitter_empty
  spin-transmitter_empty zero s h = absurd (omega (arith, h))
  spin-transmitter_empty (suc fuel) s h = elim (Bool-cases (ltb 0 (chip.waits s))) [
    | inl busy ↦
        let s1 = (bus.read (device.base + 5) s).1 in
        let (s', run, closed, same, ready) =
          spin-transmitter_empty fuel s1 (omega (arith, chip.lsr-sooner s (ground arith))) in
        (
          s',
          rw (chip.lsr-waits s ∙ busy) run,
          closed ∙ chip.lsr-latch s,
          same ∙ chip.lsr-sent s,
          ready,
        )
    | inr idle ↦ (
      (bus.read (device.base + 5) s).1,
      rw (chip.lsr-waits s ∙ idle) refl,
      chip.lsr-latch s,
      chip.lsr-sent s,
      chip.lsr-ready s (ground arith),
    )
  ]

  -- While the divisor latch is closed, `write_str` returns when every wait has fuel for more than the slowest transmission, and then the chip has sent
  -- the bytes of the string in their order behind what it sent before.
  pub write_str-sent :
      (fuel : ℕ) (bytes : List ℕ) (s : S)
      → chip.latch s ≡ false
      → chip.slowest < fuel
      → (s' : S) × (write_str bus device fuel bytes s ≡ ok s')
        × (chip.sent s' ≡ chip.sent s ++ bytes)
  unfolding write_str write write_data
  write_str-sent fuel [] s closed h = (s, refl, sym (append-nil (chip.sent s)))
  write_str-sent fuel (x ∷ bytes) s closed h =
      let (s1, waited, still, same, ready) =
        spin-transmitter_empty fuel s (omega (arith, h, chip.waits-slowest s)) in
      let s2 = bus.write device.base x s1 in
      let (s', run, all) =
        write_str-sent fuel bytes s2 (chip.write-latch x s1 (still ∙ closed)) h in
      (
        s',
        rw waited run,
        all
            ∙ (ap (λ l. l ++ bytes)
                  (chip.write-sent x s1 (still ∙ closed) ready ∙ ap (λ l. l ++ x ∷ []) same)
                ∙ append_assoc (chip.sent s) (x ∷ []) bytes),
      )

abbrev setup_with : ℕ → Setup
setup_with divisor = record { ier = 1; fcr = 1; lcr = 3; divisor = divisor }

module _ {S : Type 0} (bus : Bus S) (device : Device) (chip : Configured bus device.base) where
  wrote :
      (offset value : ℕ) (s : S) (t : Setup)
      → offset < 4
      → chip.setup s ≡ t
      → chip.setup (bus.write (device.base + offset) value s) ≡ set_register offset value t
  wrote offset value s t h e = chip.setup-write offset value s h ∙ ap (set_register offset value) e

  wrote_base :
      (value : ℕ) (s : S) (t : Setup)
      → chip.setup s ≡ t
      → chip.setup (bus.write device.base value s) ≡ set_register 0 value t
  wrote_base value s t e =
      let place : device.base ≡ device.base + 0 = omega arith in
      ap (λ a. chip.setup (bus.write a value s)) place ∙ wrote 0 value s t (omega arith) e

  -- On a bus that hands a write of 16 bits on as two of a byte, the low one first, and with the registers of
  -- the data sheet, `init` leaves the chip with its buffers on, words of eight bits, the interrupt for
  -- received data and the divisor 592, whatever its state was, and with the latch of the divisor closed.
  pub init-setup :
      (s : S) → chip.setup (init bus device s) ≡ record { ier = 1; fcr = 1; lcr = 3; divisor = 592 }
  unfolding init
  init-setup s =
      let s1 = wrote 2 0x01 s (chip.setup s) (omega arith) refl in
      let s2 = wrote 3 0x03 _ _ (omega arith) s1 in
      let s3 = wrote 1 0x01 _ _ (omega arith) s2 in
      let s4 = wrote 3 131 _ _ (omega arith) s3 in
      let split = chip.split-write device.base 592 _ in
      let s5 = wrote_base 80 _ _ s4 in
      let s6 = wrote 1 2 _ _ (omega arith) s5 in
      ap (λ t. chip.setup (bus.write (device.base + 3) 0x03 t)) split
      ∙ wrote 3 0x03 _ _ (omega arith) s6
      ∙ ap setup_with (omega arith)
