-- ===== src/Drivers/Uart/Receives.antt =====
-- The interrupt handler of the serial port drains what the chip received.
use novos.Prelude.{
  ℕ, zero, suc, ◌+◌, ◌<◌, ◌≡◌, refl, ◌∙◌, Bool, true, false, List, [], ◌∷◌, ◌==◌, length,
  if◌then◌else◌, Bool-cases, inl, inr, ok, arith,
}
use novos.Drivers.Uart.{Bus, Device, data_ready, try_read, handle_interrupt, drained}
use novos.Drivers.Uart.Chip.{Receiver}

-- What the handler does with the bytes that wait: whether an `S` is among them, and what it leaves.
abbrev pub shuts_down : List ℕ → Bool
shuts_down [] = false
shuts_down (x ∷ l) = if x == b'S' then true else shuts_down l

abbrev pub behind_shutdown : List ℕ → List ℕ
behind_shutdown [] = []
behind_shutdown (x ∷ l) = if x == b'S' then l else behind_shutdown l

module _ {S : Type 0} (bus : Bus S) (device : Device) (chip : Receiver bus device.base) where
  -- While the divisor latch is closed, `handle_interrupt` returns with fuel for the bytes that wait and one more turn: it shuts the machine down at the
  -- first `S` and leaves what is behind it, or has read all of them.
  pub handle_interrupt-pending :
      (fuel : ℕ) (l : List ℕ) (s : S)
      → chip.latch s ≡ false
      → chip.pending s ≡ l
      → length l < fuel
      → (s' : S) × (handle_interrupt bus device fuel s ≡ ok (shuts_down l, s'))
        × (chip.pending s' ≡ behind_shutdown l)
  unfolding handle_interrupt try_read data_ready
  handle_interrupt-pending zero l s closed e h = absurd (omega (arith, h))
  handle_interrupt-pending (suc fuel) [] s closed e h =
      ((bus.read (device.base + 5) s).1, rw (chip.lsr-empty s e) refl, chip.lsr-pending s ∙ e)
  handle_interrupt-pending (suc fuel) (x ∷ l) s closed e h =
      let s1 = (bus.read (device.base + 5) s).1 in
      let e1 : chip.pending s1 ≡ x ∷ l = chip.lsr-pending s ∙ e in
      let closed1 : chip.latch s1 ≡ false = chip.lsr-latch s ∙ closed in
      let s2 = (bus.read device.base s1).1 in
      let left : chip.pending s2 ≡ l = chip.read-pending s1 x l closed1 e1 in
      elim (Bool-cases (x == b'S')) [
        | inl stop ↦ (
          s2,
          rw (chip.lsr-filled s x l e, chip.read-value s1 x l closed1 e1, drained, stop) refl,
          rw stop left,
        )
        | inr go ↦
            let (s', run, rest) =
              handle_interrupt-pending fuel l s2 (chip.read-latch s1 ∙ closed1) left
                (omega (arith, h)) in
            (
              s',
              rw (chip.lsr-filled s x l e, chip.read-value s1 x l closed1 e1, drained, go) run,
              rw go rest,
            )
      ]
