-- ===== src/Drivers/Tests.antt =====
-- The drivers with a concrete interrupt controller and a concrete serial port.
use novos.Prelude.{
  ℕ, ◌+◌, ◌/◌, ◌-◌, ◌*◌, ◌%◌, ◌^◌, ◌<◌, ◌≤◌, ◌≡◌, refl, ap, min, bit_and, Bool, true, false, not,
  ◌&&◌, List, [], ◌∷◌, ◌++◌, ltb, leb, ◌==◌, if◌then◌else◌, ok, panic, arith,
}
use novos.Drivers.Plic.{
  Volatile, Controller, Registers, context_count, default_priority, enable_interrupt,
  disable_interrupt,
}
use novos.Drivers.Plic
use novos.Drivers.Plic.Enable.{enabled, same_pair, enable-disable}
use novos.Drivers.Plic.Priorities.{priority, init-priorities}
use novos.Drivers.Uart
use novos.Drivers.Uart.{Bus, Device, write_str, handle_interrupt}
use novos.Drivers.Uart.Chip.{Setup, Configured, Transmitter, Receiver, set_register}
use novos.Drivers.Uart.Sends.{write_str-sent, init-setup}
use novos.Drivers.Uart.Receives.{handle_interrupt-pending}

-- The addresses of arrays.
abbrev arrays : Volatile
arrays = record {
  block_index = λ count base i. if ltb i count then ok (base + 4 * i) else panic;
  series_index = λ count stride base i. if ltb i count then ok (base + stride * i) else panic;
  block_inside = λ count base i h. ground (arith, h);
  block_outside = λ count base i h. ground (arith, h);
  series_inside = λ count stride base i h. ground (arith, h);
  series_outside = λ count stride base i h. ground (arith, h);
}

-- A serial port with the bytes that came in, those that were sent, and how long the last one still takes.
record Port : Type 0 where
  pub setup : Setup
  pub received : List ℕ
  pub transmitted : List ℕ
  pub delay : ℕ

abbrev port_base : ℕ
port_base = 0x1000_0000

abbrev latched : Port → Bool
latched s = ltb 127 s.setup.lcr

abbrev lsr : Bool → List ℕ → ℕ
lsr true [] = 0
lsr true (x ∷ l) = 1
lsr false [] = 64
lsr false (x ∷ l) = 65

abbrev data_register : Bool → List ℕ → Port → ℕ × Port
data_register true l s = (s.setup.divisor % 256, s)
data_register false [] s = (0, s)
data_register false (x ∷ l) s =
    (x, record { setup = s.setup; received = l; transmitted = s.transmitted; delay = s.delay })

abbrev after_status : Port → Port
after_status s = record {
  setup = s.setup;
  received = s.received;
  transmitted = s.transmitted;
  delay = min s.delay 3 - 1;
}

abbrev port_read : ℕ → Port → ℕ × Port
port_read addr s =
    if addr == port_base + 5
    then (lsr (ltb 0 (min s.delay 3)) s.received, after_status s)
    else if addr == port_base
    then data_register (latched s) s.received s
    else (0, s)

abbrev sends : ℕ → Port → Bool
sends addr s = addr == port_base && not (latched s)

abbrev port_write : ℕ → ℕ → Port → Port
port_write addr value s = record {
  setup = set_register (addr - port_base) value s.setup;
  received = s.received;
  transmitted = if sends addr s then s.transmitted ++ value ∷ [] else s.transmitted;
  delay = if sends addr s then 3 else s.delay;
}

abbrev port_bus : Bus Port
port_bus = record {
  read = port_read;
  write = port_write;
  write_u16 = λ addr value s. port_write (addr + 1) (value / 256) (port_write addr (value % 256) s);
}

abbrev port_device : Device
port_device = record { interrupt_id = 10; base = port_base }

lsr-bit_six : (busy : Bool) (l : List ℕ) → (bit_and (lsr busy l) (2 ^ 6) == 0) ≡ busy
lsr-bit_six true [] = refl
lsr-bit_six true (x ∷ l) = refl
lsr-bit_six false [] = refl
lsr-bit_six false (x ∷ l) = refl

lsr-bit_zero : (busy : Bool) (x : ℕ) (l : List ℕ) → (bit_and (lsr busy (x ∷ l)) 1 == 0) ≡ false
lsr-bit_zero true x l = refl
lsr-bit_zero false x l = refl

lsr-bit_zero_empty : (busy : Bool) → (bit_and (lsr busy []) 1 == 0) ≡ true
lsr-bit_zero_empty true = refl
lsr-bit_zero_empty false = refl

abbrev port_configured : Configured port_bus port_base
port_configured = record {
  split-write = λ addr value s. refl;
  setup = λ s. s.setup;
  setup-write = λ offset value s h. ap (λ (o : ℕ). set_register o value s.setup) (omega arith);
}

abbrev port_transmitter : Transmitter port_bus port_base
port_transmitter = record {
  latch = latched;
  sent = λ s. s.transmitted;
  waits = λ s. min s.delay 3;
  slowest = 3;
  waits-slowest = λ s. omega arith;
  lsr-waits = λ s. lsr-bit_six (ltb 0 (min s.delay 3)) s.received;
  lsr-latch = λ s. refl;
  lsr-sent = λ s. refl;
  lsr-sooner = λ s h. omega (arith, h);
  lsr-ready = λ s h. omega (arith, h);
  write-latch = λ x s h. h;
  write-sent = λ x s h idle. rw h refl;
}

data_register-latched :
    (b : Bool) (l : List ℕ) (s : Port) → latched (data_register b l s).1 ≡ latched s
data_register-latched true l s = refl
data_register-latched false [] s = refl
data_register-latched false (x ∷ l) s = refl

abbrev port_receiver : Receiver port_bus port_base
port_receiver = record {
  latch = latched;
  pending = λ s. s.received;
  lsr-empty = λ s h. rw h (lsr-bit_zero_empty (ltb 0 (min s.delay 3)));
  lsr-filled = λ s x rest h. rw h (lsr-bit_zero (ltb 0 (min s.delay 3)) x rest);
  lsr-latch = λ s. refl;
  lsr-pending = λ s. refl;
  read-latch = λ s. data_register-latched (latched s) s.received s;
  read-value = λ s x rest h e. rw (h, e) refl;
  read-pending = λ s x rest h e. rw (h, e) refl;
}

abbrev after_reset : Port
after_reset = record {
  setup = record { ier = 0; fcr = 0; lcr = 0; divisor = 12 };
  received = b'a' ∷ b'S' ∷ b'b' ∷ [];
  transmitted = [];
  delay = 2;
}

init-setup_example :
    (novos.Drivers.Uart.init port_bus port_device after_reset).setup
    ≡ record { ier = 1; fcr = 1; lcr = 3; divisor = 592 }
init-setup_example = init-setup port_bus port_device port_configured after_reset

write_str-sent_example :
    (s' : Port) × (write_str port_bus port_device 4 (b'h' ∷ b'i' ∷ []) after_reset ≡ ok s')
    × (s'.transmitted ≡ b'h' ∷ b'i' ∷ [])
write_str-sent_example =
    write_str-sent port_bus port_device port_transmitter 4 (b'h' ∷ b'i' ∷ []) after_reset refl
      (omega arith)

-- The `S` is the second of three bytes.
handle_interrupt-pending_example :
    (s' : Port) × (handle_interrupt port_bus port_device 4 after_reset ≡ ok (true, s'))
    × (s'.received ≡ b'b' ∷ [])
handle_interrupt-pending_example =
    handle_interrupt-pending port_bus port_device port_receiver 4 (b'a' ∷ b'S' ∷ b'b' ∷ [])
      after_reset refl refl (omega arith)

abbrev sample_controller : Controller
sample_controller = record {
  max_interrupts = 53;
  priorities = 0xc00_0000;
  enable = 0xc00_2000;
  threshold_claim = 0xc20_0000;
}

abbrev cleared : Registers
cleared addr = 0

enable-disable_example :
    ((regs' : Registers) × (enable_interrupt arrays sample_controller 1 10 cleared ≡ ok regs')
      × ((ctx' id' : ℕ)
          → id' < 1024
          → enabled sample_controller regs' ctx' id'
            ≡ (if same_pair 1 10 ctx' id' then 1 else enabled sample_controller cleared ctx' id')))
    × ((regs' : Registers) × (disable_interrupt arrays sample_controller 1 10 cleared ≡ ok regs')
        × ((ctx' id' : ℕ)
            → id' < 1024
            → enabled sample_controller regs' ctx' id' ≡ (
                if same_pair 1 10 ctx' id' then 0 else enabled sample_controller cleared ctx' id')))
enable-disable_example =
    enable-disable arrays sample_controller 1 10 (omega arith) (omega arith, omega arith) cleared

init-priorities_example :
    (53 ≤ 1024
      → (regs' : Registers) × (novos.Drivers.Plic.init arrays sample_controller cleared ≡ ok regs')
        × ((id : ℕ)
            → priority sample_controller regs' id
              ≡ (if leb 1 id && ltb id 53 then 1 else priority sample_controller cleared id)))
    × (1024 < 53 → novos.Drivers.Plic.init arrays sample_controller cleared ≡ panic)
init-priorities_example = init-priorities arrays sample_controller cleared
