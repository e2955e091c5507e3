-- ===== src/Traps/Entry.antt =====
-- crates/kernel/src/trap.rs: the entry of the trap handler in assembly, on a machine of registers and 64-bit words.
pub mod Frame
pub mod Loads
pub mod Saves
pub mod Restores
use novos.Prelude.{
  ℕ, ◌+◌, ◌-◌, ◌*◌, ◌/◌, ◌%◌, ◌^◌, bit_and, bit_or, List, [], ◌∷◌, ◌++◌, ◌==◌, if◌then◌else◌,
}

-- Registers by numbers: x0 to x31, then f0 to f31 from 32 on, then the control registers. The words of memory stand
-- at multiples of eight, as the stack and the context of a hart do.
pub record Machine : Type 0 where
  pub regs : ℕ → ℕ
  pub mem : ℕ → ℕ

abbrev pub sp : ℕ
sp = 2

abbrev pub t0 : ℕ
t0 = 5

abbrev pub s0 : ℕ
s0 = 8

abbrev pub a0 : ℕ
a0 = 10

abbrev pub fcsr : ℕ
fcsr = 64

abbrev pub sscratch : ℕ
sscratch = 65

abbrev pub scause : ℕ
scause = 66

abbrev pub stval : ℕ
stval = 67

abbrev pub sepc : ℕ
sepc = 68

abbrev pub sstatus : ℕ
sstatus = 69

-- The instructions that the entry uses, with their operands in the order of the assembler; `sd` and `ld` stand for
-- `fsd` and `fld` too, `csrr` and `csrw` of fcsr for `frcsr` and `fscsr`. No instruction writes x0.
pub data Instruction : Type 0 where
  csrci : ℕ → ℕ → Instruction
  csrrw : ℕ → ℕ → ℕ → Instruction
  csrs : ℕ → ℕ → Instruction
  csrr : ℕ → ℕ → Instruction
  csrw : ℕ → ℕ → Instruction
  sd : ℕ → ℕ → ℕ → Instruction
  ld : ℕ → ℕ → ℕ → Instruction
  subtract : ℕ → ℕ → ℕ → Instruction
  li : ℕ → ℕ → Instruction
  mv : ℕ → ℕ → Instruction
  call : Instruction
  sret : Instruction

abbrev pub put : ℕ → ℕ → (ℕ → ℕ) → ℕ → ℕ
put at value f i = if i == at then value else f i

abbrev pub address : ℕ → ℕ → ℕ
address base offset = (base + offset) % 2 ^ 64

abbrev pub set_reg : ℕ → ℕ → Machine → Machine
set_reg r value m = record { regs = put r value m.regs; mem = m.mem }

-- `subtract` is `addi` with a negative number. `handler` is the function that is called.
abbrev pub execute : (Machine → Machine) → Instruction → Machine → Machine
execute handler (csrci csr imm) m = set_reg csr (bit_and (m.regs csr) (2 ^ 64 - 1 - imm)) m
execute handler (csrrw rd csr rs) m = set_reg csr (m.regs rs) (set_reg rd (m.regs csr) m)
execute handler (csrs csr rs) m = set_reg csr (bit_or (m.regs csr) (m.regs rs)) m
execute handler (csrr rd csr) m = set_reg rd (m.regs csr) m
execute handler (csrw csr rs) m = set_reg csr (m.regs rs) m
execute handler (sd rs offset base) m = record {
  regs = m.regs;
  mem = put (address (m.regs base) offset) (m.regs rs) m.mem;
}
execute handler (ld rd offset base) m = set_reg rd (m.mem (address (m.regs base) offset)) m
execute handler (subtract rd rs imm) m = set_reg rd ((m.regs rs + (2 ^ 64 - imm)) % 2 ^ 64) m
execute handler (li rd imm) m = set_reg rd imm m
execute handler (mv rd rs) m = set_reg rd (m.regs rs) m
execute handler call m = handler m
execute handler sret m = m

abbrev pub run_all : (Machine → Machine) → List Instruction → Machine → Machine
run_all handler [] m = m
run_all handler (i ∷ rest) m = run_all handler rest (execute handler i m)

abbrev pub switch_stack : List Instruction
switch_stack =
    csrci sstatus 2
    ∷ csrrw s0 sscratch s0
    ∷ sd sp 16 s0
    ∷ ld sp 8 s0
    ∷ subtract sp sp 512
    ∷ sd 1 0 sp
    ∷ ld 1 16 s0
    ∷ sd 1 8 sp
    ∷ csrrw s0 sscratch s0
    ∷ []

abbrev pub save_registers : List Instruction
save_registers =
    sd 3 16 sp
    ∷ sd 4 24 sp
    ∷ sd 5 32 sp
    ∷ sd 6 40 sp
    ∷ sd 7 48 sp
    ∷ sd 8 56 sp
    ∷ sd 9 64 sp
    ∷ sd 10 72 sp
    ∷ sd 11 80 sp
    ∷ sd 12 88 sp
    ∷ sd 13 96 sp
    ∷ sd 14 104 sp
    ∷ sd 15 112 sp
    ∷ sd 16 120 sp
    ∷ sd 17 128 sp
    ∷ sd 18 136 sp
    ∷ sd 19 144 sp
    ∷ sd 20 152 sp
    ∷ sd 21 160 sp
    ∷ sd 22 168 sp
    ∷ sd 23 176 sp
    ∷ sd 24 184 sp
    ∷ sd 25 192 sp
    ∷ sd 26 200 sp
    ∷ sd 27 208 sp
    ∷ sd 28 216 sp
    ∷ sd 29 224 sp
    ∷ sd 30 232 sp
    ∷ sd 31 240 sp
    ∷ sd 32 248 sp
    ∷ sd 33 256 sp
    ∷ sd 34 264 sp
    ∷ sd 35 272 sp
    ∷ sd 36 280 sp
    ∷ sd 37 288 sp
    ∷ sd 38 296 sp
    ∷ sd 39 304 sp
    ∷ sd 40 312 sp
    ∷ sd 41 320 sp
    ∷ sd 42 328 sp
    ∷ sd 43 336 sp
    ∷ sd 44 344 sp
    ∷ sd 45 352 sp
    ∷ sd 46 360 sp
    ∷ sd 47 368 sp
    ∷ sd 48 376 sp
    ∷ sd 49 384 sp
    ∷ sd 50 392 sp
    ∷ sd 51 400 sp
    ∷ sd 52 408 sp
    ∷ sd 53 416 sp
    ∷ sd 54 424 sp
    ∷ sd 55 432 sp
    ∷ sd 56 440 sp
    ∷ sd 57 448 sp
    ∷ sd 58 456 sp
    ∷ sd 59 464 sp
    ∷ sd 60 472 sp
    ∷ sd 61 480 sp
    ∷ sd 62 488 sp
    ∷ sd 63 496 sp
    ∷ []

abbrev pub save_status : List Instruction
save_status = csrr t0 fcsr ∷ sd t0 504 sp ∷ li t0 (2 ^ 5) ∷ csrs sstatus t0 ∷ []

abbrev pub pass_arguments : List Instruction
pass_arguments = mv a0 sp ∷ csrr 11 scause ∷ csrr 12 stval ∷ csrr 13 sepc ∷ []

abbrev pub call_handler : List Instruction
call_handler = call ∷ csrw sepc a0 ∷ []

abbrev pub restore_status : List Instruction
restore_status = ld t0 504 sp ∷ csrw fcsr t0 ∷ ld 1 0 sp ∷ []

abbrev pub restore_registers : List Instruction
restore_registers =
    ld 3 16 sp
    ∷ ld 4 24 sp
    ∷ ld 5 32 sp
    ∷ ld 6 40 sp
    ∷ ld 7 48 sp
    ∷ ld 8 56 sp
    ∷ ld 9 64 sp
    ∷ ld 10 72 sp
    ∷ ld 11 80 sp
    ∷ ld 12 88 sp
    ∷ ld 13 96 sp
    ∷ ld 14 104 sp
    ∷ ld 15 112 sp
    ∷ ld 16 120 sp
    ∷ ld 17 128 sp
    ∷ ld 18 136 sp
    ∷ ld 19 144 sp
    ∷ ld 20 152 sp
    ∷ ld 21 160 sp
    ∷ ld 22 168 sp
    ∷ ld 23 176 sp
    ∷ ld 24 184 sp
    ∷ ld 25 192 sp
    ∷ ld 26 200 sp
    ∷ ld 27 208 sp
    ∷ ld 28 216 sp
    ∷ ld 29 224 sp
    ∷ ld 30 232 sp
    ∷ ld 31 240 sp
    ∷ ld 32 248 sp
    ∷ ld 33 256 sp
    ∷ ld 34 264 sp
    ∷ ld 35 272 sp
    ∷ ld 36 280 sp
    ∷ ld 37 288 sp
    ∷ ld 38 296 sp
    ∷ ld 39 304 sp
    ∷ ld 40 312 sp
    ∷ ld 41 320 sp
    ∷ ld 42 328 sp
    ∷ ld 43 336 sp
    ∷ ld 44 344 sp
    ∷ ld 45 352 sp
    ∷ ld 46 360 sp
    ∷ ld 47 368 sp
    ∷ ld 48 376 sp
    ∷ ld 49 384 sp
    ∷ ld 50 392 sp
    ∷ ld 51 400 sp
    ∷ ld 52 408 sp
    ∷ ld 53 416 sp
    ∷ ld 54 424 sp
    ∷ ld 55 432 sp
    ∷ ld 56 440 sp
    ∷ ld 57 448 sp
    ∷ ld 58 456 sp
    ∷ ld 59 464 sp
    ∷ ld 60 472 sp
    ∷ ld 61 480 sp
    ∷ ld 62 488 sp
    ∷ ld 63 496 sp
    ∷ []

abbrev pub leave : List Instruction
leave = ld sp 8 sp ∷ sret ∷ []

abbrev pub before_call : List Instruction
before_call = switch_stack ++ (save_registers ++ (save_status ++ pass_arguments))

abbrev pub after_call : List Instruction
after_call = restore_status ++ (restore_registers ++ leave)

-- The whole of `_trap_handler`.
unfoldable pub trap_entry : List Instruction
trap_entry = before_call ++ (call_handler ++ after_call)
