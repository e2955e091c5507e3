-- ===== src/Riscv/Satp.antt =====
-- crates/riscv/src/csr/satp.rs: the fields of the register and its raw bits. The instructions that read and write it
-- are not modelled: `read_bits` is what `read` makes of the value that it got.
use novos.Prelude.{
  ℕ, ◌+◌, ◌*◌, ◌/◌, ◌%◌, ◌^◌, ◌<◌, ◌≡◌, refl, ap, ap₂, ◌∙◌, bit_and, bit_or, ◌==◌, if◌then◌else◌,
  Run, ok, panic, ◌>>=◌, arith,
}
use novos.Prelude.Bits.{bit_or_high, bit_and_mask}

pub data Mode : Type 0 where
  bare sv39 sv48 : Mode

pub record Satp : Type 0 where
  pub mode : Mode
  pub asid : ℕ
  pub root_table : ℕ

abbrev pub mode_bits : Mode → ℕ
mode_bits bare = 0
mode_bits sv39 = 8
mode_bits sv48 = 9

pub as_bits : Satp → ℕ
as_bits s =
    bit_or (bit_or (s.root_table / 2 ^ 12) (s.asid * 2 ^ 44 % 2 ^ 64))
      (mode_bits s.mode * 2 ^ 60 % 2 ^ 64)

abbrev pub mode_of : ℕ → Run Mode
mode_of field =
    if field == 0
    then ok bare
    else if field == 8
    then ok sv39
    else if field == 9
    then ok sv48
    else panic

pub read_bits : ℕ → Run Satp
read_bits bits = do
  mode ← mode_of (bits / 2 ^ 60)
  ok (record {
    mode = mode;
    asid = bit_and (bits / 2 ^ 44) 0xFFFF % 2 ^ 16;
    root_table = bit_and bits 0xFFF_FFFF_FFFF * 2 ^ 12 % 2 ^ 64;
  })

as_bits-sum :
    (s : Satp)
    → s.root_table < 2 ^ 56
    → s.asid < 2 ^ 16
    → as_bits s ≡ mode_bits s.mode * 2 ^ 60 + (s.asid * 2 ^ 44 + s.root_table / 2 ^ 12)
unfolding as_bits
as_bits-sum s root asid =
    let asid_fits : s.asid * 2 ^ 44 % 2 ^ 64 ≡ s.asid * 2 ^ 44 = omega arith in
    let low =
      ap (bit_or (s.root_table / 2 ^ 12)) asid_fits
      ∙ bit_or_high 44 s.asid (s.root_table / 2 ^ 12) (omega arith) in
    ap₂ bit_or low (mode_fits s.mode)
    ∙ bit_or_high 60 (mode_bits s.mode) (s.asid * 2 ^ 44 + s.root_table / 2 ^ 12) (omega arith)
  where
    mode_fits : (m : Mode) → mode_bits m * 2 ^ 60 % 2 ^ 64 ≡ mode_bits m * 2 ^ 60
    mode_fits bare = refl
    mode_fits sv39 = refl
    mode_fits sv48 = refl

-- Reading the bits that `as_bits` made of a root table on a page below 2 ^ 56 and a 16-bit `asid` gives the same fields.
pub read_bits-as_bits :
    (s : Satp)
    → s.root_table < 2 ^ 56
    → s.root_table % 4096 ≡ 0
    → s.asid < 2 ^ 16
    → read_bits (as_bits s) ≡ ok s
unfolding read_bits
read_bits-as_bits s root page asid =
    let sum = as_bits-sum s root asid in
    let mode : as_bits s / 2 ^ 60 ≡ mode_bits s.mode = omega (arith, sum) in
    let asid_back : bit_and (as_bits s / 2 ^ 44) 0xFFFF % 2 ^ 16 ≡ s.asid =
      ap (λ n. n % 2 ^ 16) (bit_and_mask 16 (as_bits s / 2 ^ 44)) ∙ omega (arith, sum) in
    let root_back : bit_and (as_bits s) 0xFFF_FFFF_FFFF * 2 ^ 12 % 2 ^ 64 ≡ s.root_table =
      ap (λ n. n * 2 ^ 12 % 2 ^ 64) (bit_and_mask 44 (as_bits s)) ∙ omega (arith, sum) in
    let mode_back = ap mode_of mode ∙ known s.mode in rw (mode_back, asid_back, root_back) refl
  where
    known : (m : Mode) → mode_of (mode_bits m) ≡ ok m
    known bare = refl
    known sv39 = refl
    known sv48 = refl
