-- ===== src/DeviceTree/Bytes/Rounding.antt =====
-- `align_up` of crates/devicetree/src/lib.rs: rounding up to a power of two.
use novos.Prelude.{
  ℕ, zero, suc, ◌+◌, ◌-◌, ◌*◌, ◌/◌, ◌^◌, ◌≤◌, ◌<◌, ◌≡◌, refl, ap, ◌∙◌, Run, ok, ◌>>=◌, add_usize,
  sub_usize, usize_max, bit_and, le→not-ltb, arith,
}
use novos.Prelude.Bits.{bit_and_shifted, bit_and_mask, two_pow_suc}
use native.Mathlib.Nat.{div-add-mod, mod-lt, one-le-pow, mod-eq_of_lt, div-lt_iff_lt-mul}

unfoldable pub align_up : ℕ → ℕ → Run ℕ
align_up val alignment = do
  mask ← sub_usize alignment 1
  up ← add_usize val mask
  ok (bit_and up (usize_max - mask))

two_pow_add : (a b : ℕ) → 2 ^ (a + b) ≡ 2 ^ a * 2 ^ b
two_pow_add a zero = let nothing : a + 0 ≡ a = omega arith in ap (λ n. 2 ^ n) nothing ∙ omega arith
two_pow_add a (suc b) =
    let sum : a + suc b ≡ suc (a + b) = omega arith in
    ap (λ n. 2 ^ n) sum
    ∙ omega (arith, two_pow_suc (a + b), two_pow_add a b, ap (λ (t : ℕ). 2 ^ a * t) (two_pow_suc b))

-- The blocks of `2 ^ k` bytes that `n` bytes touch.
abbrev pub whole_blocks : ℕ → ℕ → ℕ
whole_blocks k n = (n + (2 ^ k - 1)) / 2 ^ k

high_part : (p q : ℕ) → suc q * suc p ≡ 2 ^ 64 → usize_max - (suc p - 1) ≡ (suc q - 1) * suc p
high_part p q both = grind arith

is_suc : (n : ℕ) → 1 ≤ n → n ≡ suc (n - 1)
is_suc n h = omega arith

module _ (k n : ℕ) (fits : n + (2 ^ k - 1) ≤ usize_max) (j : ℕ) (width : k + j ≡ 64) where
  both : 2 ^ j * 2 ^ k ≡ 2 ^ 64
  both = omega (arith, two_pow_add k j, ap (λ (w : ℕ). 2 ^ w) width)

  mask_high : usize_max - (2 ^ k - 1) ≡ (2 ^ j - 1) * 2 ^ k
  mask_high =
      let p = is_suc (2 ^ k) (one-le-pow k 2 (omega arith)) in
      let q = is_suc (2 ^ j) (one-le-pow j 2 (omega arith)) in
      rw (p, q) (high_part (2 ^ k - 1) (2 ^ j - 1) (rw (p, q) at both))

  few_blocks : whole_blocks k n < 2 ^ j
  few_blocks = (div-lt_iff_lt-mul (one-le-pow k 2 (omega arith))).1 (omega (arith, both))

  keeps_blocks : bit_and (n + (2 ^ k - 1)) (usize_max - (2 ^ k - 1)) ≡ whole_blocks k n * 2 ^ k
  keeps_blocks =
      ap (bit_and (n + (2 ^ k - 1))) mask_high
      ∙ (bit_and_shifted k (n + (2 ^ k - 1)) (2 ^ j - 1)
          ∙ ap (λ q. q * 2 ^ k) (bit_and_mask j (whole_blocks k n) ∙ mod-eq_of_lt few_blocks))

  -- `align_up` to a power of two returns the least multiple of it that is not below the value.
  pub align_up-least :
      (m : ℕ) × (align_up n (2 ^ k) ≡ ok (m * 2 ^ k)) × (n ≤ m * 2 ^ k) × (m * 2 ^ k < n + 2 ^ k)
  unfolding align_up
  align_up-least =
      let pos = one-le-pow k 2 (omega arith) in
      let whole = div-add-mod (n + (2 ^ k - 1)) (2 ^ k) in
      let low = mod-lt (n + (2 ^ k - 1)) pos in
      (
        whole_blocks k n,
        rw (le→not-ltb (2 ^ k) 1 pos, le→not-ltb usize_max (n + (2 ^ k - 1)) fits, keeps_blocks)
            refl,
        omega (arith, whole, low),
        omega (arith, whole, low),
      )

-- The bytes that `n` bytes take with their padding to a word.
abbrev pub padded : ℕ → ℕ
padded n = whole_blocks 2 n * 4

pub align_up-padded : (n : ℕ) → n + 3 ≤ usize_max → align_up n 4 ≡ ok (padded n)
unfolding align_up
align_up-padded n fits = rw (le→not-ltb usize_max (n + 3) fits, keeps_blocks 2 n fits 62 refl) refl
