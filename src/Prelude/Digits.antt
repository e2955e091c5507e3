-- ===== src/Prelude/Digits.antt =====
-- The digits of what the bit operations make with one set bit and with a mask that lacks one.
use Prim.Native.Nat.{ℕ, zero, suc, ◌-◌, ◌/◌, ◌%◌, ◌^◌, ◌≤◌, ◌<◌, min, max, bit_and, bit_or}
use mathlib.Core.Path.{◌≡◌, sym, ap, ap₂, ◌∙◌}
use native.Mathlib.Nat.{one-le-pow, pow-le-pow_right}
use native.Mathlib.Omega.{arith}
use novos.Prelude.Tests.{◌==◌, if◌then◌else◌}
use novos.Prelude.Bits.{digit, div-two_pow_suc, two_pow_suc, bit_or_step, bit_and_step}

pub digit-suc : (a k : ℕ) → digit a (suc k) ≡ digit (a / 2) k
digit-suc a k = ap (λ n. n % 2) (div-two_pow_suc a k)

pub digit-bit_or : (x y j : ℕ) → digit (bit_or x y) j ≡ max (digit x j) (digit y j)
digit-bit_or x y zero = omega (arith, bit_or_step x y)
digit-bit_or x y (suc j) =
    let half : bit_or x y / 2 ≡ bit_or (x / 2) (y / 2) = omega (arith, bit_or_step x y) in
    digit-suc (bit_or x y) j
    ∙ (ap (λ n. digit n j) half
        ∙ (digit-bit_or (x / 2) (y / 2) j ∙ ap₂ max (sym (digit-suc x j)) (sym (digit-suc y j))))

pub digit-bit_and : (x y j : ℕ) → digit (bit_and x y) j ≡ min (digit x j) (digit y j)
digit-bit_and x y zero = omega (arith, bit_and_step x y)
digit-bit_and x y (suc j) =
    let half : bit_and x y / 2 ≡ bit_and (x / 2) (y / 2) = omega (arith, bit_and_step x y) in
    digit-suc (bit_and x y) j
    ∙ (ap (λ n. digit n j) half
        ∙ (digit-bit_and (x / 2) (y / 2) j ∙ ap₂ min (sym (digit-suc x j)) (sym (digit-suc y j))))

digit-zero : (j : ℕ) → digit 0 j ≡ 0
digit-zero zero = omega arith
digit-zero (suc j) = digit-suc 0 j ∙ digit-zero j

pub digit-two_pow : (b j : ℕ) → digit (2 ^ b) j ≡ (if j == b then 1 else 0)
digit-two_pow zero zero = omega arith
digit-two_pow zero (suc j) = digit-suc 1 j ∙ (digit-zero j ∙ ground arith)
digit-two_pow (suc b) zero =
    let even : digit (2 ^ suc b) 0 ≡ 0 = omega (arith, two_pow_suc b) in even ∙ ground arith
digit-two_pow (suc b) (suc j) =
    let half : 2 ^ suc b / 2 ≡ 2 ^ b = omega (arith, two_pow_suc b) in
    digit-suc (2 ^ suc b) j ∙ (ap (λ n. digit n j) half ∙ (digit-two_pow b j ∙ ground arith))

digit-ones : (w j : ℕ) → j < w → digit (2 ^ w - 1) j ≡ 1
digit-ones zero j h = absurd (omega arith)
digit-ones (suc w) zero h = omega (arith, two_pow_suc w, one-le-pow w 2)
digit-ones (suc w) (suc j) h =
    let half : (2 ^ suc w - 1) / 2 ≡ 2 ^ w - 1 = omega (arith, two_pow_suc w, one-le-pow w 2) in
    digit-suc (2 ^ suc w - 1) j ∙ (ap (λ n. digit n j) half ∙ digit-ones w j (omega arith))

-- A number of `w` digits that are all one but the one at `b`.
pub digit-all_but :
    (w b j : ℕ) → b < w → j < w → digit (2 ^ w - 1 - 2 ^ b) j ≡ (if j == b then 0 else 1)
digit-all_but zero b j h k = absurd (omega arith)
digit-all_but (suc w) zero zero h k =
    let even : digit (2 ^ suc w - 1 - 1) 0 ≡ 0 = omega (arith, two_pow_suc w, one-le-pow w 2) in
    even ∙ ground arith
digit-all_but (suc w) zero (suc j) h k =
    let half : (2 ^ suc w - 1 - 1) / 2 ≡ 2 ^ w - 1 = omega (arith, two_pow_suc w, one-le-pow w 2) in
    digit-suc (2 ^ suc w - 1 - 1) j
    ∙ (ap (λ n. digit n j) half ∙ (digit-ones w j (omega arith) ∙ ground arith))
digit-all_but (suc w) (suc b) zero h k =
    let small : 2 ^ suc b ≤ 2 ^ w = pow-le-pow_right (omega arith) (omega arith) in
    let odd : digit (2 ^ suc w - 1 - 2 ^ suc b) 0 ≡ 1 =
      omega (arith, two_pow_suc w, two_pow_suc b, small, one-le-pow w 2) in
    odd ∙ ground arith
digit-all_but (suc w) (suc b) (suc j) h k =
    let small : 2 ^ suc b ≤ 2 ^ w = pow-le-pow_right (omega arith) (omega arith) in
    let half : (2 ^ suc w - 1 - 2 ^ suc b) / 2 ≡ 2 ^ w - 1 - 2 ^ b =
      omega (arith, two_pow_suc w, two_pow_suc b, small, one-le-pow w 2) in
    digit-suc (2 ^ suc w - 1 - 2 ^ suc b) j
    ∙ (ap (λ n. digit n j) half ∙ (digit-all_but w b j (omega arith) (omega arith) ∙ ground arith))
