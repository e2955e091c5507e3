-- ===== src/Prelude/Bits.antt =====
-- Laws of the bit operations at variables, from their recursion on binary digits.
use Prim.Native.Nat.{
  max, bit_or, bit_or-bitwise, ℕ, zero, suc, ◌+◌, ◌-◌, ◌*◌, ◌/◌, ◌%◌, ◌^◌, ◌≤◌, ◌<◌, min, bit_and,
  bit_xor, digits, bitwise, bit_and-bitwise, bit_xor-bitwise, differ,
}
use mathlib.Core.Path.{◌≡◌, refl, sym, ap, ap₂, ◌∙◌, subst}
use native.Mathlib.Nat.{
  pow-suc, div-div-eq-div-mul, one-le-pow, mod-add-div, div-add-mod, div-one, mul-one,
}
use native.Mathlib.Omega.{arith}

-- What a fuel that is large enough computes depends on neither its amount nor on the rest of it.
module _ (rest : ℕ → ℕ) (op : ℕ → ℕ → ℕ) where
  one_more : (fuel x y : ℕ) → x ≤ fuel → digits rest op (suc fuel) x y ≡ digits rest op fuel x y
  one_more zero zero y enough = refl
  one_more (suc fuel) zero y enough = refl
  one_more zero (suc x) y enough = absurd (omega arith)
  one_more (suc fuel) (suc x) y enough =
      ap (λ high. high * 2 + op (suc x % 2) (y % 2))
        (one_more fuel (suc x / 2) (y / 2) (omega arith))

  many_more :
      (extra fuel x y : ℕ) → x ≤ fuel → digits rest op (extra + fuel) x y ≡ digits rest op fuel x y
  many_more zero fuel x y enough = ap (λ n. digits rest op n x y) (zero_left fuel)
    where
      zero_left : (n : ℕ) → 0 + n ≡ n
      zero_left n = omega arith
  many_more (suc extra) fuel x y enough =
      ap (λ n. digits rest op n x y) (suc_left extra fuel)
      ∙ (one_more (extra + fuel) x y (omega arith) ∙ many_more extra fuel x y enough)
    where
      suc_left : (m n : ℕ) → suc m + n ≡ suc (m + n)
      suc_left m n = omega arith

  low_digit :
      (x y : ℕ)
      → bitwise rest op (suc x) y ≡ bitwise rest op (suc x / 2) (y / 2) * 2 + op (suc x % 2) (y % 2)
  low_digit x y =
      let split : x - suc x / 2 + suc x / 2 ≡ x = omega arith in
      ap (λ high. high * 2 + op (suc x % 2) (y % 2))
        (ap (λ n. digits rest op n (suc x / 2) (y / 2)) (sym split)
          ∙ many_more (x - suc x / 2) (suc x / 2) (suc x / 2) (y / 2) (omega arith))

pub bit_xor_step : (x y : ℕ) → bit_xor x y ≡ bit_xor (x / 2) (y / 2) * 2 + differ (x % 2) (y % 2)
bit_xor_step zero y = simp bit_xor-bitwise (omega arith)
bit_xor_step (suc x) y = simp bit_xor-bitwise (low_digit (λ n. n) differ x y)

pub bit_and_step : (x y : ℕ) → bit_and x y ≡ bit_and (x / 2) (y / 2) * 2 + min (x % 2) (y % 2)
bit_and_step zero y = simp bit_and-bitwise (omega arith)
bit_and_step (suc x) y = simp bit_and-bitwise (low_digit (λ n. 0) min x y)

pub bit_or_step : (x y : ℕ) → bit_or x y ≡ bit_or (x / 2) (y / 2) * 2 + max (x % 2) (y % 2)
bit_or_step zero y = simp bit_or-bitwise (omega arith)
bit_or_step (suc x) y = simp bit_or-bitwise (low_digit (λ n. n) max x y)

bit_or-zero_le : (bound x : ℕ) → x ≤ bound → bit_or x 0 ≡ x
bit_or-zero_le bound zero le = refl
bit_or-zero_le zero (suc x) le = absurd (omega arith)
bit_or-zero_le (suc bound) (suc x) le =
    omega (arith, bit_or_step (suc x) 0, bit_or-zero_le bound (suc x / 2) (omega arith))

differ-zero : (d : ℕ) → differ d 0 ≡ d
differ-zero zero = refl
differ-zero (suc d) = refl

differ-one : (d : ℕ) → d < 2 → differ d 1 + d ≡ 1
differ-one zero h = omega arith
differ-one (suc zero) h = omega arith
differ-one (suc (suc d)) h = absurd (omega arith)

-- Both with a bound on the first number, for the induction.
with_zero : (bound x : ℕ) → x ≤ bound → (bit_xor x 0 ≡ x) × (bit_and x 0 ≡ 0)
with_zero bound zero le = (refl, refl)
with_zero zero (suc x) le = absurd (omega arith)
with_zero (suc bound) (suc x) le =
    let (xor, and) = with_zero bound (suc x / 2) (omega arith) in
    (
      omega (arith, bit_xor_step (suc x) 0, differ-zero (suc x % 2), xor),
      omega (arith, bit_and_step (suc x) 0, and),
    )

pub bit_xor-zero : (x : ℕ) → bit_xor x 0 ≡ x
bit_xor-zero x = (with_zero x x (omega arith)).0

pub bit_and-zero : (x : ℕ) → bit_and x 0 ≡ 0
bit_and-zero x = (with_zero x x (omega arith)).1

pub two_pow_suc : (k : ℕ) → 2 ^ suc k ≡ 2 * 2 ^ k
two_pow_suc k = omega (arith, pow-suc 2 k)

-- The digit of `a` at place `k`.
abbrev pub digit : ℕ → ℕ → ℕ
digit a k = a / 2 ^ k % 2

pub div-two_pow_suc : (a k : ℕ) → a / 2 ^ suc k ≡ a / 2 / 2 ^ k
div-two_pow_suc a k = rw two_pow_suc (sym (div-div-eq-div-mul a 2 (2 ^ k)))

-- `^` with a power of two flips one digit.
pub bit_xor_flip :
    (k a : ℕ)
    → (digit a k ≡ 0 → bit_xor a (2 ^ k) ≡ a + 2 ^ k)
      × (digit a k ≡ 1 → bit_xor a (2 ^ k) + 2 ^ k ≡ a)
bit_xor_flip zero a = (
  λ h. omega (arith, bit_xor_step a 1, bit_xor-zero (a / 2), differ-one (a % 2) (omega arith)),
  λ h. omega (arith, bit_xor_step a 1, bit_xor-zero (a / 2), differ-one (a % 2) (omega arith)),
)
bit_xor_flip (suc k) a =
    let (low, high) = bit_xor_flip k (a / 2) in
    let same : digit a (suc k) ≡ digit (a / 2) k = ap (λ n. n % 2) (div-two_pow_suc a k) in
    let half : 2 ^ suc k / 2 ≡ 2 ^ k = omega (arith, two_pow_suc k) in
    let even : 2 ^ suc k % 2 ≡ 0 = omega (arith, two_pow_suc k) in
    let step : bit_xor a (2 ^ suc k) ≡ bit_xor (a / 2) (2 ^ k) * 2 + a % 2 =
      bit_xor_step a (2 ^ suc k)
      ∙ ap₂ (λ x y. x * 2 + y) (ap (bit_xor (a / 2)) half)
          (ap (differ (a % 2)) even ∙ differ-zero (a % 2)) in
    (
      λ h. omega (arith, step, low (sym same ∙ h), two_pow_suc k),
      λ h. omega (arith, step, high (sym same ∙ h), two_pow_suc k),
    )

mod-two_pow_suc : (k a : ℕ) → a % 2 ^ suc k ≡ a / 2 % 2 ^ k * 2 + a % 2
mod-two_pow_suc k a =
    let whole : a % 2 ^ suc k + 2 * 2 ^ k * (a / 2 / 2 ^ k) ≡ a =
      subst (λ q. a % 2 ^ suc k + q ≡ a) (ap₂ ◌*◌ (two_pow_suc k) (div-two_pow_suc a k))
        (mod-add-div a (2 ^ suc k)) in
    omega (arith, whole, div-add-mod (a / 2) (2 ^ k))

-- A mask of `k` ones keeps `k` digits.
pub bit_and_mask : (k a : ℕ) → bit_and a (2 ^ k - 1) ≡ a % 2 ^ k
bit_and_mask zero a = omega (arith, bit_and-zero a)
bit_and_mask (suc k) a =
    let half : (2 ^ suc k - 1) / 2 ≡ 2 ^ k - 1 = omega (arith, two_pow_suc k, one-le-pow k 2) in
    let odd : (2 ^ suc k - 1) % 2 ≡ 1 = omega (arith, two_pow_suc k, one-le-pow k 2) in
    let step : bit_and a (2 ^ suc k - 1) ≡ a / 2 % 2 ^ k * 2 + min (a % 2) 1 =
      bit_and_step a (2 ^ suc k - 1)
      ∙ ap₂ (λ x y. x * 2 + y) (ap (bit_and (a / 2)) half ∙ bit_and_mask k (a / 2))
          (ap (min (a % 2)) odd) in
    omega (arith, step, mod-two_pow_suc k a)

-- A mask whose low digits are clear leaves the high part alone.
pub bit_and_shifted : (k a m : ℕ) → bit_and a (m * 2 ^ k) ≡ bit_and (a / 2 ^ k) m * 2 ^ k
bit_and_shifted zero a m =
    ap₂ bit_and (sym (div-one a)) (mul-one m) ∙ sym (mul-one (bit_and (a / 1) m))
bit_and_shifted (suc k) a m =
    let half : m * 2 ^ suc k / 2 ≡ m * 2 ^ k =
      omega (arith, ap (λ (t : ℕ). m * t) (two_pow_suc k)) in
    let even : m * 2 ^ suc k % 2 ≡ 0 = omega (arith, ap (λ (t : ℕ). m * t) (two_pow_suc k)) in
    let step : bit_and a (m * 2 ^ suc k) ≡ bit_and (a / 2 ^ suc k) m * 2 ^ k * 2 + min (a % 2) 0 =
      bit_and_step a (m * 2 ^ suc k)
      ∙ ap₂ (λ x y. x * 2 + y)
          (ap (bit_and (a / 2)) half
            ∙ (bit_and_shifted k (a / 2) m
                ∙ ap (λ q. bit_and q m * 2 ^ k) (sym (div-two_pow_suc a k))))
          (ap (min (a % 2)) even) in
    omega (arith, step, ap (λ (t : ℕ). bit_and (a / 2 ^ suc k) m * t) (two_pow_suc k))

-- Below a multiple of a power of two `|` adds.
pub bit_or_low : (k x y : ℕ) → y < 2 ^ k → bit_or (x * 2 ^ k) y ≡ x * 2 ^ k + y
bit_or_low zero x y h =
    let nothing : y ≡ 0 = omega arith in
    ap (bit_or (x * 1)) nothing ∙ (bit_or-zero_le (x * 1) (x * 1) (omega arith) ∙ omega arith)
bit_or_low (suc k) x y h =
    let double = ap (λ (t : ℕ). x * t) (two_pow_suc k) in
    let half : x * 2 ^ suc k / 2 ≡ x * 2 ^ k = omega (arith, double) in
    let even : x * 2 ^ suc k % 2 ≡ 0 = omega (arith, double) in
    let rest = bit_or_low k x (y / 2) (omega (arith, h, two_pow_suc k)) in
    let step : bit_or (x * 2 ^ suc k) y ≡ (x * 2 ^ k + y / 2) * 2 + max 0 (y % 2) =
      bit_or_step (x * 2 ^ suc k) y
      ∙ ap₂ (λ a b. a * 2 + b) (ap (λ a. bit_or a (y / 2)) half ∙ rest)
          (ap (λ a. max a (y % 2)) even) in
    omega (arith, step, double)

pub zero_bit_and : (y : ℕ) → bit_and 0 y ≡ 0
zero_bit_and y = simp bit_and-bitwise refl

zero_bit_or : (y : ℕ) → bit_or 0 y ≡ y
zero_bit_or y = simp bit_or-bitwise refl

-- The same with the high part on the right.
pub bit_or_high : (k x y : ℕ) → y < 2 ^ k → bit_or y (x * 2 ^ k) ≡ x * 2 ^ k + y
bit_or_high zero x y h =
    let nothing : y ≡ 0 = omega arith in
    ap (λ n. bit_or n (x * 1)) nothing ∙ (zero_bit_or (x * 1) ∙ omega arith)
bit_or_high (suc k) x y h =
    let double = ap (λ (t : ℕ). x * t) (two_pow_suc k) in
    let half : x * 2 ^ suc k / 2 ≡ x * 2 ^ k = omega (arith, double) in
    let even : x * 2 ^ suc k % 2 ≡ 0 = omega (arith, double) in
    let rest = bit_or_high k x (y / 2) (omega (arith, h, two_pow_suc k)) in
    let step : bit_or y (x * 2 ^ suc k) ≡ (x * 2 ^ k + y / 2) * 2 + max (y % 2) 0 =
      bit_or_step y (x * 2 ^ suc k)
      ∙ ap₂ (λ a b. a * 2 + b) (ap (bit_or (y / 2)) half ∙ rest) (ap (max (y % 2)) even) in
    omega (arith, step, double)
