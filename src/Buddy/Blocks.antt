-- ===== src/Buddy/Blocks.antt =====
-- Blocks of an order, and the address of a buddy: `size_for_order` and `buddy_of` of buddy.rs.
use native.Mathlib.Nat.{one-le-pow, mul-div_cancel, mul_assoc, mul_comm}
use novos.Prelude.{
  ℕ, zero, suc, ◌+◌, ◌-◌, ◌*◌, ◌/◌, ◌%◌, ◌^◌, ◌≤◌, ◌<◌, ◌≡◌, refl, sym, ap, ◌∙◌, bit_xor, false,
  ◌&&◌, arith, ltb, leb, if◌then◌else◌, ok, usize_max, le→not-ltb, dec_le, ℕ_discrete, subst,
}
use novos.Prelude.Bits.{bit_xor_flip, two_pow_suc}
use novos.Allocator.{page_size}
use novos.Buddy.{max_order, size_for_order}

unfoldable pub block_size : ℕ → ℕ
block_size k = 2 ^ k * page_size

pub block_size-suc : (k : ℕ) → block_size (suc k) ≡ 2 * block_size k
unfolding block_size
block_size-suc k = omega (arith, two_pow_suc k)

pub block_size_pos : (k : ℕ) → page_size ≤ block_size k
unfolding block_size
block_size_pos k = omega (arith, one-le-pow k 2)

pub block_size_pow : (k : ℕ) → block_size k ≡ 2 ^ (k + 12)
unfolding block_size
block_size_pow zero = refl
block_size_pow (suc k) =
    block_size-suc k
    ∙ (ap (λ n. 2 * n) (block_size_pow k)
        ∙ (sym (two_pow_suc (k + 12)) ∙ ap (λ n. 2 ^ n) (omega arith)))

pub block_size_mono : (j k : ℕ) → j ≤ k → block_size j ≤ block_size k
block_size_mono j zero h = let e : j ≡ 0 = omega arith in rw e (omega arith)
block_size_mono j (suc k) h = elim (dec_le j k) [
  | yes below ↦ omega (arith, block_size_mono j k below, block_size-suc k)
  | no last ↦ let e : j ≡ suc k = omega arith in rw e (omega arith)
]

pub block_size-div : (k : ℕ) → block_size k / page_size ≡ 2 ^ k
unfolding block_size
block_size-div k = mul-div_cancel (2 ^ k) (omega arith)

-- For the orders of the allocator the size does not overflow.
pub size_for_order_lem : (k : ℕ) → k ≤ max_order → size_for_order k ≡ ok (block_size k)
unfolding size_for_order block_size
size_for_order_lem k h =
    let small : 2 ^ k * page_size ≤ 2 ^ 12 * page_size = block_size_mono k 12 h in
    rw (not-leb 64 k (omega arith), le→not-ltb usize_max (2 ^ k * page_size) (omega arith)) refl
  where
    not-leb : (a b : ℕ) → b < a → leb a b ≡ false
    not-leb a b k = ground arith

-- The same for every order whose size is a machine word.
pub size_for_order-wide : (k : ℕ) → k ≤ 51 → size_for_order k ≡ ok (block_size k)
unfolding size_for_order block_size
size_for_order-wide k h =
    let small : 2 ^ k * page_size ≤ 2 ^ 51 * page_size = block_size_mono k 51 h in
    rw (not-leb 64 k (omega arith), le→not-ltb usize_max (2 ^ k * page_size) (omega arith)) refl
  where
    not-leb : (a b : ℕ) → b < a → leb a b ≡ false
    not-leb a b k = ground arith

-- The buddy differs in the one bit of the block's size.
pub xor_block_size :
    (k b : ℕ)
    → (b / block_size k % 2 ≡ 0 → bit_xor b (block_size k) ≡ b + block_size k)
      × (b / block_size k % 2 ≡ 1 → bit_xor b (block_size k) + block_size k ≡ b)
xor_block_size k b =
    subst (λ n. (b / n % 2 ≡ 0 → bit_xor b n ≡ b + n) × (b / n % 2 ≡ 1 → bit_xor b n + n ≡ b))
      (sym (block_size_pow k)) (bit_xor_flip (k + 12) b)

-- The address is a multiple of the size of the order.
abbrev pub IsAligned : ℕ → ℕ → Type 0
IsAligned b k = (q : ℕ) × (b ≡ q * block_size k)

div-block_size : (k b q : ℕ) → b ≡ q * block_size k → b / block_size k ≡ q
div-block_size k b q e =
    ap (λ n. n / block_size k) e ∙ mul-div_cancel q (omega (arith, block_size_pos k))

-- A block is the lower or the upper half of one of the next order, and its buddy is the other half.
pub data Half (k b : ℕ) : Type 0 where
  lower : IsAligned b (suc k) → bit_xor b (block_size k) ≡ b + block_size k → Half k b
  upper :
      IsAligned (b - block_size k) (suc k) → bit_xor b (block_size k) + block_size k ≡ b → Half k b

twice : (q s t : ℕ) → t ≡ 2 * s → q % 2 ≡ 0 → q * s ≡ q / 2 * t
twice q s t e h =
    let even : q ≡ q / 2 * 2 = omega arith in
    ap (λ n. n * s) even ∙ (mul_assoc (q / 2) 2 s ∙ ap (λ n. q / 2 * n) (sym e))

pub IsAligned-Half : (k b : ℕ) → IsAligned b k → Half k b
IsAligned-Half k b (q, e) = elim (ℕ_discrete (q % 2) 0) [
  | yes even ↦
      lower (q / 2, e ∙ twice q (block_size k) (block_size (suc k)) (block_size-suc k) even)
        ((xor_block_size k b).0 (rw (div-block_size k b q e) even))
  | no odd ↦
      let odd' : q % 2 ≡ 1 = omega arith in
      let less : b - block_size k ≡ (q - 1) * block_size k =
        omega (arith, e, pred_mul q (block_size k) (omega arith)) in
      upper
        (
          (q - 1) / 2,
          less ∙ twice (q - 1) (block_size k) (block_size (suc k)) (block_size-suc k) (omega arith),
        )
        ((xor_block_size k b).1 (rw (div-block_size k b q e) odd'))
]
  where
    pred_mul : (q s : ℕ) → 0 < q → (q - 1) * s + s ≡ q * s
    pred_mul zero s h = absurd (omega arith)
    pred_mul (suc q) s h = let e : suc q - 1 ≡ q = omega arith in rw e (omega arith)

-- Of an aligned block of the next order both halves are aligned, and the lower one's buddy is the upper one.
pub IsAligned-halves :
    (k b : ℕ)
    → IsAligned b (suc k)
    → IsAligned b k × IsAligned (b + block_size k) k × (bit_xor b (block_size k) ≡ b + block_size k)
IsAligned-halves k b (q, e) =
    let whole : b ≡ 2 * q * block_size k =
      e
      ∙ (ap (λ n. q * n) (block_size-suc k)
          ∙ (sym (mul_assoc q 2 (block_size k)) ∙ ap (λ n. n * block_size k) (mul_comm q 2))) in
    (
      (2 * q, whole),
      (2 * q + 1, omega (arith, whole)),
      (xor_block_size k b).0 (rw (div-block_size k b (2 * q) whole) (omega arith)),
    )

-- The number of blocks of order `k` at `b` that hold the address `x`.
abbrev pub holds : ℕ → ℕ → ℕ → ℕ
holds x k b = if leb b x && ltb x (b + block_size k) then 1 else 0

pub holds-halves : (x k b : ℕ) → holds x (suc k) b ≡ holds x k b + holds x k (b + block_size k)
holds-halves x k b = ground (arith, block_size-suc k)
