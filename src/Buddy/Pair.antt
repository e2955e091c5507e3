-- ===== src/Buddy/Pair.antt =====
-- A block, its buddy by `buddy_of`, and the block of the next order that they make up in `deallocate`.
use native.Mathlib.Nat.{mul_assoc, mul-le-mul_right}
use novos.Prelude.{
  ℕ, zero, suc, ◌+◌, ◌-◌, ◌*◌, ◌^◌, ◌≤◌, ◌<◌, ◌≡◌, refl, sym, ap, ◌∙◌, false, bit_xor, min, arith,
  ◌==◌, ok, good, dec_le,
}
use novos.Prelude.Bits.{two_pow_suc}
use novos.Buddy.{max_order, buddy_of}
use novos.Buddy.Blocks.{
  block_size, block_size-suc, block_size_pos, block_size_mono, size_for_order_lem, IsAligned, lower,
  upper, IsAligned-Half, holds, holds-halves,
}
use novos.Buddy.Linked.{IsBlock}

block_size-add : (m k : ℕ) → block_size (m + k) ≡ 2 ^ m * block_size k
block_size-add zero k = let e : 0 + k ≡ k = omega arith in rw e (omega arith)
block_size-add (suc m) k =
    ap block_size (suc-add m k)
    ∙ block_size-suc (m + k)
    ∙ (ap (λ n. 2 * n) (block_size-add m k)
        ∙ (sym (mul_assoc 2 (2 ^ m) (block_size k))
            ∙ ap (λ n. n * block_size k) (sym (two_pow_suc m))))
  where
    suc-add : (m k : ℕ) → suc m + k ≡ suc (m + k)
    suc-add m k = omega arith

-- Rounding down to the next order stays above any bound of a higher order.
far_parent :
    (k n a : ℕ) → k < n → IsAligned a (suc k) → block_size n ≤ a + block_size k → block_size n ≤ a
far_parent k n a h (q, e) le =
    let size = block_size (suc k) in
    let whole : block_size n ≡ 2 ^ (n - suc k) * size =
      ap block_size (omega arith) ∙ block_size-add (n - suc k) (suc k) in
    elim (dec_le (2 ^ (n - suc k)) q) [
      | yes enough ↦ omega (arith, whole, e, mul-le-mul_right size enough)
      | no short ↦
          let next : suc q ≤ 2 ^ (n - suc k) = omega arith in
          absurd (
            omega
              (arith, whole, e, le, block_size-suc k, block_size_pos k, mul-le-mul_right size next))
    ]

-- The blocks `b` and `c` are buddies of order `k`.
pub record Buddies (k b c : ℕ) : Type 0 where
  pub run : buddy_of b k ≡ ok (good c)
  pub aligned : IsAligned (min c b) (suc k)
  pub halves : (x : ℕ) → holds x (suc k) (min c b) ≡ holds x k b + holds x k c
  pub far : block_size max_order ≤ min c b
  pub joined : (off : ℕ) → IsBlock off k b → IsBlock off k c → IsBlock off (suc k) (min c b)

-- Every block that lies high enough has a buddy.
pub buddy_of-Buddies :
    (k b : ℕ) → k < max_order → IsAligned b k → block_size max_order ≤ b → (c : ℕ) × Buddies k b c
unfolding buddy_of
buddy_of-Buddies k b h a far = elim (IsAligned-Half k b a) [
  | lower al bit ↦
      let first : min (b + block_size k) b ≡ b = omega arith in
      (
        b + block_size k,
        record {
          run =
              rw
                (
                  size_for_order_lem k (omega arith),
                  bit,
                  positive (b + block_size k) (omega (arith, block_size_pos k)),
                )
                refl;
          aligned = rw first al;
          halves = λ x. rw first (holds-halves x k b);
          far = rw first far;
          joined = λ off p q. rw first (record {
            nonnull = p.nonnull;
            aligned = al;
            mapped = omega (arith, q.mapped, block_size-suc k);
          });
        },
      )
  | upper al bit ↦
      let small = block_size_mono k max_order (omega arith) in
      let back : b - block_size k + block_size k ≡ b = omega (arith, small, far) in
      let other : bit_xor b (block_size k) ≡ b - block_size k = omega (arith, bit) in
      let first : min (b - block_size k) b ≡ b - block_size k = omega arith in
      let far' = far_parent k max_order (b - block_size k) h al (omega (arith, back, far)) in
      let positive' : 0 < b - block_size k = omega (arith, far', block_size_pos max_order) in
      (
        b - block_size k,
        record {
          run =
              rw (size_for_order_lem k (omega arith), other, positive (b - block_size k) positive')
                refl;
          aligned = rw first al;
          halves = λ x. rw first (
              holds-halves x k (b - block_size k)
              ∙ omega (arith, ap (λ n. holds x k (b - block_size k) + holds x k n) back));
          far = rw first far';
          joined = λ off p q. rw first (record {
            nonnull = positive';
            aligned = al;
            mapped = omega (arith, p.mapped, back, block_size-suc k);
          });
        },
      )
]
  where
    positive : (n : ℕ) → 0 < n → (n == 0) ≡ false
    positive n h = ground arith
