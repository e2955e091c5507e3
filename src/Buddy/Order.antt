-- ===== src/Buddy/Order.antt =====
-- `order_for_size` of buddy.rs finds the least order that a size fits in.
use native.Mathlib.Nat.{pow-le-pow_right}
use novos.Prelude.{
  ℕ, zero, suc, ◌+◌, ◌-◌, ◌*◌, ◌/◌, ◌%◌, ◌^◌, max, ◌≤◌, ◌<◌, ◌≡◌, refl, sym, ap, ◌∙◌, false, inl,
  inr, arith, leb, ok, Bool-cases, dec_le, dec_lt, le→not-ltb, le→leb,
}
use novos.Prelude.Bits.{two_pow_suc}
use novos.Allocator.{page_size}
use novos.Buddy.{search_power, next_power_of_two, trailing_zeros, order_for_size}
use novos.Buddy.Blocks.{block_size, block_size_pos, block_size_pow, block_size-div}

-- The search ends at the first power from `e` on that is not below `x`.
search_power-first :
    (fuel e x : ℕ)
    → x ≤ 2 ^ (e + fuel)
    → (n : ℕ) × (search_power fuel e x ≡ 2 ^ n)
      × (x ≤ 2 ^ n)
      × (e ≤ n)
      × ((j : ℕ) → e ≤ j → x ≤ 2 ^ j → n ≤ j)
      × (n ≤ e + fuel)
unfolding search_power
search_power-first zero e x h =
    let same : e + 0 ≡ e = omega arith in
    (e, refl, rw same at h, omega arith, λ j a b. a, omega arith)
search_power-first (suc fuel) e x h = elim (Bool-cases (leb x (2 ^ e))) [
  | inl fits ↦ (e, rw fits refl, ground arith, omega arith, λ j a b. a, omega arith)
  | inr over ↦
      let shift : e + suc fuel ≡ suc e + fuel = omega arith in
      let (n, run, enough, above, least, bound) =
        search_power-first fuel (suc e) x (rw shift at h) in
      (
        n,
        rw over run,
        enough,
        omega arith,
        λ j a b. elim (dec_lt e j) [
          | yes later ↦ least j later b
          | no here ↦ absurd (too_small e j x over (omega arith) b)
        ],
        omega arith,
      )
]
  where
    too_small : (e j x : ℕ) → leb x (2 ^ e) ≡ false → j ≡ e → x ≤ 2 ^ j → ⊥
    too_small e j x over same b =
        let fits : x ≤ 2 ^ e = rw same at b in let t = le→leb x (2 ^ e) fits in cc

trailing_zeros-pow : (bits n : ℕ) → n < bits → trailing_zeros bits (2 ^ n) ≡ n
unfolding trailing_zeros
trailing_zeros-pow zero n h = absurd (omega arith)
trailing_zeros-pow (suc bits) zero h = refl
trailing_zeros-pow (suc bits) (suc n) h =
    let even : 2 * 2 ^ n % 2 ≡ 0 = omega arith in
    let half : 2 * 2 ^ n / 2 ≡ 2 ^ n = omega arith in
    let rest = trailing_zeros-pow bits n (omega arith) in rw (two_pow_suc n, even, half, rest) refl

order_of_power : (n : ℕ) → 12 ≤ n → n ≤ 63 → trailing_zeros 64 (2 ^ n / page_size) ≡ n - 12
order_of_power n low high =
    let split : n ≡ n - 12 + 12 = omega arith in
    let size : 2 ^ n ≡ block_size (n - 12) =
      ap (λ m. 2 ^ m) split ∙ sym (block_size_pow (n - 12)) in
    ap (λ m. trailing_zeros 64 (m / page_size)) size
    ∙ (ap (trailing_zeros 64) (block_size-div (n - 12))
        ∙ trailing_zeros-pow 64 (n - 12) (omega arith))

-- A page at least.
page_order : (n : ℕ) → 4096 ≤ 2 ^ n → 12 ≤ n
page_order n h = elim (dec_le 12 n) [
  | yes e ↦ e
  | no small ↦
      let le : n ≤ 11 = omega arith in
      let bound : 2 ^ n ≤ 2 ^ 11 = pow-le-pow_right (omega arith) le in
      absurd (omega (arith, bound))
]

-- For a size of at most 2 ^ 63 bytes `order_for_size` returns an order whose blocks hold the size, and no
-- smaller order does.
pub order_for_size-least :
    (size : ℕ)
    → size ≤ 2 ^ 63
    → (k : ℕ) × (order_for_size size ≡ ok k)
      × (size ≤ block_size k)
      × ((j : ℕ) → size ≤ block_size j → k ≤ j)
unfolding order_for_size next_power_of_two
order_for_size-least size h =
    let small : max size 4096 ≤ 2 ^ 63 = omega (arith, h) in
    let (n, run, enough, above, least, bound) = search_power-first 63 0 (max size 4096) small in
    let low = page_order n (omega (arith, enough)) in
    let whole : n - 12 + 12 ≡ n = omega (arith, low) in
    let size_eq = block_size_pow (n - 12) ∙ ap (λ m. 2 ^ m) whole in
    (
      n - 12,
      rw (le→not-ltb (2 ^ 63) (max size 4096) small, run) (ap ok (order_of_power n low bound)),
      omega (arith, enough, size_eq),
      λ j fits.
          let q : n ≤ j + 12 =
            least (j + 12) (omega arith)
              (omega (arith, fits, block_size_pow j, block_size_pos j)) in
          omega (arith, q),
    )
