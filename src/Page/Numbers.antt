-- ===== src/Page/Numbers.antt =====
-- The numbers that page.rs takes from an address, and the address that `translate` puts together.
use native.Mathlib.Nat.{div-div-eq-div-mul, mul_assoc}
use novos.Prelude.{
  ℕ, zero, suc, ◌+◌, ◌-◌, ◌*◌, ◌/◌, ◌%◌, ◌^◌, ◌≤◌, ◌<◌, ◌≡◌, refl, sym, ap, ap₂, ◌∙◌, some, ok,
  usize_max, arith, bit_and,
}
use novos.Prelude.Bits.{bit_and_mask, bit_and_shifted, zero_bit_and, two_pow_suc}
use novos.Page.{Paging, slot, traverse_from, read_mapping, page_offset}
use novos.Page.Types.{
  PageSize, kilopage, megapage, gigapage, terapage, size, vpn_idx, Mode, sv39, sv48,
}
use novos.Page.Entry.{leaf, kind, flags, leaf_entry, vpn}

pub data IsMode : Mode → Type 0 where
  is_sv39 : IsMode sv39
  is_sv48 : IsMode sv48

pub high_bits :
    (mode : Mode)
    → IsMode mode
    → (vaddr : ℕ) → vaddr < mode.max_address
    → bit_and vaddr (usize_max - mode.max_address) ≡ 0
high_bits mode is_sv39 vaddr h =
    let none_left : vaddr / 2 ^ 39 ≡ 0 = omega arith in
    bit_and_shifted 39 vaddr (2 ^ 25 - 1)
    ∙ ap (λ n. n * 2 ^ 39) (ap (λ n. bit_and n (2 ^ 25 - 1)) none_left ∙ zero_bit_and (2 ^ 25 - 1))
high_bits mode is_sv48 vaddr h =
    let none_left : vaddr / 2 ^ 48 ≡ 0 = omega arith in
    bit_and_shifted 48 vaddr (2 ^ 16 - 1)
    ∙ ap (λ n. n * 2 ^ 48) (ap (λ n. bit_and n (2 ^ 16 - 1)) none_left ∙ zero_bit_and (2 ^ 16 - 1))

pow_split : (a b : ℕ) → 2 ^ (a + b) ≡ 2 ^ a * 2 ^ b
pow_split zero b = let e : 0 + b ≡ b = omega arith in rw e (omega arith)
pow_split (suc a) b =
    let e : suc a + b ≡ suc (a + b) = omega arith in
    ap (λ n. 2 ^ n) e
    ∙ (two_pow_suc (a + b)
        ∙ (ap (λ n. 2 * n) (pow_split a b)
            ∙ (sym (mul_assoc 2 (2 ^ a) (2 ^ b)) ∙ ap (λ n. n * 2 ^ b) (sym (two_pow_suc a)))))

-- Addresses of one page have the same numbers from its level on.
pub vpn-same :
    (sz : PageSize) (x vaddr i : ℕ)
    → x / size sz ≡ vaddr / size sz
    → vpn_idx sz ≤ i
    → vpn x i ≡ vpn vaddr i
unfolding vpn
vpn-same sz x vaddr i same le =
    let split : 12 + i * 9 ≡ 12 + vpn_idx sz * 9 + (i - vpn_idx sz) * 9 = omega arith in
    let shift = λ (n : ℕ).
      ap (λ e. n / 2 ^ e) split
      ∙ (ap (λ d. n / d) (pow_split (12 + vpn_idx sz * 9) ((i - vpn_idx sz) * 9))
          ∙ sym (div-div-eq-div-mul n (2 ^ (12 + vpn_idx sz * 9)) (2 ^ ((i - vpn_idx sz) * 9)))) in
    ap (λ n. bit_and n 0x1FF)
      (shift x ∙ (ap (λ n. n / 2 ^ ((i - vpn_idx sz) * 9)) (upper sz same) ∙ sym (shift vaddr)))
  where
    upper :
        (sz : PageSize)
        → x / size sz ≡ vaddr / size sz
        → x / 2 ^ (12 + vpn_idx sz * 9) ≡ vaddr / 2 ^ (12 + vpn_idx sz * 9)
    upper kilopage e = e
    upper megapage e = e
    upper gigapage e = e
    upper terapage e = e

page_offset-mod : (sz : PageSize) (x : ℕ) → page_offset sz x ≡ x % size sz
page_offset-mod kilopage x = bit_and_mask 12 x
page_offset-mod megapage x = bit_and_mask 21 x
page_offset-mod gigapage x = bit_and_mask 30 x
page_offset-mod terapage x = bit_and_mask 39 x

pub traverse_from-leaf :
    {A : Type 0} (sz : PageSize) (x u : ℕ) (s : Paging A)
    → vpn_idx sz < 3
    → kind (s.memory (slot u x (vpn_idx sz))) ≡ some leaf
    → traverse_from (vpn_idx sz) x u s
      ≡ ok (some (record { entry = slot u x (vpn_idx sz); size = sz }))
unfolding traverse_from
traverse_from-leaf kilopage x u s h e = rw (traverse_from, e) refl
traverse_from-leaf megapage x u s h e = rw (traverse_from, e) refl
traverse_from-leaf gigapage x u s h e = rw (traverse_from, e) refl
traverse_from-leaf terapage x u s h e = absurd (omega arith)

read_page :
    (sz : PageSize) (paddr x : ℕ)
    → paddr % size sz ≡ 0
    → paddr < 2 ^ 56
    → (paddr / 2 ^ 12 * 2 ^ 12 + x % size sz) % 2 ^ 64 ≡ paddr + x % size sz
read_page kilopage paddr x e h = omega arith
read_page megapage paddr x e h = omega arith
read_page gigapage paddr x e h = omega arith
read_page terapage paddr x e h = omega arith

pub read_mapping-leaf :
    {A : Type 0} (s : Paging A) (at paddr bits x : ℕ) (sz : PageSize)
    → s.memory at ≡ leaf_entry paddr bits
    → paddr % size sz ≡ 0
    → paddr < 2 ^ 56
    → (flags (leaf_entry paddr bits) ≡ bits)
    → leaf_entry paddr bits / 2 ^ 10 * 2 ^ 12 % 2 ^ 64 ≡ paddr / 2 ^ 12 * 2 ^ 12
    → read_mapping x s (some (record { entry = at; size = sz }))
      ≡ some (paddr + x % size sz, sz, bits)
read_mapping-leaf s at paddr bits x sz stored from_page low f frame =
    let address : (s.memory at / 2 ^ 10 * 2 ^ 12 % 2 ^ 64 + page_offset sz x) % 2 ^ 64
        ≡ paddr + x % size sz =
      ap₂ (λ a b. (a + b) % 2 ^ 64) (ap (λ w. w / 2 ^ 10 * 2 ^ 12 % 2 ^ 64) stored ∙ frame)
        (page_offset-mod sz x)
      ∙ read_page sz paddr x from_page low in
    ap₂ (λ a b. some (a, sz, b)) address (ap flags stored ∙ f)
