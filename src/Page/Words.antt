-- ===== src/Page/Words.antt =====
-- What the words that page.rs writes say when they are read.
use novos.Prelude.{
  ℕ, ◌+◌, ◌*◌, ◌/◌, ◌%◌, ◌^◌, ◌<◌, ◌≡◌, refl, ap, ◌∙◌, bit_or, ◌==◌, false, none, some, arith,
}
use novos.Prelude.Bits.{bit_or_low, bit_and_mask}
use novos.Page.Entry.{branch, leaf, flags, kind, branch_entry, leaf_entry, vpn}

-- A word by its flags.
pub kind-branch :
    (word : ℕ)
    → word % 2 ≡ 1
    → flags word ≡ 0
    → kind word ≡ some (branch (word / 2 ^ 10 % 2 ^ 44 * 2 ^ 12))
unfolding kind
kind-branch word odd none_set =
    rw (bit_and_mask 1 word, odd, none_set, bit_and_mask 44 (word / 2 ^ 10)) refl

pub kind-leaf : (word : ℕ) → word % 2 ≡ 1 → 0 < flags word → kind word ≡ some leaf
unfolding kind
kind-leaf word odd set = rw (bit_and_mask 1 word, odd, nonzero (flags word) set) refl
  where
    nonzero : (a : ℕ) → 0 < a → (a == 0) ≡ false
    nonzero a h = ground arith

pub kind-zero : kind 0 ≡ none
unfolding kind
kind-zero = refl

branch_entry-word : (page : ℕ) → page % 4096 ≡ 0 → branch_entry page ≡ page / 4 + 1
unfolding branch_entry
branch_entry-word page aligned =
    let even : page / 4 ≡ page / 8 * 2 ^ 1 = omega arith in
    ap (λ n. bit_or n 1) even ∙ (bit_or_low 1 (page / 8) 1 (omega arith) ∙ omega arith)

-- A branch to an aligned page is read back.
pub kind-branch_entry :
    (page : ℕ) → page % 4096 ≡ 0 → page < 2 ^ 56 → kind (branch_entry page) ≡ some (branch page)
unfolding flags
kind-branch_entry page aligned small =
    let word = branch_entry-word page aligned in
    kind-branch (branch_entry page) (omega (arith, word)) (omega (arith, word))
    ∙ ap (λ n. some (branch n)) (omega (arith, word))

leaf_entry-word :
    (paddr bits : ℕ)
    → paddr < 2 ^ 56
    → bits < 2 ^ 8
    → bits % 2 ≡ 0
    → leaf_entry paddr bits ≡ paddr / 2 ^ 12 * 2 ^ 10 + bits + 1
unfolding leaf_entry
leaf_entry-word paddr bits small byte even =
    let ppn : paddr / 2 ^ 12 * 2 ^ 10 % 2 ^ 64 ≡ paddr / 2 ^ 12 * 2 ^ 10 = omega arith in
    let with_bits =
      ap (λ n. bit_or n bits) ppn ∙ bit_or_low 10 (paddr / 2 ^ 12) bits (omega arith) in
    let half : paddr / 2 ^ 12 * 2 ^ 10 + bits ≡ (paddr / 2 ^ 12 * 2 ^ 9 + bits / 2) * 2 ^ 1 =
      omega arith in
    ap (λ n. bit_or n 1) (with_bits ∙ half)
    ∙ (bit_or_low 1 (paddr / 2 ^ 12 * 2 ^ 9 + bits / 2) 1 (omega arith) ∙ omega arith)

-- A leaf is read back with its page and its flags.
pub kind-leaf_entry :
    (paddr bits : ℕ)
    → paddr < 2 ^ 56
    → 0 < bits
    → bits < 2 ^ 8
    → bits % 2 ≡ 0
    → (kind (leaf_entry paddr bits) ≡ some leaf)
      × (flags (leaf_entry paddr bits) ≡ bits)
      × (leaf_entry paddr bits / 2 ^ 10 * 2 ^ 12 % 2 ^ 64 ≡ paddr / 2 ^ 12 * 2 ^ 12)
unfolding flags
kind-leaf_entry paddr bits small some_bits byte even =
    let word = leaf_entry-word paddr bits small byte even in
    (
      kind-leaf (leaf_entry paddr bits) (omega (arith, word)) (omega (arith, word)),
      omega (arith, word),
      omega (arith, word),
    )

pub vpn_bound : (vaddr idx : ℕ) → vpn vaddr idx < 512
unfolding vpn
vpn_bound vaddr idx = omega (arith, bit_and_mask 9 (vaddr / 2 ^ (12 + idx * 9)))
