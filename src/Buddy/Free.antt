-- ===== src/Buddy/Free.antt =====
-- The free lists of the buddy allocator as lists of block addresses, one for each order, and what they amount to.
use novos.Prelude.{
  ℕ, zero, suc, ◌+◌, ◌*◌, ◌≤◌, ◌<◌, ◌≡◌, ◌≢◌, refl, sym, ap, ap₂, Bool, true, false, ◌||◌, inl, inr,
  List, [], ◌∷◌, arith, ◌==◌, if◌then◌else◌, length, Bool-cases, dec_lt, subst,
}
use novos.Buddy.{max_order}
use novos.Buddy.Blocks.{block_size, block_size_pos, holds}

abbrev pub Free : Type 0
Free = ℕ → List ℕ

abbrev pub upd : Free → ℕ → List ℕ → Free
upd f k xs j = if j == k then xs else f j

-- What holds of the new list and of the others holds of all.
pub upd_all :
    (P : ℕ → List ℕ → Type 0) (f : Free) (k : ℕ) (xs : List ℕ)
    → P k xs
    → ((j : ℕ) → k ≢ j → P j (f j))
    → (j : ℕ) → P j (upd f k xs j)
upd_all P f k xs new old j = elim (Bool-cases (j == k)) [
  | inl same ↦ let e : k ≡ j = ground arith in rw same (subst (λ n. P n xs) e new)
  | inr other ↦ rw other (old j (ground arith))
]

-- A weighted sum over the orders below `n`.
module _ (w : ℕ → List ℕ → ℕ) where
  unfoldable pub total : ℕ → Free → ℕ
  total zero f = 0
  total (suc n) f = total n f + w n (f n)

  total-upd_of_le : (n k : ℕ) (f : Free) (xs : List ℕ) → n ≤ k → total n (upd f k xs) ≡ total n f
  unfolding total
  total-upd_of_le zero k f xs h = refl
  total-upd_of_le (suc n) k f xs h =
      ap₂ ◌+◌ (total-upd_of_le n k f xs (omega arith)) (ap (w n) (other n k f xs (omega arith)))
    where
      other : (n k : ℕ) (f : Free) (xs : List ℕ) → n < k → upd f k xs n ≡ f n
      other n k f xs h = ground arith

  pub total-upd :
      (n k : ℕ) (f : Free) (xs : List ℕ)
      → k < n
      → total n (upd f k xs) + w k (f k) ≡ total n f + w k xs
  unfolding total
  total-upd zero k f xs h = absurd (omega arith)
  total-upd (suc n) k f xs h = elim (dec_lt k n) [
    | yes below ↦ ground (arith, total-upd n k f xs below)
    | no last ↦ ground (arith, total-upd_of_le n k f xs)
  ]

  pub le-total : (n k : ℕ) (f : Free) → k < n → w k (f k) ≤ total n f
  unfolding total
  le-total zero k f h = absurd (omega arith)
  le-total (suc n) k f h = elim (dec_lt k n) [
    | yes below ↦ omega (arith, le-total n k f below)
    | no last ↦ let e : k ≡ n = omega arith in rw e (omega arith)
  ]

module _ (w : ℕ → List ℕ → ℕ) where
  pub add-le-total :
      (n j k : ℕ) (f : Free) → j < n → k < n → j ≢ k → w j (f j) + w k (f k) ≤ total w n f
  unfolding total
  add-le-total zero j k f a b ne = absurd (omega arith)
  add-le-total (suc n) j k f a b ne = elim (dec_lt j n) [
    | no last_j ↦
        let e : j ≡ n = omega arith in
        let rest : w k (f k) ≤ total w n f = le-total w n k f (omega arith) in
        rw e (omega (arith, rest))
    | yes below_j ↦ elim (dec_lt k n) [
      | yes below_k ↦ omega (arith, add-le-total n j k f below_j below_k ne)
      | no last_k ↦
          let e : k ≡ n = omega arith in
          let rest : w j (f j) ≤ total w n f = le-total w n j f below_j in
          rw e (omega (arith, rest))
    ]
  ]

-- How many blocks of a list hold an address.
unfoldable pub holders : ℕ → ℕ → List ℕ → ℕ
holders x k [] = 0
holders x k (b ∷ bs) = holds x k b + holders x k bs

-- How many free blocks hold an address, and how many bytes are free.
abbrev pub count : ℕ → Free → ℕ
count x f = total (holders x) max_order f

abbrev pub list_bytes : ℕ → List ℕ → ℕ
list_bytes k xs = length xs * block_size k

abbrev pub bytes : Free → ℕ
bytes f = total list_bytes max_order f

abbrev pub All : (ℕ → Type 0) → List ℕ → Type 0
All p [] = Unit
All p (x ∷ xs) = p x × All p xs

abbrev pub member : ℕ → List ℕ → Bool
member x [] = false
member x (y ∷ ys) = (y == x) || member x ys

-- The list without the first occurrence.
abbrev pub erase : ℕ → List ℕ → List ℕ
erase x [] = []
erase x (y ∷ ys) = if y == x then ys else y ∷ erase x ys

pub holds_self : (k b : ℕ) → holds b k b ≡ 1
holds_self k b = ground (arith, block_size_pos k)

pub holders-self_pos : (k b : ℕ) (bs : List ℕ) → member b bs ≡ true → 1 ≤ holders b k bs
unfolding holders
holders-self_pos k b [] h = cc
holders-self_pos k b (c ∷ bs) h = elim (Bool-cases (c == b)) [
  | inl same ↦ let e : c ≡ b = ground arith in rw e (omega (arith, holds_self k b))
  | inr other ↦ omega (arith, holders-self_pos k b bs (rw other at h))
]

-- An address in no free block is the address of none.
pub not-member_of_count :
    (f : Free) (k b : ℕ) → count b f ≡ 0 → k < max_order → member b (f k) ≡ false
not-member_of_count f k b h below = elim (Bool-cases (member b (f k))) [
  | inr out ↦ out
  | inl here ↦
      absurd
        (omega (arith, holders-self_pos k b (f k) here, le-total (holders b) max_order k f below))
]

pub holders-erase :
    (x k b : ℕ) (bs : List ℕ)
    → member b bs ≡ true
    → holders x k bs ≡ holds x k b + holders x k (erase b bs)
unfolding holders
holders-erase x k b [] h = cc
holders-erase x k b (c ∷ bs) h = elim (Bool-cases (c == b)) [
  | inl same ↦ let e : c ≡ b = ground arith in rw (same, e) refl
  | inr other ↦ rw other (omega (arith, holders-erase x k b bs (rw other at h)))
]

pub length-erase :
    (b : ℕ) (bs : List ℕ) → member b bs ≡ true → length bs ≡ suc (length (erase b bs))
length-erase b [] h = cc
length-erase b (c ∷ bs) h = ground (arith, length-erase b bs)

pub All-erase : (p : ℕ → Type 0) (b : ℕ) (bs : List ℕ) → All p bs → All p (erase b bs)
All-erase p b [] h = tt
All-erase p b (c ∷ bs) h = elim (Bool-cases (c == b)) [
  | inl same ↦ rw same (h.1)
  | inr other ↦ rw other ((h.0, All-erase p b bs h.1))
]

pub All-member : (p : ℕ → Type 0) (b : ℕ) (bs : List ℕ) → All p bs → member b bs ≡ true → p b
All-member p b [] h m = cc
All-member p b (c ∷ bs) h m = elim (Bool-cases (c == b)) [
  | inl same ↦ let e : c ≡ b = ground arith in rw (sym e) (h.0)
  | inr other ↦ All-member p b bs h.1 (rw other at m)
]
