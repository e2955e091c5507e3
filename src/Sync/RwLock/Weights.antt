-- ===== src/Sync/RwLock/Weights.antt =====
-- What the harts of the reader-writer lock of sync.rs have added to its word.
use novos.Prelude.{
  ℕ, zero, suc, ◌+◌, ◌*◌, ◌≤◌, ◌≡◌, ◌≢◌, refl, ap, some, List, [], ◌∷◌, get_elem?, set, length,
  arith,
}
use novos.Sync.RwLock.{Phase, outside, undoing, reading, writing, reader, writer}

-- What a hart has added to the word.
abbrev pub weight : Phase → ℕ
weight outside = 0
weight undoing = reader
weight reading = reader
weight writing = writer

abbrev pub is_writing : Phase → ℕ
is_writing writing = 1
is_writing _ = 0

abbrev pub is_reading : Phase → ℕ
is_reading reading = 1
is_reading _ = 0

module _ (w : Phase → ℕ) where
  unfoldable pub sum : List Phase → ℕ
  sum [] = 0
  sum (p ∷ ps) = w p + sum ps

  pub sum-set :
      (ps : List Phase) (h : ℕ) (p q : Phase)
      → get_elem? ps h ≡ some p
      → sum (set ps h q) + w p ≡ sum ps + w q
  unfolding sum
  sum-set [] h p q e = absurd (ground arith)
  sum-set (o ∷ ps) zero p q e = let same : o ≡ p = cc in omega (arith, ap w same)
  sum-set (o ∷ ps) (suc h) p q e = omega (arith, sum-set ps h p q e)

  pub le-sum : (ps : List Phase) (h : ℕ) (p : Phase) → get_elem? ps h ≡ some p → w p ≤ sum ps
  unfolding sum
  le-sum [] h p e = absurd (ground arith)
  le-sum (o ∷ ps) zero p e = let same : o ≡ p = cc in omega (arith, ap w same)
  le-sum (o ∷ ps) (suc h) p e = omega (arith, le-sum ps h p e)

  pub add-le-sum :
      (ps : List Phase) (h k : ℕ) (p q : Phase)
      → h ≢ k
      → get_elem? ps h ≡ some p
      → get_elem? ps k ≡ some q
      → w p + w q ≤ sum ps
  unfolding sum
  add-le-sum [] h k p q ne e e' = absurd (ground arith)
  add-le-sum (o ∷ ps) zero zero p q ne e e' = absurd (ne refl)
  add-le-sum (o ∷ ps) zero (suc k) p q ne e e' =
      let same : o ≡ p = cc in omega (arith, ap w same, le-sum ps k q e')
  add-le-sum (o ∷ ps) (suc h) zero p q ne e e' =
      let same : o ≡ q = cc in omega (arith, ap w same, le-sum ps h p e)
  add-le-sum (o ∷ ps) (suc h) (suc k) p q ne e e' =
      omega (arith, add-le-sum ps h k p q (λ s. ne (ap suc s)) e e')

pub sum_bound : (ps : List Phase) → sum weight ps ≤ 2 * length ps
unfolding sum
sum_bound [] = omega arith
sum_bound (p ∷ ps) = ground (arith, sum_bound ps)

pub weights :
    (ps : List Phase)
    → (undone : ℕ) × (sum weight ps ≡ 2 * (sum is_reading ps + undone) + sum is_writing ps)
unfolding sum
weights [] = (0, omega arith)
weights (outside ∷ ps) = let (u, e) = weights ps in (u, omega (arith, e))
weights (undoing ∷ ps) = let (u, e) = weights ps in (suc u, omega (arith, e))
weights (reading ∷ ps) = let (u, e) = weights ps in (u, omega (arith, e))
weights (writing ∷ ps) = let (u, e) = weights ps in (u, omega (arith, e))
