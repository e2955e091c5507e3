-- ===== src/RangeSet/Cover.antt =====
-- Which addresses a list of ranges covers, and lists of ranges that are apart.
use novos.Prelude.{
  ℕ, zero, suc, ◌≡◌, refl, ◌∙◌, ◌≤◌, Bool, true, false, ◌||◌, ◌&&◌, some, List, [], ◌∷◌, ◌++◌,
  arith, leb, get_elem?, set, take, ap, usize_max,
}
use novos.RangeSet.{Range, touches, hull}
use novos.RangeSet.Slice.{delete}

abbrev pub within : ℕ → Range → Bool
within x r = leb r.start x && leb x r.end

abbrev pub covers : ℕ → List Range → Bool
covers x [] = false
covers x (r ∷ rs) = within x r || covers x rs

-- A range of machine words that holds at least one address.
abbrev pub IsRange : Range → Type 0
IsRange r = (r.start ≤ r.end) × (r.end ≤ usize_max)

-- A test fails on every range of the list.
abbrev pub Fails : (Range → Bool) → List Range → Type 0
Fails f [] = Unit
Fails f (o ∷ os) = (f o ≡ false) × Fails f os

-- `r` neither overlaps nor neighbours a range of the list.
abbrev pub NoTouch : Range → List Range → Type 0
NoTouch r = Fails (touches r)

-- Proper ranges, no two of which overlap or are neighbours.
abbrev pub IsApart : List Range → Type 0
IsApart [] = Unit
IsApart (r ∷ rs) = IsRange r × NoTouch r rs × IsApart rs

pub covers-append :
    (x : ℕ) (xs ys : List Range) → covers x (xs ++ ys) ≡ (covers x xs || covers x ys)
covers-append x [] ys = refl
covers-append x (r ∷ xs) ys = ground (arith, covers-append x xs ys)

pub covers-delete :
    (x : ℕ) (xs : List Range) (i : ℕ) {r : Range}
    → get_elem? xs i ≡ some r
    → covers x xs ≡ (within x r || covers x (delete xs i))
covers-delete x [] i e = absurd (ground arith)
covers-delete x (o ∷ xs) zero e = ground arith
covers-delete x (o ∷ xs) (suc i) e = ground (arith, covers-delete x xs i e)

module _ (f : Range → Bool) where
  pub Fails-delete : (xs : List Range) (i : ℕ) → Fails f xs → Fails f (delete xs i)
  Fails-delete [] i h = tt
  Fails-delete (o ∷ xs) zero h = h.1
  Fails-delete (o ∷ xs) (suc i) h = (h.0, Fails-delete xs i h.1)

  pub Fails-set :
      (xs : List Range) (i : ℕ) (v : Range)
      → Fails f (delete xs i)
      → f v ≡ false
      → Fails f (set xs i v)
  Fails-set [] i v h e = tt
  Fails-set (o ∷ xs) zero v h e = (e, h)
  Fails-set (o ∷ xs) (suc i) v h e = (h.0, Fails-set xs i v h.1 e)

  pub Fails-append : (xs ys : List Range) → Fails f xs → Fails f ys → Fails f (xs ++ ys)
  Fails-append [] ys h k = k
  Fails-append (x ∷ xs) ys h k = (h.0, Fails-append xs ys h.1 k)

  pub Fails-take : (n : ℕ) (xs : List Range) → Fails f xs → Fails f (take n xs)
  Fails-take zero xs h = tt
  Fails-take (suc n) [] h = tt
  Fails-take (suc n) (x ∷ xs) h = (h.0, Fails-take n xs h.1)

  -- One more element of the list is passed.
  pub Fails-take-suc :
      (n : ℕ) (xs : List Range) {o : Range}
      → Fails f (take n xs)
      → get_elem? xs n ≡ some o
      → f o ≡ false
      → Fails f (take (suc n) xs)
  Fails-take-suc n [] h e t = tt
  Fails-take-suc zero (x ∷ xs) {o} h e t = (ap f (some_inj e) ∙ t, tt)
    where
      some_inj : {a b : Range} → some a ≡ some b → a ≡ b
      some_inj e = cc
  Fails-take-suc (suc n) (x ∷ xs) h e t = (h.0, Fails-take-suc n xs h.1 e t)

  pub Fails-get :
      (xs : List Range) (i : ℕ) {o : Range} → Fails f xs → get_elem? xs i ≡ some o → f o ≡ false
  Fails-get [] i n e = absurd (ground arith)
  Fails-get (x ∷ xs) zero n e = ground arith
  Fails-get (x ∷ xs) (suc i) n e = Fails-get xs i n.1 e

pub IsApart-delete : (xs : List Range) (i : ℕ) → IsApart xs → IsApart (delete xs i)
IsApart-delete [] i h = tt
IsApart-delete (r ∷ xs) zero h = h.2
IsApart-delete (r ∷ xs) (suc i) h =
    (h.0, Fails-delete (touches r) xs i h.1, IsApart-delete xs i h.2)

pub IsRange-of_get :
    (xs : List Range) (i : ℕ) {r : Range} → IsApart xs → get_elem? xs i ≡ some r → IsRange r
IsRange-of_get [] i h e = absurd (ground arith)
IsRange-of_get (o ∷ xs) zero h e = ground arith
IsRange-of_get (o ∷ xs) (suc i) h e = IsRange-of_get xs i h.2 e

pub touches_comm : (a b : Range) → touches a b ≡ touches b a
touches_comm a b = ground arith

pub IsApart-append :
    (xs : List Range) (r : Range) → IsApart xs → IsRange r → NoTouch r xs → IsApart (xs ++ r ∷ [])
IsApart-append [] r h k n = (k, tt, tt)
IsApart-append (o ∷ xs) r h k n = (
  h.0,
  Fails-append (touches o) xs (r ∷ []) h.1 (touches_comm o r ∙ n.0, tt),
  IsApart-append xs r h.2 k n.1,
)

-- Ranges that touch cover together what their hull covers.
pub within-hull :
    (x : ℕ) (r o : Range)
    → IsRange r
    → IsRange o
    → touches r o ≡ true
    → within x (hull r o) ≡ (within x r || within x o)
within-hull x r o h k t = ground arith

pub hull-IsRange : (r o : Range) → IsRange r → IsRange o → IsRange (hull r o)
hull-IsRange r o h k = omega arith
