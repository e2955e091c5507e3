-- ===== src/RangeSet/Slice.antt =====
-- The slice of live ranges under the array operations of rangeset.rs.
use novos.Prelude.{
  ℕ, zero, suc, ◌-◌, ◌≡◌, refl, ◌≤◌, ◌<◌, ap, ◌∙◌, false, List, [], ◌∷◌, ◌++◌, arith, leb, length,
  get_elem?, set, take, ok, panic, good, bad, length-append, length-take, sym, inl, inr, Bool-cases,
  ok_inj, subst, le→leb,
}
use novos.RangeSet.{
  empty, RangeSet, Range, range_count, out_of_bounds, rotate_from, remove, remove_unwrap, as_slice,
}

-- The list without its element at an index.
abbrev pub delete : List Range → ℕ → List Range
delete [] i = []
delete (r ∷ rs) zero = rs
delete (r ∷ rs) (suc i) = r ∷ delete rs i

pub record IsValid (s : RangeSet) : Type 0 where
  pub size : length s.ranges ≡ range_count
  pub bound : s.idx ≤ range_count

pub take-append_left : (n : ℕ) (xs ys : List Range) → n ≤ length xs → take n (xs ++ ys) ≡ take n xs
take-append_left zero xs ys h = refl
take-append_left (suc n) [] ys h = absurd (omega arith)
take-append_left (suc n) (x ∷ xs) ys h = rw (take-append_left n xs ys (omega arith))

-- Rotating the rest of the array deletes one element of every prefix that held it.
pub rotate_from-delete :
    (rs : List Range) (n i : ℕ)
    → i ≤ n
    → n < length rs
    → (rs' : List Range) × (rotate_from rs i ≡ ok rs')
      × (length rs' ≡ length rs)
      × (take n rs' ≡ delete (take (suc n) rs) i)
rotate_from-delete [] n i h k = absurd (omega arith)
rotate_from-delete (r ∷ rs) n zero h k = (
  rs ++ r ∷ [],
  refl,
  omega (arith, length-append rs (r ∷ [])),
  take-append_left n rs (r ∷ []) (omega arith),
)
rotate_from-delete (r ∷ rs) zero (suc i) h k = absurd (omega arith)
rotate_from-delete (r ∷ rs) (suc n) (suc i) h k =
    let (rs', e, l, t) = rotate_from-delete rs n i (omega arith) (omega arith) in
    (r ∷ rs', rw e refl, omega arith, rw t refl)

pub take-set :
    (xs : List Range) (n : ℕ) (r : Range)
    → n < length xs
    → take (suc n) (set xs n r) ≡ take n xs ++ r ∷ []
take-set [] n r h = absurd (omega arith)
take-set (x ∷ xs) zero r h = refl
take-set (x ∷ xs) (suc n) r h = rw (take-set xs n r (omega arith))

pub take-set_lt :
    (xs : List Range) (n i : ℕ) (r : Range) → i < n → take n (set xs i r) ≡ set (take n xs) i r
take-set_lt xs zero i r h = absurd (omega arith)
take-set_lt [] (suc n) i r h = refl
take-set_lt (x ∷ xs) (suc n) zero r h = refl
take-set_lt (x ∷ xs) (suc n) (suc i) r h = rw (take-set_lt xs n i r (omega arith))

pub get_elem?-take : (xs : List Range) (n i : ℕ) → i < n → get_elem? (take n xs) i ≡ get_elem? xs i
get_elem?-take xs zero i h = absurd (omega arith)
get_elem?-take [] (suc n) i h = refl
get_elem?-take (x ∷ xs) (suc n) zero h = refl
get_elem?-take (x ∷ xs) (suc n) (suc i) h = get_elem?-take xs n i (omega arith)

pub take_all : (xs : List Range) (n : ℕ) → length xs ≤ n → take n xs ≡ xs
take_all [] zero h = refl
take_all [] (suc n) h = refl
take_all (x ∷ xs) zero h = absurd (omega arith)
take_all (x ∷ xs) (suc n) h = rw (take_all xs n (omega arith))

pub length-as_slice : (s : RangeSet) → IsValid s → length (as_slice s) ≡ s.idx
unfolding as_slice
length-as_slice s v = omega (arith, length-take s.idx s.ranges, v.size, v.bound)

-- What `remove` does with a live index: one range leaves the slice.
pub record Removed (s : RangeSet) (i : ℕ) (s' : RangeSet) : Type 0 where
  pub valid : IsValid s'
  pub fewer : suc s'.idx ≡ s.idx
  pub slice : as_slice s' ≡ delete (as_slice s) i

get_elem?-append_last :
    (xs : List Range) (r : Range) (j : ℕ)
    → j < length xs
    → get_elem? (xs ++ r ∷ []) j ≡ get_elem? xs j
get_elem?-append_last [] r j h = absurd (omega arith)
get_elem?-append_last (x ∷ xs) r zero h = refl
get_elem?-append_last (x ∷ xs) r (suc j) h = get_elem?-append_last xs r j (omega arith)

rotate_from_get :
    (rs : List Range) (i j : ℕ)
    → i ≤ j
    → suc j < length rs
    → (rs' : List Range) × (rotate_from rs i ≡ ok rs') × (get_elem? rs' j ≡ get_elem? rs (suc j))
rotate_from_get [] i j h k = absurd (omega arith)
rotate_from_get (r ∷ rs) zero j h k =
    (rs ++ r ∷ [], refl, get_elem?-append_last rs r j (omega arith))
rotate_from_get (r ∷ rs) (suc i) zero h k = absurd (omega arith)
rotate_from_get (r ∷ rs) (suc i) (suc j) h k =
    let (rs', e, g) = rotate_from_get rs i j (omega arith) (omega arith) in (r ∷ rs', rw e refl, g)

module _ (s : RangeSet) (i : ℕ) where
  pub remove-Removed :
      IsValid s → i < s.idx → (s' : RangeSet) × (remove s i ≡ ok (s', good tt)) × Removed s i s'
  unfolding remove as_slice
  remove-Removed v h =
      let e : s.idx ≡ suc (s.idx - 1) = omega arith in
      let (rs', run, size, t) =
        rotate_from-delete s.ranges (s.idx - 1) i (omega arith) (omega (arith, v.size, v.bound)) in
      (
        record { ranges = rs'; idx = s.idx - 1 },
        rw (not-leb s.idx i h, run) refl,
        record {
          valid = record { size = size ∙ v.size; bound = omega (arith, v.bound) };
          fewer = omega arith;
          slice = t ∙ ap (λ n. delete (take n s.ranges) i) (sym e);
        },
      )
    where
      not-leb : (a b : ℕ) → b < a → leb a b ≡ false
      not-leb a b k = ground arith

  pub remove-bad : s.idx ≤ i → remove s i ≡ ok (s, bad out_of_bounds)
  unfolding remove
  remove-bad h = rw (le→leb s.idx i h) refl

  pub remove_unwrap-Removed :
      IsValid s → i < s.idx → (s' : RangeSet) × (remove_unwrap s i ≡ ok s') × Removed s i s'
  unfolding remove_unwrap
  remove_unwrap-Removed v h = let (s', e, d) = remove-Removed v h in (s', rw e refl, d)

  pub remove_unwrap-panic : s.idx ≤ i → remove_unwrap s i ≡ panic
  unfolding remove_unwrap
  remove_unwrap-panic h = rw (remove-bad h) refl

  -- Behind the removed one every entry moves down by one.
  pub remove_unwrap_get :
      (s' : RangeSet) (j : ℕ)
      → remove_unwrap s i ≡ ok s'
      → i ≤ j
      → suc j < length s.ranges
      → get_elem? s'.ranges j ≡ get_elem? s.ranges (suc j)
  unfolding remove_unwrap remove
  remove_unwrap_get s' j run h k = elim (Bool-cases (leb s.idx i)) [
    | inl past ↦ cc (rw past at run)
    | inr live ↦
        let (rs, e, shift) = rotate_from_get s.ranges i j h k in
        let done : record { ranges = rs; idx = s.idx - 1 } ≡ s' = ok_inj (rw (live, e) at run) in
        subst (λ (t : RangeSet). get_elem? t.ranges j ≡ get_elem? s.ranges (suc j)) done shift
  ]

-- `new` is valid and has no live range.
pub empty-IsValid : IsValid empty
empty-IsValid = record { size = refl; bound = omega arith }

pub as_slice-empty : as_slice empty ≡ []
unfolding as_slice
as_slice-empty = refl
