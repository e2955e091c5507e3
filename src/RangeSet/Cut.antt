-- ===== src/RangeSet/Cut.antt =====
-- Replacing a range of a list by a part of it, as `remove_inner` of rangeset.rs does.
use novos.Prelude.{
  ℕ, zero, suc, ◌≡◌, refl, ◌∙◌, ◌≤◌, ◌<◌, false, ◌||◌, some, List, [], ◌∷◌, arith, length,
  get_elem?, set,
}
use novos.RangeSet.{Range, overlaps, touches}
use novos.RangeSet.Slice.{delete}
use novos.RangeSet.Cover.{
  within, covers, NoTouch, IsRange, IsApart, Fails-delete, Fails-set, Fails-get, touches_comm,
}

-- `v` lies inside `o`.
abbrev pub Inside : Range → Range → Type 0
Inside v o = (o.start ≤ v.start) × (v.end ≤ o.end)

touches-Inside :
    (o v y : Range) → IsRange v → Inside v o → touches o y ≡ false → touches v y ≡ false
touches-Inside o v y h k t = ground arith

overlaps-Inside :
    (o v y : Range) → Inside v o → IsRange o → touches o y ≡ false → overlaps v y ≡ false
overlaps-Inside o v y h k t = ground arith

touches-Inside_right :
    (o v x : Range) → IsRange v → Inside v o → touches x o ≡ false → touches x v ≡ false
touches-Inside_right o v x h k t =
    touches_comm x v ∙ touches-Inside o v x h k (touches_comm o x ∙ t)

NoTouch-Inside :
    (o v : Range) (xs : List Range) → IsRange v → Inside v o → NoTouch o xs → NoTouch v xs
NoTouch-Inside o v [] h k n = tt
NoTouch-Inside o v (x ∷ xs) h k n = (touches-Inside o v x h k n.0, NoTouch-Inside o v xs h k n.1)

-- A part of one range touches none of the others.
pub NoTouch-delete-Inside :
    (xs : List Range) (i : ℕ) (o v : Range)
    → IsApart xs
    → get_elem? xs i ≡ some o
    → IsRange v
    → Inside v o
    → NoTouch v (delete xs i)
NoTouch-delete-Inside [] i o v a e h k = tt
NoTouch-delete-Inside (x ∷ xs) zero o v a e h k = NoTouch-Inside x v xs h (ground arith) a.1
NoTouch-delete-Inside (x ∷ xs) (suc i) o v a e h k = (
  touches_comm v x ∙ touches-Inside_right o v x h k (Fails-get (touches x) xs i a.1 e),
  NoTouch-delete-Inside xs i o v a.2 e h k,
)

pub IsApart-set :
    (xs : List Range) (i : ℕ) (o v : Range)
    → IsApart xs
    → get_elem? xs i ≡ some o
    → IsRange v
    → Inside v o
    → IsApart (set xs i v)
IsApart-set [] i o v a e h k = tt
IsApart-set (x ∷ xs) zero o v a e h k = (h, NoTouch-Inside x v xs h (ground arith) a.1, a.2)
IsApart-set (x ∷ xs) (suc i) o v a e h k = (
  a.0,
  Fails-set (touches x) xs i v (Fails-delete (touches x) xs i a.1)
      (touches-Inside_right o v x h k (Fails-get (touches x) xs i a.1 e)),
  IsApart-set xs i o v a.2 e h k,
)

pub covers-set :
    (x : ℕ) (xs : List Range) (i : ℕ) (v : Range)
    → i < length xs
    → covers x (set xs i v) ≡ (within x v || covers x (delete xs i))
covers-set x [] i v h = absurd (omega arith)
covers-set x (o ∷ xs) zero v h = refl
covers-set x (o ∷ xs) (suc i) v h = ground (arith, covers-set x xs i v (omega arith))
