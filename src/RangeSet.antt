-- ===== src/RangeSet.antt =====
-- crates/kernel/src/allocator/rangeset.rs: a set of inclusive ranges in a fixed array. A method
-- returns the new set beside its result; an index out of bounds and an `unwrap` panic.
pub mod Slice
pub mod Cover
pub mod Merge
pub mod Insert
pub mod Fit
pub mod Spare
pub mod Cut
pub mod Replace
pub mod Split
pub mod Remove
pub mod Tests
use novos.Prelude.{
  ℕ, zero, suc, ◌+◌, ◌-◌, ◌*◌, min, max, Bool, not, ◌&&◌, Option, none, some, List, [], ◌∷◌, ◌++◌,
  ltb, leb, ◌==◌, if◌then◌else◌, length, get_elem?, set, take, replicate, Run, ok, panic,
  out_of_fuel, ◌>>=◌, ◌>>◌, unwrap, Result, good, bad, saturating_add,
}

abbrev pub range_count : ℕ
range_count = 8

pub data Error : Type 0 where
  invalid_range out_of_bounds : Error

pub record Range : Type 0 where
  pub start : ℕ
  pub end : ℕ

abbrev pub range : ℕ → ℕ → Range
range start end = record { start = start; end = end }

pub record RangeSet : Type 0 where
  pub ranges : List Range
  pub idx : ℕ

abbrev pub empty : RangeSet
empty = record { ranges = replicate range_count (range 0 0); idx = 0 }

abbrev pub overlaps : Range → Range → Bool
overlaps a b = leb a.start b.end && leb b.start a.end

-- Whether the whole of `a` lies inside `b`.
abbrev pub contains : Range → Range → Bool
contains a b = leb b.start a.start && leb a.end b.end

-- `ranges[i..].rotate_left(1)`, which panics where the slice is empty or out of bounds.
abbrev pub rotate_from : List Range → ℕ → Run (List Range)
rotate_from [] i = panic
rotate_from (r ∷ rs) zero = ok (rs ++ r ∷ [])
rotate_from (r ∷ rs) (suc i) = do ok (r ∷ (← rotate_from rs i))

-- `ranges[i] = r`
abbrev pub write_at : List Range → ℕ → Range → Run (List Range)
write_at rs i r = if ltb i (length rs) then ok (set rs i r) else panic

-- `get`
pub get : RangeSet → ℕ → Run (Option Range)
get s i = if leb s.idx i then ok none else (do ok (some (← unwrap (get_elem? s.ranges i))))

pub remove : RangeSet → ℕ → Run (RangeSet × Result Error (Unit {0}))
remove s i =
    if leb s.idx i
    then ok (s, bad out_of_bounds)
    else do rs ← rotate_from s.ranges i; ok (record { ranges = rs; idx = s.idx - 1 }, good tt)

-- `self.remove(i).unwrap()`
abbrev pub unwrap_removed : RangeSet × Result Error (Unit {0}) → Run RangeSet
unwrap_removed (s, good _) = ok s
unwrap_removed (s, bad _) = panic

pub remove_unwrap : RangeSet → ℕ → Run RangeSet
unfolding remove
remove_unwrap s i = remove s i >>= unwrap_removed

-- Whether two ranges overlap or are neighbours: the test of `merge_blocks`.
abbrev pub touches : Range → Range → Bool
touches r other =
    overlaps (range r.start (saturating_add r.end 1))
      (range other.start (saturating_add other.end 1))

abbrev pub hull : Range → Range → Range
hull r other = range (min r.start other.start) (max r.end other.end)

-- One round of the loop of `merge_blocks` at index `i`; `again` is its recursive call.
pub merge_step :
    (RangeSet → Range → Run (RangeSet × Range)) → ℕ → RangeSet → Range → Run (RangeSet × Range)
merge_step again i s r = do
  other ← unwrap (get_elem? s.ranges i)
  if touches r other then (do s' ← remove_unwrap s i; again s' (hull r other)) else ok (s, r)

-- The loop from index `i` with `left` rounds to go: its bound is read once, on entry.
pub merge_loop :
    (RangeSet → Range → Run (RangeSet × Range)) → ℕ → ℕ → RangeSet → Range → Run (RangeSet × Range)
merge_loop again zero i s r = ok (s, r)
merge_loop again (suc left) i s r = do
  (s', r') ← merge_step again i s r
  merge_loop again left (i + 1) s' r'

-- The fuel bounds how deep the recursive calls go.
pub merge_blocks : ℕ → RangeSet → Range → Run (RangeSet × Range)
merge_blocks zero s r = out_of_fuel
merge_blocks (suc fuel) s r = merge_loop (merge_blocks fuel) s.idx 0 s r

pub push : RangeSet × Range → Run (RangeSet × Result Error (Unit {0}))
push (s, r) = do
  rs ← write_at s.ranges s.idx r
  ok (record { ranges = rs; idx = s.idx + 1 }, good tt)

-- Each recursive call comes after a removal, so `idx + 1` is fuel enough.
pub insert : RangeSet → Range → Run (RangeSet × Result Error (Unit {0}))
unfolding push
insert s r =
    if ltb r.end r.start then ok (s, bad invalid_range) else (merge_blocks (s.idx + 1) s r >>= push)

-- How a round of the loop of `remove_inner` ends.
pub data Flow : Type 0 where
  carry_on returned : RangeSet → Flow

abbrev pub set_start : List Range → ℕ → ℕ → Run (List Range)
set_start rs i a = do o ← unwrap (get_elem? rs i); write_at rs i (record o { start = a })

abbrev pub set_end : List Range → ℕ → ℕ → Run (List Range)
set_end rs i b = do o ← unwrap (get_elem? rs i); write_at rs i (record o { end = b })

-- The cases of a round. `- 1` saturates at 0, as `saturating_sub` does.
pub drop_contained : (RangeSet → Run RangeSet) → ℕ → RangeSet → Run Flow
drop_contained again i s = do s' ← remove_unwrap s i; t ← again s'; ok (returned t)

pub trim_start : ℕ → RangeSet → Range → Run Flow
trim_start i s r = do
  rs ← set_start s.ranges i (saturating_add r.end 1)
  ok (carry_on (record s { ranges = rs }))

pub trim_end : ℕ → RangeSet → Range → Run Flow
trim_end i s r = do rs ← set_end s.ranges i (r.start - 1); ok (carry_on (record s { ranges = rs }))

pub split_at : ℕ → RangeSet → Range → Range → Run RangeSet
split_at i s r other = do
  rs ← write_at s.ranges s.idx (range (saturating_add r.start 1) other.end)
  rs' ← set_end rs i (r.start - 1)
  ok (record { ranges = rs'; idx = s.idx + 1 })

pub split : (RangeSet → Run RangeSet) → ℕ → RangeSet → Range → Range → Run Flow
split again i s r other = do s' ← split_at i s r other; t ← again s'; ok (carry_on t)

-- One round of the loop at index `i`; `again` is the recursive call.
pub remove_step : (RangeSet → Run RangeSet) → ℕ → RangeSet → Range → Run Flow
remove_step again i s r = do
  other ← unwrap (get_elem? s.ranges i)
  if not (overlaps r other)
      then ok (carry_on s)
      else if contains other r
      then drop_contained again i s
      else if leb r.start other.start
      then trim_start i s r
      else if leb other.end r.end
      then trim_end i s r
      else split again i s r other

abbrev pub follow : (RangeSet → Run RangeSet) → Flow → Run RangeSet
follow rest (carry_on s) = rest s
follow rest (returned s) = ok s

pub remove_loop : (RangeSet → Run RangeSet) → ℕ → ℕ → RangeSet → Range → Run RangeSet
remove_loop again zero i s r = ok s
remove_loop again (suc left) i s r =
    remove_step again i s r >>= follow (λ s'. remove_loop again left (i + 1) s' r)

pub remove_inner : ℕ → RangeSet → Range → Run RangeSet
remove_inner zero s r = out_of_fuel
remove_inner (suc fuel) s r = remove_loop (λ s'. remove_inner fuel s' r) s.idx 0 s r

-- A recursive call has one range less, or one that no longer holds all of `r`.
pub remove_range : RangeSet → Range → Run (RangeSet × Result Error (Unit {0}))
remove_range s r =
    if ltb r.end r.start
    then ok (s, bad invalid_range)
    else do t ← remove_inner (2 * s.idx + 2) s r; ok (t, good tt)

pub clear : RangeSet → RangeSet
clear s = record s { idx = 0 }

pub as_slice : RangeSet → List Range
as_slice s = take s.idx s.ranges

pub len : RangeSet → ℕ
len s = s.idx

pub is_empty : RangeSet → Bool
is_empty s = len s == 0
