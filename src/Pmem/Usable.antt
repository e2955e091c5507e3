-- ===== src/Pmem/Usable.antt =====
-- The addresses that `init` leaves to the allocator.
use novos.Prelude.{
  ℕ, suc, ◌+◌, ◌-◌, ◌≤◌, ◌<◌, ◌≡◌, refl, sym, ap, ◌∙◌, subst, List, [], ◌∷◌, ◌++◌, not, ◌&&◌, false,
  ◌==◌, Run, ◌>>=◌, Result, bad, map, length, length-append, le→not-ltb, ok, panic, out_of_fuel,
  good, usize_max, arith,
}
use novos.RangeSet.{Range, range, range_count, RangeSet, empty, as_slice, touches}
use novos.RangeSet.Slice.{IsValid, length-as_slice, empty-IsValid, as_slice-empty}
use novos.RangeSet.Cover.{within, covers, IsRange, NoTouch, IsApart, touches_comm}
use novos.RangeSet.Insert.{insert-Inserted, insert_apart}
use novos.RangeSet.Remove.{remove_range-few}
use novos.DeviceTree.Blob.{DeviceTree}
use novos.DeviceTree.Level.{Node}
use novos.DeviceTree.Find.{memory}
use novos.DeviceTree.Regions.{Region, Regions, region_end, regions, all_regions}
use novos.Buddy.{BuddyAllocator, add_region}
use novos.Allocator
use novos.Pmem.{
  Error, alloc, added, region_range, insert_regions, get_blocked_ranges, remove_ranges,
  usable_ranges, add_ranges, init,
}
use mathlib.Core.List.{append_assoc, append-nil}

-- A region that is not empty, and its range.
abbrev pub IsRegion : Region → Type 0
IsRegion r = (0 < r.size) × (r.start + r.size ≤ usize_max)

abbrev pub range_of : Region → Range
range_of r = range r.start (r.start + r.size - 1)

abbrev pub AreRegions : List Region → Type 0
AreRegions [] = Unit
AreRegions (r ∷ rs) = IsRegion r × AreRegions rs

region_range_lem : (r : Region) → IsRegion r → region_range r ≡ ok (range_of r)
unfolding region_range region_end
region_range_lem r h =
    rw (le→not-ltb usize_max (r.start + r.size) h.1, le→not-ltb (r.start + r.size) 1 (omega arith))
      refl

-- A range of the list touches nothing before it.
NoTouch-before :
    (done rest : List Range) (r : Range) → IsApart (done ++ (r ∷ rest)) → NoTouch r done
NoTouch-before [] rest r a = tt
NoTouch-before (o ∷ done) rest r a =
    (touches_comm r o ∙ first done a.1, NoTouch-before done rest r a.2)
  where
    first : (xs : List Range) → NoTouch o (xs ++ (r ∷ rest)) → touches o r ≡ false
    first [] h = h.0
    first (x ∷ xs) h = first xs h.1

IsApart-front : (xs ys : List Range) → IsApart (xs ++ ys) → IsApart xs
IsApart-front [] ys a = tt
IsApart-front (x ∷ xs) ys a = (a.0, front xs a.1, IsApart-front xs ys a.2)
  where
    front : (zs : List Range) → NoTouch x (zs ++ ys) → NoTouch x zs
    front [] h = tt
    front (z ∷ zs) h = (h.0, front zs h.1)

insert_regions_lem :
    (rs : List Region) (s : RangeSet)
    → IsValid s
    → AreRegions rs
    → IsApart (as_slice s ++ map range_of rs)
    → s.idx + length rs ≤ range_count
    → (t : RangeSet) × (insert_regions rs s ≡ ok (t, good tt))
      × IsValid t
      × (as_slice t ≡ as_slice s ++ map range_of rs)
unfolding insert_regions
insert_regions_lem [] s v h a few = (s, refl, v, sym (append-nil (as_slice s)))
insert_regions_lem (r ∷ rs) s v h a few =
    let others : List Range = map range_of rs in
    let proper : IsRange (range_of r) = (omega arith, omega arith) in
    let (t, run, slice) =
      (insert_apart s (range_of r) v proper (NoTouch-before (as_slice s) others (range_of r) a)).0
        (omega arith) in
    let (done, inserted) =
      insert-Inserted s (range_of r) t (good tt) v
        (IsApart-front (as_slice s) (range_of r ∷ others) a) proper run in
    let regroup : as_slice t ++ others ≡ as_slice s ++ (range_of r ∷ others) =
      ap (λ xs. xs ++ others) slice ∙ append_assoc (as_slice s) (range_of r ∷ []) others in
    let one_more : t.idx ≡ suc s.idx = omega (
      arith,
      length-as_slice t inserted.valid,
      length-as_slice s v,
      ap (length {A = Range}) slice,
      length-append (as_slice s) (range_of r ∷ []),
    ) in
    let (u, run', valid, all) =
      insert_regions_lem rs t inserted.valid h.1 (subst IsApart (sym regroup) a)
        (omega (arith, one_more)) in
    (u, rw (region_range_lem r h.0, run) run', valid, all ∙ regroup)

-- What the two removals leave of a set.
abbrev pub Left : List Range → Range → Range → RangeSet → Type 0
Left ranges firmware kernel t =
    IsApart (as_slice t)
    × ((x : ℕ)
        → covers x (as_slice t)
          ≡ ((covers x ranges && not (within x firmware)) && not (within x kernel)))

abbrev pub firmware : Range
firmware = range 0x8000_0000 0x801F_FFFF

remove_ranges_lem :
    (s : RangeSet) (kernel : Range)
    → IsValid s
    → IsApart (as_slice s)
    → IsRange kernel
    → s.idx + 1 < range_count
    → (t : RangeSet) × (remove_ranges (firmware ∷ kernel ∷ []) s ≡ ok (t, good tt))
      × Left (as_slice s) firmware kernel t
unfolding remove_ranges
remove_ranges_lem s kernel v a proper few =
    let (t, run, valid, apart, same, idx) =
      remove_range-few s firmware v a (omega arith) (omega arith) in
    let (u, run', valid', apart', same', idx') =
      remove_range-few t kernel valid apart proper (omega (arith, idx)) in
    (u, rw (run, run') refl, (apart', λ x. same' x ∙ ap (λ b. b && not (within x kernel)) (same x)))

-- When the regions of the memory node are at most six, not empty, within 64 bits, and neither overlap nor neighbour one
-- another, the ranges that `init` finds are apart and cover exactly the addresses of the regions that are neither
-- the firmware's nor the kernel's.
pub usable_ranges-Left :
    (kernel_start kernel_end : ℕ) (rs : List Region)
    → kernel_start < kernel_end
    → kernel_end ≤ usize_max
    → AreRegions rs
    → IsApart (map range_of rs)
    → length rs ≤ 6
    → (t : RangeSet) × (usable_ranges kernel_start kernel_end rs ≡ ok (good t))
      × Left (map range_of rs) firmware (range kernel_start (kernel_end - 1)) t
unfolding usable_ranges get_blocked_ranges
usable_ranges-Left kernel_start kernel_end rs ordered fits regions apart few =
    let kernel = range kernel_start (kernel_end - 1) in
    let start : as_slice empty ++ map range_of rs ≡ map range_of rs =
      ap (λ xs. xs ++ map range_of rs) as_slice-empty in
    let (s, run, valid, slice) =
      insert_regions_lem rs empty empty-IsValid regions (subst IsApart (sym start) apart)
        (omega arith) in
    let all : as_slice s ≡ map range_of rs = slice ∙ start in
    let count : s.idx ≡ length rs =
      omega (arith, length-as_slice s valid, ap (length {A = Range}) all, length-map rs) in
    let (t, run', left) =
      remove_ranges_lem s kernel valid (subst IsApart (sym all) apart) (omega arith, omega arith)
        (omega (arith, count)) in
    (
      t,
      rw (run, le→not-ltb kernel_end 1 (omega arith), run') refl,
      subst (λ ranges. Left ranges firmware kernel t) all left,
    )
  where
    length-map : (xs : List Region) → length (map range_of xs) ≡ length xs
    length-map [] = refl
    length-map (x ∷ xs) = ap suc (length-map xs)

-- The calls of `add_region` on the allocator: one for every range, in their order, with the start and with the last
-- address, up to the first that refuses.
abbrev pub after_region :
    (BuddyAllocator → Run (BuddyAllocator × Result Error (Unit {0})))
    → BuddyAllocator × Result Allocator.Error ℕ
    → Run (BuddyAllocator × Result Error (Unit {0}))
after_region rest (s, good total) = rest s
after_region rest (s, bad e) = ok (s, bad (alloc e))

abbrev pub region_calls :
    List (ℕ × ℕ) → BuddyAllocator → Run (BuddyAllocator × Result Error (Unit {0}))
region_calls [] s = ok (s, good tt)
region_calls ((start, last) ∷ calls) s =
    add_region start last s >>= after_region (region_calls calls)

abbrev pub ends : Range → ℕ × ℕ
ends r = (r.start, r.end)

add_ranges-region_calls :
    (rs : List Range) (s : BuddyAllocator)
    → IsApart rs
    → covers 0 rs ≡ false
    → add_ranges rs s ≡ region_calls (map ends rs) s
unfolding add_ranges
add_ranges-region_calls [] s a h = refl
add_ranges-region_calls (r ∷ rs) s a h =
    let start : (r.start == 0) ≡ false = ground (arith, h, a.0) in
    let last : (r.end == 0) ≡ false = ground (arith, h, a.0) in
    let later : covers 0 rs ≡ false = ground (arith, h) in
    rw (start, last)
      (same_calls (add_ranges rs) (region_calls (map ends rs))
        (λ u. add_ranges-region_calls rs u a.2 later) (add_region r.start r.end s))
  where
    same_call :
        (f g : BuddyAllocator → Run (BuddyAllocator × Result Error (Unit {0})))
        → ((u : BuddyAllocator) → f u ≡ g u)
        → (x : BuddyAllocator × Result Allocator.Error ℕ) → added f x ≡ after_region g x
    same_call f g h (u, bad e) = refl
    same_call f g h (u, good total) = h u

    same_calls :
        (f g : BuddyAllocator → Run (BuddyAllocator × Result Error (Unit {0})))
        → ((u : BuddyAllocator) → f u ≡ g u)
        → (x : Run (BuddyAllocator × Result Allocator.Error ℕ))
        → (x >>= added f) ≡ (x >>= after_region g)
    same_calls f g h (ok x) = same_call f g h x
    same_calls f g h panic = refl
    same_calls f g h out_of_fuel = refl

-- When the memory node of the device tree has at most six regions, not empty, within 64 bits, neither
-- overlapping nor neighbours, and none with the address 0, and the kernel's range is not empty, `init` calls
-- `add_region` for ranges that are apart and cover exactly the addresses of the regions that are neither the
-- firmware's nor the kernel's: for each in turn with its start and with its last address, one less than the
-- end that `add_region` expects, until a call refuses, whose error it returns.
pub init-region_calls :
    (kernel_start kernel_end : ℕ) (tree : DeviceTree) (node : Node) (reg : Regions)
    (rs : List Region) (s : BuddyAllocator)
    → memory tree ≡ ok node
    → regions node ≡ ok reg
    → all_regions reg ≡ ok rs
    → kernel_start < kernel_end
    → kernel_end ≤ usize_max
    → AreRegions rs
    → IsApart (map range_of rs)
    → length rs ≤ 6
    → covers 0 (map range_of rs) ≡ false
    → (t : RangeSet) × (init kernel_start kernel_end tree s
        ≡ region_calls (map ends (as_slice t)) s)
      × Left (map range_of rs) firmware (range kernel_start (kernel_end - 1)) t
unfolding init
init-region_calls kernel_start kernel_end tree node reg rs s is_node is_reg is_rs ordered fits
      proper apart few no_null =
    let (t, run, left) =
      usable_ranges-Left kernel_start kernel_end rs ordered fits proper apart few in
    let nothing : covers 0 (as_slice t) ≡ false = left.1 0 ∙ rw no_null refl in
    (
      t,
      rw (is_node, is_reg, is_rs, run) (add_ranges-region_calls (as_slice t) s left.0 nothing),
      left,
    )
