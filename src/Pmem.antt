-- ===== src/Pmem.antt =====
-- crates/kernel/src/pmem.rs: the memory that the kernel may use, and its allocation. The range of the kernel is that of the
-- linker's symbols, and the global allocator is the state that a function takes and returns. Log messages are
-- left out.
pub mod Usable
pub mod Layouts
mod Tests
use novos.Prelude.{
  ℕ, ◌+◌, ◌*◌, ◌-◌, ◌/◌, Option, none, some, List, [], ◌∷◌, ltb, ◌==◌, if◌then◌else◌, Run, ok,
  panic, ◌>>=◌, Result, good, bad, sub_usize,
}
use novos.Memmap.{phys2virt}
use novos.Allocator
use novos.Allocator.{page_size, AllocStats}
use novos.RangeSet
use novos.RangeSet.{Range, range, RangeSet, empty, insert, remove_range, as_slice}
use novos.Buddy
use novos.Buddy.{BuddyAllocator, order_for_size, size_for_order, allocate, deallocate, add_region}
use novos.DeviceTree.Blob.{DeviceTree}
use novos.DeviceTree.Find
use novos.DeviceTree.Regions.{Region, region_end, regions, all_regions}

pub data Error : Type 0 where
  range_set : RangeSet.Error → Error
  alloc : Allocator.Error → Error
  null_region : Error

-- The range of a region, whose end is inclusive.
unfoldable pub region_range : Region → Run Range
unfolding region_end
region_range region = do
  end ← region_end region
  last ← sub_usize end 1
  ok (range region.start last)

-- `try_for_each` over the regions of the memory node.
unfoldable pub insert_regions :
    List Region → RangeSet → Run (RangeSet × Result RangeSet.Error (Unit {0}))
unfolding region_range
insert_regions [] mem = ok (mem, good tt)
insert_regions (region ∷ rest) mem = do
  r ← region_range region
  (mem', inserted) ← insert mem r
  elim inserted [ bad e ↦ ok (mem', bad e) | good done ↦ insert_regions rest mem' ]

-- The firmware, and the kernel between its two symbols.
unfoldable pub get_blocked_ranges : ℕ → ℕ → Run (List Range)
get_blocked_ranges kernel_start kernel_end = do
  last ← sub_usize kernel_end 1
  ok (range 0x8000_0000 0x801F_FFFF ∷ range kernel_start last ∷ [])

unfoldable pub remove_ranges :
    List Range → RangeSet → Run (RangeSet × Result RangeSet.Error (Unit {0}))
remove_ranges [] mem = ok (mem, good tt)
remove_ranges (r ∷ rest) mem = do
  (mem', removed) ← remove_range mem r
  elim removed [ bad e ↦ ok (mem', bad e) | good done ↦ remove_ranges rest mem' ]

-- The first two loops of `init`.
unfoldable pub usable_ranges : ℕ → ℕ → List Region → Run (Result Error RangeSet)
unfolding insert_regions get_blocked_ranges remove_ranges
usable_ranges kernel_start kernel_end found = do
  (mem, inserted) ← insert_regions found empty
  elim inserted [
    | bad e ↦ ok (bad (range_set e))
    | good done ↦ do
      blocked ← get_blocked_ranges kernel_start kernel_end
      (mem', removed) ← remove_ranges blocked mem
      elim removed [ bad e ↦ ok (bad (range_set e)) | good done' ↦ ok (good mem') ]
  ]

-- The third loop of `init`, over the ranges that are left.
abbrev pub added :
    (BuddyAllocator → Run (BuddyAllocator × Result Error (Unit {0})))
    → BuddyAllocator × Result Allocator.Error ℕ
    → Run (BuddyAllocator × Result Error (Unit {0}))
added rest (s, bad e) = ok (s, bad (alloc e))
added rest (s, good total) = rest s

unfoldable pub add_ranges :
    List Range → BuddyAllocator → Run (BuddyAllocator × Result Error (Unit {0}))
add_ranges [] s = ok (s, good tt)
add_ranges (r ∷ rest) s =
    if r.start == 0
    then ok (s, bad null_region)
    else if r.end == 0
    then ok (s, bad null_region)
    else add_region r.start r.end s >>= added (add_ranges rest)

unfoldable pub init :
    ℕ → ℕ → DeviceTree → BuddyAllocator → Run (BuddyAllocator × Result Error (Unit {0}))
unfolding usable_ranges add_ranges
init kernel_start kernel_end tree s = do
  node ← Find.memory tree
  reg ← regions node
  found ← all_regions reg
  usable ← usable_ranges kernel_start kernel_end found
  elim usable [ bad e ↦ ok (s, bad e) | good mem ↦ add_ranges (as_slice mem) s ]

-- `Layout`
pub record Layout : Type 0 where
  pub size : ℕ
  pub align : ℕ

-- The block as a slice in the mapped physical memory, or `AllocError`.
abbrev pub slice_of :
    ℕ → BuddyAllocator × Result Allocator.Error ℕ → Run (BuddyAllocator × Option (ℕ × ℕ))
slice_of size (s, bad e) = ok (s, none)
slice_of size (s, good block) = do ptr ← phys2virt s.offset block; ok (s, some (ptr, size))

unfoldable pub allocate_layout : Layout → BuddyAllocator → Run (BuddyAllocator × Option (ℕ × ℕ))
allocate_layout layout s = if ltb page_size layout.align then ok (s, none) else do
  order ← order_for_size layout.size
  size ← size_for_order order
  taken ← allocate order s
  slice_of size taken

-- `translated` is what the root page table makes of the pointer, and `steps` more than any free list has nodes. A
-- refusal is only logged.
abbrev pub physical : Option ℕ → ℕ → Run ℕ
physical none ptr = ok ptr
physical (some addr) ptr = if addr == 0 then panic else ok addr

unfoldable pub deallocate_layout : ℕ → Option ℕ → ℕ → Layout → BuddyAllocator → Run BuddyAllocator
deallocate_layout steps translated ptr layout s = do
  order ← order_for_size layout.size
  block ← physical translated ptr
  (s', done) ← deallocate steps block order s
  ok s'

unfoldable pub alloc_order : ℕ → BuddyAllocator → Run (BuddyAllocator × Result Allocator.Error ℕ)
alloc_order order s = allocate order s

abbrev pub alloc_page : BuddyAllocator → Run (BuddyAllocator × Result Allocator.Error ℕ)
alloc_page s = alloc_order 0 s

unfoldable pub free_order :
    ℕ → ℕ → ℕ → BuddyAllocator → Run (BuddyAllocator × Result Allocator.Error (Unit {0}))
free_order steps ptr order s = deallocate steps ptr order s

abbrev pub free : ℕ → ℕ → BuddyAllocator → Run (BuddyAllocator × Result Allocator.Error (Unit {0}))
free steps ptr s = free_order steps ptr 0 s

abbrev pub global_stats : BuddyAllocator → AllocStats
global_stats s = Buddy.stats s
