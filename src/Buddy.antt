-- ===== src/Buddy.antt =====
-- crates/kernel/src/allocator/buddy.rs: the buddy allocator. The free list of an order is linked through the
-- free blocks themselves, so the state holds the memory that the list nodes stand in, by virtual address, and
-- the offset of `phys2virt`. A method returns the new state beside its result.
pub mod Blocks
pub mod Free
pub mod Linked
pub mod Removal
pub mod Unlink
pub mod Sound
pub mod Allocate
pub mod Pair
pub mod Return
pub mod Deallocate
pub mod Roundtrip
pub mod Region
pub mod Order
pub mod Sample
pub mod Tests
use novos.Prelude.{
  ℕ, zero, suc, ◌+◌, ◌-◌, ◌*◌, ◌/◌, ◌%◌, ◌^◌, min, max, bit_xor, Bool, true, false, ◌&&◌, ◌||◌,
  Option, none, some, List, [], ◌∷◌, ltb, leb, ◌==◌, if◌then◌else◌, length, get_elem?, set,
  replicate, Run, ok, panic, out_of_fuel, ◌>>=◌, ◌>>◌, unwrap, Result, good, bad, add_usize,
  sub_usize, mul_usize, usize_max,
}
use novos.Memmap.{phys2virt}
use novos.Allocator.{
  Error, order_too_large, no_memory_available, null_pointer, region_too_small, invalid_region,
  page_size, AllocStats, with_name, align_up,
}

abbrev pub max_order : ℕ
max_order = 12

abbrev pub min_order_size : ℕ
min_order_size = page_size

-- A shift by the width or more panics.
unfoldable pub size_for_order : ℕ → Run ℕ
size_for_order order = if leb 64 order then panic else mul_usize (2 ^ order) min_order_size

-- `usize::next_power_of_two`, which overflows above 2 ^ 63; the search tries the powers from 2 ^ e on.
pub search_power : ℕ → ℕ → ℕ → ℕ
search_power zero e x = 2 ^ e
search_power (suc fuel) e x =
    let rest = search_power fuel (suc e) x in if leb x (2 ^ e) then 2 ^ e else rest

pub next_power_of_two : ℕ → Run ℕ
next_power_of_two x = if ltb (2 ^ 63) x then panic else ok (search_power 63 0 x)

-- `usize::trailing_zeros`, of the low `bits` bits.
pub trailing_zeros : ℕ → ℕ → ℕ
trailing_zeros zero n = 0
trailing_zeros (suc bits) n =
    let rest = trailing_zeros bits (n / 2) in if n % 2 == 0 then suc rest else 0

pub order_for_size : ℕ → Run ℕ
order_for_size size = do
  power ← next_power_of_two (max size min_order_size)
  ok (trailing_zeros 64 (power / min_order_size))

-- `buddy_of`
pub buddy_of : ℕ → ℕ → Run (Result Error ℕ)
buddy_of block order = do
  size ← size_for_order order
  let buddy = bit_xor block size
  ok (if buddy == 0 then bad null_pointer else good buddy)

pub record BuddyAllocator : Type 0 where
  pub orders : List (Option ℕ)
  pub stats : AllocStats
  pub memory : ℕ → Option ℕ
  pub offset : ℕ

-- `new`, over a memory that is already there.
abbrev pub new : (ℕ → Option ℕ) → ℕ → BuddyAllocator
new memory offset = record {
  orders = replicate max_order none;
  stats = with_name "Physical Memory";
  memory = memory;
  offset = offset;
}

abbrev pub update : (ℕ → Option ℕ) → ℕ → Option ℕ → ℕ → Option ℕ
update m p v q = if p == q then v else m q

abbrev pub set_order : BuddyAllocator → ℕ → Option ℕ → BuddyAllocator
set_order s order head = record s { orders = set s.orders order head }

pub alloc_stats : ℕ → BuddyAllocator → Run BuddyAllocator
alloc_stats size s = do
  free ← sub_usize s.stats.free size
  allocated ← add_usize s.stats.allocated size
  ok (record s { stats = record (s.stats) { free = free; allocated = allocated } })

pub dealloc_stats : ℕ → BuddyAllocator → Run BuddyAllocator
dealloc_stats size s = do
  free ← add_usize s.stats.free size
  allocated ← sub_usize s.stats.allocated size
  ok (record s { stats = record (s.stats) { free = free; allocated = allocated } })

pub order_push : ℕ → ℕ → BuddyAllocator → Run BuddyAllocator
order_push order ptr s = do
  head ← unwrap (get_elem? s.orders order)
  vptr ← phys2virt s.offset ptr
  ok (set_order (record s { memory = update s.memory vptr head }) order (some ptr))

pub pop_head : ℕ → BuddyAllocator → ℕ → Run (BuddyAllocator × Option ℕ)
pop_head order s head = do
  vhead ← phys2virt s.offset head
  ok (set_order s order (s.memory vhead), some head)

pub order_pop : ℕ → BuddyAllocator → Run (BuddyAllocator × Option ℕ)
unfolding pop_head
order_pop order s = do
  head ← unwrap (get_elem? s.orders order)
  elim head [ none ↦ ok (s, none) | some p ↦ pop_head order s p ]

-- The slot that `cur` points to: a list head, or the `next` field of a node.
pub data Slot : Type 0 where
  head : Slot
  node : ℕ → Slot

pub read_slot : ℕ → BuddyAllocator → Slot → Run (Option ℕ)
read_slot order s head = unwrap (get_elem? s.orders order)
read_slot order s (node v) = ok (s.memory v)

pub write_slot : ℕ → BuddyAllocator → Slot → Option ℕ → BuddyAllocator
write_slot order s head p = set_order s order p
write_slot order s (node v) p = record s { memory = update s.memory v p }

-- The walk along a list; the fuel bounds the number of nodes that it visits.
pub walk : ℕ → ℕ → ℕ → Slot → BuddyAllocator → Run (BuddyAllocator × Bool)
unfolding read_slot write_slot
walk zero order to_remove cur s = out_of_fuel
walk (suc fuel) order to_remove cur s = do
  next ← read_slot order s cur
  elim next [
    | none ↦ ok (s, false)
    | some ptr ↦ do
      vptr ← phys2virt s.offset ptr
      if ptr == to_remove
          then ok (write_slot order s cur (s.memory vptr), true)
          else walk fuel order to_remove (node vptr) s
  ]

pub order_remove : ℕ → ℕ → ℕ → BuddyAllocator → Run (BuddyAllocator × Bool)
unfolding walk
order_remove fuel order to_remove s =
    if leb (length s.orders) order then ok (s, false) else walk fuel order to_remove head s

-- Pointers are `NonNull`; the check of `allocate` stands for `NonNull::new`.
pub hand_out : BuddyAllocator → ℕ → ℕ → Run (BuddyAllocator × Result Error ℕ)
hand_out s order block = do
  size ← size_for_order order
  s' ← alloc_stats size s
  ok (s', if block == 0 then bad null_pointer else good block)

-- The second half of the slow path: the buddy of the upper half goes to the free list.
pub push_buddy : ℕ → ℕ → BuddyAllocator → Result Error ℕ → Run (BuddyAllocator × Result Error ℕ)
push_buddy order block s (bad e) = ok (s, bad e)
push_buddy order block s (good buddy) = do
  s1 ← order_push order buddy s
  size ← size_for_order order
  s2 ← dealloc_stats size s1
  ok (s2, good block)

pub split : ℕ → BuddyAllocator × Result Error ℕ → Run (BuddyAllocator × Result Error ℕ)
unfolding push_buddy
split order (s, bad e) = ok (s, bad no_memory_available)
split order (s, good block) = do buddy ← buddy_of block order; push_buddy order block s buddy

-- The fuel bounds the recursion on the order.
pub allocate_from : ℕ → ℕ → BuddyAllocator → Run (BuddyAllocator × Result Error ℕ)
allocate_from zero order s = out_of_fuel
allocate_from (suc fuel) order s = if leb max_order order then ok (s, bad order_too_large) else do
  (s1, popped) ← order_pop order s
  elim popped [
    | some block ↦ hand_out s1 order block
    | none ↦ do upper ← allocate_from fuel (order + 1) s1; split order upper
  ]

pub allocate : ℕ → BuddyAllocator → Run (BuddyAllocator × Result Error ℕ)
allocate order s = allocate_from (suc max_order) order s

-- A block whose buddy is not free goes to the free list.
pub put_back : ℕ → ℕ → BuddyAllocator → Run (BuddyAllocator × Result Error (Unit {0}))
put_back block order s = do
  s1 ← order_push order block s
  size ← size_for_order order
  s2 ← dealloc_stats size s1
  ok (s2, good tt)

-- At the last order both buddies go back to the list.
pub put_both : ℕ → ℕ → ℕ → ℕ → BuddyAllocator → Run (BuddyAllocator × Result Error (Unit {0}))
put_both size block buddy order s = do
  s1 ← order_push order buddy s
  s2 ← order_push order block s1
  both ← mul_usize size 2
  s3 ← dealloc_stats both s2
  ok (s3, good tt)

-- The two fuels bound the recursion on the order, and the walk along a free list.
pub deallocate_from :
    ℕ → ℕ → ℕ → ℕ → BuddyAllocator → Run (BuddyAllocator × Result Error (Unit {0}))
deallocate_from zero steps block order s = out_of_fuel
deallocate_from (suc fuel) steps block order s = do
  buddy ← buddy_of block order
  elim buddy [
    | bad e ↦ ok (s, bad e)
    | good buddy_addr ↦ do
      (s1, found) ← order_remove steps order buddy_addr s
      elim found [
        | false ↦ put_back block order s1
        | true ↦ do
          size ← size_for_order order
          s2 ← alloc_stats size s1
          let higher = deallocate_from fuel steps (min buddy_addr block) (order + 1) s2
          if leb max_order (order + 1) then put_both size block buddy_addr order s2 else higher
      ]
  ]

-- `steps` is more than any free list has nodes.
pub deallocate : ℕ → ℕ → ℕ → BuddyAllocator → Run (BuddyAllocator × Result Error (Unit {0}))
deallocate steps block order s = deallocate_from (suc max_order) steps block order s

-- The loop of `add_single_region`, which looks for the largest order that fits.
abbrev pub between : ℕ → ℕ → Result Error ℕ → Result Error Bool
between start end (bad e) = bad e
between start end (good buddy) = good (leb start buddy && leb buddy end)

pub fits_order : ℕ → ℕ → ℕ → Run (Result Error Bool)
fits_order start end order = do
  size ← size_for_order (order + 1)
  if ltb usize_max (start + size) || ltb end (start + size)
      then ok (good false)
      else if start == 0
      then panic
      else (do ok (between start end (← buddy_of start (order + 1))))

-- `left` is the number of orders above `order`, up to `max_order - 1`.
pub find_order : ℕ → ℕ → ℕ → ℕ → Run (Result Error ℕ)
find_order zero start end order = ok (good order)
find_order (suc left) start end order = do
  more ← fits_order start end order
  elim more [
    | bad e ↦ ok (bad e)
    | good true ↦ find_order left start end (order + 1)
    | good false ↦ ok (good order)
  ]

pub add_single_region : ℕ → ℕ → BuddyAllocator → Run (BuddyAllocator × Result Error ℕ)
unfolding find_order
add_single_region start end s = do
  order ← find_order (max_order - 1) start end 0
  elim order [
    | bad e ↦ ok (s, bad e)
    | good k ↦ if start == 0 then panic else do
      s1 ← order_push k start s
      size ← size_for_order k
      total ← add_usize s1.stats.total size
      free ← add_usize s1.stats.free size
      ok (record s1 { stats = record (s1.stats) { free = free; total = total } }, good k)
  ]

-- The loop of `add_region`. `-` saturates.
pub add_blocks : ℕ → ℕ → ℕ → ℕ → BuddyAllocator → Run (BuddyAllocator × Result Error ℕ)
add_blocks zero start end total s = out_of_fuel
add_blocks (suc fuel) start end total s =
    if ltb (end - start) min_order_size then ok (s, good total) else do
      (s1, added) ← add_single_region start end s
      elim added [
        | bad e ↦ ok (s1, bad e)
        | good order ↦ do
          size ← size_for_order order
          sum ← add_usize total size
          add_blocks fuel (start + size) end sum s1
      ]

-- Each round takes a page at least.
pub add_region : ℕ → ℕ → BuddyAllocator → Run (BuddyAllocator × Result Error ℕ)
unfolding add_blocks
add_region start end s = do
  first ← align_up start min_order_size
  if ltb (end - first) min_order_size
      then ok (s, bad region_too_small)
      else if ltb end first
      then ok (s, bad invalid_region)
      else add_blocks (end / min_order_size + 1) first end 0 s

pub stats : BuddyAllocator → AllocStats
stats s = s.stats
