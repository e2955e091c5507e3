-- ===== src/Pmem/Layouts.antt =====
-- What the allocator of pmem.rs promises for a layout, as `core::alloc::Allocator` wants it.
use novos.Prelude.{
  ℕ, ◌+◌, ◌^◌, ◌≤◌, ◌<◌, ◌≡◌, ◌⊎◌, inl, inr, refl, ap, some, none, Option, ltb, le→not-ltb, lt→ltb,
  ok, Result, usize_max, dec_lt, arith, false,
}
use novos.Allocator
use novos.Allocator.{page_size, no_memory_available, order_too_large}
use novos.Buddy.{BuddyAllocator, max_order}
use novos.Buddy.Blocks.{block_size, size_for_order-wide, block_size_pos}
use novos.Buddy.Free.{Free}
use novos.Buddy.Sound.{Sound}
use novos.Buddy.Order.{order_for_size-least}
use novos.Buddy.Allocate.{Given, Allocated, given, starved, IsStarved, allocate-Allocated}
use novos.Pmem.{Layout, slice_of, allocate_layout}

-- The least order whose blocks hold the size.
abbrev pub IsLeast : ℕ → ℕ → Type 0
IsLeast size k = (size ≤ block_size k) × ((j : ℕ) → size ≤ block_size j → k ≤ j)

-- The answer to a layout: a block of that order, mapped, or none, where the order is too large or no block from it up is
-- free.
pub data Served (s : BuddyAllocator) (f : Free) (size : ℕ)
    : BuddyAllocator × Option (ℕ × ℕ) → Type 0 where
  served :
      (k b : ℕ) (t : BuddyAllocator) (g : Free)
      → IsLeast size k
      → Given s f k b t g
      → Served s f size (t, some (b + s.offset, block_size k))
  refused : (k : ℕ) → IsLeast size k → (max_order ≤ k) ⊎ IsStarved f k → Served s f size (s, none)

module _ (s : BuddyAllocator) (f : Free) (size k : ℕ) (least : IsLeast size k) where
  slice_of-Served :
      (r : BuddyAllocator × Result Allocator.Error ℕ)
      → Allocated s f k r
      → (answer : BuddyAllocator × Option (ℕ × ℕ)) × (slice_of (block_size k) r ≡ ok answer)
        × Served s f size answer
  slice_of-Served r (given b t g v) =
      let inside : ltb usize_max (b + t.offset) ≡ false =
        le→not-ltb _ _ (omega (arith, v.block.mapped, v.offset, block_size_pos k)) in
      let place : b + t.offset ≡ b + s.offset = ap (λ o. b + o) v.offset in
      (
        (t, some (b + s.offset, block_size k)),
        rw inside (ap (λ p. ok (t, some (p, block_size k))) place),
        served k b t g least v,
      )
  slice_of-Served r (starved empty) = ((s, none), refl, refused k least (inr empty))

-- `allocate` returns for every layout of at most 2 ^ 63 bytes. One that wants more than the alignment of a page is refused.
-- Any other gets the mapped address of a block that is large enough and starts on a multiple of its size, and
-- that was free and is not any more; or nothing changes, as no block that is large enough is free.
pub allocate_layout-Served :
    (layout : Layout) (s : BuddyAllocator) (f : Free)
    → Sound s f
    → layout.size ≤ 2 ^ 63
    → (page_size < layout.align → allocate_layout layout s ≡ ok (s, none))
      × (layout.align ≤ page_size
          → (answer : BuddyAllocator × Option (ℕ × ℕ)) × (allocate_layout layout s ≡ ok answer)
            × Served s f layout.size answer)
unfolding allocate_layout
allocate_layout-Served layout s f i small = (
  λ over. rw (lt→ltb page_size layout.align over) refl,
  λ fits.
      let (k, order, enough, least) = order_for_size-least layout.size small in
      let wide : k ≤ 51 = least 51 (unfold block_size in small) in
      let size = size_for_order-wide k wide in
      let aligned : ltb page_size layout.align ≡ false = le→not-ltb page_size layout.align fits in
      elim (dec_lt k max_order) [
        | yes below ↦
            let (r, run, a) = (allocate-Allocated k s f i).0 below in
            let (answer, sliced, is_served) =
              slice_of-Served s f layout.size k (enough, least) r a in
            (answer, rw (aligned, order, size, run) sliced, is_served)
        | no above ↦
            let run = (allocate-Allocated k s f i).1 (omega arith) in
            (
              (s, none),
              rw (aligned, order, size, run) refl,
              refused k (enough, least) (inl (omega arith)),
            )
      ],
)
