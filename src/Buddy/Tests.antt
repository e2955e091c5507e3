-- ===== src/Buddy/Tests.antt =====
-- Runs of the buddy allocator of buddy.rs, and the theorems at concrete states.
use novos.Prelude.{
  true, ℕ, ◌≤◌, ◌<◌, ◌≡◌, refl, none, some, [], ◌∷◌, set, replicate, arith, Run, ok, ◌>>=◌, Result,
  good, bad,
}
use novos.Allocator.{Error, order_too_large, align_up}
use novos.Buddy.{
  BuddyAllocator, update, max_order, add_region, allocate, deallocate, size_for_order, buddy_of,
  order_push, order_pop, pop_head, order_remove, alloc_stats, dealloc_stats, hand_out, push_buddy,
  split, allocate_from, order_for_size, add_blocks, add_single_region, find_order, fits_order,
}
use novos.Buddy.Blocks.{block_size}
use novos.Buddy.Free.{Free, upd}
use novos.Buddy.Linked.{Taken, count-push}
use novos.Buddy.Sound.{Sound, Lists-stats}
use novos.Buddy.Allocate.{Allocated, allocate-Allocated}
use novos.Buddy.Unlink.{order_remove-found}
use novos.Buddy.Return.{Freed}
use novos.Buddy.Deallocate.{Merged, deallocate-Freed}
use novos.Buddy.Roundtrip.{Restored, deallocate-allocate}
use novos.Buddy.Region.{IsLargest, Added, add_single_region-Added, no_blocks, new-Sound}
use novos.Buddy.Sample.{
  start_state, start_addr, end_addr, one_block, one_list, no_blocks-count, one_block-Sound,
}
use novos.Buddy.Order.{order_for_size-least}

add_single_region-Added_example :
    (k : ℕ) × (t : BuddyAllocator) × (add_single_region start_addr end_addr start_state
      ≡ ok (t, good k))
    × IsLargest start_addr end_addr k
    × Added start_state no_blocks k start_addr t (upd no_blocks k (start_addr ∷ []))
unfolding block_size
add_single_region-Added_example =
    add_single_region-Added start_addr end_addr start_state no_blocks (new-Sound (λ _. none) 0)
      (128, refl) (omega arith) (omega arith) (omega arith) (λ x h l. no_blocks-count x)
      (omega arith)

allocate-Allocated_example :
    (1 < max_order
      → (r : BuddyAllocator × Result Error ℕ) × (allocate 1 one_block ≡ ok r)
        × Allocated one_block one_list 1 r)
    × (max_order ≤ 1 → allocate 1 one_block ≡ ok (one_block, bad order_too_large))
allocate-Allocated_example = allocate-Allocated 1 one_block one_list one_block-Sound

-- The state after two pages were taken from the block.
abbrev two_pages_taken : BuddyAllocator
two_pages_taken = record {
  orders = set (set (replicate max_order none) 2 (some 0x8000_4000)) 1 (some 0x8000_2000);
  stats = record { name = "Physical Memory"; allocated = 8192; free = 24576; total = 32768 };
  memory = update (update (update (λ _. none) start_addr none) 0x8000_4000 none) 0x8000_2000 none;
  offset = 0;
}

two_pages_run : allocate 1 one_block ≡ ok (two_pages_taken, good start_addr)
unfolding allocate allocate_from order_pop pop_head hand_out alloc_stats dealloc_stats
    size_for_order split push_buddy buddy_of order_push
two_pages_run = refl

deallocate-allocate_example :
    (u : BuddyAllocator) × (h : Free) × (deallocate 32769 start_addr 1 two_pages_taken
      ≡ ok (u, good tt))
    × Restored one_block one_list u h
unfolding block_size
deallocate-allocate_example =
    deallocate-allocate 1 start_addr 32769 one_block two_pages_taken one_list one_block-Sound
      (omega arith) two_pages_run (omega arith) (omega arith)

-- The buddy of the block is given out.
abbrev half_free : BuddyAllocator
half_free = record one_block {
  stats = record { name = "Physical Memory"; allocated = 32768; free = 32768; total = 65536 };
}

half_free-Sound : Sound half_free one_list
half_free-Sound = record {
  lists = Lists-stats one_block one_list half_free.stats one_block-Sound.lists;
  free = one_block-Sound.free;
  balance = refl;
  bound = omega arith;
}

deallocate-Freed_example :
    (t : BuddyAllocator) × (g : Free) × (deallocate 32769 0x8000_8000 3 half_free ≡ ok (t, good tt))
    × Freed half_free one_list 3 0x8000_8000 t g
    × Merged 3 0x8000_8000 g
unfolding block_size
deallocate-Freed_example =
    deallocate-Freed 32769 3 0x8000_8000 half_free one_list half_free-Sound (omega arith)
      (record {
        block = record { nonnull = omega arith; aligned = (0x1_0001, refl); mapped = omega arith };
        room = λ x.
            ground (arith, count-push x 3 start_addr no_blocks (omega arith), no_blocks-count x);
        enough = omega arith;
      })
      (omega arith) (omega arith)

order_remove-found_example :
    (t : BuddyAllocator) × (order_remove 2 3 start_addr one_block ≡ ok (t, true))
    × Taken one_block one_list 3 [] t
order_remove-found_example =
    order_remove-found one_block one_list one_block-Sound.lists 3 (omega arith) 2 start_addr
      (omega arith) refl

order_for_size-least_example :
    (k : ℕ) × (order_for_size 5000 ≡ ok k)
    × (5000 ≤ block_size k)
    × ((j : ℕ) → 5000 ≤ block_size j → k ≤ j)
order_for_size-least_example = order_for_size-least 5000 (omega arith)

-- The memory after a region of two pages that begins at an odd page was added.
abbrev second_page : Run (Result Error ℕ)
second_page = do
  (s, _) ← add_region 0x8000_1000 0x8000_3000 start_state
  (s1, _) ← allocate 0 s
  (_, r) ← allocate 0 s1
  ok r

outside_region : second_page ≡ ok (good 0x8000_0000)
unfolding add_region add_blocks add_single_region find_order fits_order align_up allocate
    allocate_from order_pop pop_head hand_out alloc_stats dealloc_stats size_for_order split
    push_buddy buddy_of order_push
outside_region = refl
