-- ===== src/Buddy/Sound.antt =====
-- The statistics of buddy.rs agree with the free lists.
use novos.Prelude.{
  ℕ, ◌+◌, ◌-◌, ◌*◌, ◌≤◌, ◌<◌, ◌≡◌, refl, ap, true, List, ◌∷◌, arith, ok, usize_max, le→not-ltb,
}
use novos.Allocator.{AllocStats}
use novos.Buddy.{BuddyAllocator, max_order, alloc_stats, dealloc_stats}
use novos.Buddy.Blocks.{block_size}
use novos.Buddy.Free.{Free, upd, bytes, list_bytes, total-upd, member, erase, length-erase}
use novos.Buddy.Linked.{Lists}

-- The free lists are sound, and the books are right.
pub record Sound (s : BuddyAllocator) (f : Free) : Type 0 where
  pub lists : Lists s f
  pub free : s.stats.free ≡ bytes f
  pub balance : s.stats.free + s.stats.allocated ≡ s.stats.total
  pub bound : s.stats.total ≤ usize_max

-- The lists do not depend on the statistics.
pub Lists-stats :
    (s : BuddyAllocator) (f : Free) (st : AllocStats)
    → Lists s f
    → Lists (record s { stats = st }) f
Lists-stats s f st l = record {
  size = l.size;
  linked = λ k h. record {
    first = (l.linked k h).first;
    there = (l.linked k h).there;
    chain = (l.linked k h).chain;
  };
  blocks = l.blocks;
  apart = l.apart;
}

pub alloc_stats_lem :
    (n : ℕ) (s : BuddyAllocator)
    → n ≤ s.stats.free
    → s.stats.free + s.stats.allocated ≤ usize_max
    → alloc_stats n s
      ≡ ok (record s {
        stats = record (s.stats) { free = s.stats.free - n; allocated = s.stats.allocated + n };
      })
unfolding alloc_stats
alloc_stats_lem n s h room =
    let fits = le→not-ltb usize_max (s.stats.allocated + n) (omega (arith, h, room)) in
    rw (le→not-ltb s.stats.free n h, fits) refl

pub dealloc_stats_lem :
    (n : ℕ) (s : BuddyAllocator)
    → n ≤ s.stats.allocated
    → s.stats.free + s.stats.allocated ≤ usize_max
    → dealloc_stats n s
      ≡ ok (record s {
        stats = record (s.stats) { free = s.stats.free + n; allocated = s.stats.allocated - n };
      })
unfolding dealloc_stats
dealloc_stats_lem n s h room =
    let fits = le→not-ltb usize_max (s.stats.free + n) (omega (arith, h, room)) in
    rw (fits, le→not-ltb s.stats.allocated n h) refl

pub bytes-push :
    (k b : ℕ) (f : Free) → k < max_order → bytes (upd f k (b ∷ f k)) ≡ bytes f + block_size k
bytes-push k b f h = omega (arith, total-upd list_bytes max_order k f (b ∷ f k) h)

pub bytes-pop :
    (k b : ℕ) (bs : List ℕ) (f : Free)
    → k < max_order
    → f k ≡ b ∷ bs
    → bytes (upd f k bs) + block_size k ≡ bytes f
bytes-pop k b bs f h e = omega (arith, total-upd list_bytes max_order k f bs h, ap (list_bytes k) e)

pub bytes-erase :
    (k b : ℕ) (f : Free)
    → k < max_order
    → member b (f k) ≡ true
    → bytes (upd f k (erase b (f k))) + block_size k ≡ bytes f
bytes-erase k b f h i = omega (
  arith,
  total-upd list_bytes max_order k f (erase b (f k)) h,
  ap (λ n. n * block_size k) (length-erase b (f k) i),
)

-- The books before a block of `size` bytes is booked out.
pub taken_books :
    (size : ℕ) (s u : BuddyAllocator) (f g : Free)
    → Sound s f
    → u.stats ≡ s.stats
    → bytes g + size ≡ bytes f
    → (size ≤ u.stats.free)
      × (u.stats.free + u.stats.allocated ≤ usize_max)
      × (u.stats.free - size ≡ bytes g)
      × (u.stats.free - size + (u.stats.allocated + size) ≡ u.stats.total)
taken_books size s u f g i e less =
    let free = ap (λ a. a.free) e in
    let allocated = ap (λ a. a.allocated) e in
    let total = ap (λ a. a.total) e in
    (
      omega (arith, free, i.free, less),
      omega (arith, free, allocated, i.balance, i.bound),
      omega (arith, free, i.free, less),
      omega (arith, free, allocated, total, i.free, i.balance, less),
    )
