-- ===== src/Buddy/Return.antt =====
-- The steps of `deallocate` of buddy.rs: a block goes to a free list, or its buddy leaves one.
use novos.Prelude.{
  subst, ℕ, ◌+◌, ◌-◌, ◌*◌, ◌≤◌, ◌<◌, ◌≡◌, refl, sym, ap, ◌∙◌, true, ◌∷◌, arith, length, ok, good,
  usize_max, le→not-ltb,
}
use novos.Buddy.{BuddyAllocator, max_order, order_remove, alloc_stats, put_back, put_both}
use novos.Buddy.Blocks.{block_size, block_size_mono, block_size_pow, size_for_order_lem, holds}
use novos.Buddy.Free.{Free, upd, count, member, erase, holders-erase, All-member}
use novos.Buddy.Linked.{IsBlock, count-push, order_push-Pushed, count-take}
use novos.Buddy.Unlink.{order_remove-found}
use novos.Buddy.Sound.{
  Sound, taken_books, Lists-stats, alloc_stats_lem, dealloc_stats_lem, bytes-push, bytes-erase,
}

-- The block at the head of a list is in it.
pub member_head : (k b : ℕ) (f : Free) → member b (upd f k (b ∷ f k) k) ≡ true
member_head k b f = ground arith

-- What is left after a block was given back.
pub record Freed (s : BuddyAllocator) (f : Free) (k b : ℕ) (t : BuddyAllocator) (g : Free)
    : Type 0 where
  pub sound : Sound t g
  pub same : (x : ℕ) → count x g ≡ count x f + holds x k b
  pub allocated : t.stats.allocated + block_size k ≡ s.stats.allocated
  pub total : t.stats.total ≡ s.stats.total
  pub offset : t.offset ≡ s.offset

-- What the caller owes: a block of the order, which was given out, and so is nowhere free.
pub record Owned (s : BuddyAllocator) (f : Free) (k b : ℕ) : Type 0 where
  pub block : IsBlock s.offset k b
  pub room : (x : ℕ) → count x f + holds x k b ≤ 1
  pub enough : block_size k ≤ s.stats.allocated

pub put_back-Freed :
    (k b : ℕ) (s : BuddyAllocator) (f : Free)
    → Sound s f
    → k < max_order
    → Owned s f k b
    → (t : BuddyAllocator) × (put_back b k s ≡ ok (t, good tt))
      × Freed s f k b t (upd f k (b ∷ f k))
unfolding put_back
put_back-Freed k b s f i h o =
    let size = block_size k in
    let (u, run, pushed) = order_push-Pushed s f k b i.lists h o.block o.room in
    let free = ap (λ a. a.free) pushed.stats in
    let allocated = ap (λ a. a.allocated) pushed.stats in
    let total = ap (λ a. a.total) pushed.stats in
    let st = record (u.stats) {
      free = u.stats.free + size;
      allocated = u.stats.allocated - size;
    } in
    (
      record u { stats = st },
      rw
          (
            run,
            size_for_order_lem k (omega (arith, h)),
            dealloc_stats_lem size u (omega (arith, allocated, o.enough))
                (omega (arith, free, allocated, i.balance, i.bound)),
          )
          refl,
      record {
        sound = record {
          lists = Lists-stats u (upd f k (b ∷ f k)) st pushed.lists;
          free = omega (arith, free, i.free, bytes-push k b f h);
          balance = omega (arith, free, allocated, total, o.enough, i.balance);
          bound = omega (arith, total, i.bound);
        };
        same = λ x. count-push x k b f h;
        allocated = omega (arith, allocated, o.enough);
        total = total;
        offset = pushed.offset;
      },
    )

-- The buddy has left its list, and its size is booked out.
pub record Merging (s : BuddyAllocator) (f : Free) (k c : ℕ) (u : BuddyAllocator) (g : Free)
    : Type 0 where
  pub sound : Sound u g
  pub same : (x : ℕ) → count x g + holds x k c ≡ count x f
  pub allocated : u.stats.allocated ≡ s.stats.allocated + block_size k
  pub total : u.stats.total ≡ s.stats.total
  pub offset : u.offset ≡ s.offset
  pub block : IsBlock s.offset k c

pub merging :
    (steps k c : ℕ) (s : BuddyAllocator) (f : Free)
    → Sound s f
    → k < max_order
    → length (f k) < steps
    → member c (f k) ≡ true
    → (t u : BuddyAllocator) × (order_remove steps k c s ≡ ok (t, true))
      × (alloc_stats (block_size k) t ≡ ok u)
      × Merging s f k c u (upd f k (erase c (f k)))
merging steps k c s f i h long there =
    let size = block_size k in
    let (t, run, taken) = order_remove-found s f i.lists k h steps c long there in
    let books =
      taken_books size s t f (upd f k (erase c (f k))) i taken.stats (bytes-erase k c f h there) in
    let st = record (t.stats) {
      free = t.stats.free - size;
      allocated = t.stats.allocated + size;
    } in
    (
      t,
      record t { stats = st },
      run,
      alloc_stats_lem size t books.0 books.1,
      record {
        sound = record {
          lists = Lists-stats t (upd f k (erase c (f k))) st taken.lists;
          free = books.2;
          balance = books.3;
          bound = omega (arith, ap (λ a. a.total) taken.stats, i.bound);
        };
        same = λ x. count-take x k c f (erase c (f k)) h (holders-erase x k c (f k) there);
        allocated = ap (λ a. a.allocated + size) taken.stats;
        total = ap (λ a. a.total) taken.stats;
        offset = taken.offset;
        block = All-member (IsBlock s.offset k) c (f k) (i.lists.blocks k h) there;
      },
    )

-- At the last order both blocks go to the list.
pub put_both-Freed :
    (k b c : ℕ) (s u : BuddyAllocator) (f g : Free)
    → Sound s f
    → k < max_order
    → Owned s f k b
    → Merging s f k c u g
    → (t : BuddyAllocator) × (h : Free) × (put_both (block_size k) b c k u ≡ ok (t, good tt))
      × Freed s f k b t h
      × (member b (h k) ≡ true)
unfolding put_both
put_both-Freed k b c s u f g i h o m =
    let size = block_size k in
    let g1 = upd g k (c ∷ g k) in
    let g2 = upd g1 k (b ∷ g1 k) in
    let at_u = λ (a : ℕ) (p : IsBlock s.offset k a). subst (λ n. IsBlock n k a) (sym m.offset) p in
    let (v, run1, p1) =
      order_push-Pushed u g k c m.sound.lists h (at_u c m.block)
        (λ x. omega (arith, m.same x, i.lists.apart x)) in
    let (w, run2, p2) =
      order_push-Pushed v g1 k b p1.lists h
        (subst (λ n. IsBlock n k b) (sym (p1.offset ∙ m.offset)) o.block)
        (λ x. omega (arith, m.same x, count-push x k c g h, o.room x)) in
    let stats = p2.stats ∙ p1.stats in
    let free = ap (λ a. a.free) stats in
    let allocated = ap (λ a. a.allocated) stats in
    let total = ap (λ a. a.total) stats in
    let st = record (w.stats) {
      free = w.stats.free + size * 2;
      allocated = w.stats.allocated - size * 2;
    } in
    (
      record w { stats = st },
      g2,
      rw
          (
            run1,
            run2,
            le→not-ltb usize_max (size * 2)
                (omega (arith, block_size_mono k 12 (omega (arith, h)), block_size_pow 12)),
            dealloc_stats_lem (size * 2) w (omega (arith, allocated, m.allocated, o.enough))
                (omega (arith, free, allocated, m.sound.balance, m.sound.bound)),
          )
          refl,
      record {
        sound = record {
          lists = Lists-stats w g2 st p2.lists;
          free = omega (arith, free, m.sound.free, bytes-push k c g h, bytes-push k b g1 h);
          balance = omega (arith, free, allocated, total, m.allocated, o.enough, m.sound.balance);
          bound = omega (arith, total, m.sound.bound);
        };
        same = λ x. omega (arith, m.same x, count-push x k c g h, count-push x k b g1 h);
        allocated = omega (arith, allocated, m.allocated, o.enough);
        total = total ∙ m.total;
        offset = p2.offset ∙ (p1.offset ∙ m.offset);
      },
      member_head k b g1,
    )
