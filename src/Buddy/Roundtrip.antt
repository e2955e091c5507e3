-- ===== src/Buddy/Roundtrip.antt =====
-- A block that `allocate` of buddy.rs gave out can be given back to `deallocate`.
use novos.Prelude.{ℕ, ◌≤◌, ◌<◌, ◌≡◌, sym, ap, ◌∙◌, arith, ok, Result, good, ok_inj, subst}
use novos.Allocator.{Error}
use novos.Buddy.{BuddyAllocator, max_order, allocate, deallocate}
use novos.Buddy.Blocks.{block_size}
use novos.Buddy.Free.{Free, count}
use novos.Buddy.Linked.{IsBlock}
use novos.Buddy.Sound.{Sound}
use novos.Buddy.Allocate.{Given, Allocated, given, starved, allocate-Allocated}
use novos.Buddy.Return.{Owned}
use novos.Buddy.Deallocate.{deallocate-Freed}

-- The state that an allocator comes back to.
pub record Restored (s : BuddyAllocator) (f : Free) (u : BuddyAllocator) (h : Free) : Type 0 where
  pub sound : Sound u h
  pub same : (x : ℕ) → count x h ≡ count x f
  pub free : u.stats.free ≡ s.stats.free
  pub allocated : u.stats.allocated ≡ s.stats.allocated
  pub total : u.stats.total ≡ s.stats.total

Given-Owned :
    (s t : BuddyAllocator) (f g : Free) (k b : ℕ) → Sound s f → Given s f k b t g → Owned t g k b
Given-Owned s t f g k b i v = record {
  block = subst (λ n. IsBlock n k b) (sym v.offset) v.block;
  room = λ x. omega (arith, v.same x, i.lists.apart x);
  enough = omega (arith, v.allocated);
}

back :
    (k b steps : ℕ) (s t : BuddyAllocator) (f g : Free)
    → Sound s f
    → k < max_order
    → Given s f k b t g
    → block_size max_order ≤ b
    → s.stats.total < steps
    → (u : BuddyAllocator) × (h : Free) × (deallocate steps b k t ≡ ok (u, good tt))
      × Restored s f u h
back k b steps s t f g i below v far enough =
    let (u, h, run, r, _) =
      deallocate-Freed steps k b t g v.sound below (Given-Owned s t f g k b i v) far
        (omega (arith, v.sound.balance, v.total, enough)) in
    (
      u,
      h,
      run,
      record {
        sound = r.sound;
        same = λ x. omega (arith, r.same x, v.same x);
        free =
            omega (arith, r.sound.balance, r.total, v.total, r.allocated, v.allocated, i.balance);
        allocated = omega (arith, r.allocated, v.allocated);
        total = r.total ∙ v.total;
      },
    )

pub Given-of :
    (s t : BuddyAllocator) (f : Free) (k b : ℕ) (r : BuddyAllocator × Result Error ℕ)
    → Allocated s f k r
    → r ≡ (t, good b)
    → (g : Free) × Given s f k b t g
Given-of s t f k b r (given c u g v) e =
    let state : u ≡ t = ap (λ x. x.0) e in
    let results = ap (λ x. x.1) e in
    let block : c ≡ b = cc in
    (g, subst (λ n. Given s f k n t g) block (subst (λ w. Given s f k c w g) state v))
Given-of s t f k b r (starved above) e = let clash = ap (λ x. x.1) e in cc

-- In a sound allocator, a block that `allocate` gave out and that does not lie in the first 16 MiB is taken
-- back by `deallocate`, with one step more along a list than there are bytes in total: it succeeds, the free
-- addresses are those from before the two calls, none lies in two free blocks, and the statistics are the
-- same.
pub deallocate-allocate :
    (k b steps : ℕ) (s t : BuddyAllocator) (f : Free)
    → Sound s f
    → k < max_order
    → allocate k s ≡ ok (t, good b)
    → block_size max_order ≤ b
    → s.stats.total < steps
    → (u : BuddyAllocator) × (h : Free) × (deallocate steps b k t ≡ ok (u, good tt))
      × Restored s f u h
deallocate-allocate k b steps s t f i below run far enough =
    let (r, run', a) = (allocate-Allocated k s f i).0 below in
    let (g, v) = Given-of s t f k b r a (ok_inj (sym run' ∙ run)) in
    back k b steps s t f g i below v far enough
