-- ===== src/Page/Pages.antt =====
-- The pages of the page tables come from the buddy allocator: `alloc_order` of crates/kernel/src/pmem.rs keeps the interface
-- PageSource.
use novos.Prelude.{
  ℕ, ◌+◌, ◌*◌, ◌%◌, ◌^◌, ◌≤◌, ◌<◌, ◌≡◌, sym, ap, ◌∙◌, subst, ok, ok_inj, Result, good, arith,
}
use novos.Allocator
use novos.Buddy.{BuddyAllocator}
use novos.Buddy.Blocks.{block_size, block_size_pos}
use novos.Buddy.Free.{Free, count, holds_self}
use novos.Buddy.Sound.{Sound}
use novos.Buddy.Allocate.{Given, Allocated, given, starved, allocate-Allocated}
use novos.Buddy.Roundtrip.{Given-of}
use novos.Pmem.{alloc_order}
use novos.Page.Tree.{PageSource}

-- The allocator is sound, with all free memory below 2 ^ 56.
abbrev pub HasPages : ℕ → BuddyAllocator → Type 0
HasPages off a = (f : Free) × Sound a f × (a.offset ≡ off) × ((x : ℕ) → 0 < count x f → x < 2 ^ 56)

-- The address lies in no free block.
abbrev pub IsTaken : BuddyAllocator → ℕ → Type 0
IsTaken a p = (f : Free) × Sound a f × (count p f ≡ 0)

pub alloc_page :
    (a : BuddyAllocator) (f : Free)
    → Sound a f
    → (r : BuddyAllocator × Result Allocator.Error ℕ) × (alloc_order 0 a ≡ ok r) × Allocated a f 0 r
unfolding alloc_order
alloc_page a f i = (allocate-Allocated 0 a f i).0 (omega arith)

pub Allocated-HasPages :
    (off : ℕ) (a : BuddyAllocator) (f : Free) (r : BuddyAllocator × Result Allocator.Error ℕ)
    → Sound a f
    → a.offset ≡ off
    → ((x : ℕ) → 0 < count x f → x < 2 ^ 56)
    → Allocated a f 0 r
    → HasPages off (r.0)
Allocated-HasPages off a f r i o low (given b t g v) =
    (g, v.sound, v.offset ∙ o, λ x h. low x (omega (arith, v.same x, h)))
Allocated-HasPages off a f r i o low (starved above) = (f, i, o, low)

Allocated-IsTaken :
    (a : BuddyAllocator) (f : Free) (r : BuddyAllocator × Result Allocator.Error ℕ) (p : ℕ)
    → Sound a f
    → count p f ≡ 0
    → Allocated a f 0 r
    → IsTaken (r.0) p
Allocated-IsTaken a f r p i none_there (given b t g v) =
    (g, v.sound, omega (arith, v.same p, none_there))
Allocated-IsTaken a f r p i none_there (starved above) = (f, i, none_there)

-- What `alloc_order` gave out, by any account of the free blocks.
Given-page :
    (a t : BuddyAllocator) (f : Free) (p : ℕ)
    → Sound a f
    → alloc_order 0 a ≡ ok (t, good p)
    → (g : Free) × Given a f 0 p t g
Given-page a t f p i run =
    let (r, run', al) = alloc_page a f i in Given-of a t f 0 p r al (ok_inj (sym run' ∙ run))

pub was_free : (a t : BuddyAllocator) (p : ℕ) → alloc_order 0 a ≡ ok (t, good p) → IsTaken a p → ⊥
was_free a t p run (f, i, none_there) =
    let (g, v) = Given-page a t f p i run in
    absurd (omega (arith, v.same p, holds_self 0 p, none_there))

is_page : (p : ℕ) → (q : ℕ) × (p ≡ q * block_size 0) → p % 4096 ≡ 0
unfolding block_size
is_page p (q, e) = omega (arith, e)

pub still-IsTaken :
    (a t : BuddyAllocator) (res : Result Allocator.Error ℕ) (p : ℕ)
    → alloc_order 0 a ≡ ok (t, res)
    → IsTaken a p
    → IsTaken t p
still-IsTaken a t res p run (f, i, none_there) =
    let (r, run', al) = alloc_page a f i in
    let same : r.0 ≡ t = ap (λ x. x.0) (ok_inj (sym run' ∙ run)) in
    subst (λ u. IsTaken u p) same (Allocated-IsTaken a f r p i none_there al)

pub now-IsTaken :
    (a t : BuddyAllocator) (f : Free) (p : ℕ)
    → Sound a f
    → alloc_order 0 a ≡ ok (t, good p)
    → IsTaken t p
now-IsTaken a t f p i run =
    let (g, v) = Given-page a t f p i run in
    (g, v.sound, omega (arith, v.same p, holds_self 0 p, i.lists.apart p))

pub placed_page :
    (off : ℕ) (a t : BuddyAllocator) (f : Free) (p : ℕ)
    → Sound a f
    → a.offset ≡ off
    → ((x : ℕ) → 0 < count x f → x < 2 ^ 56)
    → alloc_order 0 a ≡ ok (t, good p)
    → (p % 4096 ≡ 0) × (p < 2 ^ 56) × ((0 < p) × (p + off + 4096 ≤ 2 ^ 64))
placed_page off a t f p i o low run =
    let (g, v) = Given-page a t f p i run in
    (
      is_page p v.block.aligned,
      low p (omega (arith, v.same p, holds_self 0 p)),
      (v.block.nonnull, omega (arith, v.block.mapped, o, block_size_pos 0)),
    )

-- The interface, filled by the buddy allocator: it returns, a page that it gives was free and is not any more, and no
-- page becomes free.
unfoldable pub buddy_source : (off : ℕ) → PageSource alloc_order off
buddy_source off = record {
  IsGood = HasPages off;
  IsOwned = IsTaken;
  returns = λ a g.
      let (f, i, o, low) = g in
      let (r, run, al) = alloc_page a f i in
      (
        r.0,
        r.1,
        run,
        Allocated-HasPages off a f r i o low al,
        λ p taken. still-IsTaken a r.0 r.1 p run taken,
        λ p e.
            let here = run ∙ ap (λ res. ok (r.0, res)) e in
            (was_free a r.0 p here, now-IsTaken a r.0 f p i here),
      );
  placed = λ a b p g run. let (f, i, o, low) = g in placed_page off a b f p i o low run;
}
