-- ===== src/Buddy/Allocate.antt =====
-- `allocate` of buddy.rs hands out a block that was free, or finds every list from the order up empty.
use native.Mathlib.Numerals.{add-one}
use novos.Prelude.{
  ◌⊎◌, inl, inr, bit_xor, ℕ, zero, suc, ◌+◌, ◌-◌, ◌≤◌, ◌<◌, ◌≡◌, refl, sym, ap, ◌∙◌, true, false,
  none, List, [], ◌∷◌, arith, leb, ◌==◌, ok, ◌>>=◌, Result, good, bad, dec_lt,
}
use novos.Allocator.{Error, order_too_large, no_memory_available}
use novos.Buddy.{
  BuddyAllocator, max_order, buddy_of, order_pop, hand_out, push_buddy, split, allocate_from,
  allocate,
}
use novos.Buddy.Blocks.{
  block_size, block_size-suc, size_for_order_lem, IsAligned-halves, holds, holds-halves,
}
use novos.Buddy.Free.{Free, upd, count}
use novos.Buddy.Linked.{
  IsBlock, count-push, order_push-Pushed, order_pop-none, order_pop-some, count-take, holders-eq,
}
use novos.Buddy.Sound.{
  Sound, taken_books, Lists-stats, alloc_stats_lem, dealloc_stats_lem, bytes-push, bytes-pop,
}

-- What a block given out leaves.
pub record Given (s : BuddyAllocator) (f : Free) (k b : ℕ) (t : BuddyAllocator) (g : Free)
    : Type 0 where
  pub block : IsBlock s.offset k b
  pub sound : Sound t g
  pub same : (x : ℕ) → count x f ≡ count x g + holds x k b
  pub allocated : t.stats.allocated ≡ s.stats.allocated + block_size k
  pub total : t.stats.total ≡ s.stats.total
  pub offset : t.offset ≡ s.offset

-- From the order up, no block is free.
abbrev pub IsStarved : Free → ℕ → Type 0
IsStarved f k = (j : ℕ) → k ≤ j → j < max_order → f j ≡ []

pub data Allocated (s : BuddyAllocator) (f : Free) (k : ℕ)
    : BuddyAllocator × Result Error ℕ → Type 0 where
  given : (b : ℕ) (t : BuddyAllocator) (g : Free) → Given s f k b t g → Allocated s f k (t, good b)
  starved : IsStarved f k → Allocated s f k (s, bad no_memory_available)

order_false : (k : ℕ) → k < max_order → leb max_order k ≡ false
order_false k h = ground arith

positive : (b : ℕ) → 0 < b → (b == 0) ≡ false
positive b h = ground arith

-- The fast path.
allocate_popped :
    (fuel k b : ℕ) (bs : List ℕ) (s : BuddyAllocator) (f : Free)
    → Sound s f
    → k < max_order
    → f k ≡ b ∷ bs
    → (t : BuddyAllocator) × (allocate_from (suc fuel) k s ≡ ok (t, good b))
      × Given s f k b t (upd f k bs)
unfolding allocate_from hand_out
allocate_popped fuel k b bs s f i h e =
    let (u, run, p, taken) = order_pop-some s f k b bs i.lists h e in
    let less = bytes-pop k b bs f h e in
    let size = block_size k in
    let books = taken_books size s u f (upd f k bs) i taken.stats less in
    let t = record u {
      stats = record (u.stats) { free = u.stats.free - size; allocated = u.stats.allocated + size };
    } in
    (
      t,
      rw
          (
            order_false k h,
            run,
            size_for_order_lem k (omega arith),
            alloc_stats_lem size u books.0 books.1,
            positive b p.nonnull,
          )
          refl,
      record {
        block = p;
        sound = record {
          lists = Lists-stats u (upd f k bs) t.stats taken.lists;
          free = books.2;
          balance = books.3;
          bound = omega (arith, ap (λ a. a.total) taken.stats, i.bound);
        };
        same = λ x. sym (count-take x k b f bs h (holders-eq x k b f bs e));
        allocated = ap (λ a. a.allocated + size) taken.stats;
        total = ap (λ a. a.total) taken.stats;
        offset = taken.offset;
      },
    )

-- The buddy of the lower half is the upper half.
pub buddy_upper :
    (k b : ℕ)
    → k ≤ max_order
    → 0 < b
    → bit_xor b (block_size k) ≡ b + block_size k
    → buddy_of b k ≡ ok (good (b + block_size k))
unfolding buddy_of
buddy_upper k b h pos e =
    let apart : (b + block_size k == 0) ≡ false = positive (b + block_size k) (omega arith) in
    rw (size_for_order_lem k h, e, apart) refl

-- The slow path.
allocate_split :
    (k b : ℕ) (s t : BuddyAllocator) (f g : Free)
    → Sound s f
    → k < max_order
    → Given s f (suc k) b t g
    → (u : BuddyAllocator) × (split k (t, good b) ≡ ok (u, good b))
      × Given s f k b u (upd g k ((b + block_size k) ∷ g k))
unfolding split push_buddy
allocate_split k b s t f g i h v =
    let size = block_size k in
    let (low, high, bit) = IsAligned-halves k b v.block.aligned in
    let double = block_size-suc k in
    let p : IsBlock t.offset k (b + size) = record {
      nonnull = omega (arith, v.block.nonnull);
      aligned = high;
      mapped = omega (arith, v.block.mapped, v.offset, double);
    } in
    let room : (x : ℕ) → count x g + holds x k (b + size) ≤ 1 =
      λ x. omega (arith, v.same x, i.lists.apart x, holds-halves x k b) in
    let (u, run, pushed) = order_push-Pushed t g k (b + size) v.sound.lists h p room in
    let free = ap (λ a. a.free) pushed.stats in
    let allocated = ap (λ a. a.allocated) pushed.stats in
    let total = ap (λ a. a.total) pushed.stats in
    let more = bytes-push k (b + size) g h in
    let st = record (u.stats) {
      free = u.stats.free + size;
      allocated = u.stats.allocated - size;
    } in
    (
      record u { stats = st },
      rw
          (
            buddy_upper k b (omega (arith, h)) v.block.nonnull bit,
            run,
            size_for_order_lem k (omega (arith, h)),
            dealloc_stats_lem size u (omega (arith, allocated, v.allocated, double))
                (omega (arith, free, allocated, v.sound.balance, v.sound.bound)),
          )
          refl,
      record {
        block = record {
          nonnull = v.block.nonnull;
          aligned = low;
          mapped = omega (arith, v.block.mapped, double);
        };
        sound = record {
          lists = Lists-stats u (upd g k ((b + size) ∷ g k)) st pushed.lists;
          free = omega (arith, free, v.sound.free, more);
          balance = omega (arith, free, allocated, total, v.allocated, double, v.sound.balance);
          bound = omega (arith, total, v.sound.bound);
        };
        same = λ x. omega (arith, v.same x, holds-halves x k b, count-push x k (b + size) g h);
        allocated = omega (arith, allocated, v.allocated, double);
        total = omega (arith, total, v.total);
        offset = pushed.offset ∙ v.offset;
      },
    )

-- With an empty list the allocation goes one order up.
allocate_up :
    (fuel k : ℕ) (s : BuddyAllocator)
    → k < max_order
    → order_pop k s ≡ ok (s, none)
    → allocate_from (suc fuel) k s ≡ (allocate_from fuel (suc k) s >>= split k)
unfolding allocate_from
allocate_up fuel k s h run = rw (order_false k h, run, add-one) refl

IsStarved-down : (f : Free) (k : ℕ) → f k ≡ [] → IsStarved f (suc k) → IsStarved f k
IsStarved-down f k e above j le h = elim (dec_lt k j) [
  | yes more ↦ above j more h
  | no last ↦ let same : j ≡ k = omega arith in rw same e
]

split-Allocated :
    (k : ℕ) (s : BuddyAllocator) (f : Free) (r : BuddyAllocator × Result Error ℕ)
    → Sound s f
    → k < max_order
    → f k ≡ []
    → Allocated s f (suc k) r
    → (r' : BuddyAllocator × Result Error ℕ) × (split k r ≡ ok r') × Allocated s f k r'
unfolding split
split-Allocated k s f r i h e (given b t g v) =
    let (u, run, w) = allocate_split k b s t f g i h v in
    ((u, good b), run, given b u (upd g k ((b + block_size k) ∷ g k)) w)
split-Allocated k s f r i h e (starved above) =
    ((s, bad no_memory_available), refl, starved (IsStarved-down f k e above))

-- Above the last order there is nothing.
split-last :
    (fuel k : ℕ) (s : BuddyAllocator)
    → max_order ≤ suc k
    → 0 < fuel
    → (allocate_from fuel (suc k) s >>= split k) ≡ ok (s, bad no_memory_available)
unfolding allocate_from split
split-last zero k s h more = absurd (omega arith)
split-last (suc fuel) k s h more =
    let over : leb max_order (suc k) ≡ true = ground arith in rw over refl

pub allocate_from-Allocated :
    (fuel k : ℕ) (s : BuddyAllocator) (f : Free)
    → Sound s f
    → k < max_order
    → max_order < fuel + k
    → (r : BuddyAllocator × Result Error ℕ) × (allocate_from fuel k s ≡ ok r) × Allocated s f k r
allocate_from-Allocated zero k s f i h enough = absurd (omega arith)
allocate_from-Allocated (suc fuel) k s f i h enough = elim (head_cases (f k)) [
  | inr (b, bs, e) ↦
      let (t, run, v) = allocate_popped fuel k b bs s f i h e in
      ((t, good b), run, given b t (upd f k bs) v)
  | inl e ↦
      let up = allocate_up fuel k s h (order_pop-none s f k i.lists h e) in
      elim (dec_lt (suc k) max_order) [
        | no last ↦ (
          (s, bad no_memory_available),
          up ∙ split-last fuel k s (omega arith) (omega arith),
          starved (IsStarved-down f k e (λ j le below. absurd (omega arith))),
        )
        | yes below ↦
            let (r, run, a) = allocate_from-Allocated fuel (suc k) s f i below (omega arith) in
            let (r', run', a') = split-Allocated k s f r i h e a in
            (r', up ∙ (ap (λ m. m >>= split k) run ∙ run'), a')
      ]
]
  where
    head_cases : (xs : List ℕ) → (xs ≡ []) ⊎ ((b : ℕ) × (bs : List ℕ) × (xs ≡ b ∷ bs))
    head_cases [] = inl refl
    head_cases (b ∷ bs) = inr (b, bs, refl)

-- `allocate` returns, whatever the order. For an order of the allocator it gives out a block of that order, of
-- which every address was in one free block and is in none any more, or every list from that order up is empty
-- and nothing changes; for any other it refuses and changes nothing.
pub allocate-Allocated :
    (k : ℕ) (s : BuddyAllocator) (f : Free)
    → Sound s f
    → (k < max_order
        → (r : BuddyAllocator × Result Error ℕ) × (allocate k s ≡ ok r) × Allocated s f k r)
      × (max_order ≤ k → allocate k s ≡ ok (s, bad order_too_large))
unfolding allocate allocate_from
allocate-Allocated k s f i = (
  λ h. allocate_from-Allocated (suc max_order) k s f i h (omega arith),
  λ h. let over : leb max_order k ≡ true = ground arith in rw over refl,
)
