-- ===== src/Buddy/Region.antt =====
-- `add_region` of buddy.rs.
use novos.Prelude.{
  get_elem?, replicate, ℕ, zero, suc, ◌+◌, ◌≤◌, ◌<◌, ◌≡◌, refl, ap, false, Option, none, some, [],
  ◌∷◌, arith, ◌==◌, ok, good, usize_max, le→not-ltb, leb, ◌||◌, ◌&&◌, Bool-cases, inl, inr, subst,
  true, ◌-◌, ltb,
}
use novos.Buddy.{BuddyAllocator, max_order, new, fits_order, find_order, add_single_region}
use novos.Buddy.Blocks.{block_size, size_for_order_lem, holds, IsAligned, IsAligned-halves}
use novos.Buddy.Free.{Free, upd, count, total, holders}
use novos.Buddy.Linked.{IsBlock, count-push, order_push-Pushed}
use novos.Buddy.Allocate.{buddy_upper}
use novos.Buddy.Sound.{Sound, Lists-stats, bytes-push}

-- What a block more leaves.
pub record Added (s : BuddyAllocator) (f : Free) (k b : ℕ) (t : BuddyAllocator) (g : Free)
    : Type 0 where
  pub sound : Sound t g
  pub same : (x : ℕ) → count x g ≡ count x f + holds x k b
  pub total : t.stats.total ≡ s.stats.total + block_size k
  pub allocated : t.stats.allocated ≡ s.stats.allocated
  pub offset : t.offset ≡ s.offset

-- An address aligned for an order is aligned for those below.
IsAligned-below : (j k a : ℕ) → IsAligned a (j + k) → IsAligned a k
IsAligned-below zero k a h = let same : 0 + k ≡ k = omega arith in subst (IsAligned a) same h
IsAligned-below (suc j) k a h =
    let up : suc j + k ≡ suc (j + k) = omega arith in
    IsAligned-below j k a ((IsAligned-halves (j + k) a (subst (IsAligned a) up h)).0)

-- At an address aligned for order 12 the next order fits when its block ends in the region.
fits_order_lem :
    (start end order : ℕ)
    → IsAligned start max_order
    → 0 < start
    → order + 1 < max_order
    → end ≤ usize_max
    → fits_order start end order ≡ ok (good (leb (start + block_size (order + 1)) end))
unfolding fits_order
fits_order_lem start end order aligned some_start below word =
    let k : ℕ = order + 1 in
    let whole : max_order ≡ max_order - suc k + suc k = omega arith in
    let up : IsAligned start (suc k) =
      IsAligned-below (max_order - suc k) (suc k) start (subst (IsAligned start) whole aligned) in
    let (_, _, bit) = IsAligned-halves k start up in
    let size = size_for_order_lem k (omega arith) in
    let buddy = buddy_upper k start (omega arith) some_start bit in
    elim (Bool-cases (leb (start + block_size k) end)) [
      | inl fits ↦
          let within : (ltb usize_max (start + block_size k) || ltb end (start + block_size k))
              ≡ false =
            ground (arith, fits, word) in
          let nonzero : (start == 0) ≡ false = ground (arith, some_start) in
          let first : leb start (start + block_size k) ≡ true = ground arith in
          rw (size, within, nonzero, buddy, first) refl
      | inr long ↦
          let outside : (ltb usize_max (start + block_size k) || ltb end (start + block_size k))
              ≡ true =
            ground (arith, long) in
          rw (size, outside, long) refl
    ]

-- The largest order whose block fits into a region.
abbrev pub IsLargest : ℕ → ℕ → ℕ → Type 0
IsLargest start end k =
    (k < max_order)
    × (start + block_size k ≤ end)
    × (suc k < max_order → end < start + block_size (suc k))

find_order-IsLargest :
    (left start end order : ℕ)
    → left + order ≡ max_order - 1
    → IsAligned start max_order
    → 0 < start
    → end ≤ usize_max
    → start + block_size order ≤ end
    → (k : ℕ) × (find_order left start end order ≡ ok (good k)) × IsLargest start end k
unfolding find_order
find_order-IsLargest zero start end order sum aligned some_start word here =
    (order, refl, (omega arith, here, λ below. absurd (omega arith)))
find_order-IsLargest (suc left) start end order sum aligned some_start word here =
    let next = fits_order_lem start end order aligned some_start (omega arith) word in
    elim (Bool-cases (leb (start + block_size (order + 1)) end)) [
      | inl fits ↦
          let (k, run, largest) =
            find_order-IsLargest left start end (order + 1) (omega arith) aligned some_start word
              (ground (arith, fits)) in
          (k, rw (next, fits) run, largest)
      | inr long ↦
          let one : order + 1 ≡ suc order = omega arith in
          let short : end < start + block_size (order + 1) = ground (arith, long) in
          (
            order,
            rw (next, long) refl,
            (omega arith, here, λ below. subst (λ n. end < start + block_size n) one short),
          )
    ]

-- What `add_single_region` does with the order that its loop chose.
chosen-Added :
    (start end k : ℕ) (s : BuddyAllocator) (f : Free)
    → Sound s f
    → find_order (max_order - 1) start end 0 ≡ ok (good k)
    → k < max_order
    → IsBlock s.offset k start
    → ((x : ℕ) → count x f + holds x k start ≤ 1)
    → s.stats.total + block_size k ≤ usize_max
    → (t : BuddyAllocator) × (add_single_region start end s ≡ ok (t, good k))
      × Added s f k start t (upd f k (start ∷ f k))
unfolding add_single_region
chosen-Added start end k s f i found below block room fits =
    let size = block_size k in
    let (u, run, pushed) = order_push-Pushed s f k start i.lists below block room in
    let free = ap (λ a. a.free) pushed.stats in
    let allocated = ap (λ a. a.allocated) pushed.stats in
    let total = ap (λ a. a.total) pushed.stats in
    let st = record (u.stats) { free = u.stats.free + size; total = u.stats.total + size } in
    (
      record u { stats = st },
      rw
          (
            found,
            positive start block.nonnull,
            run,
            size_for_order_lem k (omega (arith, below)),
            le→not-ltb usize_max (u.stats.total + size) (omega (arith, total, fits)),
            le→not-ltb usize_max (u.stats.free + size) (omega (arith, free, i.balance, fits)),
          )
          refl,
      record {
        sound = record {
          lists = Lists-stats u (upd f k (start ∷ f k)) st pushed.lists;
          free = omega (arith, free, i.free, bytes-push k start f below);
          balance = omega (arith, free, allocated, total, i.balance);
          bound = omega (arith, total, fits);
        };
        same = λ x. count-push x k start f below;
        total = omega (arith, total);
        allocated = allocated;
        offset = pushed.offset;
      },
    )
  where
    positive : (b : ℕ) → 0 < b → (b == 0) ≡ false
    positive b h = ground arith

-- For a region that begins at a multiple of 16 MiB other than 0, holds a page, lies below 2 ^ 64 once mapped
-- and overlaps no free block of a sound allocator, when the total does not overflow, `add_single_region`
-- succeeds with the largest order whose block fits: the block at the start is free besides those before, and
-- total and free have grown by its size.
pub add_single_region-Added :
    (start end : ℕ) (s : BuddyAllocator) (f : Free)
    → Sound s f
    → IsAligned start max_order
    → 0 < start
    → start + block_size 0 ≤ end
    → end + s.offset ≤ usize_max
    → ((x : ℕ) → start ≤ x → x < end → count x f ≡ 0)
    → s.stats.total + (end - start) ≤ usize_max
    → (k : ℕ) × (t : BuddyAllocator) × (add_single_region start end s ≡ ok (t, good k))
      × IsLargest start end k
      × Added s f k start t (upd f k (start ∷ f k))
add_single_region-Added start end s f i aligned some_start page word fresh fits =
    let (k, found, largest) =
      find_order-IsLargest (max_order - 1) start end 0 refl aligned some_start (omega arith) page in
    let (below, inside, _) = largest in
    let room : (x : ℕ) → count x f + holds x k start ≤ 1 = λ x.
      elim (Bool-cases (leb start x && ltb x (start + block_size k))) [
        | inl within ↦
            let zero_there = fresh x (ground (arith, within)) (ground (arith, within, inside)) in
            rw within (omega (arith, zero_there))
        | inr outside ↦ rw outside (omega (arith, i.lists.apart x))
      ] in
    let whole : max_order ≡ max_order - k + k = omega (arith, below) in
    let block : IsBlock s.offset k start = record {
      nonnull = some_start;
      aligned = IsAligned-below (max_order - k) k start (subst (IsAligned start) whole aligned);
      mapped = omega (arith, inside, word);
    } in
    let (t, run, added) =
      chosen-Added start end k s f i found below block room (omega (arith, fits, inside)) in
    (k, t, run, largest, added)

-- A new allocator has no free block.
abbrev pub no_blocks : Free
no_blocks k = []

new-heads : (n k : ℕ) → k < n → get_elem? (replicate {A = Option ℕ} n none) k ≡ some none
new-heads zero k h = absurd (omega arith)
new-heads (suc n) zero h = refl
new-heads (suc n) (suc k) h = new-heads n k (omega arith)

pub new-Sound : (m : ℕ → Option ℕ) (offset : ℕ) → Sound (new m offset) no_blocks
unfolding total holders
new-Sound m offset = record {
  lists = record {
    size = refl;
    linked = λ k h. record { first = none; there = new-heads max_order k h; chain = refl };
    blocks = λ k h. tt;
    apart = λ x. omega arith;
  };
  free = omega arith;
  balance = refl;
  bound = omega arith;
}
