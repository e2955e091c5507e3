-- ===== src/Buddy/Deallocate.antt =====
-- `deallocate` of buddy.rs gives a block back to the free lists, merged with its buddies as far as they are free.
use native.Mathlib.Numerals.{add-one}
use native.Mathlib.Nat.{mul-le-mul_left}
use novos.Prelude.{
  subst, ℕ, zero, ◌≢◌, ap, ok_inj, Result, suc, ◌+◌, ◌≤◌, ◌<◌, ◌≡◌, refl, sym, ◌∙◌, true, false,
  ◌∷◌, min, arith, leb, length, ok, good, Bool-cases, dec_lt, inl, inr,
}
use novos.Buddy.{
  BuddyAllocator, max_order, order_remove, alloc_stats, put_back, put_both, deallocate_from,
  deallocate, buddy_of,
}
use novos.Allocator.{Error}
use novos.Buddy.Blocks.{block_size, block_size-suc, block_size_pos, size_for_order_lem, holds}
use novos.Buddy.Free.{
  Free, upd, upd_all, bytes, list_bytes, le-total, member, erase, length-erase, holds_self,
}
use novos.Buddy.Linked.{IsBlock}
use novos.Buddy.Unlink.{order_remove-missing}
use novos.Buddy.Sound.{Sound}
use novos.Buddy.Pair.{Buddies, buddy_of-Buddies}
use novos.Buddy.Return.{Freed, Owned, put_back-Freed, Merging, merging, put_both-Freed, member_head}

-- No list has as many nodes as the walk may visit.
abbrev pub IsShort : ℕ → Free → Type 0
IsShort steps f = (j : ℕ) → j < max_order → length (f j) < steps

IsShort-erase :
    (steps k c : ℕ) (f : Free)
    → IsShort steps f
    → member c (f k) ≡ true
    → IsShort steps (upd f k (erase c (f k)))
IsShort-erase steps k c f short i =
    upd_all (λ j xs. j < max_order → length xs < steps) f k (erase c (f k))
      (λ h. omega (arith, short k h, length-erase c (f k) i)) (λ j _. short j)

-- What is owed for the joined block.
joined-Owned :
    (k b c : ℕ) (s u : BuddyAllocator) (f g : Free)
    → Sound s f
    → Owned s f k b
    → Merging s f k c u g
    → Buddies k b c
    → Owned u g (suc k) (min c b)
joined-Owned k b c s u f g i o m d = record {
  block =
      subst (λ n. IsBlock n (suc k) (min c b)) (sym m.offset) (d.joined s.offset o.block m.block);
  room = λ x. omega (arith, m.same x, d.halves x, o.room x);
  enough = omega (arith, m.allocated, o.enough, block_size-suc k);
}

joined-Freed :
    (k b c : ℕ) (s u t : BuddyAllocator) (f g h : Free)
    → Merging s f k c u g
    → Buddies k b c
    → Freed u g (suc k) (min c b) t h
    → Freed s f k b t h
joined-Freed k b c s u t f g h m d r = record {
  sound = r.sound;
  same = λ x. omega (arith, r.same x, m.same x, d.halves x);
  allocated = omega (arith, r.allocated, m.allocated, block_size-suc k);
  total = r.total ∙ m.total;
  offset = r.offset ∙ m.offset;
}

-- The three ways of a call.
module _ (fuel steps k b c : ℕ) (s : BuddyAllocator) (d : Buddies k b c) (h : k < max_order) where
  deallocate_alone :
      order_remove steps k c s ≡ ok (s, false)
      → deallocate_from (suc fuel) steps b k s ≡ put_back b k s
  unfolding deallocate_from
  deallocate_alone missing = rw (d.run, missing) refl

  module _ (t u : BuddyAllocator) (found : order_remove steps k c s ≡ ok (t, true))
      (booked : alloc_stats (block_size k) t ≡ ok u) where
    deallocate_last :
        max_order ≤ suc k → deallocate_from (suc fuel) steps b k s ≡ put_both (block_size k) b c k u
    unfolding deallocate_from
    deallocate_last last =
        let top : leb max_order (suc k) ≡ true = ground arith in
        rw (d.run, found, size_for_order_lem k (omega arith), booked, add-one, top) refl

    deallocate_up :
        suc k < max_order
        → deallocate_from (suc fuel) steps b k s ≡ deallocate_from fuel steps (min c b) (suc k) u
    unfolding deallocate_from
    deallocate_up more =
        let below : leb max_order (suc k) ≡ false = ground arith in
        rw (d.run, found, size_for_order_lem k (omega arith), booked, add-one, below) refl

-- The block that the freed one ends up in: it stands in the free list of its order, holds the freed block, and below the last order its buddy is
-- not free.
pub record Merged (k b : ℕ) (g : Free) : Type 0 where
  pub order : ℕ
  pub block : ℕ
  pub up : k ≤ order
  pub below : order < max_order
  pub there : member block (g order) ≡ true
  pub around : (x : ℕ) → holds x k b ≤ holds x order block
  pub alone :
      suc order < max_order
      → (c : ℕ) → buddy_of block order ≡ ok (good c)
      → member c (g order) ≡ false

Buddies-apart : (k b c : ℕ) → Buddies k b c → c ≢ b
Buddies-apart k b c d same =
    let one : holds b (suc k) (min c b) ≤ 1 = ground arith in
    let two : holds b k c ≡ 1 = ap (holds b k) same ∙ holds_self k b in
    absurd (omega (arith, one, two, d.halves b, holds_self k b))

pushed-Merged :
    (k b c : ℕ) (f : Free)
    → k < max_order
    → Buddies k b c
    → member c (f k) ≡ false
    → Merged k b (upd f k (b ∷ f k))
pushed-Merged k b c f h d out = record {
  order = k;
  block = b;
  up = omega arith;
  below = h;
  there = member_head k b f;
  around = λ x. omega arith;
  alone = λ below c' run.
      let same : c ≡ c' = good_inj (ok_inj (sym d.run ∙ run)) in
      subst (λ n. member n (upd f k (b ∷ f k) k) ≡ false) same
        (ground (arith, out, Buddies-apart k b c d));
}
  where
    good_inj : {x y : ℕ} → ◌≡◌ {A = Result Error ℕ} (good x) (good y) → x ≡ y
    good_inj e = cc

joined-Merged : (k b c : ℕ) (g : Free) → Buddies k b c → Merged (suc k) (min c b) g → Merged k b g
joined-Merged k b c g d m = record {
  order = m.order;
  block = m.block;
  up = omega (arith, m.up);
  below = m.below;
  there = m.there;
  around = λ x. omega (arith, m.around x, d.halves x);
  alone = m.alone;
}

pub deallocate_from-Freed :
    (fuel steps k b : ℕ) (s : BuddyAllocator) (f : Free)
    → Sound s f
    → k < max_order
    → Owned s f k b
    → block_size max_order ≤ b
    → IsShort steps f
    → max_order ≤ fuel + k
    → (t : BuddyAllocator) × (g : Free) × (deallocate_from fuel steps b k s ≡ ok (t, good tt))
      × Freed s f k b t g
      × Merged k b g
deallocate_from-Freed zero steps k b s f i h o far short enough = absurd (omega arith)
deallocate_from-Freed (suc fuel) steps k b s f i h o far short enough =
    let (c, d) = buddy_of-Buddies k b h o.block.aligned far in
    elim (Bool-cases (member c (f k))) [
      | inr out ↦
          let alone =
            deallocate_alone fuel steps k b c s d h
              (order_remove-missing s f i.lists k h steps c (short k h) out) in
          let (t, run, r) = put_back-Freed k b s f i h o in
          (t, upd f k (b ∷ f k), alone ∙ run, r, pushed-Merged k b c f h d out)
      | inl there ↦
          let (t, u, found, booked, m) = merging steps k c s f i h (short k h) there in
          let g = upd f k (erase c (f k)) in
          elim (dec_lt (suc k) max_order) [
            | no last ↦
                let (v, g', run, r, in_list) = put_both-Freed k b c s u f g i h o m in
                (
                  v,
                  g',
                  deallocate_last fuel steps k b c s d h t u found booked (omega arith) ∙ run,
                  r,
                  record {
                    order = k;
                    block = b;
                    up = omega arith;
                    below = h;
                    there = in_list;
                    around = λ x. omega arith;
                    alone = λ below c' found. absurd (omega (arith, below));
                  },
                )
            | yes more ↦
                let (v, g', run, r, merged) =
                  deallocate_from-Freed fuel steps (suc k) (min c b) u g m.sound more
                    (joined-Owned k b c s u f g i o m d) d.far
                    (IsShort-erase steps k c f short there) (omega arith) in
                (
                  v,
                  g',
                  deallocate_up fuel steps k b c s d h t u found booked more ∙ run,
                  joined-Freed k b c s u v f g g' m d r,
                  joined-Merged k b c g' d merged,
                )
          ]
    ]

-- The nodes of a list are blocks of a page at least.
IsShort-free :
    (steps : ℕ) (s : BuddyAllocator) (f : Free) → Sound s f → s.stats.free < steps → IsShort steps f
IsShort-free steps s f i enough j h =
    let some_bytes : list_bytes j (f j) ≤ bytes f = le-total list_bytes max_order j f h in
    omega (arith, i.free, some_bytes, mul-le-mul_left (length (f j)) (block_size_pos j))

-- For a block of an order of the allocator that is aligned, lies below 2 ^ 64 once mapped, is nowhere free,
-- booked as allocated and not in the first 16 MiB, in a sound allocator, `deallocate` succeeds: the free
-- addresses are those from before and those of the block, no address lies in two free blocks, and the
-- statistics are right. The block is merged with its buddies as far as they are free: it lies in a free block
-- whose buddy is not free or whose order is the last. One step more along a list than there are free bytes is
-- enough.
pub deallocate-Freed :
    (steps k b : ℕ) (s : BuddyAllocator) (f : Free)
    → Sound s f
    → k < max_order
    → Owned s f k b
    → block_size max_order ≤ b
    → s.stats.free < steps
    → (t : BuddyAllocator) × (g : Free) × (deallocate steps b k s ≡ ok (t, good tt))
      × Freed s f k b t g
      × Merged k b g
unfolding deallocate
deallocate-Freed steps k b s f i h o far enough =
    deallocate_from-Freed (suc max_order) steps k b s f i h o far (IsShort-free steps s f i enough)
      (omega arith)
