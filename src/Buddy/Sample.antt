-- ===== src/Buddy/Sample.antt =====
-- An allocator with one block of eight pages, for the tests.
use novos.Prelude.{
  ap, ◌∙◌, ℕ, ◌≡◌, refl, sym, none, some, [], ◌∷◌, set, replicate, subst, arith, ok, good, ok_inj,
}
use novos.Buddy.{
  BuddyAllocator, new, update, max_order, add_single_region, find_order, fits_order, buddy_of,
  order_push, size_for_order,
}
use novos.Buddy.Blocks.{block_size}
use novos.Buddy.Free.{Free, upd, count, total, holders}
use novos.Buddy.Sound.{Sound}
use novos.Buddy.Region.{add_single_region-Added, no_blocks, new-Sound}

abbrev pub start_state : BuddyAllocator
start_state = new (λ _. none) 0

abbrev pub start_addr : ℕ
start_addr = 0x8000_0000

abbrev pub end_addr : ℕ
end_addr = 0x8000_8000

-- One block of eight pages.
abbrev pub one_block : BuddyAllocator
one_block = record {
  orders = set (replicate max_order none) 3 (some start_addr);
  stats = record { name = "Physical Memory"; allocated = 0; free = 32768; total = 32768 };
  memory = update (λ _. none) start_addr none;
  offset = 0;
}

abbrev pub one_list : Free
one_list = upd no_blocks 3 (start_addr ∷ [])

one_block_run : add_single_region start_addr end_addr start_state ≡ ok (one_block, good 3)
unfolding add_single_region find_order fits_order buddy_of order_push size_for_order
one_block_run = refl

pub no_blocks-count : (x : ℕ) → count x no_blocks ≡ 0
unfolding total holders
no_blocks-count x = omega arith

pub one_block-Sound : Sound one_block one_list
unfolding block_size
one_block-Sound =
    let (k, t, run, largest, a) =
      add_single_region-Added start_addr end_addr start_state no_blocks (new-Sound (λ _. none) 0)
        (128, refl) (omega arith) (omega arith) (omega arith) (λ x h l. no_blocks-count x)
        (omega arith) in
    let same = ok_inj (sym run ∙ one_block_run) in
    let state : t ≡ one_block = ap (λ p. p.0) same in
    let order : k ≡ 3 = let results = ap (λ p. p.1) same in cc in
    subst (λ s. Sound s one_list) state
      (subst (λ n. Sound t (upd no_blocks n (start_addr ∷ []))) order a.sound)
