-- ===== src/Page/Tests.antt =====
-- Runs of the page tables of page.rs over an allocator that counts, and the theorems at them.
use novos.Prelude.{
  ℕ, true, subst, ◌/◌, ◌+◌, ◌*◌, ◌^◌, ◌<◌, ◌≡◌, refl, sym, ap, ◌∙◌, Bool, false, Option, none, some,
  [], Run, ok, panic, ◌>>=◌, Result, good, bad, arith, ltb, ◌==◌, if◌then◌else◌,
}
use novos.Allocator
use novos.Page.Pages.{buddy_source, HasPages, IsTaken}
use novos.Pmem.{alloc_order}
use novos.Buddy.{BuddyAllocator}
use novos.Buddy.Blocks.{block_size, holds}
use novos.Buddy.Free.{count}
use novos.Buddy.Linked.{count-push}
use novos.Buddy.Region.{no_blocks}
use novos.Buddy.Sample.{one_block, one_list, one_block-Sound, start_addr, no_blocks-count}
use novos.Page.{
  store, Paging, map, translate, traverse, traverse_from, unmap, descend_all, descend, zalloc_order,
  new_table, put_entry,
}
use novos.Page.Ranges.{map_alloc, map_pages, free_range, free_pages}
use novos.Page.Types.{PageSize, kilopage, terapage, Mode, sv39, sv48, Error}
use novos.Page.Entry.{kind, leaf, flags, branch_entry, leaf_entry, vpn}
use novos.Page.Tree.{Levels, Tree}
use novos.Page.Words.{kind-zero}
use novos.Page.Numbers.{is_sv39}
use novos.Page.Map.{IsRequest, Mapped, put_leaf-Tree, map-Mapped}
use novos.Page.Unmap.{unmap-translate}
use novos.Buddy.{size_for_order}

-- The pages from 0x8000_0000 on, one after the other.
abbrev bump : ℕ → ℕ → Run (ℕ × Result Allocator.Error ℕ)
bump order n =
    if ltb n 1000
    then ok (n + 1, good (0x8000_0000 + n * 4096))
    else ok (n, bad Allocator.no_memory_available)

abbrev empty_tables : Paging ℕ
empty_tables = record {
  entries = 0x7FFF_F000;
  subtables = [];
  memory = λ a. 0;
  offset = 0;
  pages = 0;
}

-- The same tables over the buddy allocator with one block of eight pages.
abbrev buddy_tables : Paging BuddyAllocator
buddy_tables = record {
  entries = 0x7FFF_F000;
  subtables = [];
  memory = λ a. 0;
  offset = 0;
  pages = one_block;
}

abbrev root_only : Levels
root_only t = if t == 0x7FFF_F000 then some 2 else none

one_list-count : (x : ℕ) → count x one_list ≡ holds x 3 start_addr
one_list-count x =
    omega (arith, count-push x 3 start_addr no_blocks (omega arith), no_blocks-count x)

one_block-HasPages : HasPages 0 one_block
unfolding block_size
one_block-HasPages = (one_list, one_block-Sound, refl, λ x h. ground (arith, h, one_list-count x))

root-IsTaken : IsTaken one_block 0x7FFF_F000
unfolding block_size
root-IsTaken = (one_list, one_block-Sound, ground (arith, one_list-count 0x7FFF_F000))

tables-IsTaken : (t l : ℕ) → root_only t ≡ some l → (p : ℕ) × (t ≡ p + 0) × IsTaken one_block p
tables-IsTaken t l e =
    let root : 0x7FFF_F000 ≡ t = ground arith in
    (t, omega arith, subst (IsTaken one_block) root root-IsTaken)

buddy_tables-Tree : Tree (buddy_source 0) 2 buddy_tables root_only
unfolding buddy_source
buddy_tables-Tree = record {
  good_pages = one_block-HasPages;
  offset = refl;
  root = refl;
  aligned = λ t l e. ground arith;
  owned = tables-IsTaken;
  branches = λ t l v next e b q. let clash = sym q ∙ kind-zero in cc;
  bottom = λ t v next e b q. let clash = sym q ∙ kind-zero in cc;
}

request : IsRequest sv39 0x1000_0000 0x4000_1000 kilopage 6
request = record {
  mode_known = is_sv39;
  below_tera = omega arith;
  in_range = omega arith;
  from_page = refl;
  to_page = refl;
  physical = omega arith;
  some_flag = omega arith;
  a_byte = omega arith;
  no_valid_bit = refl;
}

map-Mapped_example :
    (s' : Paging BuddyAllocator) × (r : Result Error (Unit {0})) × (map alloc_order sv39 0x1000_0000
        0x4000_1000 kilopage 6 buddy_tables
      ≡ ok (s', r))
    × Mapped (buddy_source 0) refl sv39 0x1000_0000 0x4000_1000 kilopage 6 s' r
map-Mapped_example =
    map-Mapped (buddy_source 0) refl sv39 buddy_tables root_only 0x1000_0000 0x4000_1000 kilopage 6
      request buddy_tables-Tree

-- A page of 1 GiB is mapped at 0x4000_0000.
abbrev gigapage_leaf : ℕ
gigapage_leaf = 0x8000_0000 / 2 ^ 12 * 2 ^ 10 + 7

gigapage_leaf-kind : kind gigapage_leaf ≡ some leaf
unfolding kind flags
gigapage_leaf-kind = refl

abbrev gigapage_tables : Paging BuddyAllocator
gigapage_tables = record buddy_tables {
  memory = store (λ a. 0) (0x7FFF_F000 + 8 * 1) gigapage_leaf;
}

gigapage_tables-Tree : Tree (buddy_source 0) 2 gigapage_tables root_only
gigapage_tables-Tree =
    put_leaf-Tree (buddy_source 0) refl sv39 buddy_tables root_only 0x7FFF_F000 1 gigapage_leaf
      buddy_tables-Tree gigapage_leaf-kind

some_inj : {a b : ℕ} → some a ≡ some b → a ≡ b
some_inj e = cc

root_level : (t l : ℕ) → root_only t ≡ some l → l < 3
root_level t l e =
    let root : t ≡ 0x7FFF_F000 = ground arith in
    let two : 2 ≡ l = some_inj (sym (ap root_only root) ∙ e) in omega (arith, two)

unmap-translate_example :
    (s' : Paging BuddyAllocator) × (found : Bool) × (unmap sv39 0x4000_1000 gigapage_tables
      ≡ ok (s', found))
    × (translate sv39 0x4000_1000 s' ≡ ok none)
    × (found ≡ false
        → (s' ≡ gigapage_tables) × (translate sv39 0x4000_1000 gigapage_tables ≡ ok none))
    × (found ≡ true
        → (entry : ℕ × PageSize × ℕ) × (translate sv39 0x4000_1000 gigapage_tables
            ≡ ok (some entry)))
unmap-translate_example =
    unmap-translate (buddy_source 0) 2 gigapage_tables root_only sv39 0x4000_1000
      gigapage_tables-Tree (λ t l v e b q. root_level t l e) refl

-- After a page was mapped, an address in it is translated.
abbrev mapped_then : Mode → PageSize → ℕ → ℕ → ℕ → Run (Option (ℕ × PageSize × ℕ))
mapped_then mode sz paddr vaddr x = do
  (s, _) ← map bump mode paddr vaddr sz 6 empty_tables
  translate mode x s

kilopage_run :
    mapped_then sv39 kilopage 0x1000_0000 0x4000_1000 0x4000_1234
    ≡ ok (some (0x1000_0234, kilopage, 6))
unfolding map translate traverse traverse_from descend_all descend zalloc_order new_table put_entry
    size_for_order kind flags branch_entry leaf_entry vpn
kilopage_run = refl

-- `map` accepts a page of 512 GiB, for which `translate` panics.
terapage_run : mapped_then sv48 terapage 0 0 0x1234 ≡ panic
unfolding map translate traverse traverse_from descend_all descend zalloc_order new_table put_entry
    size_for_order kind flags branch_entry leaf_entry vpn
terapage_run = refl

abbrev forget : ℕ → ℕ → ℕ → Run (ℕ × Result Allocator.Error (Unit {0}))
forget page order n = ok (n, good tt)

-- Two pages are mapped, the address in the second one is translated, and again when both are free.
abbrev mapped_and_freed : Run (Option (ℕ × PageSize × ℕ) × Option (ℕ × PageSize × ℕ))
mapped_and_freed = do
  (s, r) ← map_alloc bump sv39 0x1000 2 kilopage 14 empty_tables
  there ← translate sv39 0x2034 s
  (s', r') ← free_range forget sv39 0x1000 2 s
  gone ← translate sv39 0x2034 s'
  ok (there, gone)

mapped_and_freed_run : mapped_and_freed ≡ ok (some (0x8000_3034, kilopage, 14), none)
unfolding map_alloc map_pages free_range free_pages unmap map translate traverse traverse_from
    descend_all descend zalloc_order new_table put_entry size_for_order kind flags branch_entry
    leaf_entry vpn
mapped_and_freed_run = refl
