-- ===== src/Page.antt =====
-- crates/kernel/src/page.rs, page/types.rs and page/modes.rs: page tables in memory. A table is the address of its 512
-- entries, and the memory maps the address of an entry to its 64-bit word. The allocator is the parameter of a section.
pub mod Types
pub mod Entry
pub mod Words
pub mod Tree
pub mod Grow
pub mod Descend
pub mod Walk
pub mod Numbers
pub mod Map
pub mod Unmap
pub mod Ranges
pub mod Pages
pub mod Tests
use novos.Prelude.{
  ℕ, zero, suc, ◌+◌, ◌-◌, ◌*◌, ◌/◌, ◌%◌, ◌^◌, bit_and, bit_or, Bool, true, false, not, ◌&&◌, ◌||◌,
  Option, none, some, List, [], ◌∷◌, ◌++◌, ltb, leb, ◌==◌, if◌then◌else◌, Run, ok, panic, ◌>>=◌,
  Result, good, bad, usize_max,
}
use novos.Memmap.{phys2virt}
use novos.Allocator
use novos.Buddy.{size_for_order}
use novos.Page.Types.{
  PageSize, kilopage, megapage, gigapage, terapage, size, vpn_idx, is_aligned, Mode, Error,
  unsupported_page_size, invalid_address, unaligned_address, already_mapped, alloc,
}
use novos.Page.Entry.{EntryKind, leaf, branch, kind, flags, branch_entry, leaf_entry, vpn}

-- The table, the memory that it stands in with the offset of `phys2virt`, and the allocator of pages.
pub record Paging (A : Type 0) : Type 0 where
  pub entries : ℕ
  pub subtables : List ℕ
  pub memory : ℕ → ℕ
  pub offset : ℕ
  pub pages : A

abbrev pub store : (ℕ → ℕ) → ℕ → ℕ → ℕ → ℕ
store m a w b = if b == a then w else m b

abbrev pub fill : (ℕ → ℕ) → ℕ → ℕ → ℕ → ℕ
fill m a n b = if leb a b && ltb b (a + n) then 0 else m b

-- `phys2virt(page).as_ptr().as_mut().unwrap()`: the table behind a pointer that is not null.
abbrev pub not_null : ℕ → Run ℕ
not_null ptr = if ptr == 0 then panic else ok ptr

abbrev pub table_at : ℕ → ℕ → Run ℕ
table_at offset page = phys2virt offset page >>= not_null

abbrev pub slot : ℕ → ℕ → ℕ → ℕ
slot table vaddr idx = table + 8 * vpn vaddr idx

-- What `traverse` finds; its two fields with the tables on the way are never read.
pub record Mapping : Type 0 where
  pub entry : ℕ
  pub size : PageSize

abbrev pub size_at : ℕ → Run PageSize
size_at zero = ok kilopage
size_at (suc zero) = ok megapage
size_at (suc (suc zero)) = ok gigapage
size_at (suc (suc (suc i))) = panic

module _ {A : Type 0} (alloc_order : ℕ → A → Run (A × Result Allocator.Error ℕ)) where
  -- `pmem::zalloc_order`
  pub zalloc_order : ℕ → Paging A → Run (Paging A × Result Allocator.Error ℕ)
  zalloc_order order s = do
    (pages, r) ← alloc_order order s.pages
    elim r [
      | bad e ↦ ok (record s { pages = pages }, bad e)
      | good page ↦ do
        ptr ← phys2virt s.offset page
        bytes ← size_for_order order
        ok (record s { pages = pages; memory = fill s.memory ptr (bytes / 8 * 8) }, good page)
    ]

  -- The empty entry at `at` becomes a branch to a new table.
  pub new_table : ℕ → Paging A × Result Allocator.Error ℕ → Run (Paging A × Result Error ℕ)
  new_table at (s, bad e) = ok (s, bad (alloc e))
  new_table at (s, good page) = do
    ptr ← table_at s.offset page
    ok (
      record s {
        memory = store s.memory at (branch_entry page);
        subtables = s.subtables ++ page ∷ [];
      },
      good ptr,
    )

  -- One round of the loop of `map`, at level `idx`.
  pub descend : ℕ → ℕ → ℕ → Paging A → Run (Paging A × Result Error ℕ)
  unfolding zalloc_order new_table
  descend vaddr idx table s = elim (kind (s.memory (slot table vaddr idx))) [
    | some leaf ↦ ok (s, bad already_mapped)
    | some (branch next) ↦ do ptr ← table_at s.offset next; ok (s, good ptr)
    | none ↦ do zeroed ← zalloc_order 0 s; new_table (slot table vaddr idx) zeroed
  ]

  -- The loop, from level `last + left` down to `last + 1`.
  pub descend_all : ℕ → ℕ → ℕ → ℕ → Paging A → Run (Paging A × Result Error ℕ)
  unfolding descend
  descend_all vaddr last zero table s = ok (s, good table)
  descend_all vaddr last (suc left) table s = do
    (s1, r) ← descend vaddr (last + suc left) table s
    elim r [ bad e ↦ ok (s1, bad e) | good ptr ↦ descend_all vaddr last left ptr s1 ]

  pub put_entry : ℕ → ℕ → Paging A × Result Error ℕ → Run (Paging A × Result Error (Unit {0}))
  put_entry at word (s, bad e) = ok (s, bad e)
  put_entry at word (s, good table) = elim (kind (s.memory (table + at))) [
    | some leaf ↦ ok (s, bad already_mapped)
    | _ ↦ ok (record s { memory = store s.memory (table + at) word }, good tt)
  ]

  pub map : Mode → ℕ → ℕ → PageSize → ℕ → Paging A → Run (Paging A × Result Error (Unit {0}))
  unfolding descend_all put_entry
  map mode paddr vaddr sz bits s =
      if leb mode.levels (vpn_idx sz)
      then ok (s, bad unsupported_page_size)
      else if leb mode.max_address vaddr || not (bit_and vaddr (usize_max - mode.max_address) == 0)
      then ok (s, bad invalid_address)
      else if not (is_aligned sz paddr) || not (is_aligned sz vaddr)
      then ok (s, bad unaligned_address)
      else (do
        found ← descend_all vaddr (vpn_idx sz) (mode.levels - 1 - vpn_idx sz) s.entries s
        put_entry (8 * vpn vaddr (vpn_idx sz)) (leaf_entry paddr bits) found)

abbrev pub page_offset : PageSize → ℕ → ℕ
page_offset kilopage off = bit_and off 0xFFF
page_offset megapage off = bit_and off 0x1F_FFFF
page_offset gigapage off = bit_and off 0x3FFF_FFFF
page_offset terapage off = bit_and off 0x7F_FFFF_FFFF

module _ {A : Type 0} where
  -- The loop of `traverse` at level `idx`.
  pub traverse_from : ℕ → ℕ → ℕ → Paging A → Run (Option Mapping)
  traverse_from zero vaddr table s = elim (kind (s.memory (slot table vaddr 0))) [
    | none ↦ ok none
    | some leaf ↦ ok (some (record { entry = slot table vaddr 0; size = kilopage }))
    | some (branch next) ↦ do ptr ← table_at s.offset next; ok none
  ]
  traverse_from (suc i) vaddr table s = elim (kind (s.memory (slot table vaddr (suc i)))) [
    | none ↦ ok none
    | some leaf ↦ do
      sz ← size_at (suc i)
      ok (some (record { entry = slot table vaddr (suc i); size = sz }))
    | some (branch next) ↦ do ptr ← table_at s.offset next; traverse_from i vaddr ptr s
  ]

  pub traverse : Mode → ℕ → Paging A → Run (Option Mapping)
  unfolding traverse_from
  traverse mode vaddr s = traverse_from (mode.levels - 1) vaddr s.entries s

  abbrev pub read_mapping : ℕ → Paging A → Option Mapping → Option (ℕ × PageSize × ℕ)
  read_mapping vaddr s none = none
  read_mapping vaddr s (some m) =
      let word = s.memory m.entry in
      some
        ((word / 2 ^ 10 * 2 ^ 12 % 2 ^ 64 + page_offset m.size vaddr) % 2 ^ 64, m.size, flags word)

  pub translate : Mode → ℕ → Paging A → Run (Option (ℕ × PageSize × ℕ))
  translate mode vaddr s = do found ← traverse mode vaddr s; ok (read_mapping vaddr s found)

  pub unmap : Mode → ℕ → Paging A → Run (Paging A × Bool)
  unmap mode vaddr s = do
    found ← traverse mode vaddr s
    elim found [
      | none ↦ ok (s, false)
      | some m ↦ ok (record s { memory = store s.memory m.entry 0 }, true)
    ]
