-- ===== src/Page/Ranges.antt =====
-- crates/kernel/src/page.rs: the methods of PageTable that map and free many pages, its drop, and set_vpn. The pages come
-- from and go back to the allocator of crates/kernel/src/pmem.rs, the parameter of the sections.
use novos.Prelude.{
  ℕ, zero, suc, ◌+◌, ◌-◌, ◌*◌, ◌%◌, ◌^◌, bit_and, bit_or, Bool, true, false, Option, none, some,
  List, [], ◌∷◌, ltb, ◌==◌, if◌then◌else◌, Run, ok, panic, ◌>>=◌, Result, good, bad, add_usize,
  mul_usize, usize_max,
}
use novos.Allocator
use novos.Page.{Paging, map, translate, unmap}
use novos.Page.Types.{
  PageSize, kilopage, megapage, gigapage, terapage, size, Mode, Error, invalid_address, alloc,
}

-- `unimplemented!()` for the larger pages.
abbrev pub order_of_page : PageSize → Run ℕ
order_of_page kilopage = ok 0
order_of_page megapage = ok 9
order_of_page gigapage = panic
order_of_page terapage = panic

abbrev pub Outcome : Type 0 → Type 0
Outcome A = Run (Paging A × Result Error (Unit {0}))

abbrev pub and_then :
    {A : Type 0} → (Paging A → Outcome A) → Paging A × Result Error (Unit {0}) → Outcome A
and_then rest (s, bad e) = ok (s, bad e)
and_then rest (s, good done) = rest s

module _ {A : Type 0} (alloc_order : ℕ → A → Run (A × Result Allocator.Error ℕ)) where
  abbrev pub map_page :
      Mode → ℕ → PageSize → ℕ → Paging A → A × Result Allocator.Error ℕ → Outcome A
  map_page mode vaddr sz bits s (pages, bad e) = ok (record s { pages = pages }, bad (alloc e))
  map_page mode vaddr sz bits s (pages, good page) =
      map alloc_order mode page vaddr sz bits (record s { pages = pages })

  -- The loop of `map_alloc`, with `left` pages to go.
  unfoldable pub map_pages : Mode → ℕ → ℕ → ℕ → PageSize → ℕ → Paging A → Outcome A
  map_pages mode order zero vaddr sz bits s = ok (s, good tt)
  map_pages mode order (suc left) vaddr sz bits s = do
    page ← alloc_order order s.pages
    mapped ← map_page mode vaddr sz bits s page
    and_then (map_pages mode order left (vaddr + size sz) sz bits) mapped

  unfoldable pub map_alloc : Mode → ℕ → ℕ → PageSize → ℕ → Paging A → Outcome A
  unfolding map_pages
  map_alloc mode vaddr count sz bits s = do
    bytes ← mul_usize (size sz) count
    end ← add_usize vaddr bytes
    order ← order_of_page sz
    map_pages mode order count vaddr sz bits s

module _ {A : Type 0} (free_order : ℕ → ℕ → A → Run (A × Result Allocator.Error (Unit {0}))) where
  abbrev pub freed_page :
      Paging A → A × Result Allocator.Error (Unit {0}) → Paging A × Result Error (Unit {0})
  freed_page s (pages, bad e) = (record s { pages = pages }, bad (alloc e))
  freed_page s (pages, good done) = (record s { pages = pages }, good tt)

  abbrev pub give_back : ℕ → ℕ → Paging A × Bool → Outcome A
  give_back order paddr (s, false) = panic
  give_back order paddr (s, true) =
      if paddr == 0 then panic else (do r ← free_order paddr order s.pages; ok (freed_page s r))

  abbrev pub free_found : Mode → ℕ → ℕ → Paging A → Option (ℕ × PageSize × ℕ) → Outcome A
  free_found mode order vaddr s none = panic
  free_found mode order vaddr s (some (paddr, sz, bits)) =
      unmap mode vaddr s >>= give_back order paddr

  -- The loop of `free`.
  unfoldable pub free_pages : Mode → ℕ → ℕ → ℕ → PageSize → Paging A → Outcome A
  free_pages mode order zero vaddr sz s = ok (s, good tt)
  free_pages mode order (suc left) vaddr sz s = do
    found ← translate mode vaddr s
    freed ← free_found mode order vaddr s found
    and_then (free_pages mode order left (vaddr + size sz) sz) freed

  abbrev pub free_from : Mode → ℕ → ℕ → Paging A → Option (ℕ × PageSize × ℕ) → Outcome A
  unfolding free_pages
  free_from mode vaddr count s none = ok (s, bad invalid_address)
  free_from mode vaddr count s (some (paddr, sz, bits)) = do
    bytes ← mul_usize (size sz) count
    end ← add_usize vaddr bytes
    order ← order_of_page sz
    free_pages mode order count vaddr sz s

  unfoldable pub free_range : Mode → ℕ → ℕ → Paging A → Outcome A
  unfolding free_from
  free_range mode vaddr count s = do
    found ← translate mode vaddr s
    free_from mode vaddr count s found

  -- `drop` gives the subtables back and has no use for an error.
  unfoldable pub drop_subtables : List ℕ → A → Run A
  drop_subtables [] pages = ok pages
  drop_subtables (table ∷ rest) pages = do
    (pages', r) ← free_order table 0 pages
    drop_subtables rest pages'

-- A shift by 64 or more panics; the bits that it moves out are lost.
unfoldable pub set_vpn : ℕ → ℕ → ℕ → Run ℕ
set_vpn vaddr idx val =
    let shift = idx * 9 + 12 in
    if ltb 63 shift
    then panic
    else ok (
        bit_or (bit_and vaddr (usize_max - (2 ^ 9 - 1) * 2 ^ shift % 2 ^ 64))
          (bit_and val (2 ^ 9 - 1) * 2 ^ shift % 2 ^ 64))
