-- ===== src/Pmem/Tests.antt =====
-- The memory of a device tree, and layouts, at concrete states.
use novos.Prelude.{ℕ, ◌-◌, ◌≤◌, ◌<◌, ◌≡◌, refl, [], ◌∷◌, map, Option, some, none, inr, ok, arith}
use novos.Allocator.{page_size}
use novos.Memmap.{kernel_phys_mem_base}
use novos.RangeSet.{range, RangeSet, as_slice}
use novos.DeviceTree.Bytes.{
  to_be_bytes, from_be_bytes, from_be_digits, next_str, memchr, memchr_from, align_up, same_bytes,
  starts_with,
}
use novos.DeviceTree.Tokens.{next, next_by, next_name, next_property, next_u32}
use novos.DeviceTree.Blob.{string_at, u32_at, tokens}
use novos.DeviceTree.Loop.{each, each_from}
use novos.DeviceTree.Find.{
  expect_node, find_node, find_step, compare_part, found_part, split_terminator, split_from,
}
use novos.DeviceTree.Node.{prop, prop_step}
use novos.DeviceTree.Regions.{Regions, regions, all_regions}
use novos.DeviceTree.Regions.RoundTrip.{region_bytes, all_regions-all_bytes}
use novos.DeviceTree.Reading.Collect.{all_bytes}
use novos.DeviceTree.Sample.{tree, memory_node, memory_found, ram}
use novos.Buddy.{BuddyAllocator, new}
use novos.Buddy.Region.{new-Sound, no_blocks}
use novos.Pmem.{init, Layout, allocate_layout}
use novos.Pmem.Usable.{Left, region_calls, ends, range_of, firmware, init-region_calls}
use novos.Pmem.Layouts.{Served, allocate_layout-Served}

abbrev memory_regions : Regions
memory_regions = record {
  address_cells = some 2;
  size_cells = some 2;
  content = all_bytes (region_bytes 2 2) (ram ∷ []);
}

memory_regions_found : regions memory_node ≡ ok memory_regions
unfolding regions expect_node find_node find_step compare_part found_part split_terminator
    split_from starts_with tokens prop prop_step same_bytes each each_from string_at u32_at next
    next_by next_name next_property next_u32 next_str memchr memchr_from from_be_bytes
    from_be_digits to_be_bytes align_up
memory_regions_found = refl

memory_is_ram : all_regions memory_regions ≡ ok (ram ∷ [])
memory_is_ram = all_regions-all_bytes 2 2 (inr refl) (inr refl) (ram ∷ []) (omega arith)

abbrev fresh : BuddyAllocator
fresh = new (λ _. none) kernel_phys_mem_base

-- 128 MiB of memory with the firmware at its start and the kernel at 0x8020_0000.
init-region_calls_example :
    (t : RangeSet) × (init 0x8020_0000 0x8040_0000 tree fresh
      ≡ region_calls (map ends (as_slice t)) fresh)
    × Left (map range_of (ram ∷ [])) firmware (range 0x8020_0000 (0x8040_0000 - 1)) t
init-region_calls_example =
    init-region_calls 0x8020_0000 0x8040_0000 tree memory_node memory_regions (ram ∷ []) fresh
      memory_found memory_regions_found memory_is_ram (omega arith) (omega arith) (omega arith)
      (omega arith) (omega arith) refl

abbrev small_layout : Layout
small_layout = record { size = 5000; align = 16 }

allocate_layout-Served_example :
    (page_size < small_layout.align → allocate_layout small_layout fresh ≡ ok (fresh, none))
    × (small_layout.align ≤ page_size
        → (answer : BuddyAllocator × Option (ℕ × ℕ)) × (allocate_layout small_layout fresh
            ≡ ok answer)
          × Served fresh no_blocks small_layout.size answer)
allocate_layout-Served_example =
    allocate_layout-Served small_layout fresh no_blocks (new-Sound (λ _. none) kernel_phys_mem_base)
      (omega arith)
