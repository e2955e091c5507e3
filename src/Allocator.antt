-- ===== src/Allocator.antt =====
-- crates/kernel/src/allocator.rs: the page size, the errors and the statistics of the allocators.
use Prim.Native.String.{String}
use novos.Prelude.{ℕ, ◌-◌, Run, ok, ◌>>=◌, add_usize, sub_usize, bit_and, usize_max}

abbrev pub page_size : ℕ
page_size = 4096

pub data Error : Type 0 where
  region_too_small invalid_region order_too_large no_memory_available : Error
  allocate_zero_pages no_slab_for_layout null_pointer : Error

-- `!x` on a `usize`.
abbrev pub not_usize : ℕ → ℕ
not_usize x = usize_max - x

unfoldable pub align_up : ℕ → ℕ → Run ℕ
align_up addr align = do
  up ← add_usize addr align
  low ← sub_usize up 1
  mask ← sub_usize align 1
  ok (bit_and low (not_usize mask))

pub record AllocStats : Type 0 where
  pub name : String
  pub allocated : ℕ
  pub free : ℕ
  pub total : ℕ

abbrev pub with_name : String → AllocStats
with_name n = record { name = n; allocated = 0; free = 0; total = 0 }
