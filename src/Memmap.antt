-- ===== src/Memmap.antt =====
-- crates/kernel/src/memmap.rs: the layout of the address space, and the offset at which physical memory is mapped.
use novos.Prelude.{ℕ, ◌+◌, ◌*◌, Run, add_usize}

abbrev pub higher_half_start : ℕ
higher_half_start = 0x4000_0000_0000

abbrev pub kernel_phys_mem_base : ℕ
kernel_phys_mem_base = higher_half_start + 0x0A00_0000_0000

abbrev pub kernel_stack_base : ℕ
kernel_stack_base = higher_half_start + 0x0B00_0000_0000

abbrev pub kernel_stack_size : ℕ
kernel_stack_size = 1024 * 1024

abbrev pub kernel_vmem_alloc_base : ℕ
kernel_vmem_alloc_base = higher_half_start + 0x0C00_0000_0000

-- `PHYSICAL_MEMORY_OFFSET` is the first argument.
abbrev pub phys2virt : ℕ → ℕ → Run ℕ
phys2virt offset paddr = add_usize paddr offset
