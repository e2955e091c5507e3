-- ===== src/Lib.antt =====
-- novos is a kernel for 64-bit RISC-V. This library models its memory management, its page tables and its
-- locks: the set of physical memory ranges that the boot code fills
-- (crates/kernel/src/allocator/rangeset.rs), the buddy allocator that hands out the pages of those ranges
-- (crates/kernel/src/allocator/buddy.rs), what both use of crates/kernel/src/allocator.rs and
-- crates/kernel/src/memmap.rs, the page tables (crates/kernel/src/page.rs), the locks that guard shared state
-- (crates/riscv/src/sync.rs), the bits of the satp register (crates/riscv/src/csr/satp.rs), the causes of
-- traps (crates/riscv/src/trap.rs), the device tree (crates/devicetree), the set-up of physical memory
-- (crates/kernel/src/pmem.rs), the drivers of the interrupt controller and the serial port
-- (crates/kernel/src/drivers), the handler of traps (crates/kernel/src/trap.rs), and the calls into the
-- firmware (crates/sbi). Boot reads the memory regions from the device tree, inserts them into a range set,
-- removes the parts that are in use, and adds what is left to the buddy allocator.
--
-- Files:
-- - Prelude and its children: shared names, lists with native indices, Boolean tests, bits.
--   Prelude/Outcome.antt has the outcome of a call, Run: a value, a panic, or the end of the fuel of a loop;
--   `?` and Result are the type Result. Arithmetic on usize is checked, as the release profile turns on
--   overflow checks.
-- - Allocator.antt: page size, errors, statistics, align_up. Memmap.antt: the address space constants and
--   phys2virt, whose global offset is an argument.
-- - RangeSet.antt: the type RangeSet and its methods by their names; the loops of merge_blocks and
--   remove_inner are merge_loop and remove_loop, over a round of each and the recursive call as an argument.
--   RangeSet/Slice, Cover: the live slice, the addresses it covers, ranges that are apart. RangeSet/Merge,
--   Insert, Fit, Spare: insertion. RangeSet/Cut, Replace, Split, Remove: removal.
-- - Buddy.antt: the type BuddyAllocator and its methods by their names. The free lists are linked through the
--   free blocks, so the state holds the memory, a function from virtual addresses to the next pointer.
--   Buddy/Blocks: sizes, alignment and buddies. Buddy/Free: the free lists as lists of addresses.
--   Buddy/Linked, Removal, Unlink: the linked lists in memory do what the lists of addresses do. Buddy/Sound:
--   lists and statistics agree. Buddy/Allocate, Pair, Return, Deallocate, Roundtrip: the two main operations.
--   Buddy/Region: adding memory. Buddy/Sample: one block of memory, for the tests. Buddy/Order:
--   order_for_size.
-- - Sync/Mutex.antt and Sync/RwLock.antt: the locks of crates/riscv/src/sync.rs. Every atomic operation is a
--   function, and Step relates the states before and after one hart performs one; Reachable closes it over
--   all interleavings. Sync/Mutex/Tickets, Exclusion: the tickets that are out. Sync/RwLock/Weights,
--   Exclusion: what the harts have added to the word.
-- - Page.antt: the methods of PageTable (crates/kernel/src/page.rs) by their names, over a memory of 64-bit
--   words and an allocator of pages that is the parameter of a section; the loop of map is descend_all, its
--   rounds descend. Page/Types, Page/Entry: page sizes, modes, errors (crates/kernel/src/page/types.rs,
--   page/modes.rs) and entries. Page/Words, Numbers: what words and addresses say. Page/Tree: the interface
--   PageSource that map needs of the allocator, and the invariant: every table has a level, and branches lead
--   one level down. Page/Grow, Descend, Walk, Map: map and translate. Page/Unmap: unmap. Page/Pages: the
--   buddy allocator keeps the interface PageSource. Page/Ranges.antt: map_alloc, free (free_range here), drop
--   (drop_subtables) and set_vpn.
-- - Riscv/Satp.antt, Riscv/Trap.antt: crates/riscv/src/csr/satp.rs and crates/riscv/src/trap.rs;
--   Riscv/Causes.antt: the cause numbers of the privileged architecture.
-- - DeviceTree/Bytes.antt: the functions on raw bytes of crates/devicetree/src/lib.rs; a string is its bytes.
--   DeviceTree/Reading.antt: the iterators over a buffer, as a monad. DeviceTree/Tokens.antt:
--   crates/devicetree/src/parse.rs. DeviceTree/Blob, Reservations, Find, FindAll: the methods of DeviceTree
--   in crates/devicetree/src/lib.rs; the loops over tokens are `each` of DeviceTree/Loop.antt over one turn.
--   DeviceTree/Level, Node, Property, Regions, Chosen: crates/devicetree/src/node.rs. DeviceTree/Format.antt:
--   the format by its specification, and lookups in the forest of nodes that a blob holds. Loop/Unroll, Skip,
--   Simulate, Tokens/Progress, Returns, Ends: that the loops end and what they pass over. RoundTrip in each
--   directory: what is written is read.
-- - Pmem.antt: the functions of crates/kernel/src/pmem.rs, over the range set, the buddy allocator and the
--   device tree. Pmem/Usable: the ranges that init hands on; Pmem/Layouts: the allocation of a layout.
-- - Drivers/Plic.antt, Drivers/Uart.antt: crates/kernel/src/drivers/plic.rs and ns16550a.rs; `enable` and
--   `disable` are enable_interrupt and disable_interrupt. The voladdress crate is the record Volatile, the
--   volatile accesses of the serial port are the record Bus. Drivers/Plic/Enable, Priorities: what the
--   registers hold afterwards. Drivers/Uart/Chip: the chip's data sheet as laws; Drivers/Uart/Sends,
--   Receives: both directions. DeviceTree/Sample.antt: a tree for the tests.
-- - Traps.antt: install_handler and trap_handler of crates/kernel/src/trap.rs; Traps/Handler: what it does by
--   the number of the cause. Traps/Entry.antt: the assembly of _trap_handler, as a list of instructions of a
--   machine; Entry/Frame, Loads, Saves, Restores: the frame, and the registers behind the entry. Sbi.antt:
--   crates/sbi/src/lib.rs; Sbi/Calls.antt: its modules base, hsm, ipi, rfence, system, timer and legacy, with
--   the firmware as the parameter; `start`, `stop` and `status` of hsm.rs are hart_start, hart_stop and
--   hart_status, and the three functions named sbi_call are base_call, rfence_call and the body of put_char.
--   Sbi/Codes: the error codes. Sbi/Dispatch: firmware by the numbers of the specification, and the service
--   that each call reaches.
-- - RangeSet/Tests, Buddy/Tests, DeviceTree/Tests, Pmem/Tests, Drivers/Tests, Traps/Tests, Sbi/Tests,
--   Sync/Tests, Page/Tests, Riscv/Tests: runs at concrete states.
--
-- Bounds and fuel: merge_blocks has fuel for one call per live range and one more, as each call comes after a
-- removal; remove_inner has it for two per range, as a call has one range less or one that no longer holds
-- the removed one. The recursion of allocate and deallocate has fuel for the twelve orders. The walk down the
-- page tables is structural in the level. A loop over the tokens of a device tree has fuel for the bytes of
-- its buffer, of which every token takes four at least; next itself is structural in the bytes. The walk
-- along a free list takes its fuel as an argument; a list has fewer nodes than there are free bytes, each
-- being a page at least. Atomics, pointers and the cells of the array are values of the explicit state; a
-- pointer is its address, and a method that takes &mut self returns the new state.
--
-- Not modelled: Display and Debug output, the iterators of the range set, the flush of the TLB, the growth of
-- the vector of subtables, and the other crates and modules of the kernel (logging, harts, boot). The memory
-- orderings of the atomics are not modelled: the steps of the harts follow one another.
pub mod Prelude
pub mod Memmap
pub mod Allocator
pub mod RangeSet
pub mod Buddy
pub mod Sync
pub mod Page
pub mod Riscv
pub mod Sbi
pub mod Traps
pub mod DeviceTree
pub mod Pmem
pub mod Drivers
