-- ===== src/DeviceTree/Blob.antt =====
-- crates/devicetree/src/lib.rs: the header of a device tree and the blocks that it points to.
pub mod RoundTrip
use novos.Prelude.{
  ℕ, ◌+◌, ◌*◌, List, ◌++◌, Option, none, some, length, take, drop, ltb, ◌==◌, if◌then◌else◌, Run,
  ok, panic, ◌>>=◌, add_usize,
}
use novos.DeviceTree.Bytes.{slice_from, slice_between, next_str, from_be_bytes}
use novos.DeviceTree.Tokens.{TokenIter}

abbrev pub magic : ℕ
magic = 0xD00DFEED

pub record DeviceTree : Type 0 where
  pub buf : List ℕ

-- The pointer is the memory from the tree on; what it points to is long enough, as the caller promises.
unfoldable pub from_ptr : List ℕ → Option DeviceTree
unfolding from_be_bytes
from_ptr ptr =
    if from_be_bytes (take 4 ptr) == magic
    then some (record { buf = take (from_be_bytes (take 4 (drop 4 ptr))) ptr })
    else none

-- The new tree has the whole buffer, of which the copy is the front.
unfoldable pub copy_to_slice : DeviceTree → List ℕ → Run DeviceTree
copy_to_slice tree buf =
    if ltb (length buf) (length tree.buf)
    then panic
    else ok (record { buf = tree.buf ++ drop (length tree.buf) buf })

-- A product `idx * 4` of the constants below does not overflow.
unfoldable pub u32_at : DeviceTree → ℕ → Run ℕ
unfolding from_be_bytes
u32_at tree idx = do
  bytes ← slice_between tree.buf (idx * 4) (idx * 4 + 4)
  ok (from_be_bytes bytes)

abbrev pub total_size : DeviceTree → Run ℕ
total_size tree = u32_at tree 1

abbrev pub struct_offset : DeviceTree → Run ℕ
struct_offset tree = u32_at tree 2

abbrev pub strings_offset : DeviceTree → Run ℕ
strings_offset tree = u32_at tree 3

abbrev pub mem_rsv_offset : DeviceTree → Run ℕ
mem_rsv_offset tree = u32_at tree 4

abbrev pub version : DeviceTree → Run ℕ
version tree = u32_at tree 5

abbrev pub last_comp_version : DeviceTree → Run ℕ
last_comp_version tree = u32_at tree 6

abbrev pub boot_cpu : DeviceTree → Run ℕ
boot_cpu tree = u32_at tree 7

abbrev pub strings_size : DeviceTree → Run ℕ
strings_size tree = u32_at tree 8

abbrev pub struct_size : DeviceTree → Run ℕ
struct_size tree = u32_at tree 9

unfoldable pub tokens : DeviceTree → Run TokenIter
unfolding u32_at
tokens tree = do
  start ← struct_offset tree
  size ← struct_size tree
  end ← add_usize start size
  slice_between tree.buf start end

unfoldable pub string_at : DeviceTree → ℕ → Run (Option (List ℕ))
unfolding u32_at next_str
string_at tree offset = do
  start ← strings_offset tree
  at ← add_usize start offset
  ok (if ltb (length tree.buf) at then none else next_str (drop at tree.buf))

-- The iterator of the memory reservations is the data that is left.
unfoldable pub memory_reservations : DeviceTree → Run (List ℕ)
unfolding u32_at
memory_reservations tree = do start ← mem_rsv_offset tree; slice_from tree.buf start
