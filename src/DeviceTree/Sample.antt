-- ===== src/DeviceTree/Sample.antt =====
-- A device tree with a memory node, for the tests.
use novos.Prelude.{ℕ, ◌≡◌, refl, List, [], ◌∷◌, ◌++◌, drop, ok}
use novos.DeviceTree.Bytes.{
  to_be_bytes, from_be_bytes, from_be_digits, align_up, starts_with, next_str, memchr, memchr_from,
}
use novos.DeviceTree.Tokens.{Token, next, next_u32, next_name, next_property, next_by}
use novos.DeviceTree.Blob.{DeviceTree, tokens, u32_at}
use novos.DeviceTree.Reading.Collect.{all_bytes}
use novos.DeviceTree.Level.{Node}
use novos.DeviceTree.Loop.{each, each_from}
use novos.DeviceTree.Find.{
  split_terminator, split_from, find_node, find_step, compare_part, found_part, root, memory,
  expect_node,
}
use novos.DeviceTree.Find.OnBlob.{tree_of}
use novos.DeviceTree.Property.{Property}
use novos.DeviceTree.Regions.{Region, address_cells_name, size_cells_name, reg_name}
use novos.DeviceTree.Regions.RoundTrip.{region_bytes}
use novos.DeviceTree.Format.{Forest, nothing, node, forest_tokens, closed_block, Layout, Subtree}

-- The strings block: "reg", "#address-cells" and "#size-cells".
abbrev pub names : List ℕ
names = reg_name ++ (0 ∷ (address_cells_name ++ (0 ∷ (size_cells_name ++ (0 ∷ [])))))

abbrev pub memory_name : List ℕ
memory_name = b'm' ∷ b'e' ∷ b'm' ∷ b'o' ∷ b'r' ∷ b'y' ∷ b'@' ∷ b'8' ∷ []

abbrev pub ram : Region
ram = record { start = 0x8000_0000; size = 0x800_0000 }

abbrev pub root_props : List (List ℕ × ℕ)
root_props = (to_be_bytes 4 2, 4) ∷ (to_be_bytes 4 2, 19) ∷ []

abbrev pub memory_props : List (List ℕ × ℕ)
memory_props = (all_bytes (region_bytes 2 2) (ram ∷ []), 0) ∷ []

abbrev pub sample : Forest
sample = node [] root_props (node memory_name memory_props nothing nothing) nothing

-- A NOP word before every token.
abbrev pub spread : List Token → List (ℕ × Token)
spread [] = []
spread (token ∷ tokens) = (1, token) ∷ spread tokens

abbrev pub layout : Layout
layout = record {
  boot_cpu = 0;
  reservations = to_be_bytes 8 0 ++ to_be_bytes 8 0;
  block = closed_block (spread (forest_tokens sample)) 0;
  strings = names;
}

abbrev pub tree : DeviceTree
tree = tree_of layout

abbrev pub root_tree : Subtree
root_tree = record {
  name = [];
  props = root_props;
  below = node memory_name memory_props nothing nothing;
}

abbrev pub memory_tree : Subtree
memory_tree = record { name = memory_name; props = memory_props; below = nothing }

abbrev pub address_prop : Property
address_prop = record { name = address_cells_name; content = to_be_bytes 4 2 }

abbrev pub size_prop : Property
size_prop = record { name = size_cells_name; content = to_be_bytes 4 2 }

abbrev pub reg_prop : Property
reg_prop = record { name = reg_name; content = all_bytes (region_bytes 2 2) (ram ∷ []) }

abbrev pub top : Node
top = record { tree = tree; name = []; level = 0; children = drop 12 layout.block }

pub root_top : root tree ≡ ok top
unfolding expect_node find_node each each_from find_step compare_part found_part split_terminator
    split_from starts_with tokens u32_at next next_by next_name next_property next_u32 next_str
    memchr memchr_from from_be_bytes from_be_digits to_be_bytes align_up
root_top = refl

abbrev pub memory_node : Node
memory_node = record { tree = tree; name = memory_name; level = 1; children = drop 72 layout.block }

pub memory_found : memory tree ≡ ok memory_node
unfolding expect_node find_node each each_from find_step compare_part found_part split_terminator
    split_from starts_with tokens u32_at next next_by next_name next_property next_u32 next_str
    memchr memchr_from from_be_bytes from_be_digits to_be_bytes align_up
memory_found = refl
