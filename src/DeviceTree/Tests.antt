-- ===== src/DeviceTree/Tests.antt =====
-- A device tree with a memory node, and the theorems on it.
use novos.Prelude.{
  ℕ, ◌+◌, ◌-◌, ◌*◌, ◌^◌, ◌≤◌, ◌<◌, ◌≡◌, ◌≢◌, ◌↔◌, refl, inr, List, [], ◌∷◌, ◌++◌, Option, some,
  Bool, true, false, length, ok, panic, out_of_fuel, ◌>>=◌, arith,
}
use novos.DeviceTree.Bytes.{
  to_be_bytes, from_be_bytes, from_be_digits, align_up, align_up-least, same_bytes, is_utf8,
  next_str, memchr, memchr_from, utf8_from,
}
use novos.DeviceTree.Tokens.{property, next, next_u32, next_name, next_property, next_by}
use novos.DeviceTree.Tokens.RoundTrip.{next-token_bytes, block_bytes-Yields}
use novos.DeviceTree.Blob.{from_ptr, string_at, u32_at}
use novos.DeviceTree.Reservations.{MemoryReservation, all_reservations}
use novos.DeviceTree.Reservations.RoundTrip.{reservation_bytes, all_reservations-all_bytes}
use novos.DeviceTree.Reading.Collect.{all_bytes}
use novos.DeviceTree.Level.{Node}
use novos.DeviceTree.Loop.{each, each_from}
use novos.DeviceTree.Loop.Simulate.{outcome}
use novos.DeviceTree.Find.{split_terminator, find_node, memory_path, root_path}
use novos.DeviceTree.Find.Lookup.{Answers}
use novos.DeviceTree.Find.OnBlob.{Holds, find_node-blob}
use novos.DeviceTree.FindAll.{find_nodes, next_found, next_node}
use novos.DeviceTree.FindAll.First.{find_nodes-first}
use novos.DeviceTree.Property.{Property, any_string}
use novos.DeviceTree.Property.Strings.{strings_bytes, IsOneOf, AreTexts, any_string-texts}
use novos.DeviceTree.Node.{all_children, next_child, prop, prop_step}
use novos.DeviceTree.Node.Children.{AreNodes, all_children-AreNodes}
use novos.DeviceTree.Node.Props.{FirstNamed, prop-FirstNamed}
use novos.DeviceTree.Regions.{address_cells_name, size_cells_name, reg_name, regions, all_regions}
use novos.DeviceTree.Regions.OfNode.{all_regions-regions}
use novos.DeviceTree.Ends.{searches-end}
use novos.DeviceTree.Format.{
  lookup, word, token_bytes, nops, forest_tokens, blob, Subtree, body_tokens, block_bytes, NoNul,
}
use novos.DeviceTree.Sample.{
  ram, sample, spread, layout, tree, address_prop, size_prop, reg_prop, top, root_top, root_tree,
  memory_tree,
}

layout-Holds : Holds layout sample
unfolding to_be_bytes
layout-Holds = record {
  tokens = spread (forest_tokens sample);
  last_nops = 0;
  fits = omega arith;
  is_block = refl;
  is_forest = refl;
  encodable = omega arith;
  shallow = omega arith;
}

find_node-blob_example :
    (from_ptr (blob layout ++ []) ≡ some tree)
    × Answers tree
        (length (split_terminator memory_path) - 1)
        (lookup (split_terminator memory_path) sample)
        (find_node tree memory_path)
find_node-blob_example = find_node-blob layout sample [] memory_path layout-Holds

next-token_bytes_example :
    next (nops 2 ++ (token_bytes (property (7 ∷ 8 ∷ 9 ∷ 10 ∷ 11 ∷ []) 19) ++ (1 ∷ [])))
    ≡ ok (some (property (7 ∷ 8 ∷ 9 ∷ 10 ∷ 11 ∷ []) 19), 1 ∷ [])
next-token_bytes_example =
    next-token_bytes 2 (property (7 ∷ 8 ∷ 9 ∷ 10 ∷ 11 ∷ []) 19) (1 ∷ []) (omega arith)

next_padded :
    next (token_bytes (property (7 ∷ 8 ∷ []) 19)) ≡ ok (some (property (7 ∷ 8 ∷ []) 19), [])
unfolding next next_by next_property next_u32 from_be_bytes from_be_digits to_be_bytes align_up
next_padded = refl

-- A property that is longer than the block makes the iterator panic.
next_too_short : next (word 3 ++ (word 9 ++ (word 0 ++ (1 ∷ 2 ∷ 3 ∷ 4 ∷ [])))) ≡ panic
unfolding next next_by next_property next_u32 from_be_bytes from_be_digits to_be_bytes align_up
next_too_short = refl

abbrev node_of : ℕ → Subtree → Node
node_of level t = record {
  tree = tree;
  name = t.name;
  level = level;
  children = block_bytes (spread (body_tokens t)) ++ [];
}

all_children-AreNodes_example :
    (nodes : List Node) × (all_children (node_of 0 root_tree) ≡ ok nodes)
    × AreNodes 1 root_tree.below nodes
unfolding to_be_bytes
all_children-AreNodes_example =
    all_children-AreNodes (node_of 0 root_tree) root_tree []
      (block_bytes-Yields (spread (body_tokens root_tree)) [] (omega arith)) (omega arith)

names_read :
    (string_at tree 4 ≡ ok (some address_cells_name))
    × (string_at tree 19 ≡ ok (some size_cells_name))
    × (string_at tree 0 ≡ ok (some reg_name))
unfolding string_at u32_at next_str memchr memchr_from from_be_bytes from_be_digits to_be_bytes
names_read = (refl, refl, refl)

prop-FirstNamed_example :
    (found : Option Property) × (prop (node_of 0 root_tree) size_cells_name ≡ ok found)
    × FirstNamed size_cells_name (address_prop ∷ size_prop ∷ []) found
unfolding to_be_bytes
prop-FirstNamed_example =
    prop-FirstNamed (node_of 0 root_tree) size_cells_name root_tree (address_prop ∷ size_prop ∷ [])
      [] (block_bytes-Yields (spread (body_tokens root_tree)) [] (omega arith))
      (names_read.0, refl, (names_read.1, refl, refl))

props_found :
    (prop top address_cells_name ≡ ok (some address_prop))
    × (prop top size_cells_name ≡ ok (some size_prop))
    × (prop (node_of 1 memory_tree) reg_name ≡ ok (some reg_prop))
unfolding prop prop_step same_bytes each each_from string_at u32_at next next_by next_name
    next_property next_u32 next_str memchr memchr_from from_be_bytes from_be_digits to_be_bytes
    align_up
props_found = (refl, refl, refl)

all_regions-regions_example : (regions (node_of 1 memory_tree) >>= all_regions) ≡ ok (ram ∷ [])
all_regions-regions_example =
    all_regions-regions (node_of 1 memory_tree) top address_prop size_prop reg_prop 2 2 (ram ∷ [])
      (inr refl) (inr refl) root_top props_found.0 refl props_found.1 refl props_found.2 refl
      (omega arith)

abbrev reserved : List MemoryReservation
reserved = record { start = 0x8000_0000; size = 0x1000 } ∷ record { start = 0; size = 1 } ∷ []

all_reservations-all_bytes_example :
    all_reservations
      (all_bytes reservation_bytes reserved ++ ((to_be_bytes 8 0 ++ to_be_bytes 8 0) ++ (5 ∷ [])))
    ≡ ok reserved
all_reservations-all_bytes_example = all_reservations-all_bytes reserved (5 ∷ []) (omega arith)

-- Bytes that are no device tree.
searches-end_example :
    (find_node (record { buf = 1 ∷ 2 ∷ [] }) root_path ≢ out_of_fuel)
    × (prop top reg_name ≢ out_of_fuel)
    × (next_node (record { buf = 1 ∷ 2 ∷ [] }) 0 (9 ∷ []) ≢ out_of_fuel)
    × (next_child (record { buf = 1 ∷ 2 ∷ [] }) 0 0 (9 ∷ []) ≢ out_of_fuel)
searches-end_example = searches-end (record { buf = 1 ∷ 2 ∷ [] }) top root_path reg_name 0 (9 ∷ [])

find_nodes-first_example :
    (find_nodes tree memory_path >>= λ found. outcome (next_found tree found.0 found.1))
    ≡ find_node tree memory_path
find_nodes-first_example = find_nodes-first tree memory_path

any_string-texts_example :
    (answer : Bool) × (any_string (b'b' ∷ []) (strings_bytes ((b'a' ∷ []) ∷ (b'b' ∷ []) ∷ []))
      ≡ ok answer)
    × ((answer ≡ true) ↔ IsOneOf (b'b' ∷ []) ((b'a' ∷ []) ∷ (b'b' ∷ []) ∷ []))
unfolding is_utf8
any_string-texts_example = any_string-texts ((b'a' ∷ []) ∷ (b'b' ∷ []) ∷ []) (b'b' ∷ []) texts
  where
    texts : AreTexts ((b'a' ∷ []) ∷ (b'b' ∷ []) ∷ [])
    texts = (one, refl, omega arith, (two, refl, omega arith, tt))
      where
        one : NoNul (b'a' ∷ [])
        one = omega arith

        two : NoNul (b'b' ∷ [])
        two = omega arith

align_up-least_example :
    (m : ℕ) × (align_up 4097 (2 ^ 12) ≡ ok (m * 2 ^ 12))
    × (4097 ≤ m * 2 ^ 12)
    × (m * 2 ^ 12 < 4097 + 2 ^ 12)
align_up-least_example = align_up-least 12 4097 (omega arith) 52 refl

-- An overlong encoding and a surrogate are no UTF-8, and a snowman is.
utf8_samples :
    (is_utf8 (0xC0 ∷ 0x80 ∷ []) ≡ false)
    × (is_utf8 (0xED ∷ 0xA0 ∷ 0x80 ∷ []) ≡ false)
    × (is_utf8 (0xE2 ∷ 0x98 ∷ 0x83 ∷ []) ≡ true)
unfolding is_utf8 utf8_from
utf8_samples = (refl, refl, refl)
