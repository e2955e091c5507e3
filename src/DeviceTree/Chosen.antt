-- ===== src/DeviceTree/Chosen.antt =====
-- crates/devicetree/src/node.rs: the unit address of a node, its compatible devices, and the chosen node.
use novos.Prelude.{
  ℕ, ◌+◌, ◌-◌, ◌*◌, ◌&&◌, Bool, false, List, [], ◌∷◌, ◌++◌, Option, none, some, ◌==◌, ltb, leb,
  get_elem?, if◌then◌else◌, Run, ok, ◌>>=◌, usize_max,
}
use novos.DeviceTree.Property.{Property, as_str, any_string}
use novos.DeviceTree.Blob.{DeviceTree}
use novos.DeviceTree.Level.{Node}
use novos.DeviceTree.Find.{find_node}
use novos.DeviceTree.Node.{prop}

-- `name.split('@')`; `part` is the front of the first part.
unfoldable pub split_at_signs : List ℕ → List ℕ → List (List ℕ)
split_at_signs part [] = part ∷ []
split_at_signs part (c ∷ name) =
    if c == b'@' then part ∷ split_at_signs [] name else split_at_signs (part ++ (c ∷ [])) name

-- `str::parse::<u64>`: decimal digits behind an optional sign, and no overflow.
unfoldable pub parse_digits : ℕ → List ℕ → Option ℕ
parse_digits value [] = some value
parse_digits value (c ∷ digits) =
    let value' = value * 10 + (c - b'0') in
    let rest = parse_digits value' digits in
    if leb b'0' c && leb c b'9' then (if ltb usize_max value' then none else rest) else none

abbrev pub parse_unsigned : List ℕ → Option ℕ
parse_unsigned [] = none
parse_unsigned (c ∷ digits) = parse_digits 0 (c ∷ digits)

unfoldable pub parse_u64 : List ℕ → Option ℕ
unfolding parse_digits
parse_u64 [] = none
parse_u64 (c ∷ digits) = if c == b'+' then parse_unsigned digits else parse_digits 0 (c ∷ digits)

unfoldable pub unit_address : Node → Option ℕ
unfolding split_at_signs parse_u64
unit_address node = elim (get_elem? (split_at_signs [] node.name) 1) [
  | none ↦ none
  | some addr ↦ parse_u64 addr
]

abbrev pub compatible_name : List ℕ
compatible_name = b'c' ∷ b'o' ∷ b'm' ∷ b'p' ∷ b'a' ∷ b't' ∷ b'i' ∷ b'b' ∷ b'l' ∷ b'e' ∷ []

abbrev pub contains_string : List ℕ → Option Property → Run Bool
contains_string x none = ok false
contains_string x (some p) = any_string x p.content

unfoldable pub compatible_with : Node → List ℕ → Run Bool
unfolding prop any_string
compatible_with node x = do p ← prop node compatible_name; contains_string x p

-- The tree is that of the node.
pub record ChosenNode : Type 0 where
  pub tree : DeviceTree
  pub node : Node

abbrev pub str_of : Option Property → Option (List ℕ)
str_of none = none
str_of (some p) = as_str p

abbrev pub none_if_empty : Option (List ℕ) → Option (List ℕ)
none_if_empty none = none
none_if_empty (some []) = none
none_if_empty (some (c ∷ args)) = some (c ∷ args)

abbrev pub bootargs_name : List ℕ
bootargs_name = b'b' ∷ b'o' ∷ b'o' ∷ b't' ∷ b'a' ∷ b'r' ∷ b'g' ∷ b's' ∷ []

unfoldable pub bootargs : ChosenNode → Run (Option (List ℕ))
unfolding prop
bootargs chosen = do p ← prop chosen.node bootargs_name; ok (none_if_empty (str_of p))

abbrev pub node_at : DeviceTree → Option (List ℕ) → Run (Option Node)
node_at tree none = ok none
node_at tree (some path) = find_node tree path

abbrev pub stdout_name : List ℕ
stdout_name = b's' ∷ b't' ∷ b'd' ∷ b'o' ∷ b'u' ∷ b't' ∷ b'-' ∷ b'p' ∷ b'a' ∷ b't' ∷ b'h' ∷ []

abbrev pub stdin_name : List ℕ
stdin_name = b's' ∷ b't' ∷ b'd' ∷ b'i' ∷ b'n' ∷ b'-' ∷ b'p' ∷ b'a' ∷ b't' ∷ b'h' ∷ []

unfoldable pub stdout : ChosenNode → Run (Option Node)
unfolding prop
stdout chosen = do p ← prop chosen.node stdout_name; node_at chosen.tree (str_of p)

unfoldable pub stdin : ChosenNode → Run (Option Node)
unfolding prop
stdin chosen = do p ← prop chosen.node stdin_name; node_at chosen.tree (str_of p)
