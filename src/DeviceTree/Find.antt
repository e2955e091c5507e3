-- ===== src/DeviceTree/Find.antt =====
-- crates/devicetree/src/lib.rs: the search for nodes by a path, and the iterator over all nodes.
pub mod Lookup
pub mod OnBlob
use novos.Prelude.{
  ℕ, ◌+◌, ◌++◌, List, [], ◌∷◌, Option, none, some, ◌==◌, ltb, if◌then◌else◌, Run, ok, ◌>>=◌, unwrap,
}
use novos.DeviceTree.Bytes.{starts_with}
use novos.DeviceTree.Tokens.{Token, begin_node, property, end_node, TokenIter}
use novos.DeviceTree.Blob.{DeviceTree, tokens}
use novos.DeviceTree.Loop.{Turn, go_on, finish, each}
use novos.DeviceTree.Level.{Node, add_u8, sub_u8}

-- `path.split_terminator('/')`: the parts of a path; `part` is the front of the first.
abbrev pub ended_part : List ℕ → List (List ℕ)
ended_part [] = []
ended_part (c ∷ part) = (c ∷ part) ∷ []

unfoldable pub split_from : List ℕ → List ℕ → List (List ℕ)
split_from part [] = ended_part part
split_from part (c ∷ path) =
    if c == b'/' then part ∷ split_from [] path else split_from (part ++ (c ∷ [])) path

unfoldable pub split_terminator : List ℕ → List (List ℕ)
unfolding split_from
split_terminator path = split_from [] path

-- The parts still to be found, the level of the current node and the level that is searched.
pub record Search : Type 0 where
  pub path : List (List ℕ)
  pub nesting_level : ℕ
  pub looking_level : ℕ

-- What `find_node` does once the name of a node fits the first part; `path` are the others.
unfoldable pub found_part :
    DeviceTree → Search → List ℕ → TokenIter → List (List ℕ) → Run (Turn Search Node)
found_part tree s name iter [] = ok (
    finish (some (record { tree = tree; name = name; level = s.nesting_level; children = iter }))
      (record s { path = []; nesting_level = s.nesting_level + 1 }))
found_part tree s name iter (part ∷ path) = do
  looking ← add_u8 s.looking_level 1
  ok (
      go_on (record {
        path = part ∷ path;
        nesting_level = s.nesting_level + 1;
        looking_level = looking;
      }))

-- A node at the level that is searched, with `next_part = *path.peek()?`.
unfoldable pub compare_part :
    DeviceTree → Search → List ℕ → TokenIter → List (List ℕ) → Run (Turn Search Node)
unfolding found_part starts_with
compare_part tree s name iter [] =
    ok (finish none (record s { nesting_level = s.nesting_level + 1 }))
compare_part tree s name iter (part ∷ path) =
    if starts_with name part
    then found_part tree s name iter path
    else ok (go_on (record s { nesting_level = s.nesting_level + 1 }))

unfoldable pub find_step : DeviceTree → Search → Token → TokenIter → Run (Turn Search Node)
unfolding compare_part
find_step tree s (begin_node name) iter = do
  nesting ← add_u8 s.nesting_level 1
  if nesting == s.looking_level
      then compare_part tree s name iter s.path
      else ok (go_on (record s { nesting_level = nesting }))
find_step tree s end_node iter = do
  nesting ← sub_u8 s.nesting_level 1
  least ← sub_u8 s.looking_level 1
  let left = record s { nesting_level = nesting }
  ok (if ltb nesting least then finish none left else go_on left)
find_step tree s (property content name_off) iter = ok (go_on s)

unfoldable pub find_node : DeviceTree → List ℕ → Run (Option Node)
unfolding each find_step split_terminator tokens
find_node tree path = do
  iter ← tokens tree
  (result, s, rest) ←
      each (find_step tree)
        (record { path = split_terminator path; nesting_level = 0; looking_level = 1 }) iter
  ok result

-- `root`, `memory`, `cpus` and the node of `chosen`, which panic where there is none.
abbrev pub root_path : List ℕ
root_path = b'/' ∷ []

abbrev pub memory_path : List ℕ
memory_path = b'/' ∷ b'm' ∷ b'e' ∷ b'm' ∷ b'o' ∷ b'r' ∷ b'y' ∷ []

abbrev pub cpus_path : List ℕ
cpus_path = b'/' ∷ b'c' ∷ b'p' ∷ b'u' ∷ b's' ∷ []

abbrev pub chosen_path : List ℕ
chosen_path = b'/' ∷ b'c' ∷ b'h' ∷ b'o' ∷ b's' ∷ b'e' ∷ b'n' ∷ []

unfoldable pub expect_node : DeviceTree → List ℕ → Run Node
unfolding find_node
expect_node tree path = find_node tree path >>= unwrap

abbrev pub root : DeviceTree → Run Node
root tree = expect_node tree root_path

abbrev pub memory : DeviceTree → Run Node
memory tree = expect_node tree memory_path

abbrev pub cpus : DeviceTree → Run Node
cpus tree = expect_node tree cpus_path

abbrev pub chosen : DeviceTree → Run Node
chosen tree = expect_node tree chosen_path
