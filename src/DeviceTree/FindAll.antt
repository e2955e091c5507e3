-- ===== src/DeviceTree/FindAll.antt =====
-- crates/devicetree/src/lib.rs: the iterators over all nodes, and over all nodes at a path.
pub mod First
use novos.Prelude.{
  ℕ, suc, ◌+◌, List, [], ◌∷◌, Option, none, some, ◌==◌, ltb, if◌then◌else◌, Run, ok, ◌>>=◌,
}
use novos.DeviceTree.Bytes.{starts_with}
use novos.DeviceTree.Tokens.{Token, begin_node, property, end_node, TokenIter}
use novos.DeviceTree.Blob.{DeviceTree, tokens}
use novos.DeviceTree.Loop.{Turn, go_on, finish, Ended, each}
use novos.DeviceTree.Level.{Node, add_u8, sub_u8}
use novos.DeviceTree.Find.{split_terminator}

-- What the closure of `find_nodes` captures, less the tokens.
pub record Searches : Type 0 where
  pub path : List (List ℕ)
  pub nesting_level : ℕ
  pub looking_level : ℕ
  pub last_part : Option (List ℕ)

-- `path.peek().copied().or(last_part)?`
abbrev pub next_part : List (List ℕ) → Option (List ℕ) → Option (List ℕ)
next_part [] last_part = last_part
next_part (part ∷ path) last_part = some part

-- `path.next()`
abbrev pub advance : List (List ℕ) → List (List ℕ)
advance [] = []
advance (part ∷ path) = path

-- The name fits `part`; `path` are the parts behind it.
unfoldable pub found_one :
    DeviceTree → Searches → List ℕ → TokenIter → List ℕ → List (List ℕ) → Run (Turn Searches Node)
found_one tree s name iter part [] = ok (
    finish (some (record { tree = tree; name = name; level = s.nesting_level; children = iter }))
      (record s { path = []; nesting_level = s.nesting_level + 1; last_part = some part }))
found_one tree s name iter part (q ∷ path) = do
  looking ← add_u8 s.looking_level 1
  ok (
      go_on (record s {
        path = q ∷ path;
        nesting_level = s.nesting_level + 1;
        looking_level = looking;
      }))

unfoldable pub compare_one :
    DeviceTree → Searches → List ℕ → TokenIter → Option (List ℕ) → Run (Turn Searches Node)
unfolding found_one starts_with
compare_one tree s name iter none =
    ok (finish none (record s { nesting_level = s.nesting_level + 1 }))
compare_one tree s name iter (some part) =
    if starts_with name part
    then found_one tree s name iter part (advance s.path)
    else ok (go_on (record s { nesting_level = s.nesting_level + 1 }))

unfoldable pub find_all_step : DeviceTree → Searches → Token → TokenIter → Run (Turn Searches Node)
unfolding compare_one
find_all_step tree s (begin_node name) iter = do
  nesting ← add_u8 s.nesting_level 1
  if nesting == s.looking_level
      then compare_one tree s name iter (next_part s.path s.last_part)
      else ok (go_on (record s { nesting_level = nesting }))
find_all_step tree s end_node iter = do
  nesting ← sub_u8 s.nesting_level 1
  least ← sub_u8 s.looking_level 1
  let left = record s { nesting_level = nesting }
  ok (if ltb nesting least then finish none left else go_on left)
find_all_step tree s (property content name_off) iter = ok (go_on s)

-- The state of the iterator, and a call of its `next`.
unfoldable pub find_nodes : DeviceTree → List ℕ → Run (Searches × TokenIter)
unfolding split_terminator tokens
find_nodes tree path = do
  iter ← tokens tree
  ok (
    record { path = split_terminator path; nesting_level = 0; looking_level = 1; last_part = none },
    iter,
  )

unfoldable pub next_found : DeviceTree → Searches → TokenIter → Run (Ended Searches Node)
unfolding each find_all_step
next_found tree s iter = each (find_all_step tree) s iter

-- `Nodes`: its state is the level and the tokens.
unfoldable pub nodes : DeviceTree → Run (ℕ × TokenIter)
unfolding tokens
nodes tree = do iter ← tokens tree; ok (0, iter)

unfoldable pub nodes_step : DeviceTree → ℕ → Token → TokenIter → Run (Turn ℕ Node)
nodes_step tree level (begin_node name) iter = do
  below ← add_u8 level 1
  ok (finish (some (record { tree = tree; name = name; level = level; children = iter })) below)
nodes_step tree level end_node iter = do above ← sub_u8 level 1; ok (go_on above)
nodes_step tree level (property content name_off) iter = ok (go_on level)

unfoldable pub next_node : DeviceTree → ℕ → TokenIter → Run (Ended ℕ Node)
unfolding each nodes_step
next_node tree level iter = each (nodes_step tree) level iter
