-- ===== src/DeviceTree/Node.antt =====
-- crates/devicetree/src/node.rs: the children, the properties and the regions of a node.
pub mod Children
pub mod Props
use novos.Prelude.{
  ℕ, suc, ◌+◌, List, [], ◌∷◌, Option, none, some, ◌==◌, leb, if◌then◌else◌, Run, ok, ◌>>=◌,
}
use novos.DeviceTree.Bytes.{same_bytes}
use novos.DeviceTree.Tokens.{Token, begin_node, property, end_node, TokenIter}
use novos.DeviceTree.Blob.{DeviceTree, string_at}
use novos.DeviceTree.Loop.{Turn, go_on, finish, Ended, each, collect}
use novos.DeviceTree.Level.{Node, add_u8, sub_u8}
use novos.DeviceTree.Property.{Property}

-- `Children` is the level of the parent, the current level and the tokens.
unfoldable pub children : Node → Run (ℕ × TokenIter)
children node = do nesting ← add_u8 node.level 1; ok (nesting, node.children)

unfoldable pub children_step : DeviceTree → ℕ → ℕ → Token → TokenIter → Run (Turn ℕ Node)
children_step tree node_level level (begin_node name) iter = do
  below ← add_u8 level 1
  child_level ← add_u8 node_level 1
  ok (
      if level == child_level
      then finish (some (record { tree = tree; name = name; level = level; children = iter })) below
      else go_on below)
children_step tree node_level level end_node iter = do
  above ← sub_u8 level 1
  ok (if leb above node_level then finish none above else go_on above)
children_step tree node_level level (property content name_off) iter = ok (go_on level)

unfoldable pub next_child : DeviceTree → ℕ → ℕ → TokenIter → Run (Ended ℕ Node)
unfolding each children_step
next_child tree node_level level iter = each (children_step tree node_level) level iter

-- `for child in node.children()`
unfoldable pub all_children : Node → Run (List Node)
unfolding collect children children_step
all_children node = do
  (level, iter) ← children node
  collect (children_step node.tree node.level) level iter

-- `Properties` has no state but the tokens; a name that cannot be read ends it.
abbrev pub property_of : List ℕ → Option (List ℕ) → Option Property
property_of content none = none
property_of content (some name) = some (record { name = name; content = content })

unfoldable pub props_step :
    DeviceTree → Unit {0} → Token → TokenIter → Run (Turn (Unit {0}) Property)
unfolding string_at
props_step tree state (property content name_off) iter = do
  name ← string_at tree name_off
  ok (finish (property_of content name) state)
props_step tree state (begin_node name) iter = ok (finish none state)
props_step tree state end_node iter = ok (finish none state)

unfoldable pub next_prop : DeviceTree → TokenIter → Run (Ended (Unit {0}) Property)
unfolding each props_step
next_prop tree iter = each (props_step tree) tt iter

-- `props().find(|prop| prop.name() == name)`: a round of `find` is a call of `next`, and that takes one token.
abbrev pub select : List ℕ → Option Property → Turn (Unit {0}) Property
select name none = finish none tt
select name (some prop) = if same_bytes prop.name name then finish (some prop) tt else go_on tt

unfoldable pub prop_step :
    DeviceTree → List ℕ → Unit {0} → Token → TokenIter → Run (Turn (Unit {0}) Property)
unfolding string_at same_bytes
prop_step tree wanted state (property content name_off) iter = do
  name ← string_at tree name_off
  ok (select wanted (property_of content name))
prop_step tree wanted state (begin_node name) iter = ok (finish none state)
prop_step tree wanted state end_node iter = ok (finish none state)

unfoldable pub prop : Node → List ℕ → Run (Option Property)
unfolding each prop_step
prop node name = do
  (found, state, rest) ← each (prop_step node.tree name) tt node.children
  ok found
