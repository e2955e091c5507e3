-- ===== src/Drivers/Node.antt =====
-- What both drivers read from their node: the start of the first region and a word of a property.
use novos.Prelude.{ℕ, List, Option, none, some, Run, ok, ◌>>=◌}
use novos.DeviceTree.Level.{Node}
use novos.DeviceTree.Property.{Property, as_u32}
use novos.DeviceTree.Node.{prop}
use novos.DeviceTree.Regions.{Region, regions, next_region}

abbrev pub start_of : Option Region × List ℕ → Option ℕ
start_of (none, buf) = none
start_of (some r, buf) = some r.start

-- `node.regions().next()?.start()`
unfoldable pub first_start : Node → Run (Option ℕ)
first_start node = do
  r ← regions node
  found ← next_region r.address_cells r.size_cells r.content
  ok (start_of found)

abbrev pub word_of : Option Property → Option ℕ
word_of none = none
word_of (some p) = as_u32 p

-- `node.prop(name)?.as_u32()?`
unfoldable pub prop_u32 : Node → List ℕ → Run (Option ℕ)
prop_u32 node name = do p ← prop node name; ok (word_of p)
