-- ===== src/DeviceTree/Regions/OfNode.antt =====
-- The regions of a node, from the properties that it and the root node were written with.
use novos.Prelude.{
  ℕ, ◌*◌, ◌^◌, ◌<◌, ◌≡◌, ◌≢◌, refl, sym, ap, ◌∙◌, List, Option, some, none, length, ok, ◌⊎◌, inl,
  inr, ==_iff, ◌==◌, false, true, if◌then◌else◌, arith,
}
use novos.Prelude as P
use novos.DeviceTree.Bytes.{to_be_bytes, from_be_bytes-to_be_bytes, length-to_be_bytes}
use novos.DeviceTree.Level.{Node}
use novos.DeviceTree.Property.{Property, exactly}
use novos.DeviceTree.Find.{root}
use novos.DeviceTree.Node.{prop}
use novos.DeviceTree.Reading.Collect.{all_bytes, AllFit}
use novos.DeviceTree.Regions.{
  Region, cells, non_zero, address_cells_name, size_cells_name, reg_name, regions, all_regions,
}
use novos.DeviceTree.Regions.RoundTrip.{OneOrTwo, region_bytes, Fits, all_regions-all_bytes}

cells-word :
    (p : Property) (n : ℕ) → OneOrTwo n → p.content ≡ to_be_bytes 4 n → cells (some p) ≡ some n
cells-word p n small written =
    let four : (length (to_be_bytes 4 n) == 4) ≡ true = (==_iff _ 4).1 (length-to_be_bytes 4 n) in
    let exact : exactly 4 (to_be_bytes 4 n) ≡ some n =
      rw four (ap some (from_be_bytes-to_be_bytes 4 n (small_word small))) in
    ap (λ bytes. non_zero (exactly 4 bytes)) written ∙ (ap non_zero exact ∙ not_zero small)
  where
    small_word : {m : ℕ} → OneOrTwo m → m < 256 ^ 4
    small_word (inl e) = omega (arith, e)
    small_word (inr e) = omega (arith, e)

    not_zero : {m : ℕ} → OneOrTwo m → non_zero (some m) ≡ some m
    not_zero (inl e) = rw e refl
    not_zero (inr e) = rw e refl

-- The loop over `regions` of a node gives the regions that its `reg` property was written with, when the cell
-- counts of the root node are 1 or 2 and are those that the numbers were written with.
pub all_regions-regions :
    (n top : Node) (address_prop size_prop reg : Property) (address size : ℕ) (rs : List Region)
    → (address_ok : OneOrTwo address) → (size_ok : OneOrTwo size) → root n.tree ≡ ok top
    → prop top address_cells_name ≡ ok (some address_prop)
    → address_prop.content ≡ to_be_bytes 4 address
    → prop top size_cells_name ≡ ok (some size_prop)
    → size_prop.content ≡ to_be_bytes 4 size
    → prop n reg_name ≡ ok (some reg)
    → reg.content ≡ all_bytes (region_bytes address size) rs
    → AllFit (Fits address size) rs
    → P.◌>>=◌ (regions n) all_regions ≡ ok rs
unfolding regions
all_regions-regions n top address_prop size_prop reg address size rs address_ok size_ok is_root a
      written_a s written_s r written_r fit =
    let address_cells = cells-word address_prop address address_ok written_a in
    let size_cells = cells-word size_prop size size_ok written_s in
    rw (is_root, a, s, r, address_cells, size_cells, written_r)
      (all_regions-all_bytes address size address_ok size_ok rs fit)
