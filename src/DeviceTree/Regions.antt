-- ===== src/DeviceTree/Regions.antt =====
-- crates/devicetree/src/node.rs: the regions of a `reg` property.
pub mod RoundTrip
pub mod OfNode
use novos.Prelude.{
  ℕ, zero, suc, ◌+◌, List, [], ◌∷◌, Option, none, some, length, ◌==◌, if◌then◌else◌, Run, ok, panic,
  out_of_fuel, add_usize,
}
use novos.Prelude as P
use novos.DeviceTree.Bytes.{from_be_bytes}
use novos.DeviceTree.Reading.{Reading, ◌>>=◌, ◌>>◌, give, option, try_upto, skip, collect}
use novos.DeviceTree.Property.{Property, as_u32}
use novos.DeviceTree.Level.{Node}
use novos.DeviceTree.Find.{root}
use novos.DeviceTree.Node.{prop}

pub record Region : Type 0 where
  pub start : ℕ
  pub size : ℕ

unfoldable pub region_end : Region → Run ℕ
region_end r = add_usize r.start r.size

-- The cells are numbers other than zero.
pub record Regions : Type 0 where
  pub address_cells : Option ℕ
  pub size_cells : Option ℕ
  pub content : List ℕ

-- `read::<N>` and the number in it.
unfoldable pub read : ℕ → Reading ℕ
unfolding from_be_bytes
read n = do bytes ← try_upto n; skip n; give (from_be_bytes bytes)

unfoldable pub read_num : ℕ → Reading ℕ
unfolding read
read_num count buf = if count == 1 then read 4 buf else if count == 2 then read 8 buf else panic

-- `next`, on the data that is left.
unfoldable pub next_region : Option ℕ → Option ℕ → Reading Region
unfolding read_num
next_region address_cells size_cells = do
  address ← option address_cells
  start ← read_num address
  length ← option size_cells
  size ← read_num length
  give (record { start = start; size = size })

-- `cells.and_then(|prop| NonZeroU32::new(prop.as_u32()?))`
abbrev pub non_zero : Option ℕ → Option ℕ
non_zero none = none
non_zero (some n) = if n == 0 then none else some n

abbrev pub cells : Option Property → Option ℕ
cells none = none
cells (some p) = non_zero (as_u32 p)

abbrev pub bytes_or_default : Option Property → List ℕ
bytes_or_default none = []
bytes_or_default (some p) = p.content

abbrev pub address_cells_name : List ℕ
address_cells_name =
    b'#' ∷ b'a' ∷ b'd' ∷ b'd' ∷ b'r' ∷ b'e' ∷ b's' ∷ b's' ∷ b'-' ∷ b'c' ∷ b'e' ∷ b'l' ∷ b'l' ∷ b's'
    ∷ []

abbrev pub size_cells_name : List ℕ
size_cells_name = b'#' ∷ b's' ∷ b'i' ∷ b'z' ∷ b'e' ∷ b'-' ∷ b'c' ∷ b'e' ∷ b'l' ∷ b'l' ∷ b's' ∷ []

abbrev pub reg_name : List ℕ
reg_name = b'r' ∷ b'e' ∷ b'g' ∷ []

unfoldable pub regions : Node → Run Regions
unfolding prop
regions node = P.◌>>=◌ (root node.tree) λ top. P.◌>>=◌ (prop top address_cells_name) λ address.
    P.◌>>=◌ (root node.tree) λ top'. P.◌>>=◌ (prop top' size_cells_name) λ size.
      P.◌>>=◌ (prop node reg_name) λ reg. ok (record {
        address_cells = cells address;
        size_cells = cells size;
        content = bytes_or_default reg;
      })

-- `for region in regions`
unfoldable pub all_regions : Regions → Run (List Region)
unfolding collect next_region
all_regions r = collect (next_region r.address_cells r.size_cells) r.content
