-- ===== src/DeviceTree/Property.antt =====
-- crates/devicetree/src/node.rs: a property and the ways to read its data.
pub mod Strings
use novos.Prelude.{
  ℕ, zero, suc, ◌+◌, ◌-◌, ◌*◌, ◌^◌, ◌&&◌, Bool, true, false, List, [], ◌∷◌, Option, none, some,
  length, ◌==◌, ltb, leb, if◌then◌else◌, Run, ok, out_of_fuel, usize_max,
}
use novos.Prelude as P
use novos.DeviceTree.Bytes.{same_bytes, from_be_bytes, next_str_checked}
use novos.DeviceTree.Reading.{Reading, ◌>>=◌, ◌>>◌, give, look, skip}

pub record Property : Type 0 where
  pub name : List ℕ
  pub content : List ℕ

-- `try_into` an array of `n` bytes.
abbrev pub exactly : ℕ → List ℕ → Option ℕ
exactly n bytes = if length bytes == n then some (from_be_bytes bytes) else none

abbrev pub as_u32 : Property → Option ℕ
as_u32 p = exactly 4 p.content

abbrev pub as_u64 : Property → Option ℕ
as_u64 p = exactly 8 p.content

abbrev pub as_str : Property → Option (List ℕ)
as_str p = next_str_checked p.content

-- A `PHandle` is its number.
abbrev pub as_phandle : Property → Option ℕ
as_phandle p = as_u32 p

-- `Strings` is the table that is left; `as_strings` starts with the data.
unfoldable pub next_string : Reading (List ℕ)
unfolding next_str_checked
next_string = do string ← look next_str_checked; skip (length string + 1); give string

-- `as_strings().any(|c| c == x)`: every string shortens the table.
abbrev pub any_of : (List ℕ → Run Bool) → List ℕ → Option (List ℕ) × List ℕ → Run Bool
any_of rest x (none, table) = ok false
any_of rest x (some c, table) = elim (same_bytes c x) [ true ↦ ok true | false ↦ rest table ]

unfoldable pub any_from : ℕ → List ℕ → List ℕ → Run Bool
unfolding next_string same_bytes
any_from zero x table = out_of_fuel
any_from (suc fuel) x table = P.◌>>=◌ (next_string table) (any_of (any_from fuel x) x)

unfoldable pub any_string : List ℕ → List ℕ → Run Bool
unfolding any_from
any_string x table = any_from (suc (length table)) x table
