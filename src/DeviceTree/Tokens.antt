-- ===== src/DeviceTree/Tokens.antt =====
-- crates/devicetree/src/parse.rs: the tokens of the structure block.
pub mod RoundTrip
pub mod Progress
pub mod Returns
use novos.Prelude.{ℕ, ◌+◌, List, [], ◌∷◌, Option, none, some, length, ◌==◌, if◌then◌else◌, Run, ok}
use novos.DeviceTree.Bytes.{next_str, from_be_bytes, align_up}
use novos.DeviceTree.Reading.{Reading, ◌>>=◌, ◌>>◌, give, run, look, upto, skip}

abbrev pub fdt_begin_node : ℕ
fdt_begin_node = 0x00000001

abbrev pub fdt_end_node : ℕ
fdt_end_node = 0x00000002

abbrev pub fdt_prop : ℕ
fdt_prop = 0x00000003

abbrev pub fdt_nop : ℕ
fdt_nop = 0x00000004

-- A node's name, and a property's data and the offset of its name in the strings block.
pub data Token : Type 0 where
  begin_node : List ℕ → Token
  property : List ℕ → ℕ → Token
  end_node : Token

-- The iterator is the buffer that is left.
abbrev pub TokenIter : Type 0
TokenIter = List ℕ

unfoldable pub next_u32 : Reading ℕ
unfolding from_be_bytes
next_u32 (a ∷ b ∷ c ∷ d ∷ remaining) = ok (some (from_be_bytes (a ∷ b ∷ c ∷ d ∷ [])), remaining)
next_u32 (a ∷ b ∷ c ∷ []) = ok (none, a ∷ b ∷ c ∷ [])
next_u32 (a ∷ b ∷ []) = ok (none, a ∷ b ∷ [])
next_u32 (a ∷ []) = ok (none, a ∷ [])
next_u32 [] = ok (none, [])

-- What follows a begin node token.
unfoldable pub next_name : Reading Token
unfolding next_str align_up
next_name = do
  name ← look next_str
  len ← run (align_up (length name + 1) 4)
  skip len
  give (begin_node name)

-- What follows a property token.
unfoldable pub next_property : Reading Token
unfolding next_u32 align_up
next_property = do
  len ← next_u32
  name_off ← next_u32
  content ← upto len
  whole ← run (align_up len 4)
  skip whole
  give (property content name_off)

-- The token that the word at the front announces; `skipped` is what `next` gives behind that word.
unfoldable pub next_by : ℕ → Run (Option Token × TokenIter) → Reading Token
unfolding next_name next_property
next_by word skipped buf =
    if word == fdt_begin_node
    then next_name buf
    else if word == fdt_prop
    then next_property buf
    else if word == fdt_end_node
    then ok (some end_node, buf)
    else if word == fdt_nop
    then skipped
    else ok (none, buf)

-- A token with its word `a b c d`.
unfoldable pub next : Reading Token
unfolding next_u32 next_by from_be_bytes
next (a ∷ b ∷ c ∷ d ∷ buf) =
    let skipped = next buf in next_by (from_be_bytes (a ∷ b ∷ c ∷ d ∷ [])) skipped buf
next (a ∷ b ∷ c ∷ []) = ok (none, a ∷ b ∷ c ∷ [])
next (a ∷ b ∷ []) = ok (none, a ∷ b ∷ [])
next (a ∷ []) = ok (none, a ∷ [])
next [] = ok (none, [])
