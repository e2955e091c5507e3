-- ===== src/DeviceTree/Format.antt =====
-- The flattened devicetree format, written down from its specification and not from the code: a tree, and the bytes of
-- its structure block. A block may hold NOP words before any token.
use novos.Prelude.{
  ℕ, zero, suc, ◌+◌, ◌-◌, ◌^◌, ◌≤◌, ◌<◌, List, [], ◌∷◌, ◌++◌, length, replicate, ◌≡◌, ◌≢◌, max,
  Option, some, none, if◌then◌else◌, ok,
}
use novos.DeviceTree.Bytes.{to_be_bytes, padded, starts_with}
use novos.DeviceTree.Tokens.{Token, begin_node, property, end_node, next}

-- `u32` words, and bytes padded by zeros to whole words.
abbrev pub word : ℕ → List ℕ
word v = to_be_bytes 4 v

abbrev pub pad : List ℕ → List ℕ
pad bytes = bytes ++ replicate (padded (length bytes) - length bytes) 0

abbrev pub token_bytes : Token → List ℕ
token_bytes (begin_node name) = word 1 ++ pad (name ++ (0 ∷ []))
token_bytes (property content name_off) =
    word 3 ++ (word (length content) ++ (word name_off ++ pad content))
token_bytes end_node = word 2

-- `n` NOP words.
abbrev pub nops : ℕ → List ℕ
nops zero = []
nops (suc n) = word 4 ++ nops n

-- A name has no NUL.
abbrev pub NoNul : List ℕ → Type 0
NoNul [] = Unit
NoNul (c ∷ text) = (c ≢ 0) × NoNul text

-- What a structure block can hold: the sizes and offsets are words.
abbrev pub Encodable : Token → Type 0
Encodable (begin_node name) = NoNul name × (length name + 4 ≤ 2 ^ 32)
Encodable (property content name_off) = (length content < 2 ^ 32) × (name_off < 2 ^ 32)
Encodable end_node = Unit

-- The nodes of one level, each with its properties (their data and the offsets of their names) and what lies
-- below it.
pub data Forest : Type 0 where
  nothing : Forest
  node : List ℕ → List (List ℕ × ℕ) → Forest → Forest → Forest

abbrev pub props_tokens : List (List ℕ × ℕ) → List Token
props_tokens [] = []
props_tokens ((content, name_off) ∷ props) = property content name_off ∷ props_tokens props

abbrev pub forest_tokens : Forest → List Token
forest_tokens nothing = []
forest_tokens (node name props children siblings) =
    begin_node name
    ∷ (props_tokens props ++ (forest_tokens children ++ (end_node ∷ forest_tokens siblings)))

abbrev pub depth : Forest → ℕ
depth nothing = 0
depth (node name props children siblings) = max (suc (depth children)) (depth siblings)

-- Reading the buffer gives these tokens, and leaves the rest.
abbrev pub Yields : List ℕ → List Token → List ℕ → Type 0
Yields buf [] rest = buf ≡ rest
Yields buf (token ∷ tokens) rest =
    (after : List ℕ) × (next buf ≡ ok (some token, after)) × Yields after tokens rest

-- A node without its siblings.
pub record Subtree : Type 0 where
  pub name : List ℕ
  pub props : List (List ℕ × ℕ)
  pub below : Forest

abbrev pub body_tokens : Subtree → List Token
body_tokens t = props_tokens t.props ++ (forest_tokens t.below ++ (end_node ∷ []))

-- The first node of the level whose name starts with the part.
abbrev pub first_match : List ℕ → Forest → Option Subtree
first_match part nothing = none
first_match part (node name props children siblings) =
    if starts_with name part
    then some (record { name = name; props = props; below = children })
    else first_match part siblings

-- From level to level, with no way back.
abbrev pub lookup_below : (Forest → Option Subtree) → Option Subtree → Option Subtree
lookup_below look none = none
lookup_below look (some t) = look t.below

abbrev pub lookup : List (List ℕ) → Forest → Option Subtree
lookup [] forest = none
lookup (part ∷ []) forest = first_match part forest
lookup (part ∷ q ∷ path) forest = lookup_below (lookup (q ∷ path)) (first_match part forest)

-- Tokens with the number of NOP words before each.
abbrev pub block_bytes : List (ℕ × Token) → List ℕ
block_bytes [] = []
block_bytes ((n, token) ∷ tokens) = nops n ++ (token_bytes token ++ block_bytes tokens)

abbrev pub without_nops : List (ℕ × Token) → List Token
without_nops [] = []
without_nops ((n, token) ∷ tokens) = token ∷ without_nops tokens

abbrev pub AllEncodable : List (ℕ × Token) → Type 0
AllEncodable [] = Unit
AllEncodable ((n, token) ∷ tokens) = Encodable token × AllEncodable tokens

-- A structure block ends with the word 9.
abbrev pub closed_block : List (ℕ × Token) → ℕ → List ℕ
closed_block tokens n = block_bytes tokens ++ (nops n ++ word 9)

-- A blob: the header, the block of the memory reservations, the structure block and the strings block.
pub record Layout : Type 0 where
  pub boot_cpu : ℕ
  pub reservations : List ℕ
  pub block : List ℕ
  pub strings : List ℕ

abbrev pub struct_start : Layout → ℕ
struct_start l = 40 + length l.reservations

abbrev pub strings_start : Layout → ℕ
strings_start l = struct_start l + length l.block

abbrev pub blob_size : Layout → ℕ
blob_size l = strings_start l + length l.strings

abbrev pub header : Layout → List ℕ
header l =
    0xD00DFEED
    ∷ blob_size l
    ∷ struct_start l
    ∷ strings_start l
    ∷ 40
    ∷ 17
    ∷ 16
    ∷ l.boot_cpu
    ∷ length l.strings
    ∷ length l.block
    ∷ []

abbrev pub words_bytes : List ℕ → List ℕ
words_bytes [] = []
words_bytes (v ∷ words) = word v ++ words_bytes words

abbrev pub blob : Layout → List ℕ
blob l = words_bytes (header l) ++ (l.reservations ++ (l.block ++ l.strings))
