-- ===== src/DeviceTree/Find/OnBlob.antt =====
-- The search for a path in a whole blob, from the pointer on.
use novos.Prelude.{
  ℕ, ◌-◌, ◌^◌, ◌<◌, ◌≡◌, sym, ap, ◌∙◌, subst, List, [], ◌++◌, some, none, length, ok,
}
use novos.DeviceTree.Tokens.{Token, next}
use novos.DeviceTree.Tokens.RoundTrip.{block_bytes-Yields, next-end}
use novos.DeviceTree.Blob.{DeviceTree, from_ptr}
use novos.DeviceTree.Blob.RoundTrip.{tokens-blob, from_ptr-blob}
use novos.DeviceTree.Find.{split_terminator, find_node}
use novos.DeviceTree.Find.Lookup.{Answers, find_node-Answers}
use novos.DeviceTree.Format.{
  Forest, forest_tokens, depth, Yields, lookup, word, nops, block_bytes, without_nops, AllEncodable,
  closed_block, Layout, blob_size, blob,
}
use mathlib.Core.List.{append-nil}

-- A blob of less than 2 ^ 32 bytes whose structure block holds the nodes of a forest less than 255 levels deep,
-- with NOP words anywhere between the tokens.
pub record Holds (l : Layout) (forest : Forest) : Type 0 where
  pub tokens : List (ℕ × Token)
  pub last_nops : ℕ
  pub fits : blob_size l < 2 ^ 32
  pub is_block : l.block ≡ closed_block tokens last_nops
  pub is_forest : without_nops tokens ≡ forest_tokens forest
  pub encodable : AllEncodable tokens
  pub shallow : depth forest < 255

abbrev pub tree_of : Layout → DeviceTree
tree_of l = record { buf = blob l }

-- `from_ptr` and then `find_node` give what the lookup of the path in the written forest says: the first node that
-- fits on every level, whose tokens follow it, or none.
pub find_node-blob :
    (l : Layout) (forest : Forest) (memory path : List ℕ)
    → Holds l forest
    → let parts = split_terminator path in
      (from_ptr (blob l ++ memory) ≡ some (tree_of l))
      × Answers (tree_of l) (length parts - 1) (lookup parts forest) (find_node (tree_of l) path)
find_node-blob l forest memory path h =
    let ending = nops h.last_nops ++ word 9 in
    let holds : Yields l.block (forest_tokens forest) ending =
      subst (λ b. Yields b (forest_tokens forest) ending) (sym h.is_block)
        (subst (λ ts. Yields (block_bytes h.tokens ++ ending) ts ending) h.is_forest
          (block_bytes-Yields h.tokens ending h.encodable)) in
    let ended : next ending ≡ ok (none, []) =
      ap (λ bytes. next (nops h.last_nops ++ bytes)) (sym (append-nil (word 9)))
      ∙ next-end h.last_nops [] in
    (
      from_ptr-blob l h.fits memory,
      find_node-Answers (tree_of l) forest l.block ending [] (tokens-blob l h.fits) holds ended
          h.shallow path,
    )
