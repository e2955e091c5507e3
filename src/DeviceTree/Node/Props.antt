-- ===== src/DeviceTree/Node/Props.antt =====
-- The property that `prop` finds.
use novos.Prelude.{
  ℕ, ◌≡◌, ◌≢◌, ◌⊎◌, refl, sym, ap, ◌∙◌, List, [], ◌∷◌, ◌++◌, Option, some, none, Run, ok, ◌>>=◌,
  arith, true, false, Bool-cases, inl, inr,
}
use novos.DeviceTree.Bytes.{same_bytes}
use novos.DeviceTree.Tokens.{Token, begin_node, property, end_node, TokenIter, next}
use novos.DeviceTree.Blob.{DeviceTree, string_at}
use novos.DeviceTree.Level.{Node}
use novos.DeviceTree.Property.{Property}
use novos.DeviceTree.Loop.{Turn, Ended, settle, each}
use novos.DeviceTree.Loop.Unroll.{each_token}
use novos.DeviceTree.Loop.Skip.{Yields-append}
use novos.DeviceTree.Node.{prop_step, prop}
use novos.DeviceTree.Format.{
  Forest, nothing, node, props_tokens, forest_tokens, Yields, Subtree, body_tokens,
}

pub same_bytes_eq : (xs ys : List ℕ) → same_bytes xs ys ≡ true → xs ≡ ys
unfolding same_bytes
same_bytes_eq [] [] e = refl
same_bytes_eq [] (y ∷ ys) e = cc
same_bytes_eq (x ∷ xs) [] e = cc
same_bytes_eq (x ∷ xs) (y ∷ ys) e = ground (arith, same_bytes_eq xs ys)

pub same_bytes_refl : (xs : List ℕ) → same_bytes xs xs ≡ true
unfolding same_bytes
same_bytes_refl [] = refl
same_bytes_refl (x ∷ xs) = ground (arith, same_bytes_refl xs)

-- The properties as the code sees them: the name of each is read from the strings block.
abbrev pub Named : DeviceTree → List (List ℕ × ℕ) → List Property → Type 0
Named tree [] named = named ≡ []
Named tree ((content, name_off) ∷ props) [] = ⊥
Named tree ((content, name_off) ∷ props) (p ∷ named) =
    (string_at tree name_off ≡ ok (some p.name)) × (p.content ≡ content) × Named tree props named

-- The first property with a name, or nothing where none has it.
abbrev pub FirstNamed : List ℕ → List Property → Option Property → Type 0
FirstNamed name [] found = found ≡ none
FirstNamed name (p ∷ props) found =
    ((p.name ≡ name) × (found ≡ some p)) ⊎ ((p.name ≢ name) × FirstNamed name props found)

module _ (tree : DeviceTree) (name : List ℕ) where
  abbrev body : Unit {0} → Token → TokenIter → Run (Turn (Unit {0}) Property)
  body = prop_step tree name

  abbrev outcome : Run (Ended (Unit {0}) Property) → Run (Option Property)
  outcome ended = ended >>= λ e. ok e.0

  Stops : TokenIter → Type 0
  Stops buf = outcome (each body tt buf) ≡ ok none

  round :
      (buf : TokenIter) (token : Token) (after : TokenIter)
      → next buf ≡ ok (some token, after)
      → outcome (each body tt buf) ≡ outcome (body tt token after >>= settle (each body) after)
  round buf token after e = ap outcome (each_token body tt buf token after e)

  search :
      (props : List (List ℕ × ℕ)) (named : List Property) (buf rest : TokenIter)
      → Named tree props named
      → Yields buf (props_tokens props) rest
      → Stops rest
      → (found : Option Property) × (outcome (each body tt buf) ≡ ok found)
        × FirstNamed name named found
  unfolding prop_step Stops
  search [] [] buf rest are y stops = (none, ap (λ b. outcome (each body tt b)) y ∙ stops, refl)
  search [] (p ∷ named) buf rest are y stops = cc
  search ((content, name_off) ∷ props) [] buf rest are y stops = absurd are
  search ((content, name_off) ∷ props) (p ∷ named) buf rest (read, same, are) (after, e, y) stops =
      let (found, later, first) = search props named after rest are y stops in
      let begun = round buf (property content name_off) after e in
      let whole : record p { content = content } ≡ p =
        ap (λ c. record p { content = c }) (sym same) in
      elim (Bool-cases (same_bytes p.name name)) [
        | inl this ↦ (
          some p,
          begun ∙ rw (read, this) (ap (λ q. ok (some q)) whole),
          inl (same_bytes_eq p.name name this, refl),
        )
        | inr other ↦ (
          found,
          begun ∙ rw (read, other) later,
          inr (
            (λ eq.
                absurd (
                  false_true
                    (sym other ∙ (ap (λ n. same_bytes n name) eq ∙ same_bytes_refl name)))),
            first,
          ),
        )
      ]
    where
      false_true : false ≡ true → ⊥
      false_true e = cc

  ends_props :
      (below : Forest) (buf rest : TokenIter)
      → Yields buf (forest_tokens below ++ (end_node ∷ [])) rest
      → Stops buf
  unfolding prop_step Stops
  ends_props nothing buf rest (after, e, y) = round buf end_node after e
  ends_props (node n props below siblings) buf rest (after, e, y) = round buf (begin_node n) after e

-- `prop` on a node whose tokens follow it returns the first of its own properties with that name, and nothing
-- where none has it.
pub prop-FirstNamed :
    (n : Node) (name : List ℕ) (t : Subtree) (named : List Property) (rest : TokenIter)
    → Yields n.children (body_tokens t) rest
    → Named n.tree t.props named
    → (found : Option Property) × (prop n name ≡ ok found) × FirstNamed name named found
unfolding prop
prop-FirstNamed n name t named rest y are =
    let (b, first, y') =
      Yields-append (props_tokens t.props) (forest_tokens t.below ++ (end_node ∷ [])) n.children
        rest y in
    search n.tree name t.props named n.children b are first
      (ends_props n.tree name t.below b rest y')
