-- ===== src/DeviceTree/Node/Children.antt =====
-- The children of a node are the nodes right below it, in their order.
use novos.Prelude.{
  ℕ, zero, suc, ◌+◌, ◌≤◌, ◌<◌, ◌≡◌, refl, ap, ◌∙◌, List, [], ◌∷◌, ◌++◌, some, none, length,
  length-append, Run, ok, ◌>>=◌, arith, leb, ◌==◌, true, false,
}
use novos.DeviceTree.Tokens.{Token, begin_node, property, end_node, TokenIter, next}
use novos.DeviceTree.Blob.{DeviceTree}
use novos.DeviceTree.Level.{Node, add_u8-one, sub_u8-one}
use novos.DeviceTree.Loop.{Turn, go_on, finish, settle, each, gather, collect_from, collect}
use novos.DeviceTree.Loop.Unroll.{each_token}
use novos.DeviceTree.Loop.Skip.{Yields-append, Yields-body, Yields-length, skip_props, skip_body}
use novos.DeviceTree.Node.{children, children_step, all_children}
use novos.DeviceTree.Format.{
  Forest, nothing, node, props_tokens, forest_tokens, depth, Yields, Subtree, body_tokens,
}

-- The nodes are those of a level, and the tokens behind each are those of its body.
abbrev pub AreNodes : ℕ → Forest → List Node → Type 0
AreNodes level nothing nodes = nodes ≡ []
AreNodes level (node name props below siblings) [] = ⊥
AreNodes level (node name props below siblings) (child ∷ nodes) =
    (child.name ≡ name)
    × (child.level ≡ level)
    × ((rest : TokenIter) × Yields child.children
          (body_tokens (record { name = name; props = props; below = below })) rest)
    × AreNodes level siblings nodes

abbrev width : Forest → ℕ
width nothing = 0
width (node name props below siblings) = suc (width siblings)

width-tokens : (f : Forest) → width f ≤ length (forest_tokens f)
width-tokens nothing = omega arith
width-tokens (node name props below siblings) = omega (
  arith,
  width-tokens siblings,
  length-append (props_tokens props) (forest_tokens below ++ (end_node ∷ forest_tokens siblings)),
  length-append (forest_tokens below) (end_node ∷ forest_tokens siblings),
)

module _ (tree : DeviceTree) (parent : ℕ) where
  abbrev body : ℕ → Token → TokenIter → Run (Turn ℕ Node)
  body = children_step tree parent

  abbrev at : ℕ → ℕ
  at n = n

  opens :
      (n : ℕ) (name : List ℕ) (iter : TokenIter)
      → suc parent < n
      → n < 255
      → children_step tree parent n (begin_node name) iter ≡ ok (go_on (suc n))
  unfolding children_step
  opens n name iter above fits =
      let deeper : (n == suc parent) ≡ false = ground arith in
      rw (add_u8-one n fits, add_u8-one parent (omega arith), deeper) refl

  closes :
      (n : ℕ) (iter : TokenIter)
      → suc parent ≤ n
      → children_step tree parent (suc n) end_node iter ≡ ok (go_on n)
  unfolding children_step
  closes n iter above =
      let inside : leb n parent ≡ false = ground arith in rw (sub_u8-one n, inside) refl

  ignores :
      (n : ℕ) (content : List ℕ) (name_off : ℕ) (iter : TokenIter)
      → children_step tree parent n (property content name_off) iter ≡ ok (go_on n)
  unfolding children_step
  ignores n content name_off iter = refl

  begins :
      (name : List ℕ) (iter : TokenIter)
      → suc parent < 255
      → children_step tree parent (suc parent) (begin_node name) iter
        ≡ ok (
            finish
              (some (record { tree = tree; name = name; level = suc parent; children = iter }))
              (suc (suc parent)))
  unfolding children_step
  begins name iter fits =
      let here : (suc parent == suc parent) ≡ true = ground arith in
      rw (add_u8-one (suc parent) fits, add_u8-one parent (omega arith), here) refl

  ends :
      (iter : TokenIter)
      → children_step tree parent (suc parent) end_node iter ≡ ok (finish none parent)
  unfolding children_step
  ends iter =
      let outside : leb parent parent ≡ true = ground arith in rw (sub_u8-one parent, outside) refl

  -- Collecting goes on where a round would.
  collect_from-each :
      (fuel n m : ℕ) (b c : TokenIter)
      → each body n b ≡ each body m c
      → collect_from body fuel n b ≡ collect_from body fuel m c
  unfolding collect_from
  collect_from-each zero n m b c e = refl
  collect_from-each (suc fuel) n m b c e = ap (λ ended. ended >>= gather (collect_from body fuel)) e

  collect_from-AreNodes :
      (f : Forest) (fuel : ℕ) (buf rest after : TokenIter)
      → width f < fuel
      → suc parent + depth f < 255
      → Yields buf (forest_tokens f) rest
      → next rest ≡ ok (some end_node, after)
      → (nodes : List Node) × (collect_from body fuel (suc parent) buf ≡ ok nodes)
        × AreNodes (suc parent) f nodes
  unfolding collect_from
  collect_from-AreNodes f zero buf rest after enough fits y e = absurd (omega arith)
  collect_from-AreNodes nothing (suc fuel) buf rest after enough fits y e = (
    [],
    ap (λ ended. ended >>= gather (collect_from body fuel))
        (ap (each body (suc parent)) y
          ∙ (each_token body (suc parent) rest end_node after e
              ∙ ap (λ turn. turn >>= settle (each body) after) (ends after))),
    refl,
  )
  collect_from-AreNodes (node name props below siblings) (suc fuel) buf rest after enough fits
        (inside, e', y) e =
      let child : Node = record {
        tree = tree;
        name = name;
        level = suc parent;
        children = inside;
      } in
      let (next_level, inner, y') =
        Yields-body (record { name = name; props = props; below = below }) (forest_tokens siblings)
          inside rest y in
      let (c, y'', closed) =
        skip_body body at (suc parent) opens closes ignores (suc parent) props below
          (forest_tokens siblings) inside rest (omega arith) (omega arith) y in
      let (nodes, all, are) =
        collect_from-AreNodes siblings fuel c rest after (omega arith) (omega arith) y'' e in
      let begun =
        each_token body (suc parent) buf (begin_node name) inside e'
        ∙ ap (λ turn. turn >>= settle (each body) inside) (begins name inside (omega arith)) in
      let later = collect_from-each fuel (suc (suc parent)) (suc parent) inside c closed ∙ all in
      (
        child ∷ nodes,
        ap (λ ended. ended >>= gather (collect_from body fuel)) begun
            ∙ ap (λ others. others >>= λ ns. ok (child ∷ ns)) later,
        (refl, refl, (next_level, inner), are),
      )

-- When the level of a node and the depth of the forest below it make less than 254 together, the loop over
-- its children, on tokens that follow it, gives the nodes right below it, in their order, on the next level,
-- with their tokens behind them, and no others.
pub all_children-AreNodes :
    (parent : Node) (t : Subtree) (rest : TokenIter)
    → Yields parent.children (body_tokens t) rest
    → suc parent.level + depth t.below < 255
    → (nodes : List Node) × (all_children parent ≡ ok nodes)
      × AreNodes (suc parent.level) t.below nodes
unfolding all_children children collect
all_children-AreNodes parent t rest y fits =
    let (b, first, y') =
      Yields-append (props_tokens t.props) (forest_tokens t.below ++ (end_node ∷ []))
        parent.children rest y in
    let (c, second, (after, closing, third)) =
      Yields-append (forest_tokens t.below) (end_node ∷ []) b rest y' in
    let body = children_step parent.tree parent.level in
    let level = suc parent.level in
    let fuel = suc (length parent.children) in
    let enough : width t.below < fuel = omega (
      arith,
      width-tokens t.below,
      Yields-length (props_tokens t.props) parent.children b first,
      Yields-length (forest_tokens t.below) b c second,
    ) in
    let (nodes, all, are) =
      collect_from-AreNodes parent.tree parent.level t.below fuel b c after enough (omega arith)
        second closing in
    let skipped =
      skip_props body (λ n. n) level (opens parent.tree parent.level)
        (closes parent.tree parent.level) (ignores parent.tree parent.level) level t.props
        parent.children b first in
    (
      nodes,
      rw (add_u8-one parent.level (omega arith)) (
          collect_from-each parent.tree parent.level fuel level level parent.children b skipped
          ∙ all),
      are,
    )
