-- ===== src/DeviceTree/Ends.antt =====
-- Every search in a device tree ends, whatever bytes the blob has.
use novos.Prelude.{
  ℕ, ◌+◌, ◌*◌, ◌≢◌, refl, List, [], ◌∷◌, none, Bool, true, false, ltb, if◌then◌else◌, Run, ok,
  panic, out_of_fuel, ◌>>=◌, add_usize, drop, length, arith,
}
use novos.DeviceTree.Bytes.{slice_between, next_str, from_be_bytes}
use novos.DeviceTree.Tokens.{Token, begin_node, property, end_node, TokenIter}
use novos.DeviceTree.Blob.{DeviceTree, u32_at, tokens, string_at}
use novos.DeviceTree.Level.{Node, add_u8, sub_u8}
use novos.DeviceTree.Loop.Simulate.{each-ne-out_of_fuel}
use novos.DeviceTree.Find.{Search, found_part, compare_part, find_step, find_node}
use novos.DeviceTree.FindAll.{nodes_step, next_node}
use novos.DeviceTree.Node.{children_step, next_child, prop_step, prop}

>>=-ne :
    {A B : Type 0} (f : A → Run B) (r : Run A)
    → r ≢ out_of_fuel
    → ((a : A) → f a ≢ out_of_fuel)
    → (r >>= f) ≢ out_of_fuel
>>=-ne f out_of_fuel h k e = absurd (h refl)
>>=-ne f panic h k e = cc
>>=-ne f (ok a) h k e = k a e

if-ne :
    {A : Type 0} (b : Bool) {x y : Run A}
    → x ≢ out_of_fuel
    → y ≢ out_of_fuel
    → (if b then x else y) ≢ out_of_fuel
if-ne true h k = h
if-ne false h k = k

module _ {A : Type 0} where
  ok-ne : (a : A) → ok a ≢ out_of_fuel
  ok-ne a e = cc

  panic-ne : ◌≢◌ {A = Run A} panic out_of_fuel
  panic-ne e = cc

add_u8-ne : (a b : ℕ) → add_u8 a b ≢ out_of_fuel
add_u8-ne a b = if-ne _ panic-ne (ok-ne _)

sub_u8-ne : (a b : ℕ) → sub_u8 a b ≢ out_of_fuel
sub_u8-ne a b = if-ne _ panic-ne (ok-ne _)

slice_between-ne : (bytes : List ℕ) (from upto : ℕ) → slice_between bytes from upto ≢ out_of_fuel
slice_between-ne bytes from upto e = ground arith

add_usize-ne : (a b : ℕ) → add_usize a b ≢ out_of_fuel
add_usize-ne a b = if-ne _ panic-ne (ok-ne _)

u32_at-ne : (tree : DeviceTree) (idx : ℕ) → u32_at tree idx ≢ out_of_fuel
unfolding u32_at
u32_at-ne tree idx =
    >>=-ne (λ bytes. ok (from_be_bytes bytes)) (slice_between tree.buf (idx * 4) (idx * 4 + 4))
      (slice_between-ne tree.buf (idx * 4) (idx * 4 + 4)) (λ bytes. ok-ne _)

tokens-ne : (tree : DeviceTree) → tokens tree ≢ out_of_fuel
unfolding tokens
tokens-ne tree = >>=-ne _ (u32_at tree 2) (u32_at-ne tree 2) λ start.
    >>=-ne _ (u32_at tree 9) (u32_at-ne tree 9) λ size.
      >>=-ne (slice_between tree.buf start) (add_usize start size) (add_usize-ne start size)
        λ end. slice_between-ne tree.buf start end

string_at-ne : (tree : DeviceTree) (offset : ℕ) → string_at tree offset ≢ out_of_fuel
unfolding string_at
string_at-ne tree offset = >>=-ne _ (u32_at tree 3) (u32_at-ne tree 3) λ start.
    >>=-ne (λ at. ok (if ltb (length tree.buf) at then none else next_str (drop at tree.buf)))
      (add_usize start offset) (add_usize-ne start offset) (λ at. ok-ne _)

compare_part-ne :
    (tree : DeviceTree) (s : Search) (name : List ℕ) (iter : TokenIter) (path : List (List ℕ))
    → compare_part tree s name iter path ≢ out_of_fuel
unfolding compare_part found_part
compare_part-ne tree s name iter [] = ok-ne _
compare_part-ne tree s name iter (part ∷ []) = if-ne _ (ok-ne _) (ok-ne _)
compare_part-ne tree s name iter (part ∷ q ∷ path) =
    if-ne _ (>>=-ne _ _ (add_u8-ne s.looking_level 1) (λ looking. ok-ne _)) (ok-ne _)

find_step-ne :
    (tree : DeviceTree) (s : Search) (token : Token) (iter : TokenIter)
    → find_step tree s token iter ≢ out_of_fuel
unfolding find_step
find_step-ne tree s (begin_node name) iter =
    >>=-ne _ _ (add_u8-ne s.nesting_level 1)
      λ nesting. if-ne _ (compare_part-ne tree s name iter s.path) (ok-ne _)
find_step-ne tree s end_node iter =
    >>=-ne _ _ (sub_u8-ne s.nesting_level 1)
      λ nesting. >>=-ne _ _ (sub_u8-ne s.looking_level 1) λ least. ok-ne _
find_step-ne tree s (property content name_off) iter = ok-ne _

nodes_step-ne :
    (tree : DeviceTree) (level : ℕ) (token : Token) (iter : TokenIter)
    → nodes_step tree level token iter ≢ out_of_fuel
unfolding nodes_step
nodes_step-ne tree level (begin_node name) iter = >>=-ne _ _ (add_u8-ne level 1) (λ below. ok-ne _)
nodes_step-ne tree level end_node iter = >>=-ne _ _ (sub_u8-ne level 1) (λ above. ok-ne _)
nodes_step-ne tree level (property content name_off) iter = ok-ne _

children_step-ne :
    (tree : DeviceTree) (parent level : ℕ) (token : Token) (iter : TokenIter)
    → children_step tree parent level token iter ≢ out_of_fuel
unfolding children_step
children_step-ne tree parent level (begin_node name) iter =
    >>=-ne _ _ (add_u8-ne level 1) λ below. >>=-ne _ _ (add_u8-ne parent 1) λ child. ok-ne _
children_step-ne tree parent level end_node iter = >>=-ne _ _ (sub_u8-ne level 1) (λ above. ok-ne _)
children_step-ne tree parent level (property content name_off) iter = ok-ne _

prop_step-ne :
    (tree : DeviceTree) (name : List ℕ) (state : Unit {0}) (token : Token) (iter : TokenIter)
    → prop_step tree name state token iter ≢ out_of_fuel
unfolding prop_step
prop_step-ne tree name state (begin_node n) iter = ok-ne _
prop_step-ne tree name state end_node iter = ok-ne _
prop_step-ne tree name state (property content name_off) iter =
    >>=-ne _ _ (string_at-ne tree name_off) (λ n. ok-ne _)

-- On every blob, well formed or not, the search for a path, the search for a property and the calls of `next` on
-- the nodes of the tree and on the children of a node return or panic: their loops end.
pub searches-end :
    (tree : DeviceTree) (node : Node) (path name : List ℕ) (level : ℕ) (iter : TokenIter)
    → (find_node tree path ≢ out_of_fuel)
      × (prop node name ≢ out_of_fuel)
      × (next_node tree level iter ≢ out_of_fuel)
      × (next_child tree node.level level iter ≢ out_of_fuel)
unfolding find_node prop next_node next_child
searches-end tree node path name level iter = (
  >>=-ne _ _ (tokens-ne tree) λ block.
      >>=-ne _ _ (each-ne-out_of_fuel (find_step tree) (find_step-ne tree) _ block) (λ e. ok-ne _),
  >>=-ne _ _
      (each-ne-out_of_fuel (prop_step node.tree name) (prop_step-ne node.tree name) tt
        node.children)
      (λ e. ok-ne _),
  each-ne-out_of_fuel (nodes_step tree) (nodes_step-ne tree) level iter,
  each-ne-out_of_fuel (children_step tree node.level) (children_step-ne tree node.level) level iter,
)
