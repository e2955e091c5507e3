-- ===== src/DeviceTree/FindAll/First.antt =====
-- The first node of `find_nodes` is that of `find_node`.
use novos.Prelude.{
  ℕ, ◌+◌, ◌≡◌, refl, sym, List, [], ◌∷◌, none, Bool, true, false, ltb, ◌==◌, if◌then◌else◌, Run, ok,
  panic, out_of_fuel, ◌>>=◌,
}
use novos.DeviceTree.Bytes.{starts_with}
use novos.DeviceTree.Tokens.{Token, begin_node, property, end_node, TokenIter}
use novos.DeviceTree.Blob.{DeviceTree, tokens}
use novos.DeviceTree.Level.{Node, add_u8, sub_u8}
use novos.DeviceTree.Loop.{go_on, finish, each}
use novos.DeviceTree.Loop.Simulate.{outcome, Same, >>=-Same, each_same}
use novos.DeviceTree.Find.{Search, split_terminator, found_part, compare_part, find_step, find_node}
use novos.DeviceTree.FindAll.{
  Searches, next_part, advance, found_one, compare_one, find_all_step, find_nodes, next_found,
}

abbrev first_time : Search → Searches
first_time s = record {
  path = s.path;
  nesting_level = s.nesting_level;
  looking_level = s.looking_level;
  last_part = none;
}

module _ (tree : DeviceTree) where
  found-Same :
      (s : Search) (name : List ℕ) (iter : TokenIter) (part : List ℕ) (path : List (List ℕ))
      → Same first_time
          (found_part tree s name iter path)
          (found_one tree (first_time s) name iter part path)
  unfolding found_part found_one
  found-Same s name iter part [] = (_, refl)
  found-Same s name iter part (q ∷ path) =
      >>=-Same first_time _ _ (add_u8 s.looking_level 1) (λ looking. refl)

  compare-Same :
      (s : Search) (name : List ℕ) (iter : TokenIter) (path : List (List ℕ))
      → s.path ≡ path
      → Same first_time
          (compare_part tree s name iter path)
          (compare_one tree (first_time s) name iter (next_part path none))
  unfolding compare_part compare_one
  compare-Same s name iter [] e = (_, refl)
  compare-Same s name iter (part ∷ path) e = cases (starts_with name part)
    where
      cases :
          (fits : Bool)
          → Same first_time
              (if fits
                then found_part tree s name iter path
                else ok (go_on (record s { nesting_level = s.nesting_level + 1 })))
              (if fits
                then found_one tree (first_time s) name iter part (advance s.path)
                else ok (go_on (record (first_time s) { nesting_level = s.nesting_level + 1 })))
      cases true = rw e (found-Same s name iter part path)
      cases false = refl

  step-Same :
      (s : Search) (token : Token) (iter : TokenIter)
      → Same first_time (find_step tree s token iter) (find_all_step tree (first_time s) token iter)
  unfolding find_step find_all_step
  step-Same s (begin_node name) iter =
      >>=-Same first_time _ _ (add_u8 s.nesting_level 1)
        λ nesting. at_level nesting (nesting == s.looking_level)
    where
      at_level :
          (nesting : ℕ) (here : Bool)
          → Same first_time
              (if here
                then compare_part tree s name iter s.path
                else ok (go_on (record s { nesting_level = nesting })))
              (if here
                then compare_one tree (first_time s) name iter (next_part s.path none)
                else ok (go_on (record (first_time s) { nesting_level = nesting })))
      at_level nesting true = compare-Same s name iter s.path refl
      at_level nesting false = refl
  step-Same s end_node iter = >>=-Same first_time _ _ (sub_u8 s.nesting_level 1) λ nesting.
      >>=-Same first_time _ _ (sub_u8 s.looking_level 1) λ least. left nesting (ltb nesting least)
    where
      left :
          (nesting : ℕ) (out : Bool)
          → Same {R = Node} first_time
              (ok (
                if out
                then finish none (record s { nesting_level = nesting })
                else go_on (record s { nesting_level = nesting })))
              (ok (
                if out
                then finish none (record (first_time s) { nesting_level = nesting })
                else go_on (record (first_time s) { nesting_level = nesting })))
      left nesting true = (_, refl)
      left nesting false = refl
  step-Same s (property content name_off) iter = refl

-- The first call of `next` on `find_nodes` returns what `find_node` returns, on any blob and any path: the same
-- node, none, or a panic.
pub find_nodes-first :
    (tree : DeviceTree) (path : List ℕ)
    → (find_nodes tree path >>= λ found. outcome (next_found tree found.0 found.1))
      ≡ find_node tree path
unfolding find_nodes next_found find_node
find_nodes-first tree path = cases (tokens tree)
  where
    start : Search
    start = record { path = split_terminator path; nesting_level = 0; looking_level = 1 }

    begun : TokenIter → Run (Searches × TokenIter)
    begun iter = ok (first_time start, iter)

    cases :
        (block : Run TokenIter)
        → ((block >>= begun) >>= λ found. outcome (each (find_all_step tree) found.0 found.1))
          ≡ (block >>= λ iter. each (find_step tree) start iter >>= λ e. ok e.0)
    cases out_of_fuel = refl
    cases panic = refl
    cases (ok iter) =
        sym (each_same first_time (find_step tree) (find_all_step tree) (step-Same tree) start iter)
