-- ===== src/DeviceTree/Find/Lookup.antt =====
-- `find_node` against the lookup in a forest.
use novos.Prelude.{
  ℕ, suc, ◌+◌, ◌-◌, ◌≤◌, ◌<◌, ◌≡◌, refl, ap, ◌∙◌, List, [], ◌∷◌, ◌++◌, Option, some, none, length,
  Bool-cases, inl, inr, Run, ok, ◌>>=◌, arith, ltb, ◌==◌, true, false,
}
use novos.DeviceTree.Bytes.{starts_with}
use novos.DeviceTree.Tokens.{Token, begin_node, property, end_node, TokenIter, next}
use novos.DeviceTree.Blob.{DeviceTree, tokens}
use novos.DeviceTree.Level.{Node, add_u8-one, sub_u8-one}
use novos.DeviceTree.Loop.{Turn, go_on, Ended, settle, each}
use novos.DeviceTree.Loop.Unroll.{each_token, each-none}
use novos.DeviceTree.Loop.Skip.{Yields-append, Yields-body, skip_props, skip_body}
use novos.DeviceTree.Find.{Search, split_terminator, found_part, compare_part, find_step, find_node}
use novos.DeviceTree.Format.{
  Forest, nothing, node, props_tokens, forest_tokens, depth, Yields, Subtree, body_tokens,
  first_match, lookup_below, lookup,
}

k_suc : (k : ℕ) → k + 1 ≡ suc k
k_suc k = omega arith

first_match-depth :
    (part : List ℕ) (forest : Forest) (t : Subtree)
    → first_match part forest ≡ some t
    → suc (depth t.below) ≤ depth forest
first_match-depth part nothing t e = cc
first_match-depth part (node name props children siblings) t e =
    elim (Bool-cases (starts_with name part)) [
      | inl found ↦
          let same : record { name = name; props = props; below = children } ≡ t =
            some_inj (rw found at e) in
          rw (← same) (omega arith)
      | inr other ↦ omega (arith, first_match-depth part siblings t (rw other at e))
    ]
  where
    some_inj : {a b : Subtree} → some a ≡ some b → a ≡ b
    some_inj e = cc

abbrev at : List (List ℕ) → ℕ → ℕ → Search
at path looking n = record { path = path; nesting_level = n; looking_level = looking }

module _ (tree : DeviceTree) where
  body : Search → Token → TokenIter → Run (Turn Search Node)
  body = find_step tree

  module _ (path : List (List ℕ)) (k : ℕ) where
    opens :
        (n : ℕ) (name : List ℕ) (iter : TokenIter)
        → k < n
        → n < 255
        → find_step tree (at path (suc k) n) (begin_node name) iter
          ≡ ok (go_on (at path (suc k) (suc n)))
    unfolding find_step
    opens n name iter above fits =
        let apart : (suc n == suc k) ≡ false = ground arith in rw (add_u8-one n fits, apart) refl

    closes :
        (n : ℕ) (iter : TokenIter)
        → k ≤ n
        → find_step tree (at path (suc k) (suc n)) end_node iter ≡ ok (go_on (at path (suc k) n))
    unfolding find_step
    closes n iter above =
        let not_left : ltb n k ≡ false = ground arith in
        rw (sub_u8-one n, sub_u8-one k, not_left) refl

    ignores :
        (n : ℕ) (content : List ℕ) (name_off : ℕ) (iter : TokenIter)
        → find_step tree (at path (suc k) n) (property content name_off) iter
          ≡ ok (go_on (at path (suc k) n))
    unfolding find_step
    ignores n content name_off iter = refl

    -- A node on the level that is searched.
    begins :
        (name : List ℕ) (iter : TokenIter)
        → k < 255
        → find_step tree (at path (suc k) k) (begin_node name) iter
          ≡ compare_part tree (at path (suc k) k) name iter path
    unfolding find_step
    begins name iter fits =
        let here : (suc k == suc k) ≡ true = ground arith in rw (add_u8-one k fits, here) refl

  module _ (part : List ℕ) (path : List (List ℕ)) (k : ℕ) where
    abbrev state : Search
    state = at (part ∷ path) (suc k) k

    -- What the scan of a level comes to: it passes over it, or it goes on with what `found_part` says.
    abbrev Scanned : TokenIter → TokenIter → Option Subtree → Type 0
    Scanned buf rest none = each (find_step tree) state buf ≡ each (find_step tree) state rest
    Scanned buf rest (some t) =
        (after next_level : TokenIter) × Yields after (body_tokens t) next_level
        × (each (find_step tree) state buf
            ≡ (found_part tree state t.name after path >>= settle (each (find_step tree)) after))

    carry :
        (buf after rest : TokenIter)
        → each (find_step tree) state buf ≡ each (find_step tree) state after
        → (match : Option Subtree) → Scanned after rest match
        → Scanned buf rest match
    carry buf after rest passed none scanned = passed ∙ scanned
    carry buf after rest passed (some t) (inside, next_level, inner, e) =
        (inside, next_level, inner, passed ∙ e)

    scan-Scanned :
        (forest : Forest) (buf rest : TokenIter)
        → k + depth forest < 255
        → Yields buf (forest_tokens forest) rest
        → Scanned buf rest (first_match part forest)
    unfolding compare_part
    scan-Scanned nothing buf rest fits y = ap (each (find_step tree) state) y
    scan-Scanned (node name props children siblings) buf rest fits (inside, e, y) =
        elim (Bool-cases (starts_with name part)) [
          | inl found ↦ rw found (
              let (next_level, inner, y') =
                Yields-body (record { name = name; props = props; below = children })
                  (forest_tokens siblings) inside rest y in
              (inside, next_level, inner, compared ∙ rw found refl))
          | inr other ↦ rw other (
              let (after, y', closed) =
                skip_body (find_step tree) (at (part ∷ path) (suc k)) k (opens (part ∷ path) k)
                  (closes (part ∷ path) k) (ignores (part ∷ path) k) k props children
                  (forest_tokens siblings) inside rest (omega arith) (omega arith) y in
              let passed : each (find_step tree) state buf ≡ each (find_step tree) state after =
                compared ∙ (rw other one_up ∙ closed) in
              carry buf after rest passed (first_match part siblings)
                (scan-Scanned siblings after rest (omega arith) y'))
        ]
      where
        one_up :
            each (find_step tree) (at (part ∷ path) (suc k) (k + 1)) inside
            ≡ each (find_step tree) (at (part ∷ path) (suc k) (suc k)) inside
        one_up = ap (λ n. each (find_step tree) (at (part ∷ path) (suc k) n) inside) (k_suc k)

        compared : each (find_step tree) state buf ≡ (
            compare_part tree state name inside (part ∷ path)
            >>= settle (each (find_step tree)) inside)
        compared =
            each_token (find_step tree) state buf (begin_node name) inside e
            ∙ ap (λ turn. turn >>= settle (each (find_step tree)) inside)
                (begins (part ∷ path) k name inside (omega arith))

  abbrev outcome : Run (Ended Search Node) → Run (Option Node)
  outcome ended = ended >>= λ e. ok e.0

  -- The search comes to an end behind a level.
  abbrev Dead : ℕ → TokenIter → Type 0
  Dead k rest =
      (path : List (List ℕ)) → outcome (each (find_step tree) (at path (suc k) k) rest) ≡ ok none

  end-Dead :
      (k : ℕ) (buf after : TokenIter) → next buf ≡ ok (some end_node, after) → Dead (suc k) buf
  unfolding find_step
  end-Dead k buf after e path =
      let left : ltb k (suc k) ≡ true = ground arith in
      ap outcome (each_token (find_step tree) (at path (suc (suc k)) (suc k)) buf end_node after e)
      ∙ rw (sub_u8-one k, sub_u8-one (suc k), left) refl

  -- The result of a search is what the lookup in the forest says: nothing, or the node, whose tokens follow.
  abbrev pub Answers : ℕ → Option Subtree → Run (Option Node) → Type 0
  Answers level none result = result ≡ ok none
  Answers level (some t) result =
      (after next_level : TokenIter) × Yields after (body_tokens t) next_level
      × (result
          ≡ ok (some (record { tree = tree; name = t.name; level = level; children = after })))

  Answers-carry :
      (match : Option Subtree) {level level' : ℕ} {result result' : Run (Option Node)}
      → level ≡ level'
      → result' ≡ result
      → Answers level match result
      → Answers level' match result'
  Answers-carry none same e answer = e ∙ answer
  Answers-carry (some t) same e (after, next_level, inner, answer) = (
    after,
    next_level,
    inner,
    e
        ∙ (answer
            ∙ ap
                (λ l.
                  ok (some (record { tree = tree; name = t.name; level = l; children = after })))
                same),
  )

  search-Answers :
      (part : List ℕ) (path : List (List ℕ)) (k : ℕ) (forest : Forest) (buf rest : TokenIter)
      → k + depth forest < 255
      → Yields buf (forest_tokens forest) rest
      → Dead k rest
      → Answers
          (k + length path)
          (lookup (part ∷ path) forest)
          (outcome (each (find_step tree) (at (part ∷ path) (suc k) k) buf))
  unfolding found_part
  search-Answers part [] k forest buf rest fits y dead =
      last (first_match part forest) (scan-Scanned part [] k forest buf rest fits y)
    where
      last :
          (match : Option Subtree)
          → Scanned part [] k buf rest match
          → Answers (k + 0) match (outcome (each (find_step tree) (at (part ∷ []) (suc k) k) buf))
      last none passed = ap outcome passed ∙ dead (part ∷ [])
      last (some t) (after, next_level, inner, e) =
          Answers-carry (some t) (omega arith) (ap outcome e) (after, next_level, inner, refl)
  search-Answers part (q ∷ path) k forest buf rest fits y dead =
      down (first_match part forest) (scan-Scanned part (q ∷ path) k forest buf rest fits y)
        (first_match-depth part forest) (λ t b c. search-Answers q path (suc k) t.below b c)
    where
      descended :
          (t : Subtree) (after : TokenIter)
          → suc k < 255
          → (found_part tree (state part (q ∷ path) k) t.name after (q ∷ path)
              >>= settle (each (find_step tree)) after)
            ≡ each (find_step tree) (at (q ∷ path) (suc (suc k)) (suc k)) after
      descended t after room =
          rw (add_u8-one (suc k) room)
            (ap (λ n. each (find_step tree) (at (q ∷ path) (suc (suc k)) n) after) (k_suc k))

      down :
          (match : Option Subtree)
          → Scanned part (q ∷ path) k buf rest match
          → ((t : Subtree) → match ≡ some t → suc (depth t.below) ≤ depth forest)
          → ((t : Subtree) (b c : TokenIter)
              → suc k + depth t.below < 255
              → Yields b (forest_tokens t.below) c
              → Dead (suc k) c
              → Answers
                  (suc k + length path)
                  (lookup (q ∷ path) t.below)
                  (outcome (each (find_step tree) (at (q ∷ path) (suc (suc k)) (suc k)) b)))
          → Answers
              (k + length (q ∷ path))
              (lookup_below (lookup (q ∷ path)) match)
              (outcome (each (find_step tree) (at (part ∷ q ∷ path) (suc k) k) buf))
      down none passed deep deeper = ap outcome passed ∙ dead (part ∷ q ∷ path)
      down (some t) (after, next_level, inner, e) deep deeper =
          let (b, first, y') =
            Yields-append (props_tokens t.props) (forest_tokens t.below ++ (end_node ∷ [])) after
              next_level inner in
          let (c, second, (z, closing, third)) =
            Yields-append (forest_tokens t.below) (end_node ∷ []) b next_level y' in
          let room = deep t refl in
          Answers-carry (lookup (q ∷ path) t.below) (omega arith)
            (ap outcome (
              e
              ∙ (descended t after (omega (arith, room))
                  ∙ skip_props (find_step tree) (at (q ∷ path) (suc (suc k))) (suc k)
                      (opens (q ∷ path) (suc k)) (closes (q ∷ path) (suc k))
                      (ignores (q ∷ path) (suc k)) (suc k) t.props after b first)))
            (deeper t b c (omega (arith, room)) second (end-Dead k c z closing))

  module _ (forest : Forest) (buf rest over : TokenIter) (block : tokens tree ≡ ok buf)
      (holds : Yields buf (forest_tokens forest) rest) (ended : next rest ≡ ok (none, over))
      (fits : depth forest < 255) where
    all-Dead : Dead 0 rest
    all-Dead path = ap outcome (each-none (find_step tree) (at path 1 0) rest over ended)

    no_path :
        (f : Forest) (b : TokenIter)
        → Yields b (forest_tokens f) rest
        → outcome (each (find_step tree) (at [] 1 0) b) ≡ ok none
    unfolding compare_part
    no_path nothing b y = ap (λ i. outcome (each (find_step tree) (at [] 1 0) i)) y ∙ all-Dead []
    no_path (node name props children siblings) b (inside, e, y) =
        ap outcome (each_token (find_step tree) (at [] 1 0) b (begin_node name) inside e)
        ∙ ap (λ turn. outcome (turn >>= settle (each (find_step tree)) inside))
            (begins [] 0 name inside (omega arith))

    answer :
        (path : List (List ℕ))
        → Answers
            (length path - 1)
            (lookup path forest)
            (outcome (each (find_step tree) (at path 1 0) buf))
    answer [] = no_path forest buf holds
    answer (part ∷ path) =
        Answers-carry (lookup (part ∷ path) forest) (omega arith) refl
          (search-Answers part path 0 forest buf rest (omega arith) holds all-Dead)

    pub find_node-Answers :
        (path : List ℕ)
        → let parts = split_terminator path in
          Answers (length parts - 1) (lookup parts forest) (find_node tree path)
    unfolding find_node
    find_node-Answers path =
        let parts = split_terminator path in
        Answers-carry (lookup parts forest) refl (rw block refl) (answer parts)
