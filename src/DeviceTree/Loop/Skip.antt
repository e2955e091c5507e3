-- ===== src/DeviceTree/Loop/Skip.antt =====
-- What the loops over tokens pass over, and the tokens of a forest in parts.
use novos.Prelude.{
  ℕ, suc, ◌+◌, ◌≤◌, ◌<◌, ◌≡◌, refl, ap, ◌∙◌, List, [], ◌∷◌, ◌++◌, some, length, Run, ok, ◌>>=◌,
  arith,
}
use novos.DeviceTree.Tokens.{Token, begin_node, property, end_node, TokenIter, next}
use novos.DeviceTree.Tokens.Progress.{next_shorter}
use novos.DeviceTree.Loop.{Turn, go_on, settle, each}
use novos.DeviceTree.Loop.Unroll.{each_token}
use novos.DeviceTree.Format.{
  Forest, nothing, node, props_tokens, forest_tokens, depth, Yields, Subtree, body_tokens,
}

-- A buffer that yields two lists of tokens yields the one, and then the other.
pub Yields-append :
    (xs ys : List Token) (buf rest : List ℕ)
    → Yields buf (xs ++ ys) rest
    → (middle : List ℕ) × Yields buf xs middle × Yields middle ys rest
Yields-append [] ys buf rest y = (buf, refl, y)
Yields-append (x ∷ xs) ys buf rest (after, e, y) =
    let (middle, front, back) = Yields-append xs ys after rest y in
    (middle, (after, e, front), back)

Yields-join :
    (xs ys : List Token) (buf middle rest : List ℕ)
    → Yields buf xs middle
    → Yields middle ys rest
    → Yields buf (xs ++ ys) rest
Yields-join [] ys buf middle rest front back = rw front back
Yields-join (x ∷ xs) ys buf middle rest (after, e, front) back =
    (after, e, Yields-join xs ys after middle rest front back)

-- The tokens of a node up to its end.
pub Yields-body :
    (t : Subtree) (tokens : List Token) (buf rest : List ℕ)
    → Yields buf (props_tokens t.props ++ (forest_tokens t.below ++ (end_node ∷ tokens))) rest
    → (after : List ℕ) × Yields buf (body_tokens t) after × Yields after tokens rest
Yields-body t tokens buf rest y =
    let (b, first, y') =
      Yields-append (props_tokens t.props) (forest_tokens t.below ++ (end_node ∷ tokens)) buf rest
        y in
    let (c, second, (after, e, third)) =
      Yields-append (forest_tokens t.below) (end_node ∷ tokens) b rest y' in
    (
      after,
      Yields-join (props_tokens t.props) (forest_tokens t.below ++ (end_node ∷ [])) buf b after
          first
          (Yields-join (forest_tokens t.below) (end_node ∷ []) b c after second (after, e, refl)),
      third,
    )

pub Yields-length :
    (xs : List Token) (buf rest : List ℕ)
    → Yields buf xs rest
    → length xs + length rest ≤ length buf
Yields-length [] buf rest y = omega (arith, ap (length {A = ℕ}) y)
Yields-length (x ∷ xs) buf rest (after, e, y) =
    omega (arith, next_shorter buf x after e, Yields-length xs after rest y)

-- A loop that counts levels: `at n` is its state on level `n`. It passes over the nodes that begin above level `low`.
module _ {S R : Type 0} (body : S → Token → TokenIter → Run (Turn S R)) (at : ℕ → S) (low : ℕ)
    (opens : (n : ℕ) (name : List ℕ) (iter : TokenIter)
      → low < n
      → n < 255
      → body (at n) (begin_node name) iter ≡ ok (go_on (at (suc n))))
    (closes : (n : ℕ) (iter : TokenIter)
      → low ≤ n
      → body (at (suc n)) end_node iter ≡ ok (go_on (at n)))
    (ignores : (n : ℕ) (content : List ℕ) (name_off : ℕ) (iter : TokenIter)
      → body (at n) (property content name_off) iter ≡ ok (go_on (at n))) where
  pub skip_token :
      (state state' : S) (buf : TokenIter) (token : Token) (after : TokenIter)
      → next buf ≡ ok (some token, after)
      → body state token after ≡ ok (go_on state')
      → each body state buf ≡ each body state' after
  skip_token state state' buf token after e on =
      each_token body state buf token after e ∙ ap (λ turn. turn >>= settle (each body) after) on

  pub skip_props :
      (n : ℕ) (props : List (List ℕ × ℕ)) (buf rest : TokenIter)
      → Yields buf (props_tokens props) rest
      → each body (at n) buf ≡ each body (at n) rest
  skip_props n [] buf rest y = ap (each body (at n)) y
  skip_props n ((content, name_off) ∷ props) buf rest (after, e, y) =
      skip_token (at n) (at n) buf (property content name_off) after e
        (ignores n content name_off after)
      ∙ skip_props n props after rest y

  -- From behind a begin node token to behind its end, when the loop passes over what lies between.
  end_body :
      (n : ℕ) (props : List (List ℕ × ℕ)) (children : Forest) (tokens : List Token)
      (buf rest : TokenIter)
      → low ≤ n
      → ((b r : TokenIter)
          → Yields b (forest_tokens children) r
          → each body (at (suc n)) b ≡ each body (at (suc n)) r)
      → Yields buf (props_tokens props ++ (forest_tokens children ++ (end_node ∷ tokens))) rest
      → (after : TokenIter) × Yields after tokens rest
        × (each body (at (suc n)) buf ≡ each body (at n) after)
  end_body n props children tokens buf rest above pass y =
      let (b, first, y') =
        Yields-append (props_tokens props) (forest_tokens children ++ (end_node ∷ tokens)) buf rest
          y in
      let (c, second, (after, e, third)) =
        Yields-append (forest_tokens children) (end_node ∷ tokens) b rest y' in
      (
        after,
        third,
        skip_props (suc n) props buf b first
            ∙ (pass b c second
                ∙ skip_token (at (suc n)) (at n) c end_node after e (closes n after above)),
      )

  pub skip_forest :
      (n : ℕ) (forest : Forest) (buf rest : TokenIter)
      → low < n
      → n + depth forest ≤ 255
      → Yields buf (forest_tokens forest) rest
      → each body (at n) buf ≡ each body (at n) rest
  skip_forest n nothing buf rest above fits y = ap (each body (at n)) y
  skip_forest n (node name props children siblings) buf rest above fits (inside, e, y) =
      let (after, y', closed) =
        end_body n props children (forest_tokens siblings) inside rest (omega arith)
          (λ b r. skip_forest (suc n) children b r (omega arith) (omega arith)) y in
      skip_token (at n) (at (suc n)) buf (begin_node name) inside e
        (opens n name inside above (omega arith))
      ∙ (closed ∙ skip_forest n siblings after rest above (omega arith) y')

  pub skip_body :
      (n : ℕ) (props : List (List ℕ × ℕ)) (children : Forest) (tokens : List Token)
      (buf rest : TokenIter)
      → low ≤ n
      → suc n + depth children ≤ 255
      → Yields buf (props_tokens props ++ (forest_tokens children ++ (end_node ∷ tokens))) rest
      → (after : TokenIter) × Yields after tokens rest
        × (each body (at (suc n)) buf ≡ each body (at n) after)
  skip_body n props children tokens buf rest above fits =
      end_body n props children tokens buf rest above
        (λ b r. skip_forest (suc n) children b r (omega arith) fits)
