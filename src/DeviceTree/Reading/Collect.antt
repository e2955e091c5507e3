-- ===== src/DeviceTree/Reading/Collect.antt =====
-- A loop over an iterator reads back a list of items.
use novos.Prelude.{
  ℕ, zero, suc, ◌+◌, ◌≤◌, ◌<◌, ◌≡◌, refl, ap, ◌∙◌, List, [], ◌∷◌, ◌++◌, Option, some, none, length,
  length-append, Run, ok, arith,
}
use novos.Prelude as P
use novos.DeviceTree.Reading.{Reading, gather, collect_from, collect}
use mathlib.Core.List.{append_assoc}

abbrev pub all_bytes : {A : Type 0} → (A → List ℕ) → List A → List ℕ
all_bytes bytes [] = []
all_bytes bytes (a ∷ items) = bytes a ++ all_bytes bytes items

abbrev pub AllFit : {A : Type 0} → (A → Type 0) → List A → Type 0
AllFit Fits [] = Unit
AllFit Fits (a ∷ items) = Fits a × AllFit Fits items

module _ {A : Type 0} (read : Reading A) (bytes : A → List ℕ) (Fits : A → Type 0)
    (reads : (a : A) (rest : List ℕ) → Fits a → read (bytes a ++ rest) ≡ ok (some a, rest))
    (some_bytes : (a : A) → 0 < length (bytes a)) where
  collect_from-all_bytes :
      (items : List A) (fuel : ℕ) (tail over : List ℕ)
      → length items < fuel
      → AllFit Fits items
      → read tail ≡ ok (none, over)
      → collect_from fuel read (all_bytes bytes items ++ tail) ≡ ok items
  unfolding collect_from
  collect_from-all_bytes items zero tail over enough fit end = absurd (omega arith)
  collect_from-all_bytes [] (suc fuel) tail over enough fit end =
      ap (λ r. P.◌>>=◌ r (gather (collect_from fuel read))) end
  collect_from-all_bytes (a ∷ items) (suc fuel) tail over enough fit end =
      ap (λ r. P.◌>>=◌ r (gather (collect_from fuel read)))
        (ap read (append_assoc (bytes a) (all_bytes bytes items) tail)
          ∙ reads a (all_bytes bytes items ++ tail) fit.0)
      ∙ ap (λ r. P.◌>>=◌ r λ others. ok (a ∷ others))
          (collect_from-all_bytes items fuel tail over (omega arith) fit.1 end)

  length-all_bytes : (items : List A) → length items ≤ length (all_bytes bytes items)
  length-all_bytes [] = omega arith
  length-all_bytes (a ∷ items) =
      omega (
        arith,
        some_bytes a,
        length-all_bytes items,
        length-append (bytes a) (all_bytes bytes items),
      )

  pub collect-all_bytes :
      (items : List A) (tail over : List ℕ)
      → AllFit Fits items
      → read tail ≡ ok (none, over)
      → collect read (all_bytes bytes items ++ tail) ≡ ok items
  unfolding collect
  collect-all_bytes items tail over =
      collect_from-all_bytes items (suc (length (all_bytes bytes items ++ tail))) tail over
        (omega (arith, length-all_bytes items, length-append (all_bytes bytes items) tail))
