-- ===== src/DeviceTree/Property/Strings.antt =====
-- The strings that `any` looks through are those of the data.
use novos.Prelude.{
  ℕ, zero, suc, ◌+◌, ◌≤◌, ◌<◌, ◌≡◌, ◌≢◌, ◌⊎◌, inl, inr, ◌↔◌, refl, sym, ap, ◌∙◌, List, [], ◌∷◌,
  ◌++◌, Option, some, none, Bool, true, false, Bool-cases, length, take, drop, length-append,
  drop-append, take-append, ltb, le→not-ltb, Run, ok, arith, ◌==◌, if◌then◌else◌,
}
use novos.Prelude as P
use novos.DeviceTree.Bytes.{same_bytes, is_utf8, memchr, memchr_from, next_str_checked, not_empty}
use novos.DeviceTree.Tokens.RoundTrip.{memchr_from-nul}
use novos.DeviceTree.Property.{next_string, any_of, any_from, any_string}
use novos.DeviceTree.Node.Props.{same_bytes_eq, same_bytes_refl}
use novos.DeviceTree.Format.{NoNul}
use mathlib.Core.List.{append_assoc}

abbrev pub strings_bytes : List (List ℕ) → List ℕ
strings_bytes [] = []
strings_bytes (s ∷ strings) = s ++ (0 ∷ strings_bytes strings)

-- Strings of text: UTF-8, and neither empty nor with a NUL inside.
abbrev pub AreTexts : List (List ℕ) → Type 0
AreTexts [] = Unit
AreTexts (s ∷ strings) = NoNul s × (is_utf8 s ≡ true) × (0 < length s) × AreTexts strings

abbrev pub IsOneOf : List ℕ → List (List ℕ) → Type 0
IsOneOf x [] = ⊥
IsOneOf x (s ∷ strings) = (s ≡ x) ⊎ IsOneOf x strings

next_str_checked-text :
    (c : ℕ) (s rest : List ℕ)
    → NoNul (c ∷ s)
    → is_utf8 (c ∷ s) ≡ true
    → next_str_checked ((c ∷ s) ++ (0 ∷ rest)) ≡ some (c ∷ s)
unfolding next_str_checked memchr
next_str_checked-text c s rest no_nul utf8 =
    let text : List ℕ = c ∷ s in
    let found : memchr_from 0 0 (text ++ (0 ∷ rest)) ≡ some (length text) =
      memchr_from-nul 0 text rest no_nul ∙ ap some (omega arith) in
    rw (next_str_checked, memchr, found)
      (checked (take (length text) (text ++ (0 ∷ rest))) (take-append text (0 ∷ rest)))
  where
    checked :
        (cut : List ℕ) → cut ≡ c ∷ s → (if is_utf8 cut then not_empty cut else none) ≡ some (c ∷ s)
    checked cut e = rw (e, utf8) refl

next_string-text :
    (c : ℕ) (s rest : List ℕ)
    → NoNul (c ∷ s)
    → is_utf8 (c ∷ s) ≡ true
    → next_string ((c ∷ s) ++ (0 ∷ rest)) ≡ ok (some (c ∷ s), rest)
unfolding next_string
next_string-text c s rest no_nul utf8 =
    let text : List ℕ = c ∷ s in
    let all : List ℕ = text ++ (0 ∷ rest) in
    let inside : ltb (length all) (length text + 1) ≡ false =
      le→not-ltb _ _ (omega (arith, length-append text (0 ∷ rest))) in
    let behind : drop (length text + 1) all ≡ rest =
      ap (λ n. drop n all) (sym (length-append text (0 ∷ [])))
      ∙ (ap (drop (length (text ++ (0 ∷ [])))) (sym (append_assoc text (0 ∷ []) rest))
          ∙ drop-append (text ++ (0 ∷ [])) rest) in
    rw (next_str_checked-text c s rest no_nul utf8, inside, behind) refl

any_from-texts :
    (strings : List (List ℕ)) (x : List ℕ) (fuel : ℕ)
    → length strings < fuel
    → AreTexts strings
    → (answer : Bool) × (any_from fuel x (strings_bytes strings) ≡ ok answer)
      × ((answer ≡ true) ↔ IsOneOf x strings)
unfolding any_from
any_from-texts strings x zero enough texts = absurd (omega arith)
any_from-texts [] x (suc fuel) enough texts = (false, refl, (λ e. cc, λ h. absurd h))
any_from-texts ([] ∷ strings) x (suc fuel) enough texts = absurd (omega arith)
any_from-texts ((c ∷ s) ∷ strings) x (suc fuel) enough (no_nul, utf8, some_length, texts) =
    let (answer, later, exactly) = any_from-texts strings x fuel (omega arith) texts in
    let read = next_string-text c s (strings_bytes strings) no_nul utf8 in
    let begun = ap (λ r. P.◌>>=◌ r (any_of (any_from fuel x) x)) read in
    elim (Bool-cases (same_bytes (c ∷ s) x)) [
      | inl this ↦ (
        true,
        begun ∙ rw (any_of, this) refl,
        (λ e. inl (same_bytes_eq (c ∷ s) x this), λ h. refl),
      )
      | inr other ↦ (
        answer,
        begun ∙ rw (any_of, other) later,
        (
          λ e. inr (exactly.0 e),
          λ h. elim h [
            | inl same ↦
                absurd (clash (sym other ∙ (ap (λ t. same_bytes t x) same ∙ same_bytes_refl x)))
            | inr later' ↦ exactly.1 later'
          ],
        ),
      )
    ]
  where
    clash : false ≡ true → ⊥
    clash e = cc

-- When the strings that a property was written with are not empty, hold no NUL and are valid UTF-8, the
-- search through them returns, and says whether a string is among them.
pub any_string-texts :
    (strings : List (List ℕ)) (x : List ℕ)
    → AreTexts strings
    → (answer : Bool) × (any_string x (strings_bytes strings) ≡ ok answer)
      × ((answer ≡ true) ↔ IsOneOf x strings)
unfolding any_string
any_string-texts strings x texts =
    any_from-texts strings x (suc (length (strings_bytes strings)))
      (omega (arith, length-strings_bytes strings)) texts
  where
    length-strings_bytes : (ss : List (List ℕ)) → length ss ≤ length (strings_bytes ss)
    length-strings_bytes [] = omega arith
    length-strings_bytes (s ∷ ss) =
        omega (arith, length-append s (0 ∷ strings_bytes ss), length-strings_bytes ss)
