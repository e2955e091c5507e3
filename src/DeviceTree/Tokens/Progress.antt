-- ===== src/DeviceTree/Tokens/Progress.antt =====
-- Every token is taken from the front of the buffer.
use novos.Prelude.{
  ℕ, ◌+◌, ◌≤◌, ◌≡◌, refl, ap, List, [], ◌∷◌, Option, some, none, length, drop, length-drop, ltb,
  subst, out_of_fuel, Bool-cases, inl, inr, Run, ok, panic, arith,
}
use novos.DeviceTree.Bytes.{align_up, next_str, from_be_bytes}
use novos.DeviceTree.Reading.{Reading, ◌>>=◌, skip, give, run, look, upto, option, proceed}
use novos.DeviceTree.Tokens.{Token, next, next_u32, next_name, next_property, next_by}

-- A reading leaves a buffer that is not longer.
abbrev pub Shrinks : {A : Type 0} → Reading A → Type 0
Shrinks {A} read =
    (buf : List ℕ) (o : Option A) (rest : List ℕ)
    → read buf ≡ ok (o, rest)
    → length rest ≤ length buf

module _ {A B : Type 0} (next : A → Reading B) (small : (a : A) → Shrinks (next a)) where
  proceed-le :
      (r : Run (Option A × List ℕ)) (bound : ℕ)
      → ((o : Option A) (rest : List ℕ) → r ≡ ok (o, rest) → length rest ≤ bound)
      → (o : Option B) (rest : List ℕ) → proceed next r ≡ ok (o, rest)
      → length rest ≤ bound
  proceed-le out_of_fuel bound le o rest e = cc
  proceed-le panic bound le o rest e = cc
  proceed-le (ok (none, buf)) bound le o rest e =
      let same : buf ≡ rest = cc in subst (λ b. length b ≤ bound) same (le none buf refl)
  proceed-le (ok (some value, buf)) bound le o rest e =
      omega (arith, small value buf o rest e, le (some value) buf refl)

  pub >>=-Shrinks : (first : Reading A) → Shrinks first → Shrinks (first >>= next)
  >>=-Shrinks first le buf o rest e = proceed-le (first buf) (length buf) (le buf) o rest e

module _ {A : Type 0} where
  pub give-Shrinks : (a : A) → Shrinks (give a)
  give-Shrinks a buf o rest e = let same : buf ≡ rest = cc in rw same (omega arith)

  pub run-Shrinks : (r : Run A) → Shrinks (run r)
  run-Shrinks out_of_fuel buf o rest e = cc
  run-Shrinks panic buf o rest e = cc
  run-Shrinks (ok a) buf o rest e = let same : buf ≡ rest = cc in rw same (omega arith)

  pub look-Shrinks : (f : List ℕ → Option A) → Shrinks (look f)
  look-Shrinks f buf o rest e = cases (f buf) e
    where
      cases : (found : Option A) → option found buf ≡ ok (o, rest) → length rest ≤ length buf
      cases none e = let same : buf ≡ rest = cc in rw same (omega arith)
      cases (some a) e = let same : buf ≡ rest = cc in rw same (omega arith)

pub upto-Shrinks : (len : ℕ) → Shrinks (upto len)
upto-Shrinks len buf o rest e = run-Shrinks _ buf o rest e

pub skip-Shrinks : (len : ℕ) → Shrinks (skip len)
skip-Shrinks len buf o rest e = elim (Bool-cases (ltb (length buf) len)) [
  | inl short ↦ absurd (ground arith)
  | inr long ↦
      let same : drop len buf ≡ rest = ground arith in
      omega (arith, length-drop len buf, ap (length {A = ℕ}) same)
]

pub next_u32-Shrinks : Shrinks next_u32
unfolding next_u32
next_u32-Shrinks (a ∷ b ∷ c ∷ d ∷ buf) o rest e =
    let same : buf ≡ rest = cc in rw same (omega arith)
next_u32-Shrinks (a ∷ b ∷ c ∷ []) o rest e =
    let same : a ∷ b ∷ c ∷ [] ≡ rest = cc in rw (← same) (omega arith)
next_u32-Shrinks (a ∷ b ∷ []) o rest e =
    let same : a ∷ b ∷ [] ≡ rest = cc in rw (← same) (omega arith)
next_u32-Shrinks (a ∷ []) o rest e = let same : a ∷ [] ≡ rest = cc in rw (← same) (omega arith)
next_u32-Shrinks [] o rest e = let same : [] ≡ rest = cc in rw (← same) (omega arith)

next_name-Shrinks : Shrinks next_name
unfolding next_name
next_name-Shrinks =
    >>=-Shrinks _
      (λ name.
        >>=-Shrinks _ (λ len. >>=-Shrinks _ (λ _. give-Shrinks _) _ (skip-Shrinks len)) _
          (run-Shrinks _))
      _ (look-Shrinks next_str)

next_property-Shrinks : Shrinks next_property
unfolding next_property
next_property-Shrinks =
    >>=-Shrinks _
      (λ len.
        >>=-Shrinks _
          (λ name_off.
            >>=-Shrinks _
              (λ content.
                >>=-Shrinks _ (λ whole. >>=-Shrinks _ (λ _. give-Shrinks _) _ (skip-Shrinks whole))
                  _ (run-Shrinks (align_up len 4)))
              _ (upto-Shrinks len))
          _ next_u32-Shrinks)
      _ next_u32-Shrinks

next_by-le :
    (word : ℕ) (skipped : Run (Option Token × List ℕ)) (buf : List ℕ) (token : Token)
    (rest : List ℕ)
    → (skipped ≡ ok (some token, rest) → length rest ≤ length buf)
    → next_by word skipped buf ≡ ok (some token, rest)
    → length rest ≤ length buf
unfolding next_by
next_by-le word skipped buf token rest le e =
    ground
      (arith, next_name-Shrinks buf (some token) rest, next_property-Shrinks buf (some token) rest)

pub next_shorter :
    (buf : List ℕ) (token : Token) (rest : List ℕ)
    → next buf ≡ ok (some token, rest)
    → length rest + 4 ≤ length buf
unfolding next
next_shorter (a ∷ b ∷ c ∷ d ∷ buf) token rest e =
    let behind =
      next_by-le (from_be_bytes (a ∷ b ∷ c ∷ d ∷ [])) (next buf) buf token rest
        (λ e'. omega (arith, next_shorter buf token rest e')) e in
    omega (arith, behind)
next_shorter (a ∷ b ∷ c ∷ []) token rest e = cc
next_shorter (a ∷ b ∷ []) token rest e = cc
next_shorter (a ∷ []) token rest e = cc
next_shorter [] token rest e = cc
