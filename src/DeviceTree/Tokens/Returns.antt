-- ===== src/DeviceTree/Tokens/Returns.antt =====
-- `next` always returns or panics.
use novos.Prelude.{
  ℕ, ◌+◌, ◌≢◌, refl, Bool, true, false, List, [], ◌∷◌, Option, some, none, length, take, drop, ltb,
  if◌then◌else◌, Run, ok, panic, out_of_fuel, arith,
}
use novos.DeviceTree.Bytes.{align_up, next_str, from_be_bytes}
use novos.DeviceTree.Reading.{Reading, ◌>>=◌, skip, give, run, look, upto, option, proceed}
use novos.DeviceTree.Tokens.{Token, next, next_u32, next_name, next_property, next_by}

abbrev pub Returns : {A : Type 0} → Reading A → Type 0
Returns read = (buf : List ℕ) → read buf ≢ out_of_fuel

module _ {A B : Type 0} (next : A → Reading B) (returns : (a : A) → Returns (next a)) where
  proceed-Returns : (r : Run (Option A × List ℕ)) → r ≢ out_of_fuel → proceed next r ≢ out_of_fuel
  proceed-Returns out_of_fuel h e = absurd (h refl)
  proceed-Returns panic h e = cc
  proceed-Returns (ok (none, buf)) h e = cc
  proceed-Returns (ok (some a, buf)) h e = returns a buf e

  pub >>=-Returns : (first : Reading A) → Returns first → Returns (first >>= next)
  >>=-Returns first h buf = proceed-Returns (first buf) (h buf)

module _ {A : Type 0} where
  pub give-Returns : (a : A) → Returns (give a)
  give-Returns a buf e = cc

  pub run-Returns : (r : Run A) → r ≢ out_of_fuel → Returns (run r)
  run-Returns out_of_fuel h buf e = absurd (h refl)
  run-Returns panic h buf e = cc
  run-Returns (ok a) h buf e = cc

  pub look-Returns : (f : List ℕ → Option A) → Returns (look f)
  look-Returns f buf = cases (f buf)
    where
      cases : (found : Option A) → option found buf ≢ out_of_fuel
      cases none e = cc
      cases (some a) e = cc

slice_returns : {A : Type 0} (test : Bool) (a : A) → (if test then panic else ok a) ≢ out_of_fuel
slice_returns true a e = cc
slice_returns false a e = cc

pub upto-Returns : (len : ℕ) → Returns (upto len)
upto-Returns len buf = run-Returns _ (slice_returns (ltb (length buf) len) (take len buf)) buf

pub skip-Returns : (len : ℕ) → Returns (skip len)
skip-Returns len buf = slice_returns (ltb (length buf) len) (some tt, drop len buf)

align_up-returns : (val alignment : ℕ) → align_up val alignment ≢ out_of_fuel
unfolding align_up
align_up-returns val alignment e = ground arith

next_u32-Returns : Returns next_u32
unfolding next_u32
next_u32-Returns (a ∷ b ∷ c ∷ d ∷ buf) e = cc
next_u32-Returns (a ∷ b ∷ c ∷ []) e = cc
next_u32-Returns (a ∷ b ∷ []) e = cc
next_u32-Returns (a ∷ []) e = cc
next_u32-Returns [] e = cc

next_name-Returns : Returns next_name
unfolding next_name
next_name-Returns =
    >>=-Returns _
      (λ name.
        >>=-Returns _ (λ len. >>=-Returns _ (λ _. give-Returns _) _ (skip-Returns len)) _
          (run-Returns _ (align_up-returns (length name + 1) 4)))
      _ (look-Returns next_str)

next_property-Returns : Returns next_property
unfolding next_property
next_property-Returns =
    >>=-Returns _
      (λ len.
        >>=-Returns _
          (λ name_off.
            >>=-Returns _
              (λ content.
                >>=-Returns _ (λ whole. >>=-Returns _ (λ _. give-Returns _) _ (skip-Returns whole))
                  _ (run-Returns (align_up len 4) (align_up-returns len 4)))
              _ (upto-Returns len))
          _ next_u32-Returns)
      _ next_u32-Returns

next_by-returns :
    (word : ℕ) (skipped : Run (Option Token × List ℕ)) (buf : List ℕ)
    → skipped ≢ out_of_fuel
    → next_by word skipped buf ≢ out_of_fuel
unfolding next_by
next_by-returns word skipped buf h e =
    ground (arith, next_name-Returns buf, next_property-Returns buf)

pub next-ne-out_of_fuel : (buf : List ℕ) → next buf ≢ out_of_fuel
unfolding next
next-ne-out_of_fuel (a ∷ b ∷ c ∷ d ∷ buf) e =
    next_by-returns (from_be_bytes (a ∷ b ∷ c ∷ d ∷ [])) (next buf) buf (next-ne-out_of_fuel buf) e
next-ne-out_of_fuel (a ∷ b ∷ c ∷ []) e = cc
next-ne-out_of_fuel (a ∷ b ∷ []) e = cc
next-ne-out_of_fuel (a ∷ []) e = cc
next-ne-out_of_fuel [] e = cc
