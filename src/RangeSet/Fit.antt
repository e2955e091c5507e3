-- ===== src/RangeSet/Fit.antt =====
-- `insert` of rangeset.rs terminates.
use native.Mathlib.Numerals.{add-one}
use novos.Prelude.{
  ℕ, zero, suc, ◌+◌, ◌≡◌, ◌≢◌, refl, ◌<◌, inl, inr, none, some, arith, get_elem?, take, Run, ok,
  panic, out_of_fuel, ◌>>=◌, unwrap, unwrap-eq-ok, Option, Bool-cases, dec_lt, le→not-ltb,
}
use novos.RangeSet.{
  RangeSet, Range, as_slice, touches, hull, merge_step, merge_loop, merge_blocks, insert, push,
}
use novos.RangeSet.Slice.{IsValid, remove_unwrap-Removed, remove_unwrap-panic}
use novos.RangeSet.Cover.{IsRange, NoTouch, IsApart}
use novos.RangeSet.Merge.{Ready, merge_step-Merged, merge_blocks-Merged, Again, hull-Ready}

>>=_ends {ℓ κ} :
    {A : Type ℓ} {B : Type κ} (m : Run A) (f : A → Run B)
    → m ≢ out_of_fuel
    → ((a : A) → m ≡ ok a → f a ≢ out_of_fuel)
    → (m >>= f) ≢ out_of_fuel
>>=_ends (ok a) f h k = k a refl
>>=_ends panic f h k = λ e. cc
>>=_ends out_of_fuel f h k = λ e. h refl

-- A recursive call does not run out of fuel on a set with fewer ranges.
abbrev Ends : ℕ → (RangeSet → Range → Run (RangeSet × Range)) → Type 0
Ends fuel again = (s : RangeSet) (r : Range) → Ready s r → s.idx < fuel → again s r ≢ out_of_fuel

module _ (fuel : ℕ) (again : RangeSet → Range → Run (RangeSet × Range)) (rec : Again again)
    (ends : Ends fuel again) where
  merge_step_ends :
      (i : ℕ) (s : RangeSet) (r : Range)
      → Ready s r
      → s.idx < suc fuel
      → merge_step again i s r ≢ out_of_fuel
  unfolding merge_step
  merge_step_ends i s r w h =
      >>=_ends (unwrap (get_elem? s.ranges i)) _ (unwrap_ends (get_elem? s.ranges i)) λ o e.
        elim (Bool-cases (touches r o)) [
          | inr miss ↦ rw miss (λ e. cc)
          | inl hit ↦ elim (dec_lt i s.idx) [
            | no past ↦ rw (hit, remove_unwrap-panic s i (omega arith)) (λ e. cc)
            | yes live ↦
                let (s', gone, d) = remove_unwrap-Removed s i w.valid live in
                rw (hit, gone)
                  (ends s' (hull r o)
                    (hull-Ready i s r o s' w (unwrap-eq-ok (get_elem? s.ranges i) e) live d)
                    (omega (arith, d.fewer)))
          ]
        ]
    where
      unwrap_ends : (o : Option Range) → unwrap o ≢ out_of_fuel
      unwrap_ends none = λ e. cc
      unwrap_ends (some o) = λ e. cc

  merge_loop_ends :
      (left i : ℕ) (s : RangeSet) (r : Range)
      → Ready s r
      → NoTouch r (take i (as_slice s))
      → s.idx < suc fuel
      → merge_loop again left i s r ≢ out_of_fuel
  unfolding merge_loop
  merge_loop_ends zero i s r w n h = λ e. cc
  merge_loop_ends (suc left) i s r w n h =
      >>=_ends (merge_step again i s r) _ (merge_step_ends i s r w h) λ (t, q) e.
        let (m, n') = merge_step-Merged rec i s r t q w n e in
        rw add-one (merge_loop_ends left (suc i) t q m.ready n' (omega (arith, m.fewer)))

merge_blocks-Ends : (fuel : ℕ) → Ends fuel (merge_blocks fuel)
unfolding merge_blocks
merge_blocks-Ends zero s r w h = absurd (omega arith)
merge_blocks-Ends (suc fuel) s r w h =
    merge_loop_ends fuel (merge_blocks fuel) (merge_blocks-Merged fuel) (merge_blocks-Ends fuel)
      s.idx 0 s r w tt h

-- On a set of ranges that are apart, `insert` of a range that is not empty does not use up its fuel: the calls of
-- `merge_blocks` are nested no deeper than one more than there are live ranges.
pub insert_ends :
    (s : RangeSet) (r : Range)
    → IsValid s
    → IsApart (as_slice s)
    → IsRange r
    → insert s r ≢ out_of_fuel
unfolding insert push
insert_ends s r v a p = rw (le→not-ltb r.end r.start p.0) (
    >>=_ends (merge_blocks (s.idx + 1) s r) push
      (merge_blocks-Ends (s.idx + 1) s r (record { valid = v; apart = a; proper = p })
        (omega arith))
      λ (t, q) e. push_ends t q)
  where
    push_ends : (t : RangeSet) (q : Range) → push (t, q) ≢ out_of_fuel
    push_ends t q = ground arith
