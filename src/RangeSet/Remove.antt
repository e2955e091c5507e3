-- ===== src/RangeSet/Remove.antt =====
-- `remove_range` of rangeset.rs takes the addresses of a range out of the set.
use native.Mathlib.Numerals.{add-one}
use novos.Prelude.{
  ℕ, zero, suc, ◌+◌, ◌-◌, ◌*◌, ◌≡◌, refl, sym, ap, ◌∙◌, ◌<◌, ◌≤◌, Bool, true, false, not, ◌&&◌,
  ◌||◌, inl, inr, List, [], ◌∷◌, arith, leb, get_elem?_of_lt, take, Run, ok, out_of_fuel, ◌>>=◌,
  good, le→not-ltb, Bool-cases, subst, saturating_add,
}
use novos.RangeSet.{
  RangeSet, Range, range_count, as_slice, overlaps, contains, carry_on, returned, drop_contained,
  remove_step, follow, remove_loop, remove_inner, remove_range,
}
use novos.RangeSet.Slice.{
  IsValid, Removed, delete, take_all, length-as_slice, remove_unwrap-Removed,
}
use novos.RangeSet.Cover.{
  within, covers, IsRange, IsApart, Fails-take, Fails-take-suc, covers-delete, IsApart-delete,
}
use novos.RangeSet.Replace.{
  Clear, Sound, Sound-refl, Sound-trans, Part, Live, Live-slice, Live-IsRange, start-Part, end-Part,
  replace, idx-replace, replace-Sound, replace-Clear, remove_step_start, remove_step_end,
}
use novos.RangeSet.Split.{Cleared, split_run, remove_step_quiet, remove_loop_quiet}

-- What a recursive call does for a set with fewer ranges than there is fuel.
abbrev Total : ℕ → Range → (RangeSet → Run RangeSet) → Type 0
Total fuel r again =
    (s : RangeSet)
    → IsValid s
    → IsApart (as_slice s)
    → s.idx < range_count
    → s.idx < fuel
    → (t : RangeSet) × (again s ≡ ok t) × Cleared r s t

and_drop :
    (inside rest mine : Bool)
    → ((mine && not inside) ≡ false)
    → (rest && not inside) ≡ ((mine || rest) && not inside)
and_drop inside rest mine h = ground arith

-- A range inside of `r` may go as a whole.
Removed-Sound :
    (r : Range) {s s' : RangeSet} {i : ℕ} {o : Range}
    → Live s i o
    → contains o r ≡ true
    → Removed s i s'
    → Sound r s s'
Removed-Sound r {s} {i} {o} l sub d = record {
  valid = d.valid;
  apart = subst IsApart (sym d.slice) (IsApart-delete (as_slice s) i l.apart);
  keeps = λ x.
      ap (λ xs. covers x xs && not (within x r)) d.slice
      ∙ (and_drop (within x r) (covers x (delete (as_slice s) i)) (within x o) (gone x)
          ∙ ap (λ b. b && not (within x r)) (sym (covers-delete x (as_slice s) i (Live-slice l))));
}
  where
    gone : (x : ℕ) → (within x o && not (within x r)) ≡ false
    gone x = ground arith

drop_run :
    (fuel : ℕ) (again : RangeSet → Run RangeSet) (r : Range) {s : RangeSet} {i : ℕ} {o : Range}
    → Total fuel r again
    → Live s i o
    → s.idx < range_count
    → s.idx < suc fuel
    → overlaps r o ≡ true
    → contains o r ≡ true
    → (t : RangeSet) × (remove_step again i s r ≡ ok (returned t)) × Cleared r s t
unfolding remove_step drop_contained
drop_run fuel again r {s} {i} rec l room fits hit sub =
    let (s', gone, d) = remove_unwrap-Removed s i l.valid l.below in
    let sound = Removed-Sound r l sub d in
    let (t, run, c) =
      rec s' d.valid sound.apart (omega (arith, d.fewer)) (omega (arith, d.fewer)) in
    (
      t,
      rw (l.here, hit, sub, gone, run) refl,
      record {
        sound = Sound-trans sound c.sound;
        clear = c.clear;
        few = omega (arith, c.few, d.fewer);
      },
    )

module _ (fuel : ℕ) (r : Range) (p : IsRange r)
    (rec : Total (suc fuel) r (λ s'. remove_inner (suc fuel) s' r)) where
  abbrev again : RangeSet → Run RangeSet
  again s' = remove_inner (suc fuel) s' r

  -- The loop goes on behind a trimmed range.
  trimmed :
      (left : ℕ) {s : RangeSet} {i : ℕ} {o : Range} (l : Live s i o) (v : Range)
      → Part r o v
      → remove_step again i s r ≡ ok (carry_on (replace l v))
      → (t : RangeSet) × (remove_loop again left (suc i) (replace l v) r ≡ ok t)
        × Cleared r (replace l v) t
      → (t : RangeSet) × ((remove_step again i s r
            >>= follow (λ s'. remove_loop again left (i + 1) s' r))
          ≡ ok t)
        × Cleared r s t
  trimmed left l v part step (t, run, d) = (
    t,
    rw (step, add-one) run,
    record {
      sound = Sound-trans (replace-Sound r l v part) d.sound;
      clear = d.clear;
      few = omega (arith, d.few, idx-replace l v);
    },
  )

  remove_loop-Cleared :
      (left i : ℕ) (s : RangeSet)
      → IsValid s
      → IsApart (as_slice s)
      → s.idx < range_count
      → s.idx < suc (suc fuel)
      → i + left ≡ s.idx
      → Clear r (take i (as_slice s))
      → (t : RangeSet) × (remove_loop again left i s r ≡ ok t) × Cleared r s t
  unfolding remove_loop
  remove_loop-Cleared zero i s v a room fits e c = (
    s,
    refl,
    record {
      sound = Sound-refl v a;
      clear = subst (Clear r) (take_all (as_slice s) i (omega (arith, length-as_slice s v))) c;
      few = omega arith;
    },
  )
  remove_loop-Cleared (suc left) i s v a room fits e c =
      let (o, here) = get_elem?_of_lt s.ranges i (omega (arith, v.size, v.bound)) in
      let l : Live s i o = record { valid = v; apart = a; below = omega arith; here = here } in
      let trim =
        λ (v : Range) (part : Part r o v)
            (step : remove_step again i s r ≡ ok (carry_on (replace l v))).
          trimmed left l v part step (
            remove_loop-Cleared left (suc i) (replace l v) (replace-Sound r l v part).valid
              (replace-Sound r l v part).apart (omega (arith, idx-replace l v))
              (omega (arith, idx-replace l v)) (omega (arith, idx-replace l v))
              (replace-Clear r l v part.clear c)) in
      elim (Bool-cases (overlaps r o)) [
        | inr miss ↦
            let (t, run, d) =
              remove_loop-Cleared left (suc i) s v a room fits (omega arith)
                (Fails-take-suc (overlaps r) i (as_slice s) c (Live-slice l) miss) in
            (t, rw (remove_step_quiet again i s r here miss, add-one) run, d)
        | inl hit ↦ elim (Bool-cases (contains o r)) [
          | inl sub ↦
              let (t, run, d) = drop_run (suc fuel) again r rec l room fits hit sub in
              (t, rw run refl, d)
          | inr out ↦ elim (Bool-cases (leb r.start o.start)) [
            | inl before ↦
                trim (record o { start = saturating_add r.end 1 })
                  (start-Part r o p (Live-IsRange l) hit out before)
                  (remove_step_start r l again hit out before)
            | inr after ↦ elim (Bool-cases (leb o.end r.end)) [
              | inl short ↦
                  trim (record o { end = r.start - 1 })
                    (end-Part r o p (Live-IsRange l) hit after short)
                    (remove_step_end r l again hit out after short)
              | inr beyond ↦
                  let (t, run, d, more) = split_run fuel r l p room hit out after beyond in
                  let rest =
                    remove_loop_quiet again left 0 left (suc i) (suc i + left) t.idx t r
                      d.sound.valid (Fails-take (overlaps r) t.idx (as_slice t) d.clear)
                      (omega arith) (omega arith) (omega arith) refl in
                  (t, rw (run, add-one) rest, d)
            ]
          ]
        ]
      ]

-- The calls of `remove_inner` with fuel for every range.
remove_inner-Cleared :
    (fuel : ℕ) (r : Range) → IsRange r → Total fuel r (λ s. remove_inner fuel s r)
unfolding remove_inner remove_loop
remove_inner-Cleared zero r p s v a room fits = absurd (omega arith)
remove_inner-Cleared (suc zero) r p s v a room fits = (
  s,
  remove_loop_quiet (λ s'. out_of_fuel) 0 0 s.idx 0 0 0 s r v tt (omega arith) (omega arith)
      (omega arith) (omega arith),
  record {
    sound = Sound-refl v a;
    clear = subst (Clear r) (take_all (as_slice s) 0 (omega (arith, length-as_slice s v))) tt;
    few = omega arith;
  },
)
remove_inner-Cleared (suc (suc fuel)) r p s v a room fits =
    remove_loop-Cleared fuel r p (remove_inner-Cleared (suc fuel) r p) s.idx 0 s v a room fits
      (omega arith) tt

covers_of_Clear :
    (r : Range) (x : ℕ) (xs : List Range) → Clear r xs → within x r ≡ true → covers x xs ≡ false
covers_of_Clear r x [] c h = refl
covers_of_Clear r x (o ∷ xs) c h = ground (arith, c.0, covers_of_Clear r x xs c.1 h)

exactly :
    (new old inside : Bool)
    → (new && not inside) ≡ (old && not inside)
    → (inside ≡ true → new ≡ false)
    → new ≡ (old && not inside)
exactly new old true a b = ground (arith, b refl)
exactly new old false a b = ground arith

-- The same with the number of ranges, of which one removal adds one at most.
pub remove_range-few :
    (s : RangeSet) (r : Range)
    → IsValid s
    → IsApart (as_slice s)
    → IsRange r
    → s.idx < range_count
    → (t : RangeSet) × (remove_range s r ≡ ok (t, good tt))
      × IsValid t
      × IsApart (as_slice t)
      × ((x : ℕ) → covers x (as_slice t) ≡ (covers x (as_slice s) && not (within x r)))
      × (t.idx ≤ suc s.idx)
unfolding remove_range
remove_range-few s r v a p room =
    let (t, run, c) = remove_inner-Cleared (2 * s.idx + 2) r p s v a room (omega arith) in
    (
      t,
      rw (le→not-ltb r.end r.start p.0, run) refl,
      c.sound.valid,
      c.sound.apart,
      λ x.
          exactly (covers x (as_slice t)) (covers x (as_slice s)) (within x r) (c.sound.keeps x)
            (covers_of_Clear r x (as_slice t) c.clear),
      c.few,
    )

-- In a set of ranges that are apart, with at least one place of the array free, `remove_range` of a range
-- that is not empty returns `Ok`; the ranges left are apart and cover the old addresses less those of the
-- removed range.
pub remove_range-covers :
    (s : RangeSet) (r : Range)
    → IsValid s
    → IsApart (as_slice s)
    → IsRange r
    → s.idx < range_count
    → (t : RangeSet) × (remove_range s r ≡ ok (t, good tt))
      × IsValid t
      × IsApart (as_slice t)
      × ((x : ℕ) → covers x (as_slice t) ≡ (covers x (as_slice s) && not (within x r)))
remove_range-covers s r v a p room =
    let (t, run, valid, apart, same, few) = remove_range-few s r v a p room in
    (t, run, valid, apart, same)
