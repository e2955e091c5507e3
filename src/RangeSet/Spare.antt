-- ===== src/RangeSet/Spare.antt =====
-- When `insert` of rangeset.rs returns `Ok`. The loop of `merge_blocks` keeps the bound that it read on entry, so
-- after a removal it reads entries that are no longer live: where those are the `0..=0` of `new`, no range from 2
-- on touches them.
use native.Mathlib.Numerals.{add-one}
use novos.Prelude.{
  ℕ, zero, suc, ◌+◌, ◌≡◌, refl, sym, ◌∙◌, ◌≤◌, ◌<◌, Bool, false, inl, inr, some, arith, ltb,
  get_elem?, get_elem?_of_lt, take, Run, ok, good, Bool-cases, dec_lt, subst, le→not-ltb,
}
use novos.RangeSet.{
  RangeSet, Range, range, range_count, as_slice, touches, hull, remove_unwrap, merge_step,
  merge_loop, merge_blocks, insert,
}
use novos.RangeSet.Slice.{IsValid, Removed, remove_unwrap-Removed, remove_unwrap_get}
use novos.RangeSet.Cover.{IsRange, Fails, NoTouch, IsApart, Fails-get, Fails-delete}
use novos.RangeSet.Merge.{
  Ready, merge_step-Merged, merge_blocks-Merged, Again, hull-Ready, get-as_slice,
}
use novos.RangeSet.Insert.{Inserted, insert-Inserted, push-append}

abbrev pub is_low : Range → Bool
is_low o = ltb o.start 2

-- `k` entries behind the live ranges are as `new` left them.
pub record IsSpare (k : ℕ) (s : RangeSet) : Type 0 where
  pub fits : s.idx + k ≤ range_count
  pub zeros : (j : ℕ) → s.idx ≤ j → j < s.idx + k → get_elem? s.ranges j ≡ some (range 0 0)
  pub high : Fails is_low (as_slice s)

module _ (k : ℕ) {s : RangeSet} {i : ℕ} {s' : RangeSet} where
  Removed-IsSpare :
      IsValid s
      → IsSpare k s
      → i < s.idx
      → remove_unwrap s i ≡ ok s'
      → Removed s i s'
      → IsSpare k s'
  Removed-IsSpare v p live run d = record {
    fits = omega (arith, p.fits, d.fewer);
    zeros = λ j lo hi.
        remove_unwrap_get s i s' j run (omega (arith, d.fewer))
          (omega (arith, d.fewer, p.fits, v.size))
        ∙ p.zeros (suc j) (omega (arith, d.fewer)) (omega (arith, d.fewer));
    high = subst (Fails is_low) (sym d.slice) (Fails-delete is_low (as_slice s) i p.high);
  }

-- What a call returns, and that the entries behind are still spare.
record Fits (k : ℕ) (run : Run (RangeSet × Range)) : Type 0 where
  set : RangeSet
  grown : Range
  run_ok : run ≡ ok (set, grown)
  spare : IsSpare k set
  above : 2 ≤ grown.start

abbrev Succeeds : ℕ → ℕ → (RangeSet → Range → Run (RangeSet × Range)) → Type 0
Succeeds k fuel again =
    (s : RangeSet) (r : Range)
    → Ready s r
    → IsSpare k s
    → 2 ≤ r.start
    → s.idx ≤ k
    → s.idx < fuel
    → Fits k (again s r)

module _ (k fuel : ℕ) (again : RangeSet → Range → Run (RangeSet × Range)) (rec : Again again)
    (succ : Succeeds k fuel again) where
  merge_step-Fits :
      (i : ℕ) (s : RangeSet) (r : Range)
      → Ready s r
      → IsSpare k s
      → 2 ≤ r.start
      → s.idx ≤ k
      → s.idx < suc fuel
      → i < k
      → Fits k (merge_step again i s r)
  unfolding merge_step
  merge_step-Fits i s r w p above small h below =
      let (o, e) = get_elem?_of_lt s.ranges i (omega (arith, w.valid.size, p.fits)) in
      elim (Bool-cases (touches r o)) [
        | inr miss ↦ record {
          set = s;
          grown = r;
          run_ok = rw (e, miss) refl;
          spare = p;
          above = above;
        }
        | inl hit ↦ elim (dec_lt i s.idx) [
          | no past ↦ absurd (ground (arith, p.zeros i))
          | yes live ↦
              let (s', gone, d) = remove_unwrap-Removed s i w.valid live in
              let low : is_low o ≡ false =
                Fails-get is_low (as_slice s) i p.high (get-as_slice s i live ∙ e) in
              let f =
                succ s' (hull r o) (hull-Ready i s r o s' w e live d)
                  (Removed-IsSpare k w.valid p live gone d) (ground arith) (omega (arith, d.fewer))
                  (omega (arith, d.fewer)) in
              record {
                set = f.set;
                grown = f.grown;
                run_ok = rw (e, hit, gone) f.run_ok;
                spare = f.spare;
                above = f.above;
              }
        ]
      ]

  merge_loop-Fits :
      (left i : ℕ) (s : RangeSet) (r : Range)
      → Ready s r
      → NoTouch r (take i (as_slice s))
      → IsSpare k s
      → 2 ≤ r.start
      → s.idx ≤ k
      → s.idx < suc fuel
      → i + left ≤ k
      → Fits k (merge_loop again left i s r)
  unfolding merge_loop
  merge_loop-Fits zero i s r w n p above small h bound = record {
    set = s;
    grown = r;
    run_ok = refl;
    spare = p;
    above = above;
  }
  merge_loop-Fits (suc left) i s r w n p above small h bound =
      let f = merge_step-Fits i s r w p above small h (omega arith) in
      let (m, n') = merge_step-Merged rec i s r f.set f.grown w n f.run_ok in
      let g =
        merge_loop-Fits left (suc i) f.set f.grown m.ready n' f.spare f.above
          (omega (arith, m.fewer)) (omega (arith, m.fewer)) (omega arith) in
      record {
        set = g.set;
        grown = g.grown;
        run_ok = rw (f.run_ok, add-one) g.run_ok;
        spare = g.spare;
        above = g.above;
      }

merge_blocks-Fits : (k fuel : ℕ) → Succeeds k fuel (merge_blocks fuel)
unfolding merge_blocks
merge_blocks-Fits k zero s r w p above small h = absurd (omega arith)
merge_blocks-Fits k (suc fuel) s r w p above small h =
    merge_loop-Fits k fuel (merge_blocks fuel) (merge_blocks-Merged fuel) (merge_blocks-Fits k fuel)
      s.idx 0 s r w tt p above small h (omega arith)

-- On a set of ranges that are apart, with as many entries behind them still as `new` left them as there are
-- ranges, at least one, `insert` of a range that is not empty returns `Ok` when neither it nor a range of the
-- set has an address below 2; the ranges are still apart and cover what they did and the new range.
pub insert_succeeds :
    (k : ℕ) (s : RangeSet) (r : Range)
    → IsValid s
    → IsApart (as_slice s)
    → IsRange r
    → IsSpare k s
    → 2 ≤ r.start
    → s.idx ≤ k
    → 0 < k
    → (t : RangeSet) × (insert s r ≡ ok (t, good tt)) × Inserted s r t
unfolding insert
insert_succeeds k s r v a p sp above small pos =
    let w : Ready s r = record { valid = v; apart = a; proper = p } in
    let f = merge_blocks-Fits k (s.idx + 1) s r w sp above small (omega arith) in
    let (m, _) = merge_blocks-Merged (s.idx + 1) s r f.set f.grown w f.run_ok in
    let (t, e, _, _) = push-append f.set f.grown m.ready.valid (omega (arith, f.spare.fits)) in
    let run : insert s r ≡ ok (t, good tt) = rw (le→not-ltb r.end r.start p.0, f.run_ok) e in
    (t, run, (insert-Inserted s r t (good tt) v a p run).1)
