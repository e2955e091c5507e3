-- ===== src/RangeSet/Replace.antt =====
-- One live range replaced by a part of it: the trimming cases of `remove_inner` of rangeset.rs.
use novos.Prelude.{
  ℕ, suc, ◌-◌, ◌≡◌, refl, sym, ap, ◌∙◌, ◌<◌, Bool, true, false, not, ◌&&◌, ◌||◌, some, List, [],
  ◌∷◌, arith, leb, length, length-set, get_elem?, set, take, Run, ok, lt_of_get_elem?, lt→ltb,
  subst, saturating_add,
}
use novos.RangeSet.{
  RangeSet, Range, as_slice, overlaps, contains, carry_on, trim_start, trim_end, remove_step,
}
use novos.RangeSet.Slice.{IsValid, delete, get_elem?-take, take-set, take-set_lt}
use novos.RangeSet.Cover.{
  within, covers, IsRange, Fails, IsApart, Fails-append, covers-delete, IsRange-of_get,
}
use novos.RangeSet.Cut.{Inside, IsApart-set, covers-set}

-- No range of the list meets `r`.
abbrev pub Clear : Range → List Range → Type 0
Clear r = Fails (overlaps r)

-- Outside of `r` nothing changes.
abbrev pub Keeps : Range → List Range → List Range → Type 0
Keeps r xs ys = (x : ℕ) → (covers x ys && not (within x r)) ≡ (covers x xs && not (within x r))

pub record Sound (r : Range) (s t : RangeSet) : Type 0 where
  pub valid : IsValid t
  pub apart : IsApart (as_slice t)
  pub keeps : Keeps r (as_slice s) (as_slice t)

-- A live range is replaced by a part of it that holds all that lies outside of `r`.
pub record Part (r o v : Range) : Type 0 where
  pub proper : IsRange v
  pub inside : Inside v o
  pub rest : (x : ℕ) → (within x v && not (within x r)) ≡ (within x o && not (within x r))
  pub clear : overlaps r v ≡ false

pub start-Part :
    (r o : Range)
    → IsRange r
    → IsRange o
    → overlaps r o ≡ true
    → contains o r ≡ false
    → leb r.start o.start ≡ true
    → Part r o (record o { start = saturating_add r.end 1 })
start-Part r o h k a b c = record {
  proper = ground arith;
  inside = ground arith;
  rest = λ x. ground arith;
  clear = ground arith;
}

pub end-Part :
    (r o : Range)
    → IsRange r
    → IsRange o
    → overlaps r o ≡ true
    → leb r.start o.start ≡ false
    → leb o.end r.end ≡ true
    → Part r o (record o { end = r.start - 1 })
end-Part r o h k a b c = record {
  proper = ground arith;
  inside = ground arith;
  rest = λ x. ground arith;
  clear = ground arith;
}

pub Sound-refl : {r : Range} {s : RangeSet} → IsValid s → IsApart (as_slice s) → Sound r s s
Sound-refl v a = record { valid = v; apart = a; keeps = λ x. refl }

pub Sound-trans : {r : Range} {s t u : RangeSet} → Sound r s t → Sound r t u → Sound r s u
Sound-trans a b = record { valid = b.valid; apart = b.apart; keeps = λ x. b.keeps x ∙ a.keeps x }

-- A live index, and what stands there.
pub record Live (s : RangeSet) (i : ℕ) (o : Range) : Type 0 where
  pub valid : IsValid s
  pub apart : IsApart (as_slice s)
  pub below : i < s.idx
  pub here : get_elem? s.ranges i ≡ some o

module _ {s : RangeSet} {i : ℕ} {o : Range} (l : Live s i o) where
  pub Live-slice : get_elem? (as_slice s) i ≡ some o
  unfolding as_slice
  Live-slice = get_elem?-take s.ranges s.idx i l.below ∙ l.here

  pub Live-IsRange : IsRange o
  Live-IsRange = IsRange-of_get (as_slice s) i l.apart Live-slice

  pub Live-room : i < length s.ranges
  Live-room = omega (arith, l.below, l.valid.size, l.valid.bound)

  pub replace : Range → RangeSet
  replace v = record s { ranges = set s.ranges i v }

  pub idx-replace : (v : Range) → (replace v).idx ≡ s.idx
  unfolding replace
  idx-replace v = refl

  pub as_slice-replace : (v : Range) → as_slice (replace v) ≡ set (as_slice s) i v
  unfolding as_slice replace
  as_slice-replace v = take-set_lt s.ranges s.idx i v l.below

pub and_regroup :
    (mine other out rest : Bool)
    → (mine && out) ≡ (other && out)
    → ((mine || rest) && out) ≡ ((other || rest) && out)
and_regroup mine other out rest h = ground arith

module _ (r : Range) {s : RangeSet} {i : ℕ} {o : Range} (l : Live s i o) where
  pub replace-Sound : (v : Range) → Part r o v → Sound r s (replace l v)
  unfolding replace
  replace-Sound v p = record {
    valid = record { size = length-set s.ranges i v ∙ l.valid.size; bound = l.valid.bound };
    apart =
        subst IsApart (sym (as_slice-replace l v))
          (IsApart-set (as_slice s) i o v l.apart (Live-slice l) p.proper p.inside);
    keeps = λ x.
        let new =
          ap (covers x) (as_slice-replace l v)
          ∙ covers-set x (as_slice s) i v (lt_of_get_elem? (as_slice s) i (Live-slice l)) in
        let old = covers-delete x (as_slice s) i (Live-slice l) in
        ap (λ b. b && not (within x r)) new
        ∙ (and_regroup (within x v) (within x o) (not (within x r))
              (covers x (delete (as_slice s) i)) (p.rest x)
            ∙ ap (λ b. b && not (within x r)) (sym old));
  }

  pub replace-Clear :
      (v : Range)
      → overlaps r v ≡ false
      → Clear r (take i (as_slice s))
      → Clear r (take (suc i) (as_slice (replace l v)))
  replace-Clear v c h =
      subst (λ xs. Clear r (take (suc i) xs)) (sym (as_slice-replace l v))
        (subst (Clear r)
          (sym (take-set (as_slice s) i v (lt_of_get_elem? (as_slice s) i (Live-slice l))))
          (Fails-append (overlaps r) (take i (as_slice s)) (v ∷ []) h (c, tt)))

  pub trim_start-run :
      trim_start i s r ≡ ok (carry_on (replace l (record o { start = saturating_add r.end 1 })))
  unfolding trim_start replace
  trim_start-run = rw (l.here, lt→ltb i (length s.ranges) (Live-room l)) refl

  pub trim_end-run : trim_end i s r ≡ ok (carry_on (replace l (record o { end = r.start - 1 })))
  unfolding trim_end replace
  trim_end-run = rw (l.here, lt→ltb i (length s.ranges) (Live-room l)) refl

  -- The rounds that trim.
  module _ (again : RangeSet → Run RangeSet) (hit : overlaps r o ≡ true)
      (out : contains o r ≡ false) where
    pub remove_step_start :
        leb r.start o.start ≡ true
        → remove_step again i s r
          ≡ ok (carry_on (replace l (record o { start = saturating_add r.end 1 })))
    unfolding remove_step
    remove_step_start before = rw (l.here, hit, out, before) trim_start-run

    pub remove_step_end :
        leb r.start o.start ≡ false
        → leb o.end r.end ≡ true
        → remove_step again i s r ≡ ok (carry_on (replace l (record o { end = r.start - 1 })))
    unfolding remove_step
    remove_step_end after within_r = rw (l.here, hit, out, after, within_r) trim_end-run
