-- ===== src/RangeSet/Split.antt =====
-- The case of `remove_inner` of rangeset.rs in which a live range holds all of `r`: it is split, and the
-- recursive call trims the new range.
use native.Mathlib.Numerals.{add-one}
use novos.Prelude.{
  ℕ, zero, suc, ◌+◌, ◌-◌, ◌≡◌, ◌≢◌, refl, sym, ap, ap₂, ◌∙◌, ◌≤◌, ◌<◌, Bool, true, false, not, ◌&&◌,
  ◌||◌, inl, inr, some, List, [], ◌∷◌, ◌++◌, arith, leb, length, length-set, get_elem?,
  get_elem?_of_lt, get_elem?-set_ne, get_elem?-set_self, set, take, Run, ok, lt→ltb, Bool-cases,
  subst, saturating_add,
}
use novos.RangeSet.{
  RangeSet, Range, range, range_count, as_slice, overlaps, contains, touches, carry_on, split_at,
  split, remove_step, remove_loop, remove_inner,
}
use novos.RangeSet.Slice.{
  IsValid, delete, get_elem?-take, take-append_left, take-set, take-set_lt, take_all,
  length-as_slice,
}
use novos.RangeSet.Cover.{
  within, covers, IsRange, NoTouch, IsApart, Fails-get, Fails-take-suc, Fails-set, covers-append,
  covers-delete, IsApart-append,
}
use novos.RangeSet.Cut.{Inside, NoTouch-delete-Inside, IsApart-set, covers-set}
use novos.RangeSet.Replace.{
  Clear, Sound, start-Part, Sound-refl, Sound-trans, Live, Live-slice, Live-IsRange, Live-room,
  replace, replace-Sound, replace-Clear, idx-replace, remove_step_start,
}

set-append_left :
    (xs ys : List Range) (i : ℕ) (v : Range) → i < length xs → set (xs ++ ys) i v ≡ set xs i v ++ ys
set-append_left [] ys i v h = absurd (omega arith)
set-append_left (x ∷ xs) ys zero v h = refl
set-append_left (x ∷ xs) ys (suc i) v h = rw (set-append_left xs ys i v (omega arith))

Clear-of_NoTouch : (r : Range) (xs : List Range) → IsRange r → NoTouch r xs → Clear r xs
Clear-of_NoTouch r [] h n = tt
Clear-of_NoTouch r (x ∷ xs) h n = (apart_clear r x h n.0, Clear-of_NoTouch r xs h n.1)
  where
    apart_clear : (r x : Range) → IsRange r → touches r x ≡ false → overlaps r x ≡ false
    apart_clear r x h t = ground arith

-- Rounds over ranges that `r` does not meet change nothing.
pub remove_step_quiet :
    (again : RangeSet → Run RangeSet) (i : ℕ) (s : RangeSet) (r : Range) {o : Range}
    → get_elem? s.ranges i ≡ some o
    → overlaps r o ≡ false
    → remove_step again i s r ≡ ok (carry_on s)
unfolding remove_step
remove_step_quiet again i s r e miss = rw (e, miss) refl

pub remove_loop_quiet :
    (again : RangeSet → Run RangeSet) (n left total i j k : ℕ) (s : RangeSet) (r : Range)
    → IsValid s
    → Clear r (take k (as_slice s))
    → k ≤ s.idx
    → i + n ≤ k
    → total ≡ n + left
    → j ≡ i + n
    → remove_loop again total i s r ≡ remove_loop again left j s r
unfolding remove_loop as_slice
remove_loop_quiet again zero left total i j k s r v c b h e e' =
    ap₂ (λ a b. remove_loop again a b s r) (omega arith) (omega arith)
remove_loop_quiet again (suc n) left zero i j k s r v c b h e e' = absurd (omega arith)
remove_loop_quiet again (suc n) left (suc total) i j k s r v c b h e e' =
    let (o, here) = get_elem?_of_lt s.ranges i (omega (arith, v.size, v.bound)) in
    let found =
      get_elem?-take (as_slice s) k i (omega arith)
      ∙ (get_elem?-take s.ranges s.idx i (omega arith) ∙ here) in
    let miss = Fails-get (overlaps r) (take k (as_slice s)) i c found in
    rw (remove_step_quiet again i s r here miss) (
      remove_loop_quiet again n left total (i + 1) j k s r v c b (omega arith) (omega arith)
        (omega arith))

-- The last live range sticks out behind `r`, the others lie clear of it.
record Tail (r : Range) (s : RangeSet) (k : ℕ) (w : Range) : Type 0 where
  last : Live s k w
  only : s.idx ≡ suc k
  before : Clear r (take k (as_slice s))
  ahead : r.start ≤ w.start
  behind : r.end < w.end

-- A recursive call then only trims that range.
remove_inner-Tail :
    (fuel : ℕ) (r : Range) (s : RangeSet) (k : ℕ) (w : Range)
    → IsRange r
    → Tail r s k w
    → (t : RangeSet) × (remove_inner (suc fuel) s r ≡ ok t)
      × Sound r s t
      × Clear r (as_slice t)
      × (t.idx ≡ s.idx)
unfolding remove_inner remove_loop
remove_inner-Tail fuel r s k w p q =
    let l = q.last in
    let again : RangeSet → Run RangeSet = λ s'. remove_inner fuel s' r in
    let skip : remove_loop again s.idx 0 s r ≡ remove_loop again 1 k s r =
      remove_loop_quiet again k 1 s.idx 0 k k s r l.valid q.before (omega (arith, q.only))
        (omega arith) (omega (arith, q.only)) (omega arith) in
    let all : (t : RangeSet) → IsValid t → t.idx ≡ s.idx → take (suc k) (as_slice t) ≡ as_slice t =
      λ t v e. take_all (as_slice t) (suc k) (omega (arith, length-as_slice t v, q.only)) in
    elim (Bool-cases (overlaps r w)) [
      | inr miss ↦ (
        s,
        skip ∙ rw (remove_step_quiet again k s r l.here miss) refl,
        Sound-refl l.valid l.apart,
        subst (Clear r) (all s l.valid refl)
            (Fails-take-suc (overlaps r) k (as_slice s) q.before (Live-slice l) miss),
        refl,
      )
      | inl hit ↦
          let v = record w { start = saturating_add r.end 1 } in
          let out : contains w r ≡ false = ground (arith, q.behind) in
          let before : leb r.start w.start ≡ true = ground (arith, q.ahead) in
          let part = start-Part r w p (Live-IsRange l) hit out before in
          let sound = replace-Sound r l v part in
          (
            replace l v,
            skip ∙ rw (remove_step_start r l again hit out before) refl,
            sound,
            subst (Clear r) (all (replace l v) sound.valid (idx-replace l v))
                (replace-Clear r l v part.clear q.before),
            idx-replace l v,
          )
    ]

keep_halves :
    (mine yours other out rest : Bool) {new first old : Bool}
    → new ≡ (first || (yours || false))
    → first ≡ (mine || rest)
    → old ≡ (other || rest)
    → ((mine || yours) && out) ≡ (other && out)
    → (new && out) ≡ (old && out)
keep_halves mine yours other out rest a b c d = ground arith

-- The split of the range at `i`, which reaches beyond `r` on both sides.
module _ (r : Range) {s : RangeSet} {i : ℕ} {o : Range} (p : IsRange r) (l : Live s i o)
    (left : o.start < r.start) (right : r.end < o.end) where
  front : Range
  front = record o { end = r.start - 1 }

  back : Range
  back = range (saturating_add r.start 1) o.end

  halves : RangeSet
  halves = record { ranges = set (set s.ranges s.idx back) i front; idx = s.idx + 1 }

  front-proper : IsRange front × Inside front o
  unfolding front
  front-proper = ground (arith, Live-IsRange l)

  back-proper : IsRange back × Inside back o
  unfolding back
  back-proper = ground (arith, Live-IsRange l)

  split_at-run : s.idx < range_count → split_at i s r o ≡ ok halves
  unfolding split_at halves front back
  split_at-run room =
      let fits : s.idx < length s.ranges = omega (arith, l.valid.size) in
      let other : s.idx ≢ i = omega (arith, l.below) in
      let here = get_elem?-set_ne s.ranges s.idx i back other ∙ l.here in
      let fits' : i < length (set s.ranges s.idx back) =
        omega (arith, length-set s.ranges s.idx back, Live-room l) in
      rw
        (
          lt→ltb s.idx (length s.ranges) fits,
          here,
          lt→ltb i (length (set s.ranges s.idx back)) fits',
        )
        refl

  as_slice-halves : s.idx < range_count → as_slice halves ≡ set (as_slice s) i front ++ back ∷ []
  unfolding halves as_slice
  as_slice-halves room =
      ap (λ n. take n (set (set s.ranges s.idx back) i front)) (add-one s.idx)
      ∙ (take-set_lt (set s.ranges s.idx back) (suc s.idx) i front (omega (arith, l.below))
          ∙ (ap (λ xs. set xs i front) (take-set s.ranges s.idx back (omega (arith, l.valid.size)))
              ∙ set-append_left (take s.idx s.ranges) (back ∷ []) i front
                  (omega (arith, length-as_slice s l.valid, l.below))))

  front-clear : (overlaps r front ≡ false) × (touches back front ≡ false)
  unfolding front back
  front-clear = ground (arith, Live-IsRange l)

  others-Clear : Clear r (set (as_slice s) i front)
  others-Clear =
      let apart = NoTouch-delete-Inside (as_slice s) i o r l.apart (Live-slice l) p (omega arith) in
      Fails-set (overlaps r) (as_slice s) i front
        (Clear-of_NoTouch r (delete (as_slice s) i) p apart) front-clear.0

  length-others : length (set (as_slice s) i front) ≡ s.idx
  length-others = omega (arith, length-set (as_slice s) i front, length-as_slice s l.valid)

  halves-IsApart : s.idx < range_count → IsApart (as_slice halves)
  halves-IsApart room =
      let others =
        NoTouch-delete-Inside (as_slice s) i o back l.apart (Live-slice l) back-proper.0
          back-proper.1 in
      subst IsApart (sym (as_slice-halves room)) (
        IsApart-append (set (as_slice s) i front) back
          (IsApart-set (as_slice s) i o front l.apart (Live-slice l) front-proper.0 front-proper.1)
          back-proper.0 (Fails-set (touches back) (as_slice s) i front others front-clear.1))

  halves-IsValid : s.idx < range_count → IsValid halves
  unfolding halves
  halves-IsValid room = record {
    size =
        length-set (set s.ranges s.idx back) i front
        ∙ (length-set s.ranges s.idx back ∙ l.valid.size);
    bound = omega arith;
  }

  halves-here : s.idx < range_count → get_elem? halves.ranges s.idx ≡ some back
  unfolding halves
  halves-here room =
      get_elem?-set_ne (set s.ranges s.idx back) i s.idx front (omega (arith, l.below))
      ∙ get_elem?-set_self s.ranges s.idx back (omega (arith, l.valid.size))

  idx-halves : halves.idx ≡ suc s.idx
  unfolding halves
  idx-halves = add-one s.idx

  back-start : (r.start ≤ back.start) × (r.end < back.end)
  unfolding back
  back-start = ground (arith, Live-IsRange l)

  halves-Tail : s.idx < range_count → Tail r halves s.idx back
  halves-Tail room = record {
    last = record {
      valid = halves-IsValid room;
      apart = halves-IsApart room;
      below = omega (arith, idx-halves);
      here = halves-here room;
    };
    only = idx-halves;
    before =
        subst (Clear r)
          (sym (
            ap (take s.idx) (as_slice-halves room)
            ∙ (take-append_left s.idx (set (as_slice s) i front) (back ∷ [])
                  (omega (arith, length-others))
                ∙ take_all (set (as_slice s) i front) s.idx (omega (arith, length-others)))))
          others-Clear;
    ahead = back-start.0;
    behind = back-start.1;
  }

  halves-within :
      (x : ℕ)
      → ((within x front || within x back) && not (within x r)) ≡ (within x o && not (within x r))
  unfolding front back
  halves-within x = ground (arith, Live-IsRange l)

  halves-Sound : s.idx < range_count → Sound r s halves
  halves-Sound room = record {
    valid = halves-IsValid room;
    apart = halves-IsApart room;
    keeps = λ x.
        let new =
          ap (covers x) (as_slice-halves room)
          ∙ covers-append x (set (as_slice s) i front) (back ∷ []) in
        let fst =
          covers-set x (as_slice s) i front (omega (arith, length-as_slice s l.valid, l.below)) in
        let old = covers-delete x (as_slice s) i (Live-slice l) in
        keep_halves (within x front) (within x back) (within x o) (not (within x r))
          (covers x (delete (as_slice s) i)) new fst old (halves-within x);
  }

-- The round that splits: it returns with all live ranges clear of `r`.
pub record Cleared (r : Range) (s t : RangeSet) : Type 0 where
  pub sound : Sound r s t
  pub clear : Clear r (as_slice t)
  pub few : t.idx ≤ suc s.idx

pub split_run :
    (fuel : ℕ) (r : Range) {s : RangeSet} {i : ℕ} {o : Range} (l : Live s i o)
    → IsRange r
    → s.idx < range_count
    → overlaps r o ≡ true
    → contains o r ≡ false
    → leb r.start o.start ≡ false
    → leb o.end r.end ≡ false
    → (t : RangeSet) × (remove_step (λ s'. remove_inner (suc fuel) s' r) i s r ≡ ok (carry_on t))
      × Cleared r s t
      × (t.idx ≡ suc s.idx)
unfolding remove_step split
split_run fuel r {s} {i} {o} l p room hit out after beyond =
    let left : o.start < r.start = ground arith in
    let right : r.end < o.end = ground arith in
    let (t, run, sound, clear, e) =
      remove_inner-Tail fuel r (halves r p l left right) s.idx (back r p l left right) p
        (halves-Tail r p l left right room) in
    (
      t,
      rw (l.here, hit, out, after, beyond, split_at-run r p l left right room, run) refl,
      record {
        sound = Sound-trans (halves-Sound r p l left right room) sound;
        clear = clear;
        few = omega (arith, e, idx-halves r p l left right);
      },
      e ∙ idx-halves r p l left right,
    )
