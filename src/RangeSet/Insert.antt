-- ===== src/RangeSet/Insert.antt =====
-- `insert` of rangeset.rs: what a returned call has done, when it returns, and when it panics.
use native.Mathlib.Numerals.{add-one}
use novos.Prelude.{
  ℕ, zero, suc, ◌+◌, ◌≡◌, refl, sym, ap, ◌∙◌, ◌≤◌, ◌<◌, Bool, false, ◌||◌, [], ◌∷◌, ◌++◌, arith,
  length, length-set, get_elem?_of_lt, set, take, Run, ok, panic, Result, good, >>=-eq-ok, ok_inj,
  lt→ltb, le→not-ltb, dec_lt, subst,
}
use novos.RangeSet.{
  RangeSet, Range, range_count, as_slice, touches, merge_step, merge_loop, merge_blocks, push,
  insert, Error,
}
use novos.RangeSet.Slice.{IsValid, get_elem?-take, take-set}
use novos.RangeSet.Cover.{
  within, covers, IsRange, NoTouch, IsApart, Fails-get, covers-append, IsApart-append,
}
use novos.RangeSet.Merge.{Ready, Merged, merge_blocks-Merged}

-- `push` writes behind the live ranges, or panics where the array is full.
pub push-append :
    (s : RangeSet) (r : Range)
    → IsValid s
    → s.idx < range_count
    → (t : RangeSet) × (push (s, r) ≡ ok (t, good tt))
      × IsValid t
      × (as_slice t ≡ as_slice s ++ r ∷ [])
unfolding push as_slice
push-append s r v h =
    let room : s.idx < length s.ranges = omega (arith, v.size) in
    (
      record { ranges = set s.ranges s.idx r; idx = s.idx + 1 },
      rw (lt→ltb s.idx (length s.ranges) room) refl,
      record { size = length-set s.ranges s.idx r ∙ v.size; bound = omega arith },
      ap (λ n. take n (set s.ranges s.idx r)) (add-one s.idx) ∙ take-set s.ranges s.idx r room,
    )

pub push-panic : (s : RangeSet) (r : Range) → IsValid s → range_count ≤ s.idx → push (s, r) ≡ panic
unfolding push
push-panic s r v h = rw (le→not-ltb s.idx (length s.ranges) (omega (arith, v.size))) refl

-- What `insert` has done when it returns `Ok`.
pub record Inserted (s : RangeSet) (r : Range) (t : RangeSet) : Type 0 where
  pub valid : IsValid t
  pub apart : IsApart (as_slice t)
  pub same : (x : ℕ) → covers x (as_slice t) ≡ (within x r || covers x (as_slice s))

or_swap : (a b : Bool) → (a || (b || false)) ≡ (b || a)
or_swap a b = ground arith

-- A push behind a merge that left nothing touching.
push-Inserted :
    (s : RangeSet) (r : Range) (s' : RangeSet) (r' : Range)
    → Merged s r s' r'
    → NoTouch r' (as_slice s')
    → (t : RangeSet) (res : Result Error (Unit {0})) → push (s', r') ≡ ok (t, res)
    → (res ≡ good tt) × Inserted s r t
push-Inserted s r s' r' m n t res pushed = elim (dec_lt s'.idx range_count) [
  | no full ↦ absurd (ground (arith, push-panic s' r' m.ready.valid (omega arith)))
  | yes room ↦
      let (u, e, v', l) = push-append s' r' m.ready.valid room in
      let same = λ (x : ℕ).
        ap (covers x) l
        ∙ (covers-append x (as_slice s') (r' ∷ [])
            ∙ (or_swap (covers x (as_slice s')) (within x r') ∙ m.same x)) in
      let apart =
        subst IsApart (sym l) (IsApart-append (as_slice s') r' m.ready.apart m.ready.proper n) in
      let both : ◌≡◌ {A = RangeSet × Result Error (Unit {0})} (u, good tt) (t, res) =
        ok_inj (sym e ∙ pushed) in
      subst (λ (p : RangeSet × Result Error (Unit {0})). (p.1 ≡ good tt) × Inserted s r p.0) both
        (refl, record { valid = v'; apart = apart; same = same })
]

-- A call of `insert` with a range that is not empty, on a set of ranges that are apart, that returns has returned `Ok`;
-- the ranges are still apart, and cover what they did and the new range.
pub insert-Inserted :
    (s : RangeSet) (r : Range) (t : RangeSet) (res : Result Error (Unit {0}))
    → IsValid s
    → IsApart (as_slice s)
    → IsRange r
    → insert s r ≡ ok (t, res)
    → (res ≡ good tt) × Inserted s r t
unfolding insert
insert-Inserted s r t res v a p run =
    let go = rw (le→not-ltb r.end r.start p.0) at run in
    let ((s', r'), merged, pushed) = >>=-eq-ok (merge_blocks (s.idx + 1) s r) push go in
    let w : Ready s r = record { valid = v; apart = a; proper = p } in
    let (m, n) = merge_blocks-Merged (s.idx + 1) s r s' r' w merged in
    push-Inserted s r s' r' m n t res pushed

merge_step_quiet :
    (again : RangeSet → Range → Run (RangeSet × Range)) (i : ℕ) (s : RangeSet) (r : Range)
    → IsValid s
    → NoTouch r (as_slice s)
    → i < s.idx
    → merge_step again i s r ≡ ok (s, r)
unfolding merge_step as_slice
merge_step_quiet again i s r v n h =
    let (o, e) = get_elem?_of_lt s.ranges i (omega (arith, v.size, v.bound)) in
    let miss = Fails-get (touches r) (as_slice s) i n (get_elem?-take s.ranges s.idx i h ∙ e) in
    rw (e, miss) refl

merge_loop_quiet :
    (again : RangeSet → Range → Run (RangeSet × Range)) (left i : ℕ) (s : RangeSet) (r : Range)
    → IsValid s
    → NoTouch r (as_slice s)
    → i + left ≤ s.idx
    → merge_loop again left i s r ≡ ok (s, r)
unfolding merge_loop
merge_loop_quiet again zero i s r v n h = refl
merge_loop_quiet again (suc left) i s r v n h =
    rw (merge_step_quiet again i s r v n (omega arith))
      (merge_loop_quiet again left (i + 1) s r v n (omega arith))

merge_blocks_quiet :
    (s : RangeSet) (r : Range)
    → IsValid s
    → NoTouch r (as_slice s)
    → merge_blocks (s.idx + 1) s r ≡ ok (s, r)
unfolding merge_blocks
merge_blocks_quiet s r v n =
    rw add-one (merge_loop_quiet (merge_blocks s.idx) s.idx 0 s r v n (omega arith))

-- Inserting a range that is not empty and touches no live one appends it if there is room, and panics if the array is
-- full.
pub insert_apart :
    (s : RangeSet) (r : Range)
    → IsValid s
    → IsRange r
    → NoTouch r (as_slice s)
    → (s.idx < range_count
        → (t : RangeSet) × (insert s r ≡ ok (t, good tt)) × (as_slice t ≡ as_slice s ++ r ∷ []))
      × (s.idx ≡ range_count → insert s r ≡ panic)
unfolding insert
insert_apart s r v p n = (
  λ room.
      let (t, e, _, l) = push-append s r v room in
      (t, rw (le→not-ltb r.end r.start p.0, merge_blocks_quiet s r v n) e, l),
  λ full.
      rw (le→not-ltb r.end r.start p.0, merge_blocks_quiet s r v n)
        (push-panic s r v (omega arith)),
)
