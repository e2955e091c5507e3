-- ===== src/RangeSet/Merge.antt =====
-- `merge_blocks` of rangeset.rs: what it has done when it returns.
use novos.Prelude.{
  ℕ, zero, suc, ◌+◌, ◌≡◌, ◌≢◌, refl, sym, ap, ◌∙◌, inl, inr, ◌≤◌, ◌<◌, Bool, true, false, ◌||◌,
  some, arith, length, get_elem?, take, Run, ok, ◌>>=◌, unwrap, >>=-eq-ok, ok_inj, unwrap-eq-ok,
  Bool-cases, dec_lt, subst,
}
use native.Mathlib.Numerals.{add-one}
use novos.RangeSet.{
  RangeSet, Range, as_slice, touches, hull, remove_unwrap, merge_step, merge_loop, merge_blocks,
}
use novos.RangeSet.Slice.{
  IsValid, Removed, get_elem?-take, take_all, length-as_slice, remove_unwrap-Removed,
  remove_unwrap-panic,
}
use novos.RangeSet.Cover.{
  within, covers, IsRange, NoTouch, IsApart, covers-delete, IsApart-delete, IsRange-of_get,
  Fails-take, Fails-take-suc, within-hull, hull-IsRange,
}

-- What the loop relies on.
pub record Ready (s : RangeSet) (r : Range) : Type 0 where
  pub valid : IsValid s
  pub apart : IsApart (as_slice s)
  pub proper : IsRange r

-- The set lost ranges to `r`, and together they cover what they did.
pub record Merged (s : RangeSet) (r : Range) (t : RangeSet) (q : Range) : Type 0 where
  pub ready : Ready t q
  pub fewer : t.idx ≤ s.idx
  pub same : (x : ℕ) → (within x q || covers x (as_slice t)) ≡ (within x r || covers x (as_slice s))

-- The recursive call does what is to be shown, and leaves nothing that touches.
abbrev pub Again : (RangeSet → Range → Run (RangeSet × Range)) → Type 0
Again again =
    (s : RangeSet) (r : Range) (t : RangeSet) (q : Range)
    → Ready s r
    → again s r ≡ ok (t, q)
    → Merged s r t q × NoTouch q (as_slice t)

or_regroup :
    (mine other : Bool) {both joined rest left all : Bool}
    → both ≡ (joined || left)
    → joined ≡ (mine || other)
    → all ≡ (other || rest)
    → left ≡ rest
    → both ≡ (mine || all)
or_regroup mine other a b c d = ground arith

pub get-as_slice :
    (s : RangeSet) (i : ℕ) → i < s.idx → get_elem? (as_slice s) i ≡ get_elem? s.ranges i
unfolding as_slice
get-as_slice s i h = get_elem?-take s.ranges s.idx i h

Merged-refl : {s : RangeSet} {r : Range} → Ready s r → Merged s r s r
Merged-refl w = record { ready = w; fewer = omega arith; same = λ x. refl }

Merged-trans : {s t u : RangeSet} {r q p : Range} → Merged s r t q → Merged t q u p → Merged s r u p
Merged-trans m n = record {
  ready = n.ready;
  fewer = omega (arith, m.fewer, n.fewer);
  same = λ x. n.same x ∙ m.same x;
}

merge_miss :
    (i : ℕ) (s : RangeSet) (r : Range) {o : Range}
    → Ready s r
    → NoTouch r (take i (as_slice s))
    → get_elem? s.ranges i ≡ some o
    → touches r o ≡ false
    → NoTouch r (take (suc i) (as_slice s))
merge_miss i s r w n e miss = elim (dec_lt i s.idx) [
  | yes live ↦ Fails-take-suc (touches r) i (as_slice s) n (get-as_slice s i live ∙ e) miss
  | no past ↦
      let short : length (as_slice s) ≤ i = omega (arith, length-as_slice s w.valid) in
      subst (NoTouch r)
        (take_all (as_slice s) i short ∙ sym (take_all (as_slice s) (suc i) (omega arith))) n
]

-- The state in which the recursive call starts.
pub hull-Ready :
    (i : ℕ) (s : RangeSet) (r o : Range) (s' : RangeSet)
    → Ready s r
    → get_elem? s.ranges i ≡ some o
    → i < s.idx
    → Removed s i s'
    → Ready s' (hull r o)
hull-Ready i s r o s' w e live d =
    let proper = IsRange-of_get (as_slice s) i w.apart (get-as_slice s i live ∙ e) in
    record {
      valid = d.valid;
      apart = subst IsApart (sym d.slice) (IsApart-delete (as_slice s) i w.apart);
      proper = hull-IsRange r o w.proper proper;
    }

module _ {again : RangeSet → Range → Run (RangeSet × Range)} (rec : Again again) where
  -- The live range at `i` touches `r`.
  merge_hit :
      (i : ℕ) (s : RangeSet) (r o : Range) (t : RangeSet) (q : Range)
      → Ready s r
      → get_elem? s.ranges i ≡ some o
      → touches r o ≡ true
      → i < s.idx
      → (do s' ← remove_unwrap s i; again s' (hull r o)) ≡ ok (t, q)
      → Merged s r t q × NoTouch q (as_slice t)
  merge_hit i s r o t q w e hit live run =
      let (s', gone, d) = remove_unwrap-Removed s i w.valid live in
      let found : get_elem? (as_slice s) i ≡ some o = get-as_slice s i live ∙ e in
      let proper : IsRange o = IsRange-of_get (as_slice s) i w.apart found in
      let w' = hull-Ready i s r o s' w e live d in
      let (m, n) = rec s' (hull r o) t q w' (rw gone at run) in
      (
        record {
          ready = m.ready;
          fewer = omega (arith, m.fewer, d.fewer);
          same = λ x.
              or_regroup (within x r) (within x o) (m.same x)
                (within-hull x r o w.proper proper hit) (covers-delete x (as_slice s) i found)
                (ap (covers x) d.slice);
        },
        n,
      )

  -- A hit past the live ranges: `remove` fails, and `unwrap` panics.
  merge_stale :
      (i : ℕ) (s : RangeSet) (r o : Range) (t : RangeSet) (q : Range)
      → s.idx ≤ i
      → (do s' ← remove_unwrap s i; again s' (hull r o)) ≢ ok (t, q)
  merge_stale i s r o t q past run = ground (arith, remove_unwrap-panic s i past)

  -- A round passes one index: what stands before it does not touch.
  pub merge_step-Merged :
      (i : ℕ) (s : RangeSet) (r : Range) (t : RangeSet) (q : Range)
      → Ready s r
      → NoTouch r (take i (as_slice s))
      → merge_step again i s r ≡ ok (t, q)
      → Merged s r t q × NoTouch q (take (suc i) (as_slice t))
  unfolding merge_step
  merge_step-Merged i s r t q w n run =
      let (o, got, go) = >>=-eq-ok (unwrap (get_elem? s.ranges i)) _ run in
      let e : get_elem? s.ranges i ≡ some o = unwrap-eq-ok (get_elem? s.ranges i) got in
      elim (Bool-cases (touches r o)) [
        | inr miss ↦
            subst
              (λ (p : RangeSet × Range).
                Merged s r p.0 p.1 × NoTouch p.1 (take (suc i) (as_slice p.0)))
              (ok_inj (rw miss at go)) (Merged-refl w, merge_miss i s r w n e miss)
        | inl hit ↦ elim (dec_lt i s.idx) [
          | yes live ↦
              let (m, none_left) = merge_hit i s r o t q w e hit live (rw hit at go) in
              (m, Fails-take (touches q) (suc i) (as_slice t) none_left)
          | no past ↦ absurd (merge_stale i s r o t q (omega arith) (rw hit at go))
        ]
      ]

  merge_loop-Merged :
      (left i : ℕ) (s : RangeSet) (r : Range) (t : RangeSet) (q : Range)
      → Ready s r
      → NoTouch r (take i (as_slice s))
      → merge_loop again left i s r ≡ ok (t, q)
      → Merged s r t q × NoTouch q (take (i + left) (as_slice t))
  unfolding merge_loop
  merge_loop-Merged zero i s r t q w n run =
      subst
        (λ (p : RangeSet × Range). Merged s r p.0 p.1 × NoTouch p.1 (take (i + 0) (as_slice p.0)))
        (ok_inj run) (Merged-refl w, subst (λ k. NoTouch r (take k (as_slice s))) (omega arith) n)
  merge_loop-Merged (suc left) i s r t q w n run =
      let ((s', r'), first, go) = >>=-eq-ok (merge_step again i s r) _ run in
      let (m, n') = merge_step-Merged i s r s' r' w n first in
      let (m', n'') =
        merge_loop-Merged left (suc i) s' r' t q m.ready n'
          (subst (λ k. merge_loop again left k s' r' ≡ ok (t, q)) (add-one i) go) in
      (
        Merged-trans m m',
        subst (λ k. NoTouch q (take k (as_slice t))) {x = suc i + left} (omega arith) n'',
      )

-- The whole of `merge_blocks`, at every fuel.
pub merge_blocks-Merged : (fuel : ℕ) → Again (merge_blocks fuel)
unfolding merge_blocks
merge_blocks-Merged zero s r t q w run = cc
merge_blocks-Merged (suc fuel) s r t q w run =
    let (m, n) = merge_loop-Merged (merge_blocks-Merged fuel) s.idx 0 s r t q w tt run in
    (
      m,
      subst (λ xs. NoTouch q xs)
          (take_all (as_slice t) (0 + s.idx)
            (omega (arith, length-as_slice t m.ready.valid, m.fewer)))
          n,
    )
