-- ===== src/Buddy/Removal.antt =====
-- `order_remove` of buddy.rs: the walk along a free list unlinks the first node with the address.
use novos.Prelude.{
  ◌||◌, ℕ, zero, suc, ◌+◌, ◌≤◌, ◌<◌, ◌≡◌, ◌≢◌, refl, sym, ◌∙◌, Bool, true, false, inl, inr, Option,
  List, [], ◌∷◌, arith, ◌==◌, if◌then◌else◌, length, ok, usize_max, Bool-cases, le→not-ltb, subst,
}
use novos.Buddy.{BuddyAllocator, max_order, update, node, read_slot, write_slot, walk}
use novos.Buddy.Free.{
  Free, holders, count, All, member, erase, holds_self, holders-self_pos, le-total, add-le-total,
}
use novos.Buddy.Linked.{Chain, IsBlock, node_mapped}

-- No node of the list stands at the address.
abbrev pub NotNode : ℕ → ℕ → List ℕ → Type 0
NotNode off v = All (λ c. c + off ≢ v)

abbrev pub Distinct : List ℕ → Type 0
Distinct [] = Unit
Distinct (c ∷ bs) = (member c bs ≡ false) × Distinct bs

-- The memory after the node of `b` was unlinked from a list whose first pointer stands at `v`.
unfoldable pub relink : (ℕ → Option ℕ) → ℕ → ℕ → ℕ → List ℕ → ℕ → Option ℕ
relink m off v b [] = m
relink m off v b (c ∷ bs) =
    let rest = relink m off (c + off) b bs in if c == b then update m v (m (c + off)) else rest

module _ (m : ℕ → Option ℕ) (off : ℕ) where
  pub Chain-agree :
      (m' : ℕ → Option ℕ) (p : Option ℕ) (bs : List ℕ)
      → Chain m off p bs
      → All (λ c. m' (c + off) ≡ m (c + off)) bs
      → Chain m' off p bs
  Chain-agree m' p [] c h = c
  Chain-agree m' p (a ∷ bs) c h =
      (c.0, Chain-agree m' (m' (a + off)) bs (subst (λ q. Chain m off q bs) (sym h.0) c.1) h.1)

  pub relink_other :
      (v b a : ℕ) (bs : List ℕ) → a ≢ v → NotNode off a bs → relink m off v b bs a ≡ m a
  unfolding relink
  relink_other v b a [] ne h = refl
  relink_other v b a (c ∷ bs) ne h = elim (Bool-cases (c == b)) [
    | inl same ↦ rw same (ground arith)
    | inr other ↦ rw other (relink_other (c + off) b a bs (λ e. h.0 (sym e)) h.1)
  ]

  pub NotNode-of_member : (c : ℕ) (bs : List ℕ) → member c bs ≡ false → NotNode off (c + off) bs
  NotNode-of_member c [] h = tt
  NotNode-of_member c (a ∷ bs) h = (ground arith, NotNode-of_member c bs (ground arith))

  update_agree :
      (v : ℕ) (w : Option ℕ) (bs : List ℕ)
      → NotNode off v bs
      → All (λ c. update m v w (c + off) ≡ m (c + off)) bs
  update_agree v w [] h = tt
  update_agree v w (c ∷ bs) h = (ground (arith, h.0), update_agree v w bs h.1)

  pub relink-Chain :
      (v b : ℕ) (bs : List ℕ)
      → Chain m off (m v) bs
      → Distinct bs
      → NotNode off v bs
      → member b bs ≡ true
      → Chain (relink m off v b bs) off (relink m off v b bs v) (erase b bs)
  unfolding relink
  relink-Chain v b [] c d h i = cc
  relink-Chain v b (a ∷ bs) c d h i = elim (Bool-cases (a == b)) [
    | inl same ↦
        let self : update m v (m (a + off)) v ≡ m (a + off) = ground arith in
        rw (same, self)
          (Chain-agree (update m v (m (a + off))) (m (a + off)) bs c.1
            (update_agree v (m (a + off)) bs h.1))
    | inr other ↦
        let keep = relink_other (a + off) b v bs (λ e. h.0 (sym e)) h.1 in
        rw other (
          (
            keep ∙ c.0,
            relink-Chain (a + off) b bs c.1 d.1 (NotNode-of_member a bs d.0) (rw other at i),
          ))
  ]

pub relink_none :
    (m : ℕ → Option ℕ) (off v b : ℕ) (bs : List ℕ) → member b bs ≡ false → relink m off v b bs ≡ m
unfolding relink
relink_none m off v b [] h = refl
relink_none m off v b (c ∷ bs) h =
    let other : (c == b) ≡ false = ground arith in
    rw other (relink_none m off (c + off) b bs (rw other at h))

-- From a node, the walk is a relinking.
pub walk_node :
    (fuel k b v : ℕ) (s : BuddyAllocator) (bs : List ℕ)
    → Chain s.memory s.offset (s.memory v) bs
    → All (IsBlock s.offset k) bs
    → length bs < fuel
    → walk fuel k b (node v) s
      ≡ ok (record s { memory = relink s.memory s.offset v b bs }, member b bs)
unfolding walk relink read_slot write_slot
walk_node zero k b v s bs c p h = absurd (omega arith)
walk_node (suc fuel) k b v s [] c p h = rw c refl
walk_node (suc fuel) k b v s (a ∷ bs) c p h = elim (Bool-cases (a == b)) [
  | inl same ↦ rw (c.0, le→not-ltb usize_max (a + s.offset) (node_mapped (p.0)), same) refl
  | inr other ↦
      rw (c.0, le→not-ltb usize_max (a + s.offset) (node_mapped (p.0)), other)
        (walk_node fuel k b (a + s.offset) s bs c.1 p.1 (omega arith))
]

Distinct-of_apart : (k : ℕ) (bs : List ℕ) → ((x : ℕ) → holders x k bs ≤ 1) → Distinct bs
unfolding holders
Distinct-of_apart k [] h = tt
Distinct-of_apart k (c ∷ bs) h = (
  elim (Bool-cases (member c bs)) [
    | inl twice ↦ absurd (omega (arith, h c, holds_self k c, holders-self_pos k c bs twice))
    | inr once ↦ once
  ],
  Distinct-of_apart k bs (λ x. omega (arith, h x)),
)

-- The lists of two orders share no block.
module _ (f : Free) (apart : (x : ℕ) → count x f ≤ 1) (k : ℕ) (h : k < max_order) where
  pub Distinct-list : Distinct (f k)
  Distinct-list =
      Distinct-of_apart k (f k) (λ x. omega (arith, apart x, le-total (holders x) max_order k f h))

  pub disjoint : (j c : ℕ) → j < max_order → k ≢ j → member c (f j) ≡ true → member c (f k) ≡ false
  disjoint j c below ne i = elim (Bool-cases (member c (f k))) [
    | inr out ↦ out
    | inl both ↦ absurd (
        omega (
          arith,
          apart c,
          holders-self_pos j c (f j) i,
          holders-self_pos k c (f k) both,
          add-le-total (holders c) max_order j k f below h (λ e. ne (sym e)),
        ))
  ]

pub All-intro : (p : ℕ → Type 0) (bs : List ℕ) → ((c : ℕ) → member c bs ≡ true → p c) → All p bs
All-intro p [] h = tt
All-intro p (c ∷ bs) h =
    (h c (ground arith), All-intro p bs (λ d i. h d (or_right (c == d) (member d bs) i)))
  where
    or_right : (a b : Bool) → b ≡ true → (a || b) ≡ true
    or_right a b e = ground arith
