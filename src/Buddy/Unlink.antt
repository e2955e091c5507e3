-- ===== src/Buddy/Unlink.antt =====
-- `order_remove` of buddy.rs takes the block with the given address from its free list, if it is there.
use novos.Prelude.{
  ℕ, zero, suc, ◌+◌, ◌<◌, ◌≡◌, refl, ap, ap₂, ◌∙◌, true, false, inl, inr, Option, none, List, [],
  ◌∷◌, arith, leb, ◌==◌, length, ok, usize_max, Bool-cases, le→not-ltb, subst,
}
use novos.Buddy.{BuddyAllocator, max_order, set_order, read_slot, write_slot, walk, order_remove}
use novos.Buddy.Blocks.{holds}
use novos.Buddy.Free.{Free, upd_all, holders, All, member, erase, holders-erase, All-erase}
use novos.Buddy.Linked.{
  Chain, Linked, IsBlock, node_mapped, Lists, Taken, count-take, unlink_first-Taken,
}
use novos.Buddy.Removal.{
  Distinct, relink, relink_none, Chain-agree, relink_other, NotNode-of_member, relink-Chain,
  Distinct-list, disjoint, All-intro, walk_node,
}

relink_outside :
    (m : ℕ → Option ℕ) (off a b c : ℕ) (rest : List ℕ)
    → member c (a ∷ rest) ≡ false
    → relink m off (a + off) b rest (c + off) ≡ m (c + off)
relink_outside m off a b c rest out =
    relink_other m off (a + off) b (c + off) rest (ground arith)
      (NotNode-of_member m off c rest (ground arith))

holders_behind :
    (x k b a : ℕ) (f : Free) (rest : List ℕ)
    → f k ≡ a ∷ rest
    → member b rest ≡ true
    → holders x k (f k) ≡ holds x k b + holders x k (a ∷ erase b rest)
unfolding holders
holders_behind x k b a f rest e i = ap (holders x k) e ∙ omega (arith, holders-erase x k b rest i)

-- A removal from behind the head.
module _ (s : BuddyAllocator) (f : Free) (l : Lists s f) (k : ℕ) (h : k < max_order) where
  unlink-Taken :
      (b a : ℕ) (rest : List ℕ)
      → f k ≡ a ∷ rest
      → member b rest ≡ true
      → Taken s f k
          (a ∷ erase b rest)
          (record s { memory = relink s.memory s.offset (a + s.offset) b rest })
  unlink-Taken b a rest e i =
      let here = l.linked k h in
      let chain = subst (Chain s.memory s.offset here.first) e here.chain in
      let ok_blocks = subst (All (IsBlock s.offset k)) e (l.blocks k h) in
      let once = subst Distinct e (Distinct-list f l.apart k h) in
      let m' = relink s.memory s.offset (a + s.offset) b rest in
      let keep = λ (c : ℕ) (out : member c (a ∷ rest) ≡ false).
        relink_outside s.memory s.offset a b c rest out in
      record {
        lists = record {
          size = l.size;
          linked =
              upd_all (λ j xs. j < max_order → Linked (record s { memory = m' }) j xs) f k
                (a ∷ erase b rest)
                (λ _. record {
                  first = here.first;
                  there = here.there;
                  chain = (
                    chain.0,
                    relink-Chain s.memory s.offset (a + s.offset) b rest chain.1 once.1
                        (NotNode-of_member s.memory s.offset a rest once.0) i,
                  );
                })
                (λ j ne below. record {
                  first = (l.linked j below).first;
                  there = (l.linked j below).there;
                  chain =
                      Chain-agree s.memory s.offset m' (l.linked j below).first (f j)
                        (l.linked j below).chain
                        (All-intro (λ c. m' (c + s.offset) ≡ s.memory (c + s.offset)) (f j)
                          (λ c there. keep c (
                            subst (λ xs. member c xs ≡ false) e
                              (disjoint f l.apart k h j c below ne there))));
                });
          blocks =
              upd_all (λ j xs. j < max_order → All (IsBlock s.offset j) xs) f k (a ∷ erase b rest)
                (λ _. (ok_blocks.0, All-erase (IsBlock s.offset k) b rest ok_blocks.1))
                (λ j _. l.blocks j);
          apart = λ x. omega (
            arith,
            count-take x k b f (a ∷ erase b rest) h (holders_behind x k b a f rest e i),
            l.apart x,
          );
        };
        stats = refl;
        offset = refl;
      }

  in_range : leb (length s.orders) k ≡ false
  in_range = rw (l.size) (small k h)
    where
      small : (k : ℕ) → k < max_order → leb max_order k ≡ false
      small k h = ground arith

  -- What the removal does to a list of which the first node is not the block.
  order_remove-behind :
      (fuel b a : ℕ) (rest : List ℕ)
      → f k ≡ a ∷ rest
      → (a == b) ≡ false
      → length rest < fuel
      → order_remove (suc fuel) k b s
        ≡ ok (record s { memory = relink s.memory s.offset (a + s.offset) b rest }, member b rest)
  unfolding order_remove walk read_slot
  order_remove-behind fuel b a rest e other long =
      let here = l.linked k h in
      let chain = subst (Chain s.memory s.offset here.first) e here.chain in
      let ok_blocks = subst (All (IsBlock s.offset k)) e (l.blocks k h) in
      rw
        (
          in_range,
          here.there,
          chain.0,
          le→not-ltb usize_max (a + s.offset) (node_mapped (ok_blocks.0)),
          other,
        )
        (walk_node fuel k b (a + s.offset) s rest chain.1 ok_blocks.1 long)

  order_remove-first :
      (fuel b a : ℕ) (rest : List ℕ)
      → f k ≡ a ∷ rest
      → (a == b) ≡ true
      → order_remove (suc fuel) k b s ≡ ok (set_order s k (s.memory (a + s.offset)), true)
  unfolding order_remove walk read_slot write_slot
  order_remove-first fuel b a rest e same =
      let here = l.linked k h in
      let chain = subst (Chain s.memory s.offset here.first) e here.chain in
      let ok_blocks = subst (All (IsBlock s.offset k)) e (l.blocks k h) in
      rw
        (
          in_range,
          here.there,
          chain.0,
          le→not-ltb usize_max (a + s.offset) (node_mapped (ok_blocks.0)),
          same,
        )
        refl

  found_in :
      (fuel b : ℕ) (bs : List ℕ)
      → f k ≡ bs
      → length bs < fuel
      → member b bs ≡ true
      → (t : BuddyAllocator) × (order_remove fuel k b s ≡ ok (t, true)) × Taken s f k (erase b bs) t
  found_in zero b bs e long i = absurd (omega arith)
  found_in (suc fuel) b [] e long i = cc
  found_in (suc fuel) b (a ∷ rest) e long i = elim (Bool-cases (a == b)) [
    | inl same ↦ (
      set_order s k (s.memory (a + s.offset)),
      order_remove-first fuel b a rest e same,
      rw same (unlink_first-Taken s f k a rest l h e),
    )
    | inr other ↦
        let i' : member b rest ≡ true = rw other at i in
        (
          record s { memory = relink s.memory s.offset (a + s.offset) b rest },
          order_remove-behind fuel b a rest e other (omega arith)
              ∙ ap
                  (λ r.
                    ok (record s { memory = relink s.memory s.offset (a + s.offset) b rest }, r))
                  i',
          rw other (unlink-Taken b a rest e i'),
        )
  ]

  -- In sound lists, `order_remove` takes a block that is in the list of the order from it: it returns `true`, that list
  -- is the old one without the block, the lists of the other orders are as before, and so are the statistics. As
  -- many steps as the list has nodes, and one more, are enough.
  pub order_remove-found :
      (fuel b : ℕ)
      → length (f k) < fuel
      → member b (f k) ≡ true
      → (t : BuddyAllocator) × (order_remove fuel k b s ≡ ok (t, true))
        × Taken s f k (erase b (f k)) t
  order_remove-found fuel b = found_in fuel b (f k) refl

  missing_in :
      (fuel b : ℕ) (bs : List ℕ)
      → f k ≡ bs
      → length bs < fuel
      → member b bs ≡ false
      → order_remove fuel k b s ≡ ok (s, false)
  unfolding order_remove walk read_slot
  missing_in zero b bs e long i = absurd (omega arith)
  missing_in (suc fuel) b [] e long i =
      let here = l.linked k h in
      let nil : here.first ≡ none = subst (Chain s.memory s.offset here.first) e here.chain in
      rw (in_range, here.there, nil) refl
  missing_in (suc fuel) b (a ∷ rest) e long i =
      let other : (a == b) ≡ false = ground arith in
      let out : member b rest ≡ false = rw other at i in
      order_remove-behind fuel b a rest e other (omega arith)
      ∙ ap₂ (λ m r. ok (record s { memory = m }, r))
          (relink_none s.memory s.offset (a + s.offset) b rest out) out

  pub order_remove-missing :
      (fuel b : ℕ)
      → length (f k) < fuel
      → member b (f k) ≡ false
      → order_remove fuel k b s ≡ ok (s, false)
  order_remove-missing fuel b = missing_in fuel b (f k) refl
