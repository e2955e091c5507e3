-- ===== src/Buddy/Linked.antt =====
-- The free lists of buddy.rs in memory: `order_push`, `order_pop` and `order_remove` act on linked lists as they
-- would on lists of addresses.
use novos.Prelude.{
  ℕ, suc, ◌+◌, ◌≤◌, ◌<◌, ◌≡◌, ◌≢◌, refl, sym, ap, ◌∙◌, false, Option, none, some, List, [], ◌∷◌,
  arith, length, length-set, get_elem?, get_elem?-set_self, get_elem?-set_ne, ok, usize_max,
  le→not-ltb, subst,
}
use novos.Buddy.{BuddyAllocator, max_order, update, set_order, order_push, order_pop, pop_head}
use novos.Buddy.Blocks.{block_size, block_size_pos, holds, IsAligned}
use novos.Buddy.Free.{
  Free, upd, upd_all, holders, count, total-upd, All, member, not-member_of_count, holds_self,
  le-total,
}

-- From a pointer the `next` fields lead through the nodes of a list.
abbrev pub Chain : (ℕ → Option ℕ) → ℕ → Option ℕ → List ℕ → Type 0
Chain m off p [] = p ≡ none
Chain m off p (b ∷ bs) = (p ≡ some b) × Chain m off (m (b + off)) bs

pub record Linked (s : BuddyAllocator) (k : ℕ) (bs : List ℕ) : Type 0 where
  pub first : Option ℕ
  pub there : get_elem? s.orders k ≡ some first
  pub chain : Chain s.memory s.offset first bs

-- A block that a free list of order `k` may hold.
pub record IsBlock (off k b : ℕ) : Type 0 where
  pub nonnull : 0 < b
  pub aligned : IsAligned b k
  pub mapped : b + block_size k + off ≤ suc usize_max

pub node_mapped : {off k b : ℕ} → IsBlock off k b → b + off ≤ usize_max
node_mapped {off} {k} {b} p = omega (arith, p.mapped, block_size_pos k)

-- The lists in memory are those of `f`, and no address lies in two free blocks.
pub record Lists (s : BuddyAllocator) (f : Free) : Type 0 where
  pub size : length s.orders ≡ max_order
  pub linked : (k : ℕ) → k < max_order → Linked s k (f k)
  pub blocks : (k : ℕ) → k < max_order → All (IsBlock s.offset k) (f k)
  pub apart : (x : ℕ) → count x f ≤ 1

update_self : (m : ℕ → Option ℕ) (a : ℕ) (v : Option ℕ) → update m a v a ≡ v
update_self m a v = ground arith

Chain-update :
    (m : ℕ → Option ℕ) (off : ℕ) (p : Option ℕ) (bs : List ℕ) (b : ℕ) (v : Option ℕ)
    → Chain m off p bs
    → member b bs ≡ false
    → Chain (update m (b + off) v) off p bs
Chain-update m off p [] b v c h = c
Chain-update m off p (a ∷ bs) b v c h =
    let keep : m (a + off) ≡ update m (b + off) v (a + off) = ground arith in
    (
      c.0,
      Chain-update m off (update m (b + off) v (a + off)) bs b v
          (subst (λ q. Chain m off q bs) keep c.1) (ground arith),
    )

-- The other lists do not see a write to the node of `b`, nor one to the head of order `k`.
Linked-other :
    (s : BuddyAllocator) (k j b : ℕ) (p v : Option ℕ) (bs : List ℕ)
    → Linked s j bs
    → k ≢ j
    → member b bs ≡ false
    → Linked (set_order (record s { memory = update s.memory (b + s.offset) v }) k p) j bs
Linked-other s k j b p v bs l ne out = record {
  first = l.first;
  there = get_elem?-set_ne s.orders k j p ne ∙ l.there;
  chain = Chain-update s.memory s.offset l.first bs b v l.chain out;
}

-- What a push leaves.
pub record Pushed (s : BuddyAllocator) (f : Free) (k b : ℕ) (t : BuddyAllocator) : Type 0 where
  pub lists : Lists t (upd f k (b ∷ f k))
  pub stats : t.stats ≡ s.stats
  pub offset : t.offset ≡ s.offset

count-upd :
    (x k : ℕ) (f : Free) (xs : List ℕ)
    → k < max_order
    → count x (upd f k xs) + holders x k (f k) ≡ count x f + holders x k xs
count-upd x k f xs h = total-upd (holders x) max_order k f xs h

pub count-push :
    (x k b : ℕ) (f : Free) → k < max_order → count x (upd f k (b ∷ f k)) ≡ count x f + holds x k b
unfolding holders
count-push x k b f h = omega (arith, count-upd x k f (b ∷ f k) h)

pub order_push-Pushed :
    (s : BuddyAllocator) (f : Free) (k b : ℕ)
    → Lists s f
    → k < max_order
    → IsBlock s.offset k b
    → ((x : ℕ) → count x f + holds x k b ≤ 1)
    → (t : BuddyAllocator) × (order_push k b s ≡ ok t) × Pushed s f k b t
unfolding order_push
order_push-Pushed s f k b l h p room =
    let here = l.linked k h in
    let none_there : count b f ≡ 0 = omega (arith, room b, holds_self k b) in
    let out = λ (j : ℕ) (below : j < max_order). not-member_of_count f j b none_there below in
    let t =
      set_order (record s { memory = update s.memory (b + s.offset) here.first }) k (some b) in
    (
      t,
      rw (here.there, le→not-ltb usize_max (b + s.offset) (node_mapped p)) refl,
      record {
        lists = record {
          size = length-set s.orders k (some b) ∙ l.size;
          linked =
              upd_all (λ j bs. j < max_order → Linked t j bs) f k (b ∷ f k)
                (λ _. record {
                  first = some b;
                  there = get_elem?-set_self s.orders k (some b) (omega (arith, l.size));
                  chain = (
                    refl,
                    subst (λ q. Chain t.memory s.offset q (f k))
                        (sym (update_self s.memory (b + s.offset) here.first))
                        (Chain-update s.memory s.offset here.first (f k) b here.first here.chain
                          (out k h)),
                  );
                })
                (λ j ne below.
                  Linked-other s k j b (some b) here.first (f j) (l.linked j below) ne
                    (out j below));
          blocks =
              upd_all (λ j bs. j < max_order → All (IsBlock s.offset j) bs) f k (b ∷ f k)
                (λ _. (p, l.blocks k h)) (λ j _. l.blocks j);
          apart = λ x. omega (arith, count-push x k b f h, room x);
        };
        stats = refl;
        offset = refl;
      },
    )

-- What a removal from a list leaves: the memory of other lists is untouched.
pub record Taken (s : BuddyAllocator) (f : Free) (k : ℕ) (bs : List ℕ) (t : BuddyAllocator)
    : Type 0 where
  pub lists : Lists t (upd f k bs)
  pub stats : t.stats ≡ s.stats
  pub offset : t.offset ≡ s.offset

pub order_pop-none :
    (s : BuddyAllocator) (f : Free) (k : ℕ)
    → Lists s f
    → k < max_order
    → f k ≡ []
    → order_pop k s ≡ ok (s, none)
unfolding order_pop
order_pop-none s f k l h e =
    let here = l.linked k h in
    let nil : here.first ≡ none = subst (Chain s.memory s.offset here.first) e here.chain in
    rw (here.there, nil) refl

pub holders-eq :
    (x k b : ℕ) (f : Free) (bs : List ℕ)
    → f k ≡ b ∷ bs
    → holders x k (f k) ≡ holds x k b + holders x k bs
unfolding holders
holders-eq x k b f bs e = ap (holders x k) e

-- The lists that a removal of `b` from the list of order `k` leaves hold `b` nowhere.
pub count-take :
    (x k b : ℕ) (f : Free) (bs : List ℕ)
    → k < max_order
    → holders x k (f k) ≡ holds x k b + holders x k bs
    → count x (upd f k bs) + holds x k b ≡ count x f
count-take x k b f bs h e =
    omega (arith, count-upd x k f bs h, le-total (holders x) max_order k f h)

pub unlink_first-Taken :
    (s : BuddyAllocator) (f : Free) (k b : ℕ) (bs : List ℕ)
    → Lists s f
    → k < max_order
    → f k ≡ b ∷ bs
    → Taken s f k bs (set_order s k (s.memory (b + s.offset)))
unlink_first-Taken s f k b bs l h e =
    let here = l.linked k h in
    let chain = subst (Chain s.memory s.offset here.first) e here.chain in
    let ok_blocks = subst (All (IsBlock s.offset k)) e (l.blocks k h) in
    let t = set_order s k (s.memory (b + s.offset)) in
    record {
      lists = record {
        size = length-set s.orders k (s.memory (b + s.offset)) ∙ l.size;
        linked =
            upd_all (λ j xs. j < max_order → Linked t j xs) f k bs
              (λ _. record {
                first = s.memory (b + s.offset);
                there =
                    get_elem?-set_self s.orders k (s.memory (b + s.offset)) (omega (arith, l.size));
                chain = chain.1;
              })
              (λ j ne below. record {
                first = (l.linked j below).first;
                there =
                    get_elem?-set_ne s.orders k j (s.memory (b + s.offset)) ne
                    ∙ (l.linked j below).there;
                chain = (l.linked j below).chain;
              });
        blocks =
            upd_all (λ j xs. j < max_order → All (IsBlock s.offset j) xs) f k bs (λ _. ok_blocks.1)
              (λ j _. l.blocks j);
        apart = λ x. omega (arith, count-take x k b f bs h (holders-eq x k b f bs e), l.apart x);
      };
      stats = refl;
      offset = refl;
    }

pub order_pop-some :
    (s : BuddyAllocator) (f : Free) (k b : ℕ) (bs : List ℕ)
    → Lists s f
    → k < max_order
    → f k ≡ b ∷ bs
    → (t : BuddyAllocator) × (order_pop k s ≡ ok (t, some b))
      × IsBlock s.offset k b
      × Taken s f k bs t
unfolding order_pop pop_head
order_pop-some s f k b bs l h e =
    let here = l.linked k h in
    let chain = subst (Chain s.memory s.offset here.first) e here.chain in
    let ok_blocks = subst (All (IsBlock s.offset k)) e (l.blocks k h) in
    (
      set_order s k (s.memory (b + s.offset)),
      rw (here.there, chain.0, le→not-ltb usize_max (b + s.offset) (node_mapped (ok_blocks.0)))
          refl,
      ok_blocks.0,
      unlink_first-Taken s f k b bs l h e,
    )
