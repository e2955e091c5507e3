-- ===== src/Page/Map.antt =====
-- `map` of page.rs: what `translate` returns afterwards.
use novos.Prelude.{
  ℕ, ◌+◌, ◌-◌, ◌*◌, ◌/◌, ◌%◌, ◌^◌, ◌≤◌, ◌<◌, ◌≡◌, refl, sym, ap, ◌∙◌, inl, inr, some, Run, ok,
  ◌>>=◌, Result, good, bad, arith, subst, false, leb, ℕ_discrete,
}
use novos.Allocator
use novos.Page.{
  Paging, store, slot, descend_all, put_entry, map, traverse_from, traverse, translate,
  read_mapping,
}
use novos.Page.Types.{PageSize, size, vpn_idx, Mode, Error, already_mapped}
use novos.Page.Entry.{leaf, kind, leaf_entry, vpn}
use novos.Page.Words.{kind-leaf_entry, vpn_bound}
use novos.Page.Tree.{PageSource, Levels, Tree, store_self, store_ne}
use novos.Page.Grow.{kind_cases}
use novos.Page.Numbers.{
  IsMode, is_sv39, is_sv48, high_bits, vpn-same, traverse_from-leaf, read_mapping-leaf,
}
use novos.Page.Walk.{descend_all-Walked, Leads, Leads-store, traverse_from-Leads, result_cases}

-- What the caller of `map` asks for: aligned addresses in range, and flags for a leaf.
pub record IsRequest (mode : Mode) (paddr vaddr : ℕ) (sz : PageSize) (bits : ℕ) : Type 0 where
  pub mode_known : IsMode mode
  pub below_tera : vpn_idx sz < 3
  pub in_range : vaddr < mode.max_address
  pub from_page : paddr % size sz ≡ 0
  pub to_page : vaddr % size sz ≡ 0
  pub physical : paddr < 2 ^ 56
  pub some_flag : 0 < bits
  pub a_byte : bits < 2 ^ 8
  pub no_valid_bit : bits % 2 ≡ 0

enough_levels : (mode : Mode) → IsMode mode → 3 ≤ mode.levels
enough_levels mode is_sv39 = omega arith
enough_levels mode is_sv48 = omega arith

module _ {A : Type 0} {alloc_order : ℕ → A → Run (A × Result Allocator.Error ℕ)} {off : ℕ}
    (source : PageSource alloc_order off) (whole : off % 4096 ≡ 0) (mode : Mode) where
  abbrev top : ℕ
  top = mode.levels - 1

  -- The checks pass.
  map-checked :
      (s : Paging A) (paddr vaddr : ℕ) (sz : PageSize) (bits : ℕ)
      → IsRequest mode paddr vaddr sz bits
      → map alloc_order mode paddr vaddr sz bits s ≡ (
          descend_all alloc_order vaddr (vpn_idx sz) (top - vpn_idx sz) s.entries s
          >>= put_entry alloc_order (8 * vpn vaddr (vpn_idx sz)) (leaf_entry paddr bits))
  unfolding map
  map-checked s paddr vaddr sz bits q =
      rw
        (
          supported (vpn_idx sz) mode.levels
              (omega (arith, enough_levels mode q.mode_known, q.below_tera)),
          supported vaddr mode.max_address q.in_range,
          high_bits mode q.mode_known vaddr q.in_range,
          q.from_page,
          q.to_page,
        )
        refl
    where
      supported : (a b : ℕ) → a < b → leb b a ≡ false
      supported a b h = ground arith

  -- The leaf is written into the table `u`.
  pub put_leaf-Tree :
      (s : Paging A) (lv : Levels) (u v word : ℕ)
      → Tree source top s lv
      → kind word ≡ some leaf
      → Tree source top (record s { memory = store s.memory (u + 8 * v) word }) lv
  put_leaf-Tree s lv u v word i at_leaf = record {
    good_pages = i.good_pages;
    offset = i.offset;
    root = i.root;
    aligned = i.aligned;
    owned = i.owned;
    branches = λ t l w next e bw q. elim (ℕ_discrete (t + 8 * w) (u + 8 * v)) [
      | no other ↦
          i.branches t l w next e bw
            (sym (ap kind (store_ne s.memory (u + 8 * v) word (t + 8 * w) other)) ∙ q)
      | yes same ↦
          let stored =
            ap (λ a. kind (store s.memory (u + 8 * v) word a)) same
            ∙ (ap kind (store_self s.memory (u + 8 * v) word) ∙ at_leaf) in
          let clash = sym q ∙ stored in cc
    ];
    bottom = λ t w next e bw q. elim (ℕ_discrete (t + 8 * w) (u + 8 * v)) [
      | no other ↦
          i.bottom t w next e bw
            (sym (ap kind (store_ne s.memory (u + 8 * v) word (t + 8 * w) other)) ∙ q)
      | yes same ↦
          let stored =
            ap (λ a. kind (store s.memory (u + 8 * v) word a)) same
            ∙ (ap kind (store_self s.memory (u + 8 * v) word) ∙ at_leaf) in
          let clash = sym q ∙ stored in cc
    ];
  }

  -- What `translate` says of the addresses of the page.
  abbrev pub IsMapped : ℕ → ℕ → PageSize → ℕ → Paging A → Type 0
  IsMapped paddr vaddr sz bits s =
      (x : ℕ)
      → x / size sz ≡ vaddr / size sz
      → translate mode x s ≡ ok (some (paddr + x % size sz, sz, bits))

  put_leaf-IsMapped :
      (s : Paging A) (lv : Levels) (paddr vaddr : ℕ) (sz : PageSize) (bits u : ℕ)
      → IsRequest mode paddr vaddr sz bits
      → Tree source top s lv
      → lv u ≡ some (vpn_idx sz)
      → Leads s lv vaddr (vpn_idx sz) (top - vpn_idx sz) s.entries u
      → IsMapped paddr vaddr sz bits (record s {
        memory = store s.memory (u + 8 * vpn vaddr (vpn_idx sz)) (leaf_entry paddr bits);
      })
  unfolding translate traverse
  put_leaf-IsMapped s lv paddr vaddr sz bits u q i here way x same =
      let last = vpn_idx sz in
      let word = leaf_entry paddr bits in
      let t = record s { memory = store s.memory (u + 8 * vpn vaddr last) word } in
      let (at_leaf, f, frame) =
        kind-leaf_entry paddr bits q.physical q.some_flag q.a_byte q.no_valid_bit in
      let numbers = vpn-same sz x vaddr last same (omega arith) in
      let stored : t.memory (slot u x last) ≡ word =
        ap (λ n. t.memory (u + 8 * n)) numbers
        ∙ store_self s.memory (u + 8 * vpn vaddr last) word in
      let levels : top ≡ last + (top - last) =
        omega (arith, enough_levels mode q.mode_known, q.below_tera) in
      let walk =
        ap (λ l. traverse_from l x s.entries t) levels
        ∙ (traverse_from-Leads t lv vaddr x last (top - last) s.entries u
              (λ i le. vpn-same sz x vaddr i same le)
              (Leads-store s lv vaddr last (top - last) s.entries u u (vpn vaddr last) word
                i.aligned here (vpn_bound vaddr last) way)
            ∙ traverse_from-leaf sz x u t q.below_tera (ap kind stored ∙ at_leaf)) in
      ap (λ m. m >>= λ found. ok (read_mapping x t found)) walk
      ∙ ap ok (
          read_mapping-leaf t (slot u x last) paddr bits x sz stored q.from_page q.physical f frame)

  -- `map` returns; the tables are a tree again.
  pub record Mapped (paddr vaddr : ℕ) (sz : PageSize) (bits : ℕ) (s' : Paging A)
      (r : Result Error (Unit {0})) : Type 0 where
    pub levels : Levels
    pub tree : Tree source top s' levels
    pub done : r ≡ good tt → IsMapped paddr vaddr sz bits s'

  refused-Mapped :
      (paddr vaddr : ℕ) (sz : PageSize) (bits : ℕ) (s : Paging A) (lv : Levels) (e : Error)
      → Tree source top s lv
      → Mapped paddr vaddr sz bits s (bad e)
  refused-Mapped paddr vaddr sz bits s lv e i = record { levels = lv; tree = i; done = λ q. cc }

  put_entry-Mapped :
      (s : Paging A) (lv : Levels) (paddr vaddr : ℕ) (sz : PageSize) (bits u : ℕ)
      → IsRequest mode paddr vaddr sz bits
      → Tree source top s lv
      → lv u ≡ some (vpn_idx sz)
      → Leads s lv vaddr (vpn_idx sz) (top - vpn_idx sz) s.entries u
      → (s' : Paging A) × (r : Result Error (Unit {0})) × (put_entry alloc_order
            (8 * vpn vaddr (vpn_idx sz))
            (leaf_entry paddr bits)
            (s, good u)
          ≡ ok (s', r))
        × Mapped paddr vaddr sz bits s' r
  unfolding put_entry
  put_entry-Mapped s lv paddr vaddr sz bits u q i here way =
      let v = vpn vaddr (vpn_idx sz) in
      let word = leaf_entry paddr bits in
      let t = record s { memory = store s.memory (u + 8 * v) word } in
      let (at_leaf, _, _) =
        kind-leaf_entry paddr bits q.physical q.some_flag q.a_byte q.no_valid_bit in
      let after : Mapped paddr vaddr sz bits t (good tt) = record {
        levels = lv;
        tree = put_leaf-Tree s lv u v word i at_leaf;
        done = λ e. put_leaf-IsMapped s lv paddr vaddr sz bits u q i here way;
      } in
      elim (kind_cases (kind (s.memory (u + 8 * v)))) [
        | inl empty ↦ (t, good tt, rw (put_entry, empty) refl, after)
        | inr (inr (next, at)) ↦ (t, good tt, rw (put_entry, at) refl, after)
        | inr (inl full) ↦ (
          s,
          bad already_mapped,
          rw (put_entry, full) refl,
          refused-Mapped paddr vaddr sz bits s lv already_mapped i,
        )
      ]

  -- Over an allocator of pages that keeps the interface PageSource, as the buddy allocator does, with a page-
  -- aligned offset of the mapped memory, and for a tree of tables, `map` in the modes Sv39 and Sv48 returns
  -- for a request with aligned addresses, the virtual one below the largest of the mode and the physical one
  -- below 2 ^ 56, a size below 512 GiB, and flags of a byte with at least one flag besides the valid bit; the
  -- tables are a tree again. If it returns `Ok`, `translate` sends every address of the page to the one with
  -- the same offset from the physical address, with the size and flags asked for. For 512 GiB this fails:
  -- `map` may return `Ok`, and `translate` panics.
  pub map-Mapped :
      (s : Paging A) (lv : Levels) (paddr vaddr : ℕ) (sz : PageSize) (bits : ℕ)
      → IsRequest mode paddr vaddr sz bits
      → Tree source top s lv
      → (s' : Paging A) × (r : Result Error (Unit {0})) × (map alloc_order mode paddr vaddr sz bits
            s
          ≡ ok (s', r))
        × Mapped paddr vaddr sz bits s' r
  unfolding put_entry
  map-Mapped s lv paddr vaddr sz bits q i =
      let last = vpn_idx sz in
      let levels : top ≡ last + (top - last) =
        omega (arith, enough_levels mode q.mode_known, q.below_tera) in
      let (s1, r, run, w) =
        descend_all-Walked source whole top s lv vaddr last (top - last) s.entries i
          (i.root ∙ ap some levels) in
      let start =
        map-checked s paddr vaddr sz bits q
        ∙ ap (λ m. m >>= put_entry alloc_order (8 * vpn vaddr last) (leaf_entry paddr bits)) run in
      elim (result_cases source whole top r) [
        | inl (e, failed) ↦ (
          s1,
          bad e,
          start ∙ put_refused (8 * vpn vaddr last) (leaf_entry paddr bits) s1 r e failed,
          refused-Mapped paddr vaddr sz bits s1 w.levels e w.tree,
        )
        | inr (u, got) ↦
            let (here, way) = w.reach u got in
            let way' =
              subst (λ n. Leads s1 w.levels vaddr last (top - last) n u) (sym w.kept.entries) way in
            let (s2, r', rest, m) =
              put_entry-Mapped s1 w.levels paddr vaddr sz bits u q w.tree here way' in
            (
              s2,
              r',
              start
                  ∙ (ap
                        (λ g.
                          put_entry alloc_order (8 * vpn vaddr last) (leaf_entry paddr bits)
                            (s1, g))
                        got
                      ∙ rest),
              m,
            )
      ]
    where
      put_refused :
          (at word : ℕ) (s1 : Paging A) (r : Result Error ℕ) (e : Error)
          → r ≡ bad e
          → put_entry alloc_order at word (s1, r) ≡ ok (s1, bad e)
      put_refused at word s1 r e failed = ap (λ g. put_entry alloc_order at word (s1, g)) failed
