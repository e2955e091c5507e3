-- ===== src/Page/Descend.antt =====
-- The walk of `map` of page.rs down the levels: it keeps the tree, and makes the tables that are missing.
use novos.Prelude.{
  ℕ, suc, ◌+◌, ◌%◌, ◌≤◌, ◌≡◌, refl, sym, ap, ◌∙◌, inl, inr, none, some, [], ◌∷◌, ◌++◌, Run, ok,
  ◌>>=◌, Result, good, bad, usize_max, arith, le→not-ltb, subst,
}
use novos.Allocator
use novos.Buddy.{size_for_order}
use novos.Page.{Paging, store, fill, slot, zalloc_order, new_table, descend}
use novos.Page.Types.{Error, already_mapped, alloc}
use novos.Page.Entry.{kind, branch_entry, vpn}
use novos.Page.Words.{vpn_bound}
use novos.Page.Tree.{PageSource, IsPointer, table_at_lem, Levels, Tree, Kept-refl}
use novos.Page.Grow.{kind_cases, result_cases, Descended, Tree-pages, grown, grown-Descended}

module _ {A : Type 0} {alloc_order : ℕ → A → Run (A × Result Allocator.Error ℕ)} {off : ℕ}
    (source : PageSource alloc_order off) (whole : off % 4096 ≡ 0) (top : ℕ) where
  descend_empty :
      (s : Paging A) (table vaddr idx : ℕ)
      → kind (s.memory (slot table vaddr idx)) ≡ none
      → descend alloc_order vaddr idx table s
        ≡ (zalloc_order alloc_order 0 s >>= new_table alloc_order (slot table vaddr idx))
  unfolding descend
  descend_empty s table vaddr idx empty = rw (descend, empty) refl

  descend_refused :
      (s : Paging A) (table vaddr idx : ℕ) (b : A) (e : Allocator.Error)
      → kind (s.memory (slot table vaddr idx)) ≡ none
      → alloc_order 0 s.pages ≡ ok (b, bad e)
      → descend alloc_order vaddr idx table s ≡ ok (record s { pages = b }, bad (alloc e))
  unfolding zalloc_order new_table
  descend_refused s table vaddr idx b e empty run =
      descend_empty s table vaddr idx empty ∙ rw run refl

  zalloc_page :
      (s : Paging A) (b : A) (p : ℕ)
      → alloc_order 0 s.pages ≡ ok (b, good p)
      → p + s.offset ≤ usize_max
      → zalloc_order alloc_order 0 s
        ≡ ok (record s { pages = b; memory = fill s.memory (p + s.offset) 4096 }, good p)
  unfolding zalloc_order size_for_order
  zalloc_page s b p run fit = rw (run, le→not-ltb usize_max (p + s.offset) fit) refl

  new_table_page :
      (s : Paging A) (at p : ℕ)
      → IsPointer (p + s.offset)
      → new_table alloc_order at (s, good p)
        ≡ ok (
          record s {
            memory = store s.memory at (branch_entry p);
            subtables = s.subtables ++ p ∷ [];
          },
          good (p + s.offset),
        )
  unfolding new_table
  new_table_page s at p fit = rw (table_at_lem s.offset p fit) refl

  descend_grown :
      (s : Paging A) (table vaddr idx : ℕ) (b : A) (p : ℕ)
      → kind (s.memory (slot table vaddr idx)) ≡ none
      → alloc_order 0 s.pages ≡ ok (b, good p)
      → IsPointer (p + s.offset)
      → descend alloc_order vaddr idx table s
        ≡ ok (
          record s {
            pages = b;
            memory =
                store (fill s.memory (p + s.offset) 4096) (slot table vaddr idx) (branch_entry p);
            subtables = s.subtables ++ p ∷ [];
          },
          good (p + s.offset),
        )
  descend_grown s table vaddr idx b p empty run fit =
      descend_empty s table vaddr idx empty
      ∙ (ap (λ m. m >>= new_table alloc_order (slot table vaddr idx)) (zalloc_page s b p run fit.1)
          ∙ new_table_page (record s { pages = b; memory = fill s.memory (p + s.offset) 4096 })
              (slot table vaddr idx) p fit)

  pub descend-Descended :
      (s : Paging A) (lv : Levels) (table vaddr idx l : ℕ)
      → Tree source top s lv
      → lv table ≡ some (suc l)
      → (s' : Paging A) × (r : Result Error ℕ) × (descend alloc_order vaddr idx table s
          ≡ ok (s', r))
        × Descended source whole top s lv table vaddr idx l s' r
  unfolding descend
  descend-Descended s lv table vaddr idx l i here =
      elim (kind_cases (kind (s.memory (slot table vaddr idx)))) [
        | inr (inl at_leaf) ↦ (
          s,
          bad already_mapped,
          rw (descend, at_leaf) refl,
          record { levels = lv; tree = i; kept = Kept-refl s lv; below = λ t e. cc },
        )
        | inr (inr (next, at_branch)) ↦
            let (fit, level) =
              i.branches table l (vpn vaddr idx) next here (vpn_bound vaddr idx) at_branch in
            let fit' : IsPointer (next + s.offset) =
              subst (λ o. IsPointer (next + o)) (sym i.offset) fit in
            let target : next + s.offset ≡ next + off = omega (arith, i.offset) in
            (
              s,
              good (next + s.offset),
              rw (descend, at_branch, table_at_lem s.offset next fit') refl,
              record {
                levels = lv;
                tree = i;
                kept = Kept-refl s lv;
                below = λ t e.
                    let same : next + s.offset ≡ t = good_inj e in
                    (ap lv (sym same ∙ target) ∙ level, next, at_branch, fit', same);
              },
            )
        | inl empty ↦
            let (b, r, run, good_b, more, fresh) = source.returns s.pages i.good_pages in
            elim (result_cases r) [
              | inl (e, failed) ↦ (
                record s { pages = b },
                bad (alloc e),
                descend_refused s table vaddr idx b e empty (rw failed at run),
                record {
                  levels = lv;
                  tree = Tree-pages source whole top s lv b i good_b more;
                  kept = record {
                    entries = refl;
                    tables = λ t k q. q;
                    stay = λ t k v next q bv w. w;
                  };
                  below = λ t q. cc;
                },
              )
              | inr (p, got) ↦
                  let (page, low, fits) = source.placed s.pages b p i.good_pages (rw got at run) in
                  let fit : IsPointer (p + s.offset) =
                    (omega (arith, fits.0), omega (arith, fits.1, i.offset)) in
                  let (new, mine) = fresh p got in
                  (
                    grown source whole top s lv i table (vpn vaddr idx) l p b here
                        (vpn_bound vaddr idx) empty good_b more new mine page low fits,
                    good (p + s.offset),
                    descend_grown s table vaddr idx b p empty (rw got at run) fit,
                    grown-Descended source whole top s lv i table (vpn vaddr idx) l p b here
                        (vpn_bound vaddr idx) empty good_b more new mine page low fits vaddr idx
                        refl,
                  )
            ]
      ]
    where
      good_inj : {a b : ℕ} → ◌≡◌ {A = Result Error ℕ} (good a) (good b) → a ≡ b
      good_inj e = cc
