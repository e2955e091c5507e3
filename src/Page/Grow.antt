-- ===== src/Page/Grow.antt =====
-- A round of the walk of page.rs that makes a table: the new page joins the tree.
use novos.Prelude.{
  ℕ, suc, ◌+◌, ◌*◌, ◌%◌, ◌^◌, ◌≤◌, ◌<◌, ◌≡◌, ◌≢◌, refl, sym, ap, ◌∙◌, ◌⊎◌, inl, inr, Option, none,
  some, [], ◌∷◌, ◌++◌, Run, Result, good, bad, arith, subst, ◌==◌, if◌then◌else◌, ℕ_discrete,
}
use novos.Allocator
use novos.Page.{Paging, store, fill, slot}
use novos.Page.Types.{Error}
use novos.Page.Entry.{EntryKind, branch, leaf, kind, branch_entry, vpn}
use novos.Page.Words.{kind-branch_entry, kind-zero}
use novos.Page.Tree.{
  PageSource, IsPointer, Levels, Tree, Kept, slots_apart, store_self, store_ne, fill_out, fill_in,
}

pub kind_cases :
    (k : Option EntryKind)
    → (k ≡ none) ⊎ ((k ≡ some leaf) ⊎ ((next : ℕ) × (k ≡ some (branch next))))
kind_cases none = inl refl
kind_cases (some leaf) = inr (inl refl)
kind_cases (some (branch next)) = inr (inr (next, refl))

pub result_cases :
    (r : Result Allocator.Error ℕ)
    → ((e : Allocator.Error) × (r ≡ bad e)) ⊎ ((p : ℕ) × (r ≡ good p))
result_cases (bad e) = inl (e, refl)
result_cases (good p) = inr (p, refl)

pub branch_inj : {a b : ℕ} → some (branch a) ≡ some (branch b) → a ≡ b
branch_inj e = cc

abbrev add_level : Levels → ℕ → ℕ → Levels
add_level lv t l u = if u == t then some l else lv u

add_level_self : (lv : Levels) (t l : ℕ) → add_level lv t l t ≡ some l
add_level_self lv t l = ground arith

add_level_ne : (lv : Levels) (t l u : ℕ) → u ≢ t → add_level lv t l u ≡ lv u
add_level_ne lv t l u ne = ground arith

some_inj : {a b : ℕ} → some a ≡ some b → a ≡ b
some_inj e = cc

module _ {A : Type 0} {alloc_order : ℕ → A → Run (A × Result Allocator.Error ℕ)} {off : ℕ}
    (source : PageSource alloc_order off) (whole : off % 4096 ≡ 0) (top : ℕ) where
  -- What a round leaves: the table of the next level, if it goes on.
  pub record Descended (s : Paging A) (lv : Levels) (table vaddr idx l : ℕ) (s' : Paging A)
      (r : Result Error ℕ) : Type 0 where
    pub levels : Levels
    pub tree : Tree source top s' levels
    pub kept : Kept s lv s' levels
    pub below :
        (t : ℕ)
        → r ≡ good t
        → (levels t ≡ some l)
          × (next : ℕ) × (kind (s'.memory (slot table vaddr idx)) ≡ some (branch next))
          × IsPointer (next + s'.offset)
          × (next + s'.offset ≡ t)

  pub Tree-pages :
      (s : Paging A) (lv : Levels) (b : A)
      → Tree source top s lv
      → source.IsGood b
      → ((p : ℕ) → source.IsOwned s.pages p → source.IsOwned b p)
      → Tree source top (record s { pages = b }) lv
  Tree-pages s lv b i g more = record {
    good_pages = g;
    offset = i.offset;
    root = i.root;
    aligned = i.aligned;
    owned = λ t l e. let (p, at, own) = i.owned t l e in (p, at, more p own);
    branches = i.branches;
    bottom = i.bottom;
  }

  -- A new page `p` becomes the table under the empty entry `at`.
  module _ (s : Paging A) (lv : Levels) (i : Tree source top s lv) (table v l p : ℕ) (b : A)
      (here : lv table ≡ some (suc l)) (bound : v < 512)
      (empty : kind (s.memory (table + 8 * v)) ≡ none) (good_b : source.IsGood b)
      (more : (q : ℕ) → source.IsOwned s.pages q → source.IsOwned b q)
      (fresh : source.IsOwned s.pages p → ⊥) (mine : source.IsOwned b p) (page : p % 4096 ≡ 0)
      (low : p < 2 ^ 56) (fits : (0 < p) × (p + off + 4096 ≤ 2 ^ 64)) where
    abbrev pub grown : Paging A
    grown = record s {
      pages = b;
      memory = store (fill s.memory (p + s.offset) 4096) (table + 8 * v) (branch_entry p);
      subtables = s.subtables ++ p ∷ [];
    }

    abbrev grown_levels : Levels
    grown_levels = add_level lv (p + s.offset) l

    absent : (t k : ℕ) → lv t ≡ some k → t ≢ p + s.offset
    absent t k e same =
        let (q, at, own) = i.owned t k e in
        let eq : q ≡ p = omega (arith, at, same, i.offset) in
        fresh (subst (source.IsOwned s.pages) eq own)

    new_aligned : (p + s.offset) % 4096 ≡ 0
    new_aligned = omega (arith, i.offset, whole, page)

    -- A word of an old table, but for the one entry.
    old_word :
        (t k w : ℕ)
        → lv t ≡ some k
        → w < 512
        → t + 8 * w ≢ table + 8 * v
        → grown.memory (t + 8 * w) ≡ s.memory (t + 8 * w)
    old_word t k w e bw ne =
        store_ne (fill s.memory (p + s.offset) 4096) (table + 8 * v) (branch_entry p) (t + 8 * w) ne
        ∙ fill_out s.memory (p + s.offset) t w new_aligned (i.aligned t k e) bw (absent t k e)

    new_word : kind (grown.memory (table + 8 * v)) ≡ some (branch p)
    new_word =
        ap kind (store_self (fill s.memory (p + s.offset) 4096) (table + 8 * v) (branch_entry p))
        ∙ kind-branch_entry p page low

    zero_word : (w : ℕ) → w < 512 → kind (grown.memory (p + s.offset + 8 * w)) ≡ none
    zero_word w bw =
        let ne = λ (e : p + s.offset + 8 * w ≡ table + 8 * v).
          slots_apart table (p + s.offset) v w (i.aligned table (suc l) here) new_aligned bound bw
            (absent table (suc l) here) (sym e) in
        ap kind (
          store_ne (fill s.memory (p + s.offset) 4096) (table + 8 * v) (branch_entry p)
            (p + s.offset + 8 * w) ne
          ∙ fill_in s.memory (p + s.offset) w bw)
        ∙ kind-zero

    grown-Kept : Kept s lv grown grown_levels
    grown-Kept = record {
      entries = refl;
      tables = λ t k e. add_level_ne lv (p + s.offset) l t (absent t k e) ∙ e;
      stay = λ t k w next e bw q.
          ap kind (old_word t k w e bw (λ same. clash (ap (λ a. kind (s.memory a)) same) q)) ∙ q;
    }
      where
        clash :
            {a : Option EntryKind} {next : ℕ}
            → a ≡ kind (s.memory (table + 8 * v))
            → a ≡ some (branch next)
            → ⊥
        clash same q = let none_there = sym q ∙ (same ∙ empty) in cc

    grown-branches :
        (t k w next : ℕ)
        → grown_levels t ≡ some (suc k)
        → w < 512
        → kind (grown.memory (t + 8 * w)) ≡ some (branch next)
        → IsPointer (next + off) × (grown_levels (next + off) ≡ some k)
    grown-branches t k w next e bw q = elim (ℕ_discrete t (p + s.offset)) [
      | yes same ↦
          let nothing = ap (λ u. kind (grown.memory (u + 8 * w))) same ∙ zero_word w bw in
          let clash = sym q ∙ nothing in cc
      | no other ↦
          let old = sym (add_level_ne lv (p + s.offset) l t other) ∙ e in
          elim (ℕ_discrete (t + 8 * w) (table + 8 * v)) [
            | no apart ↦
                let (fit, level) =
                  i.branches t k w next old bw
                    (sym (ap kind (old_word t (suc k) w old bw apart)) ∙ q) in
                (
                  fit,
                  add_level_ne lv (p + s.offset) l (next + off) (absent (next + off) k level)
                      ∙ level,
                )
            | yes at ↦
                let page_eq : p ≡ next =
                  branch_inj (sym new_word ∙ (ap (λ a. kind (grown.memory a)) (sym at) ∙ q)) in
                let level : l ≡ k = omega (arith, one_table t w k old bw at) in
                let target : next + off ≡ p + s.offset = omega (arith, page_eq, i.offset) in
                (
                  (omega (arith, page_eq, fits.0), omega (arith, page_eq, fits.1)),
                  ap grown_levels target ∙ (add_level_self lv (p + s.offset) l ∙ ap some level),
                )
          ]
    ]
      where
        one_table :
            (t w k : ℕ) → lv t ≡ some (suc k) → w < 512 → t + 8 * w ≡ table + 8 * v → suc l ≡ suc k
        one_table t w k old bw at = elim (ℕ_discrete t table) [
          | yes same ↦ some_inj (sym here ∙ (ap lv (sym same) ∙ old))
          | no other ↦ absurd (
              slots_apart t table w v (i.aligned t (suc k) old) (i.aligned table (suc l) here) bw
                bound other at)
        ]

    grown-bottom :
        (t w next : ℕ)
        → grown_levels t ≡ some 0
        → w < 512
        → kind (grown.memory (t + 8 * w)) ≢ some (branch next)
    grown-bottom t w next e bw q = elim (ℕ_discrete t (p + s.offset)) [
      | yes same ↦
          let nothing = ap (λ u. kind (grown.memory (u + 8 * w))) same ∙ zero_word w bw in
          let clash = sym q ∙ nothing in cc
      | no other ↦
          let old = sym (add_level_ne lv (p + s.offset) l t other) ∙ e in
          elim (ℕ_discrete (t + 8 * w) (table + 8 * v)) [
            | no apart ↦ i.bottom t w next old bw (sym (ap kind (old_word t 0 w old bw apart)) ∙ q)
            | yes at ↦ elim (ℕ_discrete t table) [
              | yes same ↦
                  let level : suc l ≡ 0 = some_inj (sym here ∙ (ap lv (sym same) ∙ old)) in
                  absurd (omega arith)
              | no other_table ↦ absurd (
                  slots_apart t table w v (i.aligned t 0 old) (i.aligned table (suc l) here) bw
                    bound other_table at)
            ]
          ]
    ]

    grown-Tree : Tree source top grown grown_levels
    grown-Tree = record {
      good_pages = good_b;
      offset = i.offset;
      root = grown-Kept.tables s.entries top i.root;
      aligned = λ t k e. elim (ℕ_discrete t (p + s.offset)) [
        | yes same ↦ omega (arith, new_aligned, same)
        | no other ↦ i.aligned t k (sym (add_level_ne lv (p + s.offset) l t other) ∙ e)
      ];
      owned = λ t k e. elim (ℕ_discrete t (p + s.offset)) [
        | yes same ↦ (p, omega (arith, same, i.offset), mine)
        | no other ↦
            let (q, at, own) = i.owned t k (sym (add_level_ne lv (p + s.offset) l t other) ∙ e) in
            (q, at, more q own)
      ];
      branches = grown-branches;
      bottom = grown-bottom;
    }

    pub grown-Descended :
        (vaddr idx : ℕ)
        → v ≡ vpn vaddr idx
        → Descended s lv table vaddr idx l grown (good (p + s.offset))
    grown-Descended vaddr idx at = record {
      levels = grown_levels;
      tree = grown-Tree;
      kept = grown-Kept;
      below = λ t e.
          let same : p + s.offset ≡ t = good_inj e in
          (
            ap grown_levels (sym same) ∙ add_level_self lv (p + s.offset) l,
            p,
            ap (λ n. kind (grown.memory (table + 8 * n))) (sym at) ∙ new_word,
            (omega (arith, fits.0), omega (arith, fits.1, i.offset)),
            same,
          );
    }
      where
        good_inj : {a b : ℕ} → ◌≡◌ {A = Result Error ℕ} (good a) (good b) → a ≡ b
        good_inj e = cc
