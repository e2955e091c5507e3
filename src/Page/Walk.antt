-- ===== src/Page/Walk.antt =====
-- The way from the root to a table in page.rs: `map` makes it, and `traverse` goes it.
use novos.Prelude.{
  ℕ, zero, suc, ◌+◌, ◌*◌, ◌%◌, ◌≤◌, ◌<◌, ◌≡◌, ◌≢◌, refl, sym, ap, ap₂, ◌∙◌, ◌⊎◌, inl, inr, some,
  Run, ok, Result, good, bad, arith, subst,
}
use novos.Allocator
use novos.Page.{Paging, store, slot, descend, descend_all, traverse_from}
use novos.Page.Types.{Error}
use novos.Page.Entry.{branch, kind, vpn}
use novos.Page.Words.{vpn_bound}
use novos.Page.Tree.{
  PageSource, IsPointer, table_at_lem, Levels, Tree, Kept, Kept-refl, Kept-trans, slots_apart,
  store_ne,
}
use novos.Page.Descend.{descend-Descended}

-- `gap` branches lead from the table `t` to the table `u` of level `last`.
abbrev pub Leads : {A : Type 0} → Paging A → Levels → ℕ → ℕ → ℕ → ℕ → ℕ → Type 0
Leads s lv vaddr last zero t u = t ≡ u
Leads s lv vaddr last (suc gap) t u =
    (lv t ≡ some (last + suc gap))
    × (next : ℕ) × (kind (s.memory (slot t vaddr (last + suc gap))) ≡ some (branch next))
    × IsPointer (next + s.offset)
    × Leads s lv vaddr last gap (next + s.offset) u

module _ {A : Type 0} {alloc_order : ℕ → A → Run (A × Result Allocator.Error ℕ)} {off : ℕ}
    (source : PageSource alloc_order off) (whole : off % 4096 ≡ 0) (top : ℕ) where
  pub record Walked (s : Paging A) (lv : Levels) (vaddr last gap t : ℕ) (s' : Paging A)
      (r : Result Error ℕ) : Type 0 where
    pub levels : Levels
    pub tree : Tree source top s' levels
    pub kept : Kept s lv s' levels
    pub reach : (u : ℕ) → r ≡ good u → (levels u ≡ some last) × Leads s' levels vaddr last gap t u

  pub result_cases : (r : Result Error ℕ) → ((e : Error) × (r ≡ bad e)) ⊎ ((p : ℕ) × (r ≡ good p))
  result_cases (bad e) = inl (e, refl)
  result_cases (good p) = inr (p, refl)

  descend_all-more :
      (vaddr last gap t u : ℕ) (s s1 : Paging A)
      → descend alloc_order vaddr (last + suc gap) t s ≡ ok (s1, good u)
      → descend_all alloc_order vaddr last (suc gap) t s
        ≡ descend_all alloc_order vaddr last gap u s1
  unfolding descend_all
  descend_all-more vaddr last gap t u s s1 run = rw run refl

  descend_all-stop :
      (vaddr last gap t : ℕ) (s s1 : Paging A) (e : Error)
      → descend alloc_order vaddr (last + suc gap) t s ≡ ok (s1, bad e)
      → descend_all alloc_order vaddr last (suc gap) t s ≡ ok (s1, bad e)
  unfolding descend_all
  descend_all-stop vaddr last gap t s s1 e run = rw run refl

  pub descend_all-Walked :
      (s : Paging A) (lv : Levels) (vaddr last gap t : ℕ)
      → Tree source top s lv
      → lv t ≡ some (last + gap)
      → (s' : Paging A) × (r : Result Error ℕ) × (descend_all alloc_order vaddr last gap t s
          ≡ ok (s', r))
        × Walked s lv vaddr last gap t s' r
  unfolding descend_all
  descend_all-Walked s lv vaddr last zero t i here = (
    s,
    good t,
    refl,
    record {
      levels = lv;
      tree = i;
      kept = Kept-refl s lv;
      reach = λ u e.
          let same : t ≡ u = good_inj e in
          (ap lv (sym same) ∙ (here ∙ ap some (last_zero last)), same);
    },
  )
    where
      good_inj : {a b : ℕ} → ◌≡◌ {A = Result Error ℕ} (good a) (good b) → a ≡ b
      good_inj e = cc

      last_zero : (n : ℕ) → n + 0 ≡ n
      last_zero n = omega arith
  descend_all-Walked s lv vaddr last (suc gap) t i here =
      let up : last + suc gap ≡ suc (last + gap) = omega arith in
      let (s1, r, run, d) =
        descend-Descended source whole top s lv t vaddr (last + suc gap) (last + gap) i
          (here ∙ ap some up) in
      elim (result_cases r) [
        | inl (e, failed) ↦ (
          s1,
          bad e,
          descend_all-stop vaddr last gap t s s1 e (rw failed at run),
          record { levels = d.levels; tree = d.tree; kept = d.kept; reach = λ u q. cc },
        )
        | inr (p, got) ↦
            let (level, next, entry, fit, target) = d.below p got in
            let (s2, q, rest, w) = descend_all-Walked s1 d.levels vaddr last gap p d.tree level in
            let offsets : s2.offset ≡ s1.offset = w.tree.offset ∙ sym d.tree.offset in
            (
              s2,
              q,
              descend_all-more vaddr last gap t p s s1 (rw got at run) ∙ rest,
              record {
                levels = w.levels;
                tree = w.tree;
                kept = Kept-trans s s1 s2 lv d.levels w.levels d.kept w.kept;
                reach = λ u e.
                    let (bottom, way) = w.reach u e in
                    let target' : p ≡ next + s2.offset = omega (arith, target, offsets) in
                    (
                      bottom,
                      (
                        w.kept.tables t (last + suc gap) (d.kept.tables t (last + suc gap) here),
                        next,
                        w.kept.stay t (last + suc gap) (vpn vaddr (last + suc gap)) next
                            (d.kept.tables t (last + suc gap) here)
                            (vpn_bound vaddr (last + suc gap)) entry,
                        subst (λ o. IsPointer (next + o)) (sym offsets) fit,
                        subst (λ n. Leads s2 w.levels vaddr last gap n u) target' way,
                      ),
                    );
              },
            )
      ]

module _ {A : Type 0} where
  -- A write into a table of the last level leaves the way to it.
  pub Leads-store :
      (s : Paging A) (lv : Levels) (vaddr last gap t u b v word : ℕ)
      → ((n l : ℕ) → lv n ≡ some l → n % 4096 ≡ 0)
      → lv b ≡ some last
      → v < 512
      → Leads s lv vaddr last gap t u
      → Leads (record s { memory = store s.memory (b + 8 * v) word }) lv vaddr last gap t u
  Leads-store s lv vaddr last zero t u b v word aligned here bound way = way
  Leads-store s lv vaddr last (suc gap) t u b v word aligned here bound way =
      let (level, next, entry, fit, rest) = way in
      let other : t ≢ b = λ same. apart same level in
      let same_word = store_ne s.memory (b + 8 * v) word (slot t vaddr (last + suc gap)) (
        slots_apart t b (vpn vaddr (last + suc gap)) v (aligned t (last + suc gap) level)
          (aligned b last here) (vpn_bound vaddr (last + suc gap)) bound other) in
      (
        level,
        next,
        ap kind same_word ∙ entry,
        fit,
        Leads-store s lv vaddr last gap (next + s.offset) u b v word aligned here bound rest,
      )
    where
      apart : t ≡ b → lv t ≡ some (last + suc gap) → ⊥
      apart same level =
          let two : some last ≡ some (last + suc gap) = sym here ∙ (ap lv (sym same) ∙ level) in
          let eq : last ≡ last + suc gap = some_inj two in absurd (omega arith)
        where
          some_inj : {a b : ℕ} → some a ≡ some b → a ≡ b
          some_inj e = cc

  traverse_from-branch :
      (s : Paging A) (x i t next : ℕ)
      → kind (s.memory (slot t x (suc i))) ≡ some (branch next)
      → IsPointer (next + s.offset)
      → traverse_from (suc i) x t s ≡ traverse_from i x (next + s.offset) s
  unfolding traverse_from
  traverse_from-branch s x i t next e fit =
      rw (traverse_from, e, table_at_lem s.offset next fit) refl

  -- `traverse` goes the same way for every address with the same numbers from the last level on.
  pub traverse_from-Leads :
      (s : Paging A) (lv : Levels) (vaddr x last gap t u : ℕ)
      → ((i : ℕ) → last ≤ i → vpn x i ≡ vpn vaddr i)
      → Leads s lv vaddr last gap t u
      → traverse_from (last + gap) x t s ≡ traverse_from last x u s
  traverse_from-Leads s lv vaddr x last zero t u same way =
      let level : last + 0 ≡ last = omega arith in ap₂ (λ l n. traverse_from l x n s) level way
  traverse_from-Leads s lv vaddr x last (suc gap) t u same way =
      let (level, next, entry, fit, rest) = way in
      let up : last + suc gap ≡ suc (last + gap) = omega arith in
      let numbers : vpn x (suc (last + gap)) ≡ vpn vaddr (last + suc gap) =
        same (suc (last + gap)) (omega arith) ∙ ap (vpn vaddr) (sym up) in
      ap (λ l. traverse_from l x t s) up
      ∙ (traverse_from-branch s x (last + gap) t next
            (ap (λ n. kind (s.memory (t + 8 * n))) numbers ∙ entry) fit
          ∙ traverse_from-Leads s lv vaddr x last gap (next + s.offset) u same rest)
