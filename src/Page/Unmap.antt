-- ===== src/Page/Unmap.antt =====
-- `unmap` of page.rs: afterwards `translate` finds nothing.
use novos.Prelude.{
  ℕ, zero, suc, ◌+◌, ◌-◌, ◌*◌, ◌≤◌, ◌<◌, ◌≡◌, ◌≢◌, refl, sym, ap, ◌∙◌, ◌⊎◌, inl, inr, none, some,
  Run, ok, Result, arith, Bool, true, false, subst,
}
use novos.Allocator
use novos.Page.{
  Paging, store, slot, traverse_from, traverse, translate, unmap, Mapping, read_mapping,
}
use novos.Page.Types.{PageSize, kilopage, megapage, gigapage, Mode}
use novos.Page.Entry.{branch, leaf, kind, vpn}
use novos.Page.Words.{kind-zero, vpn_bound}
use novos.Page.Tree.{
  PageSource, IsPointer, table_at_lem, Levels, Tree, slots_apart, store_self, store_ne,
}
use novos.Page.Grow.{kind_cases}

module _ {A : Type 0} {alloc_order : ℕ → A → Run (A × Result Allocator.Error ℕ)} {off : ℕ}
    (source : PageSource alloc_order off) (top : ℕ) where
  -- The entry that `traverse` found, in a table of level `i` or below, and what it finds once that is cleared.
  record Cleared (s : Paging A) (lv : Levels) (i x t : ℕ) (m : Mapping) : Type 0 where
    table : ℕ
    level : ℕ
    number : ℕ
    known : lv table ≡ some level
    low : level ≤ i
    bound : number < 512
    at : m.entry ≡ table + 8 * number
    gone : traverse_from i x t (record s { memory = store s.memory m.entry 0 }) ≡ ok none

  -- No leaf stands where a page would have 512 GiB, for which `traverse` panics.
  abbrev pub IsSmall : Paging A → Levels → Type 0
  IsSmall s lv =
      (t l v : ℕ) → lv t ≡ some l → v < 512 → kind (s.memory (t + 8 * v)) ≡ some leaf → l < 3

  cleared_here :
      (s : Paging A) (x t i : ℕ)
      → traverse_from i x t (record s { memory = store s.memory (slot t x i) 0 }) ≡ ok none
  unfolding traverse_from
  cleared_here s x t zero =
      let empty = ap kind (store_self s.memory (slot t x 0) 0) ∙ kind-zero in
      rw (traverse_from, empty) refl
  cleared_here s x t (suc i) =
      let empty = ap kind (store_self s.memory (slot t x (suc i)) 0) ∙ kind-zero in
      rw (traverse_from, empty) refl

  branch_step :
      (s : Paging A) (x i t next : ℕ)
      → kind (s.memory (slot t x (suc i))) ≡ some (branch next)
      → IsPointer (next + s.offset)
      → traverse_from (suc i) x t s ≡ traverse_from i x (next + s.offset) s
  unfolding traverse_from
  branch_step s x i t next e fit = rw (traverse_from, e, table_at_lem s.offset next fit) refl

  leaf_step :
      (s : Paging A) (x i t : ℕ)
      → kind (s.memory (slot t x i)) ≡ some leaf
      → i < 3
      → (sz : PageSize) × (traverse_from i x t s
          ≡ ok (some (record { entry = slot t x i; size = sz })))
  unfolding traverse_from
  leaf_step s x zero t e h = (kilopage, rw (traverse_from, e) refl)
  leaf_step s x (suc zero) t e h = (megapage, rw (traverse_from, e) refl)
  leaf_step s x (suc (suc zero)) t e h = (gigapage, rw (traverse_from, e) refl)
  leaf_step s x (suc (suc (suc i))) t e h = absurd (omega arith)

  empty_step :
      (s : Paging A) (x i t : ℕ)
      → kind (s.memory (slot t x i)) ≡ none
      → traverse_from i x t s ≡ ok none
  unfolding traverse_from
  empty_step s x zero t e = rw (traverse_from, e) refl
  empty_step s x (suc i) t e = rw (traverse_from, e) refl

  leaf_found :
      (s : Paging A) (lv : Levels) (i x t : ℕ)
      → IsSmall s lv
      → lv t ≡ some i
      → kind (s.memory (slot t x i)) ≡ some leaf
      → (m : Mapping) × (traverse_from i x t s ≡ ok (some m)) × Cleared s lv i x t m
  leaf_found s lv i x t small here e =
      let (sz, run) = leaf_step s x i t e (small t i (vpn x i) here (vpn_bound x i) e) in
      (
        record { entry = slot t x i; size = sz },
        run,
        record {
          table = t;
          level = i;
          number = vpn x i;
          known = here;
          low = omega arith;
          bound = vpn_bound x i;
          at = refl;
          gone = cleared_here s x t i;
        },
      )

  some_inj : {a b : ℕ} → some a ≡ some b → a ≡ b
  some_inj e = cc

  branch_found :
      (s : Paging A) (lv : Levels) (i x t next : ℕ) (m : Mapping)
      → Tree source top s lv
      → lv t ≡ some (suc i)
      → kind (s.memory (slot t x (suc i))) ≡ some (branch next)
      → IsPointer (next + s.offset)
      → Cleared s lv i x (next + s.offset) m
      → Cleared s lv (suc i) x t m
  branch_found s lv i x t next m tree here e fit c = record {
    table = c.table;
    level = c.level;
    number = c.number;
    known = c.known;
    low = omega (arith, c.low);
    bound = c.bound;
    at = c.at;
    gone =
        branch_step (record s { memory = store s.memory m.entry 0 }) x i t next
          (ap kind (store_ne s.memory m.entry 0 (slot t x (suc i)) apart) ∙ e) fit
        ∙ c.gone;
  }
    where
      other : t ≢ c.table
      other same =
          let eq : c.level ≡ suc i = some_inj (sym c.known ∙ (ap lv (sym same) ∙ here)) in
          absurd (omega (arith, c.low))

      apart : slot t x (suc i) ≢ m.entry
      apart same =
          slots_apart t c.table (vpn x (suc i)) c.number (tree.aligned t (suc i) here)
            (tree.aligned c.table c.level c.known) (vpn_bound x (suc i)) c.bound other (same ∙ c.at)

  traverse_from-Cleared :
      (s : Paging A) (lv : Levels) (i x t : ℕ)
      → Tree source top s lv
      → IsSmall s lv
      → lv t ≡ some i
      → (traverse_from i x t s ≡ ok none)
        ⊎ ((m : Mapping) × (traverse_from i x t s ≡ ok (some m)) × Cleared s lv i x t m)
  traverse_from-Cleared s lv zero x t tree small here =
      elim (kind_cases (kind (s.memory (slot t x 0)))) [
        | inl empty ↦ inl (empty_step s x 0 t empty)
        | inr (inl full) ↦ inr (leaf_found s lv 0 x t small here full)
        | inr (inr (next, e)) ↦ absurd (tree.bottom t (vpn x 0) next here (vpn_bound x 0) e)
      ]
  traverse_from-Cleared s lv (suc i) x t tree small here =
      elim (kind_cases (kind (s.memory (slot t x (suc i))))) [
        | inl empty ↦ inl (empty_step s x (suc i) t empty)
        | inr (inl full) ↦ inr (leaf_found s lv (suc i) x t small here full)
        | inr (inr (next, e)) ↦
            let (fit, level) =
              tree.branches t i (vpn x (suc i)) next here (vpn_bound x (suc i)) e in
            let fit' : IsPointer (next + s.offset) =
              subst (λ o. IsPointer (next + o)) (sym tree.offset) fit in
            let target : next + s.offset ≡ next + off = omega (arith, tree.offset) in
            let go = branch_step s x i t next e fit' in
            elim (traverse_from-Cleared s lv i x (next + s.offset) tree small
              (ap lv target ∙ level)) [
                | inl nothing ↦ inl (go ∙ nothing)
                | inr (m, found, c) ↦
                    inr (m, go ∙ found, branch_found s lv i x t next m tree here e fit' c)
              ]
      ]

  read_some :
      (s : Paging A) (vaddr : ℕ) (m : Mapping)
      → (entry : ℕ × PageSize × ℕ) × (read_mapping vaddr s (some m) ≡ some entry)
  read_some s vaddr m = (_, refl)

  -- In a tree of tables without leaves of 512 GiB, over an allocator that keeps the interface PageSource,
  -- `unmap` returns and `translate` finds nothing at the address afterwards. It answers `true` only if
  -- `translate` found something there before; if it answers `false`, `translate` found nothing and nothing
  -- changes.
  pub unmap-translate :
      (s : Paging A) (lv : Levels) (mode : Mode) (vaddr : ℕ)
      → Tree source top s lv
      → IsSmall s lv
      → mode.levels - 1 ≡ top
      → (s' : Paging A) × (found : Bool) × (unmap mode vaddr s ≡ ok (s', found))
        × (translate mode vaddr s' ≡ ok none)
        × (found ≡ false → (s' ≡ s) × (translate mode vaddr s ≡ ok none))
        × (found ≡ true → (entry : ℕ × PageSize × ℕ) × (translate mode vaddr s ≡ ok (some entry)))
  unfolding unmap translate traverse
  unmap-translate s lv mode vaddr tree small levels =
      elim (traverse_from-Cleared s lv (mode.levels - 1) vaddr s.entries tree small
        (tree.root ∙ ap some (sym levels))) [
          | inl nothing ↦
              (s, false, rw nothing refl, rw nothing refl, λ e. (refl, rw nothing refl), λ e. cc)
          | inr (m, found, c) ↦ (
            record s { memory = store s.memory m.entry 0 },
            true,
            rw found refl,
            rw (c.gone) refl,
            λ e. cc,
            λ e. let (entry, reads) = read_some s vaddr m in (entry, rw found (ap ok reads)),
          )
        ]
