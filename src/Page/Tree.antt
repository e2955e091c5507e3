-- ===== src/Page/Tree.antt =====
-- The tables of page.rs as a tree: every table has a level, and a branch leads one level down. What `map` needs of the
-- allocator is an interface.
use novos.Prelude.{
  ℕ, suc, ◌+◌, ◌*◌, ◌%◌, ◌^◌, ◌≤◌, ◌<◌, ◌≡◌, ◌≢◌, refl, ◌∙◌, Option, some, Run, ok, Result, good,
  usize_max, arith, le→not-ltb, ◌==◌, false,
}
use novos.Allocator
use novos.Page.{Paging, store, fill, table_at}
use novos.Page.Entry.{branch, kind}

-- An allocator of pages: it returns; a page that it gives is aligned and mapped, and nobody has it yet.
pub record PageSource {A : Type 0} (alloc_order : ℕ → A → Run (A × Result Allocator.Error ℕ))
    (offset : ℕ) : Type 1 where
  pub IsGood : A → Type 0
  pub IsOwned : A → ℕ → Type 0
  pub returns :
      (a : A)
      → IsGood a
      → (b : A) × (r : Result Allocator.Error ℕ) × (alloc_order 0 a ≡ ok (b, r))
        × IsGood b
        × ((p : ℕ) → IsOwned a p → IsOwned b p)
        × ((p : ℕ) → r ≡ good p → (IsOwned a p → ⊥) × IsOwned b p)
  pub placed :
      (a b : A) (p : ℕ)
      → IsGood a
      → alloc_order 0 a ≡ ok (b, good p)
      → (p % 4096 ≡ 0) × (p < 2 ^ 56) × ((0 < p) × (p + offset + 4096 ≤ 2 ^ 64))

-- A table that `table_at` returns.
abbrev pub IsPointer : ℕ → Type 0
IsPointer ptr = (0 < ptr) × (ptr ≤ usize_max)

pub table_at_lem :
    (offset page : ℕ) → IsPointer (page + offset) → table_at offset page ≡ ok (page + offset)
table_at_lem offset page h =
    rw (le→not-ltb usize_max (page + offset) h.1, positive (page + offset) h.0) refl
  where
    positive : (n : ℕ) → 0 < n → (n == 0) ≡ false
    positive n h = ground arith

abbrev pub Levels : Type 0
Levels = ℕ → Option ℕ

module _ {A : Type 0} {alloc_order : ℕ → A → Run (A × Result Allocator.Error ℕ)} {off : ℕ}
    (source : PageSource alloc_order off) where
  pub record Tree (top : ℕ) (s : Paging A) (lv : Levels) : Type 0 where
    pub good_pages : source.IsGood s.pages
    pub offset : s.offset ≡ off
    pub root : lv s.entries ≡ some top
    pub aligned : (t l : ℕ) → lv t ≡ some l → t % 4096 ≡ 0
    pub owned : (t l : ℕ) → lv t ≡ some l → (p : ℕ) × (t ≡ p + off) × source.IsOwned s.pages p
    pub branches :
        (t l v next : ℕ)
        → lv t ≡ some (suc l)
        → v < 512
        → kind (s.memory (t + 8 * v)) ≡ some (branch next)
        → IsPointer (next + off) × (lv (next + off) ≡ some l)
    pub bottom :
        (t v next : ℕ) → lv t ≡ some 0 → v < 512 → kind (s.memory (t + 8 * v)) ≢ some (branch next)

-- What one state keeps of another: its tables and their branches.
pub record Kept {A : Type 0} (s : Paging A) (lv : Levels) (s' : Paging A) (lv' : Levels)
    : Type 0 where
  pub entries : s'.entries ≡ s.entries
  pub tables : (t l : ℕ) → lv t ≡ some l → lv' t ≡ some l
  pub stay :
      (t l v next : ℕ)
      → lv t ≡ some l
      → v < 512
      → kind (s.memory (t + 8 * v)) ≡ some (branch next)
      → kind (s'.memory (t + 8 * v)) ≡ some (branch next)

pub Kept-refl : {A : Type 0} (s : Paging A) (lv : Levels) → Kept s lv s lv
Kept-refl s lv = record { entries = refl; tables = λ t l e. e; stay = λ t l v next e b k. k }

pub Kept-trans :
    {A : Type 0} (r s t : Paging A) (a b c : Levels) → Kept r a s b → Kept s b t c → Kept r a t c
Kept-trans r s t a b c k m = record {
  entries = m.entries ∙ k.entries;
  tables = λ u l e. m.tables u l (k.tables u l e);
  stay = λ u l v next e bound q.
      m.stay u l v next (k.tables u l e) bound (k.stay u l v next e bound q);
}

-- Entries of different tables are at different addresses.
pub slots_apart :
    (t u v w : ℕ) → t % 4096 ≡ 0 → u % 4096 ≡ 0 → v < 512 → w < 512 → t ≢ u → t + 8 * v ≢ u + 8 * w
slots_apart t u v w at au bv bw ne e = ne (omega arith)

pub slot_inj : (t v w : ℕ) → t + 8 * v ≡ t + 8 * w → v ≡ w
slot_inj t v w e = omega arith

pub store_self : (m : ℕ → ℕ) (a w : ℕ) → store m a w a ≡ w
store_self m a w = ground arith

pub store_ne : (m : ℕ → ℕ) (a w b : ℕ) → b ≢ a → store m a w b ≡ m b
store_ne m a w b ne = ground arith

-- A word that is not in the page is not changed, and one that is is zero.
pub fill_out :
    (m : ℕ → ℕ) (a b v : ℕ)
    → a % 4096 ≡ 0
    → b % 4096 ≡ 0
    → v < 512
    → b ≢ a
    → fill m a 4096 (b + 8 * v) ≡ m (b + 8 * v)
fill_out m a b v aa ab bv ne = ground arith

pub fill_in : (m : ℕ → ℕ) (a v : ℕ) → v < 512 → fill m a 4096 (a + 8 * v) ≡ 0
fill_in m a v bv = ground arith
