-- ===== src/Sync/RwLock.antt =====
-- The reader-writer lock `RwLock` of crates/riscv/src/sync.rs. The harts are the places of a list; their steps interleave.
pub mod Weights
pub mod Exclusion
use novos.Prelude.{
  ℕ, zero, suc, ◌+◌, ◌-◌, ◌%◌, ◌^◌, ◌≡◌, ◌==◌, if◌then◌else◌, Bool, not, Option, none, some, List,
  get_elem?, set, replicate, bit_and, usize_max,
}

abbrev pub reader : ℕ
reader = 2

abbrev pub writer : ℕ
writer = 1

-- Wrapping arithmetic of `fetch_add` and `fetch_sub`.
abbrev pub fetch_add : ℕ → ℕ → ℕ
fetch_add v n = (v + n) % 2 ^ 64

abbrev pub fetch_sub : ℕ → ℕ → ℕ
fetch_sub v n = (v + 2 ^ 64 - n) % 2 ^ 64

-- Where a hart is: outside of the lock or between two attempts, about to undo its reader count, or the owner of a guard.
pub data Phase : Type 0 where
  outside undoing reading writing : Phase

-- The test of `read` on the value from before.
unfoldable pub read_phase : ℕ → Phase
read_phase v = if bit_and v writer == 0 then reading else undoing

-- `compare_exchange(0, WRITER)`.
unfoldable pub exchange : ℕ → ℕ × Phase
exchange v = if v == 0 then (writer, writing) else (v, outside)

-- `fetch_and(!WRITER)`.
unfoldable pub release_writer : ℕ → ℕ
release_writer v = bit_and v (usize_max - writer)

-- The word of the lock and the phase of each hart.
pub record System : Type 0 where
  pub lock : ℕ
  pub phases : List Phase

abbrev pub start : ℕ → System
start n = record { lock = 0; phases = replicate n outside }

abbrev pub set_phase : System → ℕ → Phase → ℕ → System
set_phase s h p v = record { lock = v; phases = set s.phases h p }

-- The atomic steps of the harts.
pub data Step (s : System) : System → Type 0 where
  read_tried :
      (h : ℕ)
      → get_elem? s.phases h ≡ some outside
      → Step s (set_phase s h (read_phase s.lock) (fetch_add s.lock reader))
  read_undone :
      (h : ℕ)
      → get_elem? s.phases h ≡ some undoing
      → Step s (set_phase s h outside (fetch_sub s.lock reader))
  write_tried :
      (h : ℕ)
      → get_elem? s.phases h ≡ some outside
      → Step s (set_phase s h (exchange s.lock).1 (exchange s.lock).0)
  read_dropped :
      (h : ℕ)
      → get_elem? s.phases h ≡ some reading
      → Step s (set_phase s h outside (fetch_sub s.lock reader))
  write_dropped :
      (h : ℕ)
      → get_elem? s.phases h ≡ some writing
      → Step s (set_phase s h outside (release_writer s.lock))

pub data Reachable (n : ℕ) : System → Type 0 where
  initial : Reachable n (start n)
  next : {s t : System} → Reachable n s → Step s t → Reachable n t
