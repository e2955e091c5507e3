-- ===== src/Sync/Mutex.antt =====
-- The ticket lock `Mutex` of crates/riscv/src/sync.rs. A hart is a number; the steps of all harts interleave.
pub mod Tickets
pub mod Exclusion
use novos.Prelude.{
  ℕ, zero, suc, ◌+◌, ◌%◌, ◌^◌, ◌≡◌, ◌==◌, if◌then◌else◌, Bool, Option, none, some, Run, ok, panic,
  ◌>>=◌, add_usize, usize_max,
}

-- The two counters; `data` is reached through a guard only.
pub record Mutex : Type 0 where
  pub now_serving : ℕ
  pub next_ticket : ℕ

abbrev pub new : Mutex
new = record { now_serving = 0; next_ticket = 0 }

-- Where a hart is: outside, in the loop of `lock` with its ticket, or the owner of a guard.
pub data Phase : Type 0 where
  outside : Phase
  waiting guarding : ℕ → Phase

-- `fetch_add`, which wraps.
unfoldable pub take_ticket : Mutex → Mutex × ℕ
take_ticket m = (record m { next_ticket = (m.next_ticket + 1) % 2 ^ 64 }, m.next_ticket)

-- One load of the loop of `lock`.
unfoldable pub poll : Mutex → ℕ → Phase
poll m ticket = if m.now_serving == ticket then guarding ticket else waiting ticket

-- `drop` of the guard.
pub unlock : Mutex → ℕ → Run Mutex
unlock m ticket = do served ← add_usize ticket 1; ok (record m { now_serving = served })

pub record System : Type 0 where
  pub lock : Mutex
  pub phase : ℕ → Phase

abbrev pub set_phase : (ℕ → Phase) → ℕ → Phase → ℕ → Phase
set_phase phases hart p h = if h == hart then p else phases h

abbrev pub start : System
start = record { lock = new; phase = λ _. outside }

-- The atomic steps of the harts. The last index counts the calls of `lock`.
pub data Step (s : System) : ℕ → System → Type 0 where
  lock_called :
      (h : ℕ)
      → s.phase h ≡ outside
      → Step s 1 (record {
        lock = (take_ticket s.lock).0;
        phase = set_phase s.phase h (waiting (take_ticket s.lock).1);
      })
  polled :
      (h t : ℕ)
      → s.phase h ≡ waiting t
      → Step s 0 (record s { phase = set_phase s.phase h (poll s.lock t) })
  dropped :
      (h t : ℕ) (m : Mutex)
      → s.phase h ≡ guarding t
      → unlock s.lock t ≡ ok m
      → Step s 0 (record { lock = m; phase = set_phase s.phase h outside })

pub data Reachable : ℕ → System → Type 0 where
  initial : Reachable 0 start
  next : {n k : ℕ} {s t : System} → Reachable n s → Step s k t → Reachable (k + n) t
