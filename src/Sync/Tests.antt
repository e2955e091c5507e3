-- ===== src/Sync/Tests.antt =====
-- Runs of the locks of sync.rs, and the theorems at the states that they reach.
use novos.Prelude.{ℕ, ◌≡◌, refl, ◌⊎◌, [], ◌∷◌, replicate, get_elem?, some, arith}
use novos.Sync.Mutex
use novos.Sync.Mutex.Exclusion.{Reachable-exclusive, Reachable-moves}
use novos.Sync.RwLock
use novos.Sync.RwLock.Exclusion.{Reachable-writer_alone, Reachable-free}

-- Harts 0 and 1 have called `lock`, and hart 0 has its guard.
abbrev one_guard : Mutex.System
one_guard = record {
  lock = record { now_serving = 0; next_ticket = 2 };
  phase =
      Mutex.set_phase
        (Mutex.set_phase (Mutex.set_phase (λ _. Mutex.outside) 0 (Mutex.waiting 0)) 1
          (Mutex.waiting 1))
        0 (Mutex.guarding 0);
}

one_guard-Reachable : Mutex.Reachable 2 one_guard
unfolding Mutex.take_ticket Mutex.poll
one_guard-Reachable =
    Mutex.next
      (Mutex.next (Mutex.next Mutex.initial (Mutex.lock_called 0 refl)) (Mutex.lock_called 1 refl))
      (Mutex.polled 0 0 refl)

Reachable-exclusive_example : (◌≡◌ {A = ℕ} 0 0) × (◌≡◌ {A = ℕ} 0 0)
Reachable-exclusive_example =
    Reachable-exclusive 2 one_guard one_guard-Reachable (omega arith) 0 0 0 0 refl refl

Reachable-moves_example :
    (k : ℕ) × ((one_guard.phase k ≡ Mutex.guarding 0)
      ⊎ ((one_guard.phase k ≡ Mutex.waiting 0) × (Mutex.poll one_guard.lock 0 ≡ Mutex.guarding 0)))
Reachable-moves_example = Reachable-moves 2 one_guard one_guard-Reachable (omega arith) 1 1 refl

-- Hart 0 has the guard of `write`, and hart 1 is about to undo its attempt to read.
abbrev one_writer : RwLock.System
one_writer = record { lock = 3; phases = RwLock.writing ∷ RwLock.undoing ∷ [] }

one_writer-Reachable : RwLock.Reachable 2 one_writer
unfolding RwLock.exchange RwLock.read_phase
one_writer-Reachable =
    RwLock.next (RwLock.next RwLock.initial (RwLock.write_tried 0 refl)) (RwLock.read_tried 1 refl)

Reachable-writer_alone_example :
    (get_elem? one_writer.phases 1 ≡ some RwLock.reading → ⊥)
    × (get_elem? one_writer.phases 1 ≡ some RwLock.writing → ◌≡◌ {A = ℕ} 0 1)
Reachable-writer_alone_example =
    Reachable-writer_alone 2 one_writer (omega arith) one_writer-Reachable 0 1 refl

-- Both have left.
abbrev all_out : RwLock.System
all_out = record { lock = 0; phases = replicate 2 RwLock.outside }

all_out-Reachable : RwLock.Reachable 2 all_out
unfolding RwLock.exchange RwLock.read_phase RwLock.release_writer
all_out-Reachable =
    RwLock.next (RwLock.next one_writer-Reachable (RwLock.read_undone 1 refl))
      (RwLock.write_dropped 0 refl)

Reachable-free_example : (all_out.lock ≡ 0) × ((RwLock.exchange all_out.lock).1 ≡ RwLock.writing)
Reachable-free_example = Reachable-free 2 all_out (omega arith) all_out-Reachable refl
