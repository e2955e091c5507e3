-- ===== src/Sync/RwLock/Exclusion.antt =====
-- The reader-writer lock of sync.rs: the word counts the harts that are inside, and a writer excludes all others.
use novos.Prelude.{
  ◌/◌, subst, ℕ_discrete, ℕ, zero, suc, ◌+◌, ◌-◌, ◌*◌, ◌%◌, ◌^◌, ◌≤◌, ◌<◌, ◌≡◌, refl, sym, ap, ◌∙◌,
  ◌⊎◌, inl, inr, ◌==◌, true, some, get_elem?, length, replicate, length-set, arith, Bool-cases,
  bit_and,
}
use novos.Prelude.Bits.{bit_and_mask}
use novos.Sync.RwLock.{
  Phase, outside, undoing, reading, writing, reader, fetch_add, fetch_sub, read_phase, exchange,
  release_writer, System, start, set_phase, Step, read_tried, read_undone, write_tried,
  read_dropped, write_dropped, Reachable, initial, next,
}
use novos.Sync.RwLock.Weights.{
  weight, is_writing, is_reading, sum, sum-set, le-sum, add-le-sum, sum_bound, weights,
}
use novos.Prelude.Bits.{bit_and_shifted}

-- The word is what the harts have added, and a writer is alone.
pub record Sound (n : ℕ) (s : System) : Type 0 where
  pub size : length s.phases ≡ n
  pub word : s.lock ≡ sum weight s.phases
  pub alone : sum is_writing s.phases ≤ 1
  pub apart : sum is_writing s.phases ≡ 0 ⊎ sum is_reading s.phases ≡ 0

start_sum : (w : Phase → ℕ) (n : ℕ) → w outside ≡ 0 → sum w (replicate n outside) ≡ 0
unfolding sum
start_sum w zero e = refl
start_sum w (suc n) e = omega (arith, e, start_sum w n e)

length-replicate : (n : ℕ) (p : Phase) → length (replicate n p) ≡ n
length-replicate zero p = refl
length-replicate (suc n) p = ap suc (length-replicate n p)

start-Sound : (n : ℕ) → Sound n (start n)
start-Sound n = record {
  size = length-replicate n outside;
  word = sym (start_sum weight n refl);
  alone = omega (arith, start_sum is_writing n refl);
  apart = inl (start_sum is_writing n refl);
}

release_writer-clear : (v : ℕ) → v < 2 ^ 64 → release_writer v ≡ v / 2 * 2
unfolding release_writer
release_writer-clear v h =
    bit_and_shifted 1 v (2 ^ 63 - 1) ∙ ap (λ n. n * 2) (bit_and_mask 63 (v / 2) ∙ small)
  where
    small : v / 2 % 2 ^ 63 ≡ v / 2
    small = omega arith

read_phase_cases : (v : ℕ) → ((read_phase v ≡ reading) × (v % 2 ≡ 0)) ⊎ (read_phase v ≡ undoing)
unfolding read_phase
read_phase_cases v = elim (Bool-cases (bit_and v 1 == 0)) [
  | inl even ↦ inl (rw even refl, omega (arith, bit_and_mask 1 v, zero_of (bit_and v 1) even))
  | inr odd ↦ inr (rw odd refl)
]
  where
    zero_of : (a : ℕ) → (a == 0) ≡ true → a ≡ 0
    zero_of a e = ground arith

exchange_cases :
    (v : ℕ)
    → (((exchange v).1 ≡ writing) × ((exchange v).0 ≡ 1) × (v ≡ 0))
      ⊎ (((exchange v).1 ≡ outside) × ((exchange v).0 ≡ v))
unfolding exchange
exchange_cases v = elim (Bool-cases (v == 0)) [
  | inl free ↦ inl (rw free refl, rw free refl, ground arith)
  | inr held ↦ inr (rw held refl, rw held refl)
]

-- A hart goes from `p` to `q`, and the word changes by their weights.
module _ (n h : ℕ) (s : System) (i : Sound n s) (few : n ≤ 2 ^ 62) where
  moved :
      (p q : Phase) (v : ℕ)
      → get_elem? s.phases h ≡ some p
      → v + weight p ≡ s.lock + weight q
      → sum is_writing s.phases + is_writing q ≤ 1 + is_writing p
      → ((sum is_writing s.phases + is_writing q ≡ is_writing p)
          ⊎ (sum is_reading s.phases + is_reading q ≡ is_reading p))
      → Sound n (set_phase s h q v)
  moved p q v there word alone apart = record {
    size = length-set s.phases h q ∙ i.size;
    word = omega (arith, word, i.word, sum-set weight s.phases h p q there);
    alone = omega (arith, alone, sum-set is_writing s.phases h p q there);
    apart = elim apart [
      | inl w ↦ inl (omega (arith, w, sum-set is_writing s.phases h p q there))
      | inr r ↦ inr (omega (arith, r, sum-set is_reading s.phases h p q there))
    ];
  }

  small : s.lock < 2 ^ 64 - 2
  small = omega (arith, i.word, sum_bound s.phases, i.size, few)

  added : fetch_add s.lock reader ≡ s.lock + 2
  added = omega (arith, small)

  subtracted : 2 ≤ s.lock → fetch_sub s.lock reader ≡ s.lock - 2
  subtracted le = omega (arith, small)

  same_apart :
      (p q : Phase)
      → is_writing p ≡ 0
      → is_writing q ≡ 0
      → is_reading q ≡ 0
      → (sum is_writing s.phases + is_writing q ≡ is_writing p)
        ⊎ (sum is_reading s.phases + is_reading q ≡ 0)
  same_apart p q a b c = elim i.apart [
    | inl w ↦ inl (omega (arith, w))
    | inr r ↦ inr (omega (arith, r))
  ]

  no_writer : s.lock % 2 ≡ 0 → sum is_writing s.phases ≡ 0
  no_writer even = let (u, e) = weights s.phases in omega (arith, i.word, i.alone, e)

  read_tried-Sound :
      get_elem? s.phases h ≡ some outside
      → Sound n (set_phase s h (read_phase s.lock) (fetch_add s.lock reader))
  read_tried-Sound there = elim (read_phase_cases s.lock) [
    | inl (e, even) ↦
        subst (λ q. Sound n (set_phase s h q (fetch_add s.lock reader))) (sym e)
          (moved outside reading (fetch_add s.lock reader) there (omega (arith, added))
            (omega (arith, i.alone)) (inl (omega (arith, no_writer even))))
    | inr e ↦
        subst (λ q. Sound n (set_phase s h q (fetch_add s.lock reader))) (sym e)
          (moved outside undoing (fetch_add s.lock reader) there (omega (arith, added))
            (omega (arith, i.alone)) (same_apart outside undoing refl refl refl))
  ]

  read_undone-Sound :
      get_elem? s.phases h ≡ some undoing
      → Sound n (set_phase s h outside (fetch_sub s.lock reader))
  read_undone-Sound there =
      let much : 2 ≤ s.lock = omega (arith, i.word, le-sum weight s.phases h undoing there) in
      moved undoing outside (fetch_sub s.lock reader) there (omega (arith, subtracted much))
        (omega (arith, i.alone)) (same_apart undoing outside refl refl refl)

  read_dropped-Sound :
      get_elem? s.phases h ≡ some reading
      → Sound n (set_phase s h outside (fetch_sub s.lock reader))
  read_dropped-Sound there =
      let much : 2 ≤ s.lock = omega (arith, i.word, le-sum weight s.phases h reading there) in
      let some_reader : 1 ≤ sum is_reading s.phases = le-sum is_reading s.phases h reading there in
      moved reading outside (fetch_sub s.lock reader) there (omega (arith, subtracted much))
        (omega (arith, i.alone))
        (elim i.apart [
          | inl w ↦ inl (omega (arith, w))
          | inr r ↦ absurd (omega (arith, r, some_reader))
        ])

  write_tried-Sound :
      get_elem? s.phases h ≡ some outside
      → Sound n (set_phase s h (exchange s.lock).1 (exchange s.lock).0)
  write_tried-Sound there = elim (exchange_cases s.lock) [
    | inl (phase, word, free) ↦
        let (u, e) = weights s.phases in
        subst (λ q. Sound n (set_phase s h q (exchange s.lock).0)) (sym phase)
          (moved outside writing (exchange s.lock).0 there (omega (arith, word, free))
            (omega (arith, e, free, i.word)) (inr (omega (arith, e, free, i.word))))
    | inr (phase, word) ↦
        subst (λ q. Sound n (set_phase s h q (exchange s.lock).0)) (sym phase)
          (moved outside outside (exchange s.lock).0 there (omega (arith, word))
            (omega (arith, i.alone)) (same_apart outside outside refl refl refl))
  ]

  write_dropped-Sound :
      get_elem? s.phases h ≡ some writing → Sound n (set_phase s h outside (release_writer s.lock))
  write_dropped-Sound there =
      let (u, e) = weights s.phases in
      let one : 1 ≤ sum is_writing s.phases = le-sum is_writing s.phases h writing there in
      let cleared = release_writer-clear s.lock (omega (arith, small)) in
      moved writing outside (release_writer s.lock) there
        (omega (arith, cleared, e, i.word, i.alone, one)) (omega (arith, i.alone))
        (inl (omega (arith, i.alone, one)))

pub Reachable-Sound : (n : ℕ) (s : System) → n ≤ 2 ^ 62 → Reachable n s → Sound n s
Reachable-Sound n s few initial = start-Sound n
Reachable-Sound n s few (next {s = r} before step) =
    Step-Sound n r s (Reachable-Sound n r few before) few step
  where
    Step-Sound : (n : ℕ) (r s : System) → Sound n r → n ≤ 2 ^ 62 → Step r s → Sound n s
    Step-Sound n r s i few (read_tried h there) = read_tried-Sound n h r i few there
    Step-Sound n r s i few (read_undone h there) = read_undone-Sound n h r i few there
    Step-Sound n r s i few (write_tried h there) = write_tried-Sound n h r i few there
    Step-Sound n r s i few (read_dropped h there) = read_dropped-Sound n h r i few there
    Step-Sound n r s i few (write_dropped h there) = write_dropped-Sound n h r i few there

-- In every state that the steps of at most 2 ^ 62 harts lead to, in whatever order, a hart that has the guard of
-- `write` is the only one with a guard of either kind.
pub Reachable-writer_alone :
    (n : ℕ) (s : System)
    → n ≤ 2 ^ 62
    → Reachable n s
    → (h k : ℕ) → get_elem? s.phases h ≡ some writing
    → (get_elem? s.phases k ≡ some reading → ⊥) × (get_elem? s.phases k ≡ some writing → h ≡ k)
Reachable-writer_alone n s few r h k e =
    let i = Reachable-Sound n s few r in
    let one : 1 ≤ sum is_writing s.phases = le-sum is_writing s.phases h writing e in
    (
      λ e'.
          let reads : 1 ≤ sum is_reading s.phases = le-sum is_reading s.phases k reading e' in
          elim i.apart [
            | inl w ↦ absurd (omega (arith, w, one))
            | inr r ↦ absurd (omega (arith, r, reads))
          ],
      λ e'. elim (ℕ_discrete h k) [
        | yes same ↦ same
        | no other ↦
            absurd (
              omega (arith, i.alone, add-le-sum is_writing s.phases h k writing writing other e e'))
      ],
    )

-- In every state that the steps of at most 2 ^ 62 harts lead to, and in which all are outside, the word is 0 again and the next attempt of `write` takes the lock.
pub Reachable-free :
    (n : ℕ) (s : System)
    → n ≤ 2 ^ 62
    → Reachable n s
    → s.phases ≡ replicate n outside
    → (s.lock ≡ 0) × ((exchange s.lock).1 ≡ writing)
unfolding exchange
Reachable-free n s few r all =
    let i = Reachable-Sound n s few r in
    let zero_sum = ap (sum weight) all ∙ start_sum weight n refl in
    let free : s.lock ≡ 0 = omega (arith, i.word, zero_sum) in (free, ap (λ v. (exchange v).1) free)
