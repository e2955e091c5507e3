-- ===== src/Sync/Mutex/Exclusion.antt =====
-- The ticket lock of sync.rs: one guard at a time, and the one whose turn it is exists.
use novos.Prelude.{
  ℕ, suc, ◌+◌, ◌≤◌, ◌<◌, ◌≡◌, ◌≢◌, refl, sym, ap, ◌∙◌, ◌⊎◌, inl, inr, ◌==◌, if◌then◌else◌, some, ok,
  usize_max, arith, ltb, Bool-cases, subst, ok_inj,
}
use novos.Sync.Mutex.{
  Mutex, Phase, outside, waiting, guarding, take_ticket, poll, unlock, System, set_phase, start,
  Step, lock_called, polled, dropped, Reachable, initial, next,
}
use novos.Sync.Mutex.Tickets.{ticket, Queue, some_inj, Queue-take, Queue-drop, Queue-keep}

pub record Sound (n : ℕ) (s : System) : Type 0 where
  pub calls : s.lock.next_ticket ≡ n
  pub turn : (h t : ℕ) → s.phase h ≡ guarding t → t ≡ s.lock.now_serving
  pub queue : Queue s.lock.now_serving n (λ h. ticket (s.phase h))

set_phase_self : (p : ℕ → Phase) (h : ℕ) (q : Phase) → set_phase p h q h ≡ q
set_phase_self p h q = ground arith

set_phase_ne : (p : ℕ → Phase) (h k : ℕ) (q : Phase) → k ≢ h → set_phase p h q k ≡ p k
set_phase_ne p h k q ne = ground arith

-- What holds of the hart that moved and of the others holds of all.
by_hart :
    (P : Phase → Type 0) (p : ℕ → Phase) (h : ℕ) (q : Phase)
    → P q
    → ((k : ℕ) → k ≢ h → P (p k))
    → (k : ℕ) → P (set_phase p h q k)
by_hart P p h q mine others k = elim (Bool-cases (k == h)) [
  | inl same ↦ rw same mine
  | inr other ↦ rw other (others k (ground arith))
]

start-Sound : Sound 0 start
start-Sound = record {
  calls = refl;
  turn = λ h t e. cc;
  queue = record {
    served = omega arith;
    open_tickets = λ h t e. cc;
    once = λ h k t e e'. cc;
    taken = λ t le lt. absurd (omega arith);
  };
}

-- A guard has the ticket that is served.
abbrev Turn : ℕ → Phase → Type 0
Turn now p = (t : ℕ) → p ≡ guarding t → t ≡ now

module _ (n h : ℕ) (s : System) (i : Sound n s) where
  keep : (q : Phase) (k : ℕ) → k ≢ h → ticket (set_phase s.phase h q k) ≡ ticket (s.phase k)
  keep q k ne = ap ticket (set_phase_ne s.phase h k q ne)

  mine : (q : Phase) → ticket (set_phase s.phase h q h) ≡ ticket q
  mine q = ap ticket (set_phase_self s.phase h q)

  lock_called-Sound :
      n < usize_max
      → s.phase h ≡ outside
      → Sound (suc n) (record {
        lock = (take_ticket s.lock).0;
        phase = set_phase s.phase h (waiting (take_ticket s.lock).1);
      })
  unfolding take_ticket
  lock_called-Sound room free =
      let q = waiting s.lock.next_ticket in
      record {
        calls = omega (arith, i.calls);
        turn = by_hart (Turn s.lock.now_serving) s.phase h q (λ t e. cc) (λ k ne t e. i.turn k t e);
        queue =
            Queue-take s.lock.now_serving n h (λ k. ticket (s.phase k))
              (λ k. ticket (set_phase s.phase h q k)) (keep q) i.queue (ap ticket free)
              (mine q ∙ ap some i.calls);
      }

  poll_cases :
      (m : Mutex) (t : ℕ) → (poll m t ≡ waiting t) ⊎ ((poll m t ≡ guarding t) × (m.now_serving ≡ t))
  unfolding poll
  poll_cases m t = elim (Bool-cases (m.now_serving == t)) [
    | inl turn ↦ inr (rw turn refl, ground arith)
    | inr early ↦ inl (rw early refl)
  ]

  polled-Sound :
      (t : ℕ)
      → s.phase h ≡ waiting t
      → Sound n (record s { phase = set_phase s.phase h (poll s.lock t) })
  polled-Sound t there =
      let q = poll s.lock t in
      record {
        calls = i.calls;
        turn = by_hart (Turn s.lock.now_serving) s.phase h q (own t) (λ k ne t e. i.turn k t e);
        queue =
            Queue-keep s.lock.now_serving n h (λ k. ticket (s.phase k))
              (λ k. ticket (set_phase s.phase h q k)) (keep q) i.queue
              (ap ticket there ∙ sym (mine q ∙ same t));
      }
    where
      same : (t : ℕ) → ticket (poll s.lock t) ≡ some t
      same t = elim (poll_cases s.lock t) [ inl w ↦ ap ticket w | inr (g, _) ↦ ap ticket g ]

      own : (t : ℕ) → Turn s.lock.now_serving (poll s.lock t)
      own t u e = elim (poll_cases s.lock t) [
        | inl w ↦ let clash = sym w ∙ e in cc
        | inr (g, now) ↦ let eq : t ≡ u = some_inj (ap ticket (sym g ∙ e)) in omega arith
      ]

  unlock-ok :
      (l : Mutex) (t : ℕ) (m : Mutex)
      → unlock l t ≡ ok m
      → (m.now_serving ≡ suc t) × (m.next_ticket ≡ l.next_ticket)
  unfolding unlock
  unlock-ok l t m run = elim (Bool-cases (ltb usize_max (t + 1))) [
    | inl over ↦ let clash = rw over at run in cc
    | inr fits ↦
        let same : record l { now_serving = t + 1 } ≡ m = ok_inj (rw fits at run) in
        let more : t + 1 ≡ suc t = omega arith in
        (
          ap (λ (x : Mutex). x.now_serving) (sym same) ∙ more,
          ap (λ (x : Mutex). x.next_ticket) (sym same),
        )
  ]

  dropped-Sound :
      (t : ℕ) (m : Mutex)
      → s.phase h ≡ guarding t
      → unlock s.lock t ≡ ok m
      → Sound n (record { lock = m; phase = set_phase s.phase h outside })
  dropped-Sound t m there run =
      let (now, calls) = unlock-ok s.lock t m run in
      let own = i.turn h t there in
      let advance : suc s.lock.now_serving ≡ m.now_serving = ap suc (sym own) ∙ sym now in
      record {
        calls = calls ∙ i.calls;
        turn =
            by_hart (Turn m.now_serving) s.phase h outside (λ t e. cc)
              (λ k ne u e.
                let other = i.turn k u e in
                absurd (
                  ne (
                    i.queue.once k h s.lock.now_serving (ap ticket e ∙ ap some other)
                      (ap ticket there ∙ ap some own))));
        queue =
            subst (λ now. Queue now n (λ k. ticket (set_phase s.phase h outside k))) advance
              (Queue-drop s.lock.now_serving n h (λ k. ticket (s.phase k))
                (λ k. ticket (set_phase s.phase h outside k)) (keep outside) i.queue
                (ap ticket there ∙ ap some own) (mine outside));
      }

pub Step-Sound :
    (n k : ℕ) (s t : System) → Sound n s → Step s k t → k + n ≤ usize_max → Sound (k + n) t
Step-Sound n k s t i (lock_called h free) room =
    let one : suc n ≡ 1 + n = omega arith in
    subst (λ c. Sound c t) one (lock_called-Sound n h s i (omega (arith, room)) free)
Step-Sound n k s t i (polled h u there) room =
    subst (λ c. Sound c t) (zero_left n) (polled-Sound n h s i u there)
  where
    zero_left : (n : ℕ) → n ≡ 0 + n
    zero_left n = omega arith
Step-Sound n k s t i (dropped h u m there run) room =
    subst (λ c. Sound c t) (zero_left n) (dropped-Sound n h s i u m there run)
  where
    zero_left : (n : ℕ) → n ≡ 0 + n
    zero_left n = omega arith

pub Reachable-Sound : (n : ℕ) (s : System) → Reachable n s → n ≤ usize_max → Sound n s
Reachable-Sound n s initial room = start-Sound
Reachable-Sound n s (next {n = m} {k = k} {s = r} {t = t} before step) room =
    Step-Sound m k r t (Reachable-Sound m r before (omega (arith, room))) step room

-- In every state that fewer than 2 ^ 64 calls of `lock` lead to, at most one hart has a guard, whatever the order of
-- the steps of the harts; its ticket is the one that is served, so guards are given in the order of the tickets.
pub Reachable-exclusive :
    (n : ℕ) (s : System)
    → Reachable n s
    → n ≤ usize_max
    → (h k t u : ℕ) → s.phase h ≡ guarding t
    → s.phase k ≡ guarding u
    → (h ≡ k) × (t ≡ s.lock.now_serving)
Reachable-exclusive n s r room h k t u eh ek =
    let i = Reachable-Sound n s r room in
    let now = i.turn h t eh in
    (
      i.queue.once h k s.lock.now_serving (ap ticket eh ∙ ap some now)
          (ap ticket ek ∙ ap some (i.turn k u ek)),
      now,
    )

-- In every state that fewer than 2 ^ 64 calls of `lock` lead to, while a hart waits in `lock`, some hart can move the lock on: it has the guard, or its next load
-- finds its ticket served and gives it the guard.
pub Reachable-moves :
    (n : ℕ) (s : System)
    → Reachable n s
    → n ≤ usize_max
    → (h t : ℕ) → s.phase h ≡ waiting t
    → (k : ℕ) × ((s.phase k ≡ guarding s.lock.now_serving)
        ⊎ ((s.phase k ≡ waiting s.lock.now_serving)
            × (poll s.lock s.lock.now_serving ≡ guarding s.lock.now_serving)))
unfolding poll
Reachable-moves n s r room h t e =
    let i = Reachable-Sound n s r room in
    let (lo, hi) = i.queue.open_tickets h t (ap ticket e) in
    let (k, found) = i.queue.taken s.lock.now_serving (omega arith) (omega arith) in
    (
      k,
      elim (phase_cases (s.phase k) s.lock.now_serving found) [
        | inl g ↦ inl g
        | inr w ↦ inr (w, served s.lock.now_serving)
      ],
    )
  where
    phase_cases : (p : Phase) (t : ℕ) → ticket p ≡ some t → (p ≡ guarding t) ⊎ (p ≡ waiting t)
    phase_cases outside t e = cc
    phase_cases (waiting u) t e = inr (ap waiting (some_inj e))
    phase_cases (guarding u) t e = inl (ap guarding (some_inj e))

    served : (now : ℕ) → (if now == now then guarding now else waiting now) ≡ guarding now
    served now = ground arith
