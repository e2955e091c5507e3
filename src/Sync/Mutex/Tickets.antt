-- ===== src/Sync/Mutex/Tickets.antt =====
-- The tickets that are out, as the steps of the ticket lock of sync.rs change them.
use novos.Prelude.{
  ℕ, suc, ◌≤◌, ◌<◌, ◌≡◌, ◌≢◌, sym, ap, ◌∙◌, Option, none, some, arith, subst, ℕ_discrete,
}
use mathlib.Core.Path.{fun_ext}
use novos.Sync.Mutex.{Phase, outside, waiting, guarding}

abbrev pub ticket : Phase → Option ℕ
ticket outside = none
ticket (waiting t) = some t
ticket (guarding t) = some t

-- The tickets from `now` to `n` are out, each with one hart.
pub record Queue (now n : ℕ) (tickets : ℕ → Option ℕ) : Type 0 where
  pub served : now ≤ n
  pub open_tickets : (h t : ℕ) → tickets h ≡ some t → (now ≤ t) × (t < n)
  pub once : (h k t : ℕ) → tickets h ≡ some t → tickets k ≡ some t → h ≡ k
  pub taken : (t : ℕ) → now ≤ t → t < n → (h : ℕ) × (tickets h ≡ some t)

pub some_inj : {a b : ℕ} → some a ≡ some b → a ≡ b
some_inj e = cc

-- The change at one hart, seen from all.
module _ (now n h : ℕ) (old new : ℕ → Option ℕ) (keep : (k : ℕ) → k ≢ h → new k ≡ old k)
    (i : Queue now n old) where
  pub Queue-take : old h ≡ none → new h ≡ some n → Queue now (suc n) new
  Queue-take free mine = record {
    served = omega (arith, i.served);
    open_tickets = λ k t e. elim (ℕ_discrete k h) [
      | no other ↦ let (lo, hi) = i.open_tickets k t (sym (keep k other) ∙ e) in (lo, omega arith)
      | yes same ↦
          let last : n ≡ t = some_inj (sym (ap new same ∙ mine) ∙ e) in
          (omega (arith, i.served), omega arith)
    ];
    once = λ a b t ea eb. elim (ℕ_discrete a h) [
      | yes same_a ↦ elim (ℕ_discrete b h) [
        | yes same_b ↦ same_a ∙ sym same_b
        | no other_b ↦ absurd (clash b t other_b eb (sym (ap new same_a ∙ mine) ∙ ea))
      ]
      | no other_a ↦ elim (ℕ_discrete b h) [
        | yes same_b ↦ absurd (clash a t other_a ea (sym (ap new same_b ∙ mine) ∙ eb))
        | no other_b ↦ i.once a b t (sym (keep a other_a) ∙ ea) (sym (keep b other_b) ∙ eb)
      ]
    ];
    taken = λ t lo hi. elim (ℕ_discrete t n) [
      | yes last ↦ (h, mine ∙ ap some (sym last))
      | no before ↦
          let (k, e) = i.taken t lo (omega arith) in (k, keep k (λ same. absent k t same e) ∙ e)
    ];
  }
    where
      clash : (k t : ℕ) → k ≢ h → new k ≡ some t → some n ≡ some t → ⊥
      clash k t other e last =
          let (lo, hi) = i.open_tickets k t (sym (keep k other) ∙ e) in
          let same : n ≡ t = some_inj last in absurd (omega arith)

      absent : (k t : ℕ) → k ≡ h → old k ≡ some t → ⊥
      absent k t same e = let there = sym (ap old same ∙ free) ∙ e in cc

  pub Queue-drop : old h ≡ some now → new h ≡ none → Queue (suc now) n new
  Queue-drop mine gone = record {
    served = let (lo, hi) = i.open_tickets h now mine in hi;
    open_tickets = λ k t e.
        let other = still k t e in
        let there = sym (keep k other) ∙ e in
        let (lo, hi) = i.open_tickets k t there in
        let later : t ≢ now = λ same. other (i.once k h now (there ∙ ap some same) mine) in
        (omega arith, hi);
    once = λ a b t ea eb.
        i.once a b t (sym (keep a (still a t ea)) ∙ ea) (sym (keep b (still b t eb)) ∙ eb);
    taken = λ t lo hi.
        let (k, e) = i.taken t (omega arith) hi in (k, keep k (λ same. late k t same e lo) ∙ e);
  }
    where
      still : (k t : ℕ) → new k ≡ some t → k ≢ h
      still k t e same = let there = sym (ap new same ∙ gone) ∙ e in cc

      late : (k t : ℕ) → k ≡ h → old k ≡ some t → suc now ≤ t → ⊥
      late k t same e lo =
          let first : now ≡ t = some_inj (sym (ap old same ∙ mine) ∙ e) in absurd (omega arith)

  pub Queue-keep : old h ≡ new h → Queue now n new
  Queue-keep mine =
      subst (Queue now n)
        (fun_ext (λ k. elim (ℕ_discrete k h) [
          | yes same ↦ ap old same ∙ (mine ∙ sym (ap new same))
          | no other ↦ sym (keep k other)
        ]))
        i
