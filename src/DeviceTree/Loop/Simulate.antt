-- ===== src/DeviceTree/Loop/Simulate.antt =====
-- Two loops whose bodies agree return the same, and a body that returns makes a loop that returns or panics.
use novos.Prelude.{
  ℕ, zero, suc, ◌<◌, ◌≡◌, ◌≢◌, refl, Option, some, none, length, Run, ok, panic, out_of_fuel, ◌>>=◌,
  arith,
}
use novos.DeviceTree.Tokens.{Token, TokenIter, next}
use novos.DeviceTree.Tokens.Progress.{next_shorter}
use novos.DeviceTree.Tokens.Returns.{next-ne-out_of_fuel}
use novos.DeviceTree.Loop.{Turn, go_on, finish, Ended, settle, react, each_from, each}

-- What a loop returns, without its state and the buffer.
abbrev pub outcome : {S R : Type 0} → Run (Ended S R) → Run (Option R)
outcome ended = ended >>= λ e. ok e.0

module _ {S T R : Type 0} (f : S → T) where
  -- The same result, or states that `f` relates.
  abbrev pub Same : Run (Turn S R) → Run (Turn T R) → Type 0
  Same out_of_fuel turn = turn ≡ out_of_fuel
  Same panic turn = turn ≡ panic
  Same (ok (go_on state)) turn = turn ≡ ok (go_on (f state))
  Same (ok (finish result state)) turn = (state' : T) × (turn ≡ ok (finish result state'))

  pub >>=-Same :
      {A : Type 0} (g : A → Run (Turn S R)) (g' : A → Run (Turn T R)) (r : Run A)
      → ((a : A) → Same (g a) (g' a))
      → Same (r >>= g) (r >>= g')
  >>=-Same g g' out_of_fuel same = refl
  >>=-Same g g' panic same = refl
  >>=-Same g g' (ok a) same = same a

  module _ (body : S → Token → TokenIter → Run (Turn S R))
      (body' : T → Token → TokenIter → Run (Turn T R))
      (same : (state : S) (token : Token) (iter : TokenIter)
        → Same (body state token iter) (body' (f state) token iter)) where
    turn-Same :
        (fuel : ℕ) (iter : TokenIter) (turn : Run (Turn S R)) (turn' : Run (Turn T R))
        → Same turn turn'
        → ((state : S)
            → outcome (each_from body fuel state iter)
              ≡ outcome (each_from body' fuel (f state) iter))
        → outcome (turn >>= settle (each_from body fuel) iter)
          ≡ outcome (turn' >>= settle (each_from body' fuel) iter)
    turn-Same fuel iter out_of_fuel turn' s rest = rw s refl
    turn-Same fuel iter panic turn' s rest = rw s refl
    turn-Same fuel iter (ok (go_on state)) turn' s rest = rw s (rest state)
    turn-Same fuel iter (ok (finish result state)) turn' (state', s) rest = rw s refl

    react_same :
        (fuel : ℕ) (state : S) (taken : Run (Option Token × TokenIter))
        → ((state : S) (iter : TokenIter)
            → outcome (each_from body fuel state iter)
              ≡ outcome (each_from body' fuel (f state) iter))
        → outcome (taken >>= react body (each_from body fuel) state)
          ≡ outcome (taken >>= react body' (each_from body' fuel) (f state))
    react_same fuel state out_of_fuel rest = refl
    react_same fuel state panic rest = refl
    react_same fuel state (ok (none, iter)) rest = refl
    react_same fuel state (ok (some token, iter)) rest =
        turn-Same fuel iter (body state token iter) (body' (f state) token iter)
          (same state token iter) (λ s. rest s iter)

    each_from_same :
        (fuel : ℕ) (state : S) (iter : TokenIter)
        → outcome (each_from body fuel state iter) ≡ outcome (each_from body' fuel (f state) iter)
    unfolding each_from
    each_from_same zero state iter = refl
    each_from_same (suc fuel) state iter =
        react_same fuel state (next iter) (λ s i. each_from_same fuel s i)

    pub each_same :
        (state : S) (iter : TokenIter)
        → outcome (each body state iter) ≡ outcome (each body' (f state) iter)
    unfolding each
    each_same state iter = each_from_same (suc (length iter)) state iter

module _ {S R : Type 0} (body : S → Token → TokenIter → Run (Turn S R))
    (returns : (state : S) (token : Token) (iter : TokenIter)
      → body state token iter ≢ out_of_fuel) where
  turn-ne :
      (rest : S → TokenIter → Run (Ended S R)) (iter : TokenIter) (turn : Run (Turn S R))
      → turn ≢ out_of_fuel
      → ((state : S) → rest state iter ≢ out_of_fuel)
      → (turn >>= settle rest iter) ≢ out_of_fuel
  turn-ne rest iter out_of_fuel h k e = absurd (h refl)
  turn-ne rest iter panic h k e = cc
  turn-ne rest iter (ok (go_on state)) h k e = k state e
  turn-ne rest iter (ok (finish result state)) h k e = cc

  react-ne :
      (fuel : ℕ) (state : S) (buf : TokenIter) (taken : Run (Option Token × TokenIter))
      → next buf ≡ taken
      → length buf < suc fuel
      → ((s : S) (i : TokenIter) → length i < fuel → each_from body fuel s i ≢ out_of_fuel)
      → (taken >>= react body (each_from body fuel) state) ≢ out_of_fuel
  react-ne fuel state buf out_of_fuel e h rest _ = absurd (next-ne-out_of_fuel buf e)
  react-ne fuel state buf panic e h rest e' = cc
  react-ne fuel state buf (ok (none, iter)) e h rest e' = cc
  react-ne fuel state buf (ok (some token, iter)) e h rest e' =
      turn-ne (each_from body fuel) iter (body state token iter) (returns state token iter)
        (λ s. rest s iter (omega (arith, next_shorter buf token iter e))) e'

  each_from-ne :
      (fuel : ℕ) (state : S) (buf : TokenIter)
      → length buf < fuel
      → each_from body fuel state buf ≢ out_of_fuel
  unfolding each_from
  each_from-ne zero state buf h = absurd (omega arith)
  each_from-ne (suc fuel) state buf h =
      react-ne fuel state buf (next buf) refl h (λ s i short. each_from-ne fuel s i short)

  pub each-ne-out_of_fuel : (state : S) (buf : TokenIter) → each body state buf ≢ out_of_fuel
  unfolding each
  each-ne-out_of_fuel state buf = each_from-ne (suc (length buf)) state buf (omega arith)
