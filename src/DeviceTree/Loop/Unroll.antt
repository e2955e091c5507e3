-- ===== src/DeviceTree/Loop/Unroll.antt =====
-- The loops over tokens end, and go round by round: the fuel of the model never shows.
use novos.Prelude.{
  ℕ, zero, suc, ◌<◌, ◌≡◌, refl, ap, ◌∙◌, Option, some, none, length, Run, ok, panic, out_of_fuel,
  ◌>>=◌, arith,
}
use novos.DeviceTree.Tokens.{Token, TokenIter, next}
use novos.DeviceTree.Tokens.Progress.{next_shorter}
use novos.DeviceTree.Loop.{Turn, go_on, finish, Ended, settle, react, each_from, each}

module _ {S R : Type 0} (body : S → Token → TokenIter → Run (Turn S R)) where
  -- Two ways to go on that agree on shorter buffers.
  Agree : ℕ → (S → TokenIter → Run (Ended S R)) → (S → TokenIter → Run (Ended S R)) → Type 0
  Agree bound f g =
      (state : S) (iter : TokenIter) → length iter < bound → f state iter ≡ g state iter

  settle-Agree :
      (f g : S → TokenIter → Run (Ended S R)) (iter : TokenIter)
      → ((state : S) → f state iter ≡ g state iter)
      → (turn : Run (Turn S R)) → (turn >>= settle f iter) ≡ (turn >>= settle g iter)
  settle-Agree f g iter same out_of_fuel = refl
  settle-Agree f g iter same panic = refl
  settle-Agree f g iter same (ok (go_on state)) = same state
  settle-Agree f g iter same (ok (finish result state)) = refl

  react-Agree :
      (f g : S → TokenIter → Run (Ended S R)) (state : S) (buf : TokenIter)
      → Agree (length buf) f g
      → (taken : Run (Option Token × TokenIter)) → next buf ≡ taken
      → (taken >>= react body f state) ≡ (taken >>= react body g state)
  unfolding Agree
  react-Agree f g state buf same out_of_fuel e = refl
  react-Agree f g state buf same panic e = refl
  react-Agree f g state buf same (ok (none, rest)) e = refl
  react-Agree f g state buf same (ok (some token, rest)) e =
      settle-Agree f g rest (λ s. same s rest (omega (arith, next_shorter buf token rest e)))
        (body state token rest)

  each_from_enough :
      (fuel more : ℕ) (state : S) (buf : TokenIter)
      → length buf < fuel
      → length buf < more
      → each_from body fuel state buf ≡ each_from body more state buf
  unfolding each_from Agree
  each_from_enough zero more state buf h k = absurd (omega arith)
  each_from_enough (suc fuel) zero state buf h k = absurd (omega arith)
  each_from_enough (suc fuel) (suc more) state buf h k =
      react-Agree (each_from body fuel) (each_from body more) state buf
        (λ s iter short. each_from_enough fuel more s iter (omega arith) (omega arith)) (next buf)
        refl

  -- One round.
  pub each_step :
      (state : S) (buf : TokenIter)
      → each body state buf ≡ (next buf >>= react body (each body) state)
  unfolding each each_from Agree
  each_step state buf =
      react-Agree (each_from body (length buf)) (each body) state buf
        (λ s iter short.
          each_from_enough (length buf) (suc (length iter)) s iter short (omega arith))
        (next buf) refl

  -- A round on a token that is there.
  pub each_token :
      (state : S) (buf : TokenIter) (token : Token) (rest : TokenIter)
      → next buf ≡ ok (some token, rest)
      → each body state buf ≡ (body state token rest >>= settle (each body) rest)
  each_token state buf token rest e =
      each_step state buf ∙ ap (λ taken. taken >>= react body (each body) state) e

  pub each-none :
      (state : S) (buf rest : TokenIter)
      → next buf ≡ ok (none, rest)
      → each body state buf ≡ ok (none, state, rest)
  each-none state buf rest e =
      each_step state buf ∙ ap (λ taken. taken >>= react body (each body) state) e
