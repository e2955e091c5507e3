-- ===== src/DeviceTree/Loop.antt =====
-- The loops over the tokens of a block: `for token in iter`, `loop` over `iter.next()?`, and an iterator whose `next` calls
-- itself. Each takes a token, gives up when there is none, and goes on or finishes. Every token shortens the
-- buffer, so that its length is fuel enough.
pub mod Unroll
pub mod Skip
pub mod Simulate
use novos.Prelude.{
  ℕ, List, [], ◌∷◌, zero, suc, ◌+◌, Option, none, some, length, Run, ok, out_of_fuel, ◌>>=◌,
}
use novos.DeviceTree.Tokens.{Token, TokenIter, next}

-- What the body does: it goes on with the new state, or ends the loop with a result.
pub data Turn (S R : Type 0) : Type 0 where
  go_on : S → Turn S R
  finish : Option R → S → Turn S R

-- The result, and the state and the buffer that are left.
abbrev pub Ended : Type 0 → Type 0 → Type 0
Ended S R = Option R × S × TokenIter

module _ {S R : Type 0} where
  abbrev pub settle : (S → TokenIter → Run (Ended S R)) → TokenIter → Turn S R → Run (Ended S R)
  settle rest iter (go_on state) = rest state iter
  settle rest iter (finish result state) = ok (result, state, iter)

  -- The body on a token, and what it makes of the rest of the loop.
  abbrev pub react :
      (S → Token → TokenIter → Run (Turn S R))
      → (S → TokenIter → Run (Ended S R))
      → S
      → Option Token × TokenIter
      → Run (Ended S R)
  react body rest state (none, iter) = ok (none, state, iter)
  react body rest state (some token, iter) = body state token iter >>= settle rest iter

  unfoldable pub each_from :
      (S → Token → TokenIter → Run (Turn S R)) → ℕ → S → TokenIter → Run (Ended S R)
  unfolding next
  each_from body zero state iter = out_of_fuel
  each_from body (suc fuel) state iter = next iter >>= react body (each_from body fuel) state

  unfoldable pub each : (S → Token → TokenIter → Run (Turn S R)) → S → TokenIter → Run (Ended S R)
  unfolding each_from
  each body state iter = each_from body (suc (length iter)) state iter

  -- `for item in iterator`, where `next` of the iterator is such a loop: the items up to the first `None`.
  abbrev pub gather : (S → TokenIter → Run (List R)) → Ended S R → Run (List R)
  gather rest (none, state, iter) = ok []
  gather rest (some item, state, iter) = rest state iter >>= λ items. ok (item ∷ items)

  unfoldable pub collect_from :
      (S → Token → TokenIter → Run (Turn S R)) → ℕ → S → TokenIter → Run (List R)
  unfolding each
  collect_from body zero state iter = out_of_fuel
  collect_from body (suc fuel) state iter = each body state iter >>= gather (collect_from body fuel)

  unfoldable pub collect : (S → Token → TokenIter → Run (Turn S R)) → S → TokenIter → Run (List R)
  unfolding collect_from
  collect body state iter = collect_from body (suc (length iter)) state iter
