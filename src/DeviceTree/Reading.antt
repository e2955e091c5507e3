-- ===== src/DeviceTree/Reading.antt =====
-- The iterators of crates/devicetree: a `next` reads from a buffer, which it leaves shorter, and returns an `Option`. Such
-- a method is a `Reading`; its `?` is the bind, which keeps the buffer as it is where the method gives up.
pub mod Collect
use novos.Prelude.{
  ℕ, zero, suc, List, [], ◌∷◌, Option, none, some, length, drop, take, ltb, if◌then◌else◌, Run, ok,
  panic, out_of_fuel, ◌≡◌, refl,
}
use novos.Prelude as P
use novos.DeviceTree.Bytes.{slice_from, slice_upto, get_upto}

abbrev pub Reading : Type 0 → Type 0
Reading A = List ℕ → Run (Option A × List ℕ)

abbrev pub proceed :
    {A B : Type 0} → (A → Reading B) → Run (Option A × List ℕ) → Run (Option B × List ℕ)
proceed next out_of_fuel = out_of_fuel
proceed next panic = panic
proceed next (ok (none, buf)) = ok (none, buf)
proceed next (ok (some value, buf)) = next value buf

infixl 5 ◌>>=◌ ◌>>◌
abbrev pub ◌>>=◌ : {A B : Type 0} → Reading A → (A → Reading B) → Reading B
◌>>=◌ first next buf = proceed next (first buf)

abbrev pub ◌>>◌ : {B : Type 0} → Reading (Unit {0}) → Reading B → Reading B
first >> next = first >>= λ _. next

abbrev pub give : {A : Type 0} → A → Reading A
give value buf = ok (some value, buf)

abbrev pub give_up : {A : Type 0} → Reading A
give_up buf = ok (none, buf)

-- A computation that may panic.
abbrev pub run : {A : Type 0} → Run A → Reading A
run out_of_fuel buf = out_of_fuel
run panic buf = panic
run (ok value) buf = ok (some value, buf)

-- A computation that may be `None`.
abbrev pub option : {A : Type 0} → Option A → Reading A
option none buf = ok (none, buf)
option (some value) buf = ok (some value, buf)

abbrev pub look : {A : Type 0} → (List ℕ → Option A) → Reading A
look f buf = option (f buf) buf

-- `&buf[..len]` and `buf.get(..len)`.
abbrev pub upto : ℕ → Reading (List ℕ)
upto len buf = run (slice_upto buf len) buf

abbrev pub try_upto : ℕ → Reading (List ℕ)
try_upto len buf = option (get_upto buf len) buf

-- `buf = &buf[len..]`
abbrev pub skip : ℕ → Reading (Unit {0})
skip len buf = if ltb (length buf) len then panic else ok (some tt, drop len buf)

-- `for item in iterator`, where the iterator's `next` is a reading that shortens the buffer when it returns an item.
abbrev pub gather : {A : Type 0} → (List ℕ → Run (List A)) → Option A × List ℕ → Run (List A)
gather rest (none, buf) = ok []
gather rest (some item, buf) = P.◌>>=◌ (rest buf) λ items. ok (item ∷ items)

unfoldable pub collect_from : {A : Type 0} → ℕ → Reading A → List ℕ → Run (List A)
collect_from zero read buf = out_of_fuel
collect_from (suc fuel) read buf = P.◌>>=◌ (read buf) (gather (collect_from fuel read))

unfoldable pub collect : {A : Type 0} → Reading A → List ℕ → Run (List A)
unfolding collect_from
collect read buf = collect_from (suc (length buf)) read buf
