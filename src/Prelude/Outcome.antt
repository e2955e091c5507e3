-- ===== src/Prelude/Outcome.antt =====
-- What a call in Rust may do: return, panic (an index out of bounds, an `unwrap`, an arithmetic
-- overflow under `overflow-checks`), or, in the model alone, use up the fuel of a loop.
use Prim.Native.Nat.{ℕ, ◌+◌, ◌-◌, ◌*◌, ◌^◌}
use mathlib.Core.Path.{◌≡◌, refl}
use mathlib.Core.Option.{Option, none, some}
use novos.Prelude.Tests.{ltb, if◌then◌else◌}

pub data Run {ℓ} (A : Type ℓ) : Type ℓ where
  ok : A → Run A
  panic : Run A
  out_of_fuel : Run A

infixl 5 ◌>>=◌ ◌>>◌
abbrev pub ◌>>=◌ {ℓ κ} : {A : Type ℓ} {B : Type κ} → Run A → (A → Run B) → Run B
out_of_fuel >>= next = out_of_fuel
panic >>= next = panic
ok value >>= next = next value

abbrev pub ◌>>◌ {ℓ} : {B : Type ℓ} → Run (Unit {0}) → Run B → Run B
first >> second = first >>= λ _. second

-- An index, an `unwrap` or an `expect`.
abbrev pub unwrap {ℓ} : {A : Type ℓ} → Option A → Run A
unwrap none = panic
unwrap (some a) = ok a

-- `Result<A, E>`.
pub data Result {ℓ κ} (E : Type ℓ) (A : Type κ) : Type (ℓ ⊔ κ) where
  good : A → Result E A
  bad : E → Result E A

-- A `usize` has 64 bits.
abbrev pub usize_max : ℕ
usize_max = 2 ^ 64 - 1

-- Checked arithmetic on `usize`.
abbrev pub add_usize : ℕ → ℕ → Run ℕ
add_usize a b = if ltb usize_max (a + b) then panic else ok (a + b)

abbrev pub sub_usize : ℕ → ℕ → Run ℕ
sub_usize a b = if ltb a b then panic else ok (a - b)

abbrev pub mul_usize : ℕ → ℕ → Run ℕ
mul_usize a b = if ltb usize_max (a * b) then panic else ok (a * b)

abbrev pub saturating_add : ℕ → ℕ → ℕ
saturating_add a b = if ltb usize_max (a + b) then usize_max else a + b

-- Inversion of a bind that returned.
pub >>=-eq-ok {ℓ κ} :
    {A : Type ℓ} {B : Type κ} (run : Run A) (next : A → Run B) {result : B}
    → (run >>= next) ≡ ok result
    → (value : A) × (run ≡ ok value) × (next value ≡ ok result)
>>=-eq-ok out_of_fuel next returned = cc
>>=-eq-ok panic next returned = cc
>>=-eq-ok (ok value) next returned = (value, refl, returned)

pub ok_inj {ℓ} : {A : Type ℓ} {a b : A} → ok a ≡ ok b → a ≡ b
ok_inj e = cc

pub unwrap-eq-ok {ℓ} : {A : Type ℓ} (o : Option A) {a : A} → unwrap o ≡ ok a → o ≡ some a
unwrap-eq-ok none h = cc
unwrap-eq-ok (some a) h = cc
