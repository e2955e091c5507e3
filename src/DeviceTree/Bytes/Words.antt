-- ===== src/DeviceTree/Bytes/Words.antt =====
-- `from_be_bytes` of the standard library, and the bytes that it reads.
use novos.Prelude.{
  ℕ, zero, suc, ◌+◌, ◌*◌, ◌/◌, ◌%◌, ◌^◌, ◌<◌, ◌≡◌, refl, ap, ◌∙◌, List, [], ◌∷◌, length, take, drop,
  arith,
}
use native.Mathlib.Nat.{div-add-mod, mod-lt, one-le-pow, pow-suc, mul-le-mul_right}

-- The digits so far are those of `high`.
unfoldable pub from_be_digits : ℕ → List ℕ → ℕ
from_be_digits high [] = high
from_be_digits high (b ∷ bytes) = from_be_digits (high * 256 + b) bytes

unfoldable pub from_be_bytes : List ℕ → ℕ
unfolding from_be_digits
from_be_bytes bytes = from_be_digits 0 bytes

-- `to_be_bytes`: `v` in `n` bytes.
unfoldable pub to_be_bytes : ℕ → ℕ → List ℕ
to_be_bytes zero v = []
to_be_bytes (suc n) v = v / 256 ^ n ∷ to_be_bytes n (v % 256 ^ n)

from_be_digits-to_be_bytes :
    (n v high : ℕ) → v < 256 ^ n → from_be_digits high (to_be_bytes n v) ≡ high * 256 ^ n + v
unfolding from_be_digits to_be_bytes
from_be_digits-to_be_bytes zero v high h = omega arith
from_be_digits-to_be_bytes (suc n) v high h =
    let pos = one-le-pow n 256 (omega arith) in
    from_be_digits-to_be_bytes n (v % 256 ^ n) (high * 256 + v / 256 ^ n) (mod-lt v pos)
    ∙ omega (arith, div-add-mod v (256 ^ n), ap (λ (t : ℕ). high * t) (pow-suc 256 n))

pub from_be_bytes-to_be_bytes : (n v : ℕ) → v < 256 ^ n → from_be_bytes (to_be_bytes n v) ≡ v
unfolding from_be_bytes
from_be_bytes-to_be_bytes n v h = from_be_digits-to_be_bytes n v 0 h ∙ omega arith

pub length-to_be_bytes : (n v : ℕ) → length (to_be_bytes n v) ≡ n
unfolding to_be_bytes
length-to_be_bytes zero v = refl
length-to_be_bytes (suc n) v = ap suc (length-to_be_bytes n (v % 256 ^ n))

-- A list of bytes.
abbrev pub AreBytes : List ℕ → Type 0
AreBytes [] = Unit
AreBytes (b ∷ bytes) = (b < 256) × AreBytes bytes

pub AreBytes-take : (n : ℕ) (bytes : List ℕ) → AreBytes bytes → AreBytes (take n bytes)
AreBytes-take zero bytes h = tt
AreBytes-take (suc n) [] h = tt
AreBytes-take (suc n) (b ∷ bytes) h = (h.0, AreBytes-take n bytes h.1)

pub AreBytes-drop : (n : ℕ) (bytes : List ℕ) → AreBytes bytes → AreBytes (drop n bytes)
AreBytes-drop zero bytes h = h
AreBytes-drop (suc n) [] h = tt
AreBytes-drop (suc n) (b ∷ bytes) h = AreBytes-drop n bytes h.1

from_be_digits-lt :
    (bytes : List ℕ) (high : ℕ)
    → AreBytes bytes
    → from_be_digits high bytes < (high + 1) * 256 ^ length bytes
unfolding from_be_digits
from_be_digits-lt [] high h = omega arith
from_be_digits-lt (b ∷ bytes) high h = omega (
  arith,
  from_be_digits-lt bytes (high * 256 + b) h.1,
  mul-le-mul_right {m = high * 256 + b + 1} {n = (high + 1) * 256} (256 ^ length bytes)
      (omega arith),
  ap (λ (t : ℕ). (high + 1) * t) (pow-suc 256 (length bytes)),
)

pub from_be_bytes-lt : (bytes : List ℕ) → AreBytes bytes → from_be_bytes bytes < 256 ^ length bytes
unfolding from_be_bytes
from_be_bytes-lt bytes h = omega (arith, from_be_digits-lt bytes 0 h)
