-- ===== src/Sbi/Codes.antt =====
-- The error codes of crates/sbi/src/lib.rs, there and back.
use novos.Prelude.{ℕ, ◌<◌, ◌≡◌, refl, arith}
use novos.Sbi.{
  Error, failed, not_supported, invalid_param, denied, invalid_address, already_available, unknown,
  minus, from_code, code,
}

-- An unknown error is one with none of the standard codes.
abbrev pub IsError : Error → Type 0
IsError (unknown c) = c < minus 6
IsError failed = Unit
IsError not_supported = Unit
IsError invalid_param = Unit
IsError denied = Unit
IsError invalid_address = Unit
IsError already_available = Unit

code-unknown : (c : ℕ) → c < minus 6 → from_code c ≡ unknown c
unfolding from_code
code-unknown c h = ground (arith, h)

code-from_code : (c : ℕ) → code (from_code c) ≡ c
unfolding from_code code
code-from_code c = ground arith

-- `from_code` finds every error by its code, but for an `Unknown` with one of the standard codes, which comes
-- back as the error with that code; and the error that it makes of a register, `Unknown` where no standard
-- code fits, has that register's value for its code.
pub from_code-code :
    (e : Error) (c : ℕ) → IsError e → (from_code (code e) ≡ e) × (code (from_code c) ≡ c)
unfolding code from_code
from_code-code e c h = (there e h, code-from_code c)
  where
    there : (e : Error) → IsError e → from_code (code e) ≡ e
    there failed h = refl
    there not_supported h = refl
    there invalid_param h = refl
    there denied h = refl
    there invalid_address h = refl
    there already_available h = refl
    there (unknown c) h = code-unknown c h
