-- ===== src/Sbi.antt =====
-- crates/sbi/src/lib.rs: errors and hart masks. An `isize` is the 64 bits of the register that holds it.
pub mod Calls
pub mod Codes
pub mod Dispatch
mod Tests
use novos.Prelude.{ℕ, ◌-◌, ◌^◌, ◌==◌, if◌then◌else◌, Result, good, bad}

-- The register that holds `-n`.
abbrev pub minus : ℕ → ℕ
minus n = 2 ^ 64 - n

pub data Error : Type 0 where
  failed not_supported invalid_param denied invalid_address already_available : Error
  unknown : ℕ → Error

unfoldable pub from_code : ℕ → Error
from_code code =
    if code == minus 1
    then failed
    else if code == minus 2
    then not_supported
    else if code == minus 3
    then invalid_param
    else if code == minus 4
    then denied
    else if code == minus 5
    then invalid_address
    else if code == minus 6
    then already_available
    else unknown code

unfoldable pub code : Error → ℕ
code failed = minus 1
code not_supported = minus 2
code invalid_param = minus 3
code denied = minus 4
code invalid_address = minus 5
code already_available = minus 6
code (unknown c) = c

unfoldable pub from_sbi_call : {A : Type 0} → A → ℕ → Result Error A
unfolding from_code
from_sbi_call value err_code = if err_code == 0 then good value else bad (from_code err_code)

pub record HartMask : Type 0 where
  pub base : ℕ
  pub mask : ℕ

unfoldable pub all_from_base : ℕ → HartMask
all_from_base base = record { base = base; mask = 2 ^ 64 - 1 }
