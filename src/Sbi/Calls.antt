-- ===== src/Sbi/Calls.antt =====
-- crates/sbi/src/base.rs, hsm.rs, ipi.rs, rfence.rs, system.rs, timer.rs and legacy.rs: the calls into the firmware.
use novos.Prelude.{
  ℕ, ◌/◌, ◌^◌, bit_and, ◌==◌, if◌then◌else◌, Bool, not, List, [], ◌∷◌, Option, none, some, Run, ok,
  panic, Result, good, bad, out_of_fuel,
}
use novos.Sbi.{Error, from_code, from_sbi_call, HartMask}

-- The registers of an `ecall`: a7, a6 where it is set, and the arguments from a0 on that are set.
pub record Call : Type 0 where
  pub extension : ℕ
  pub function : Option ℕ
  pub args : List ℕ

-- The firmware, that answers in a0 and a1 or does not return.
abbrev pub Firmware : Type 0 → Type 0
Firmware S = Call → S → Option ((ℕ × ℕ) × S)

abbrev pub answered : {S A : Type 0} → (ℕ × ℕ → A) → Option ((ℕ × ℕ) × S) → Option (A × S)
answered f none = none
answered f (some (a, s)) = some (f a, s)

abbrev pub with_value : ℕ × ℕ → Result Error ℕ
with_value (err_code, value) = from_sbi_call value err_code

abbrev pub without_value : ℕ × ℕ → Result Error (Unit {0})
without_value (err_code, value) = from_sbi_call tt err_code

abbrev pub map_good : {A B : Type 0} → (A → B) → Result Error A → Result Error B
map_good f (good x) = good (f x)
map_good f (bad e) = bad e

-- The calls that return only with an error.
abbrev pub never : ℕ × ℕ → Run (Result Error ⊥)
never (err_code, value) = if err_code == 0 then panic else ok (bad (from_code err_code))

pub data Status : Type 0 where
  started stopped start_request_pending stop_request_pending : Status
  unknown_status : ℕ → Status

unfoldable pub status_of : ℕ → Status
status_of value =
    if value == 0
    then started
    else if value == 1
    then stopped
    else if value == 2
    then start_request_pending
    else if value == 3
    then stop_request_pending
    else unknown_status value

pub data ResetType : Type 0 where
  shutdown_type cold_reboot warm_reboot : ResetType
  custom_type : ℕ → ResetType

pub data Reason : Type 0 where
  no_reason system_failure : Reason
  custom_reason : ℕ → Reason

abbrev pub type_number : ResetType → ℕ
type_number shutdown_type = 0
type_number cold_reboot = 1
type_number warm_reboot = 2
type_number (custom_type val) = val

abbrev pub reason_number : Reason → ℕ
reason_number no_reason = 0
reason_number system_failure = 1
reason_number (custom_reason val) = val

-- `unwrap` of a result that has no good value.
abbrev pub unwrap_never : Run (Result Error ⊥) → Run ⊥
unwrap_never (ok (bad e)) = panic
unwrap_never (ok (good x)) = ok x
unwrap_never panic = panic
unwrap_never out_of_fuel = out_of_fuel

abbrev pub unwrapped : {S : Type 0} → Option (Run (Result Error ⊥) × S) → Option (Run ⊥ × S)
unwrapped none = none
unwrapped (some (r, s)) = some (unwrap_never r, s)

abbrev pub mapped :
    {S A B : Type 0} → (A → B) → Option (Result Error A × S) → Option (Result Error B × S)
mapped f none = none
mapped f (some (r, s)) = some (map_good f r, s)

module _ {S : Type 0} (ecall : Firmware S) where
  unfoldable pub base_call : ℕ → S → Option (Result Error ℕ × S)
  unfolding from_sbi_call
  base_call fid s =
      answered with_value (ecall (record { extension = 0x10; function = some fid; args = [] }) s)

  unfoldable pub spec_version : S → Option (Result Error (ℕ × ℕ) × S)
  unfolding base_call
  spec_version s =
      mapped (λ raw. (bit_and (raw / 2 ^ 24) 0x7F, bit_and raw 0xFF_FFFF)) (base_call 0x00 s)

  unfoldable pub impl_id : S → Option (Result Error ℕ × S)
  unfolding base_call
  impl_id s = base_call 0x01 s

  unfoldable pub impl_version : S → Option (Result Error ℕ × S)
  unfolding base_call
  impl_version s = base_call 0x02 s

  unfoldable pub probe_ext : ℕ → S → Option (Result Error Bool × S)
  unfolding from_sbi_call
  probe_ext ext s =
      mapped (λ result. not (result == 0))
        (answered with_value
          (ecall (record { extension = 0x10; function = some 0x03; args = ext ∷ [] }) s))

  unfoldable pub mvendorid : S → Option (Result Error ℕ × S)
  unfolding base_call
  mvendorid s = base_call 0x04 s

  unfoldable pub marchid : S → Option (Result Error ℕ × S)
  unfolding base_call
  marchid s = base_call 0x05 s

  unfoldable pub mimpid : S → Option (Result Error ℕ × S)
  unfolding base_call
  mimpid s = base_call 0x06 s

  unfoldable pub hart_start : ℕ → ℕ → ℕ → S → Option (Result Error (Unit {0}) × S)
  unfolding from_sbi_call
  hart_start hart_id start_addr arg s = answered without_value (
      ecall
        (record { extension = 0x48534D; function = some 0; args = hart_id ∷ start_addr ∷ arg ∷ [] })
        s)

  unfoldable pub hart_stop : S → Option (Run (Result Error ⊥) × S)
  unfolding from_code
  hart_stop s =
      answered never (ecall (record { extension = 0x48534D; function = some 1; args = [] }) s)

  -- Both arms on the error code are those of `from_sbi_call`.
  unfoldable pub hart_status : ℕ → S → Option (Result Error Status × S)
  unfolding from_sbi_call status_of
  hart_status hart_id s = mapped status_of (
      answered with_value
        (ecall (record { extension = 0x48534D; function = some 2; args = hart_id ∷ [] }) s))

  unfoldable pub send_ipi : HartMask → S → Option (Result Error (Unit {0}) × S)
  unfolding from_sbi_call
  send_ipi m s =
      answered without_value
        (ecall (record { extension = 0x735049; function = some 0; args = m.mask ∷ m.base ∷ [] }) s)

  unfoldable pub rfence_call : ℕ → HartMask → ℕ → ℕ → S → Option (Result Error (Unit {0}) × S)
  unfolding from_sbi_call
  rfence_call fid m start size s = answered without_value (
      ecall
        (record {
          extension = 0x52464E43;
          function = some fid;
          args = m.mask ∷ m.base ∷ start ∷ size ∷ [];
        })
        s)

  unfoldable pub fence_i : HartMask → S → Option (Result Error (Unit {0}) × S)
  unfolding rfence_call
  fence_i m s = rfence_call 0x00 m 0 0 s

  unfoldable pub sfence_vma : HartMask → ℕ → ℕ → S → Option (Result Error (Unit {0}) × S)
  unfolding rfence_call
  sfence_vma m start size s = rfence_call 0x00 m start size s

  unfoldable pub reset : ResetType → Reason → S → Option (Run (Result Error ⊥) × S)
  unfolding from_code
  reset type reason s = answered never (
      ecall
        (record {
          extension = 0x53525354;
          function = some 0;
          args = type_number type ∷ reason_number reason ∷ [];
        })
        s)

  unfoldable pub shutdown : S → Option (Run ⊥ × S)
  unfolding reset
  shutdown s = unwrapped (reset shutdown_type no_reason s)

  unfoldable pub fail_shutdown : S → Option (Run ⊥ × S)
  unfolding reset
  fail_shutdown s = unwrapped (reset shutdown_type system_failure s)

  unfoldable pub set_timer : ℕ → S → Option (Result Error (Unit {0}) × S)
  unfolding from_sbi_call
  set_timer stime s =
      answered without_value
        (ecall (record { extension = 0x54494D45; function = some 0; args = stime ∷ [] }) s)

  unfoldable pub put_char : ℕ → S → Option (Result Error (Unit {0}) × S)
  unfolding from_sbi_call
  put_char c s =
      mapped (λ _. tt)
        (answered with_value
          (ecall (record { extension = 0x01; function = none; args = c ∷ [] }) s))
