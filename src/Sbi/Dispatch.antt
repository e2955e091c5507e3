-- ===== src/Sbi/Dispatch.antt =====
-- The calls of crates/sbi against firmware that follows the SBI specification.
use novos.Prelude.{
  ℕ, ◌/◌, ◌%◌, ◌^◌, ◌≡◌, not, List, [], ◌∷◌, Option, none, some, ◌==◌, if◌then◌else◌,
}
use novos.Sbi.{HartMask, minus}
use novos.Sbi.Calls.{
  Firmware, answered, mapped, unwrapped, with_value, without_value, never, ResetType, Reason,
  type_number, reason_number, status_of, spec_version, impl_id, impl_version, probe_ext, mvendorid,
  marchid, mimpid, hart_start, hart_stop, hart_status, send_ipi, fence_i, sfence_vma, reset,
  shutdown, fail_shutdown, set_timer, put_char,
}

abbrev pub Answer : Type 0 → Type 0
Answer S = Option ((ℕ × ℕ) × S)

-- The functions of the specification, with the arguments that it names.
pub record Services (S : Type 0) : Type 0 where
  pub get_spec_version : S → Answer S
  pub get_impl_id : S → Answer S
  pub get_impl_version : S → Answer S
  pub probe_extension : ℕ → S → Answer S
  pub get_mvendorid : S → Answer S
  pub get_marchid : S → Answer S
  pub get_mimpid : S → Answer S
  pub start_hart : (hart addr opaque : ℕ) → S → Answer S
  pub stop_hart : S → Answer S
  pub hart_get_status : ℕ → S → Answer S
  pub ipi : (mask base : ℕ) → S → Answer S
  pub remote_fence_i : (mask base : ℕ) → S → Answer S
  pub remote_sfence_vma : (mask base start size : ℕ) → S → Answer S
  pub system_reset : (type reason : ℕ) → S → Answer S
  pub timer : ℕ → S → Answer S
  pub console_putchar : ℕ → S → Answer S

-- SBI_ERR_NOT_SUPPORTED
abbrev pub unsupported : {S : Type 0} → S → Answer S
unsupported s = some ((minus 2, 0), s)

-- The first argument registers; those that were not set have no value that the firmware may use.
abbrev pub with_one : {S : Type 0} → (ℕ → S → Answer S) → List ℕ → S → Answer S
with_one f [] s = unsupported s
with_one f (a ∷ args) s = f a s

abbrev pub with_two : {S : Type 0} → (ℕ → ℕ → S → Answer S) → List ℕ → S → Answer S
with_two f [] s = unsupported s
with_two f (a ∷ args) s = with_one (f a) args s

abbrev pub with_three : {S : Type 0} → (ℕ → ℕ → ℕ → S → Answer S) → List ℕ → S → Answer S
with_three f [] s = unsupported s
with_three f (a ∷ args) s = with_two (f a) args s

abbrev pub with_four : {S : Type 0} → (ℕ → ℕ → ℕ → ℕ → S → Answer S) → List ℕ → S → Answer S
with_four f [] s = unsupported s
with_four f (a ∷ args) s = with_three (f a) args s

module _ {S : Type 0} (v : Services S) where
  abbrev pub base_extension : ℕ → List ℕ → S → Answer S
  base_extension fid args s =
      if fid == 0
      then v.get_spec_version s
      else if fid == 1
      then v.get_impl_id s
      else if fid == 2
      then v.get_impl_version s
      else if fid == 3
      then with_one v.probe_extension args s
      else if fid == 4
      then v.get_mvendorid s
      else if fid == 5
      then v.get_marchid s
      else if fid == 6
      then v.get_mimpid s
      else unsupported s

  abbrev pub hsm_extension : ℕ → List ℕ → S → Answer S
  hsm_extension fid args s =
      if fid == 0
      then with_three v.start_hart args s
      else if fid == 1
      then v.stop_hart s
      else if fid == 2
      then with_one v.hart_get_status args s
      else unsupported s

  abbrev pub rfence_extension : ℕ → List ℕ → S → Answer S
  rfence_extension fid args s =
      if fid == 0
      then with_two v.remote_fence_i args s
      else if fid == 1
      then with_four v.remote_sfence_vma args s
      else unsupported s

  -- The extensions with one function.
  abbrev pub only : (List ℕ → S → Answer S) → ℕ → List ℕ → S → Answer S
  only f fid args s = if fid == 0 then f args s else unsupported s

  abbrev pub extension : ℕ → ℕ → List ℕ → S → Answer S
  extension ext fid args s =
      if ext == 0x10
      then base_extension fid args s
      else if ext == 0x48534D
      then hsm_extension fid args s
      else if ext == 0x735049
      then only (with_two v.ipi) fid args s
      else if ext == 0x52464E43
      then rfence_extension fid args s
      else if ext == 0x53525354
      then only (with_two v.system_reset) fid args s
      else if ext == 0x54494D45
      then only (with_one v.timer) fid args s
      else unsupported s

  -- The legacy extensions have no function number.
  abbrev pub by_function : Option ℕ → ℕ → List ℕ → S → Answer S
  by_function none ext args s =
      if ext == 0x01 then with_one v.console_putchar args s else unsupported s
  by_function (some fid) ext args s = extension ext fid args s

  abbrev pub dispatch : Firmware S
  dispatch call s = by_function call.function call.extension call.args s

abbrev pair : ℕ → ℕ → ℕ × ℕ
pair a b = (a, b)

-- The service that the hart asks for by each function of the crate.
pub record Reaches {S : Type 0} (v : Services S) (s : S) : Type 0 where
  pub version :
      spec_version (dispatch v) s
      ≡ mapped
          (λ raw. (raw / 2 ^ 24 % 2 ^ 7, raw % 2 ^ 24))
          (answered with_value (v.get_spec_version s))
  pub id : impl_id (dispatch v) s ≡ answered with_value (v.get_impl_id s)
  pub impl : impl_version (dispatch v) s ≡ answered with_value (v.get_impl_version s)
  pub probe :
      (ext : ℕ)
      → probe_ext (dispatch v) ext s
        ≡ mapped (λ found. not (found == 0)) (answered with_value (v.probe_extension ext s))
  pub vendor : mvendorid (dispatch v) s ≡ answered with_value (v.get_mvendorid s)
  pub arch : marchid (dispatch v) s ≡ answered with_value (v.get_marchid s)
  pub imp : mimpid (dispatch v) s ≡ answered with_value (v.get_mimpid s)
  pub start :
      (hart addr arg : ℕ)
      → hart_start (dispatch v) hart addr arg s
        ≡ answered without_value (v.start_hart hart addr arg s)
  pub stop : hart_stop (dispatch v) s ≡ answered never (v.stop_hart s)
  pub status :
      (hart : ℕ)
      → hart_status (dispatch v) hart s
        ≡ mapped status_of (answered with_value (v.hart_get_status hart s))
  pub interrupt :
      (m : HartMask) → send_ipi (dispatch v) m s ≡ answered without_value (v.ipi m.mask m.base s)
  pub fence :
      (m : HartMask)
      → fence_i (dispatch v) m s ≡ answered without_value (v.remote_fence_i m.mask m.base s)
  pub flush :
      (m : HartMask) (start size : ℕ)
      → sfence_vma (dispatch v) m start size s
        ≡ answered without_value (v.remote_fence_i m.mask m.base s)
  pub restart :
      (type : ResetType) (reason : Reason)
      → reset (dispatch v) type reason s
        ≡ answered never (v.system_reset (type_number type) (reason_number reason) s)
  pub halt : shutdown (dispatch v) s ≡ unwrapped (answered never (v.system_reset 0 0 s))
  pub fail : fail_shutdown (dispatch v) s ≡ unwrapped (answered never (v.system_reset 0 1 s))
  pub alarm : (time : ℕ) → set_timer (dispatch v) time s ≡ answered without_value (v.timer time s)
  pub print :
      (c : ℕ)
      → put_char (dispatch v) c s ≡ mapped (λ _. tt) (answered with_value (v.console_putchar c s))
