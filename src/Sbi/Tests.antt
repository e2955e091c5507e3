-- ===== src/Sbi/Tests.antt =====
-- The calls of crates/sbi with a concrete firmware.
use novos.Prelude.{ℕ, none, ◌+◌, ◌≡◌, ◌^◌, ◌-◌, some, arith}
use novos.Sbi.{unknown, from_code, code}
use novos.Sbi.Dispatch.{Services}
use novos.Sbi.Codes.{from_code-code}

from_code-code_example :
    (from_code (code (unknown 7)) ≡ unknown 7) × (code (from_code (2 ^ 64 - 4)) ≡ 2 ^ 64 - 4)
from_code-code_example = from_code-code (unknown 7) (2 ^ 64 - 4) (omega arith)

-- Firmware that counts its calls.
abbrev counts : Services ℕ
counts = record {
  get_spec_version = λ s. some ((0, 0x300_0001), s + 1);
  get_impl_id = λ s. some ((0, 1), s + 1);
  get_impl_version = λ s. some ((0, 9), s + 1);
  probe_extension = λ ext s. some ((0, ext), s + 1);
  get_mvendorid = λ s. some ((0, 0), s + 1);
  get_marchid = λ s. some ((0, 0), s + 1);
  get_mimpid = λ s. some ((0, 0), s + 1);
  start_hart = λ hart addr opaque s. some ((2 ^ 64 - 6, 0), s + 1);
  stop_hart = λ s. none;
  hart_get_status = λ hart s. some ((0, 1), s + 1);
  ipi = λ mask base s. some ((0, mask), s + 1);
  remote_fence_i = λ mask base s. some ((0, base), s + 1);
  remote_sfence_vma = λ mask base start size s. some ((0, size), s + 1);
  system_reset = λ type reason s. none;
  timer = λ time s. some ((0, 0), s + 1);
  console_putchar = λ c s. some ((0, 0), s + 1);
}
