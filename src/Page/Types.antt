-- ===== src/Page/Types.antt =====
-- crates/kernel/src/page/types.rs, page/modes.rs and the errors of page.rs.
use novos.Prelude.{ℕ, ◌*◌, ◌^◌, ◌%◌, ◌==◌, Bool, Option, none, some}
use novos.Allocator

abbrev pub kib : ℕ
kib = 2 ^ 10

abbrev pub mib : ℕ
mib = 2 ^ 20

abbrev pub gib : ℕ
gib = 2 ^ 30

pub data PageSize : Type 0 where
  kilopage megapage gigapage terapage : PageSize

abbrev pub size : PageSize → ℕ
size kilopage = 4 * kib
size megapage = 2 * mib
size gigapage = 1 * gib
size terapage = 512 * gib

abbrev pub is_aligned : PageSize → ℕ → Bool
is_aligned s addr = addr % size s == 0

abbrev pub vpn_idx : PageSize → ℕ
vpn_idx kilopage = 0
vpn_idx megapage = 1
vpn_idx gigapage = 2
vpn_idx terapage = 3

abbrev pub step : PageSize → Option PageSize
step kilopage = none
step megapage = some kilopage
step gigapage = some megapage
step terapage = some gigapage

-- The constants of `PagingMode` that the tables depend on.
pub record Mode : Type 0 where
  pub levels : ℕ
  pub top_level_size : PageSize
  pub max_address : ℕ

abbrev pub sv39 : Mode
sv39 = record { levels = 3; top_level_size = gigapage; max_address = 0x7F_FFFF_FFFF }

abbrev pub sv48 : Mode
sv48 = record { levels = 4; top_level_size = terapage; max_address = 0xFFFF_FFFF_FFFF }

pub data Error : Type 0 where
  unsupported_page_size invalid_address unaligned_address already_mapped : Error
  alloc : Allocator.Error → Error
