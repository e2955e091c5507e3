-- ===== src/Page/Entry.antt =====
-- The entries of page.rs, as 64-bit words.
use novos.Prelude.{
  ℕ, ◌+◌, ◌*◌, ◌/◌, ◌%◌, ◌^◌, bit_and, bit_or, ◌==◌, if◌then◌else◌, Option, none, some,
}

abbrev pub valid : ℕ
valid = 1

pub data EntryKind : Type 0 where
  branch : ℕ → EntryKind
  leaf : EntryKind

-- `flags` truncates to a byte and clears its lowest bit; all the others are flags.
unfoldable pub flags : ℕ → ℕ
flags word = word % 2 ^ 8 / 2 * 2

unfoldable pub kind : ℕ → Option EntryKind
kind word =
    if bit_and word valid == 0
    then none
    else if flags word == 0
    then some (branch (bit_and (word / 2 ^ 10) 0x0FFF_FFFF_FFFF * 2 ^ 12))
    else some leaf

-- The words that `map` writes.
unfoldable pub branch_entry : ℕ → ℕ
branch_entry page = bit_or (page / 2 ^ 2) valid

unfoldable pub leaf_entry : ℕ → ℕ → ℕ
leaf_entry paddr bits = bit_or (bit_or (paddr / 2 ^ 12 * 2 ^ 10 % 2 ^ 64) bits) valid

-- `PageTable::vpn`
unfoldable pub vpn : ℕ → ℕ → ℕ
vpn vaddr idx = bit_and (vaddr / 2 ^ (12 + idx * 9)) 0x1FF
