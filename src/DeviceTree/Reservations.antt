-- ===== src/DeviceTree/Reservations.antt =====
-- crates/devicetree/src/lib.rs: the memory reservations block.
pub mod RoundTrip
use novos.Prelude.{ℕ, ◌+◌, ◌&&◌, List, [], none, some, ◌==◌, if◌then◌else◌, Run, ok, add_usize}
use novos.DeviceTree.Bytes.{from_be_bytes}
use novos.DeviceTree.Reading.{Reading, ◌>>=◌, ◌>>◌, give, try_upto, skip, collect}

pub record MemoryReservation : Type 0 where
  pub start : ℕ
  pub size : ℕ

unfoldable pub reservation_end : MemoryReservation → Run ℕ
reservation_end r = add_usize r.start r.size

-- `self.data.get(..8)?`, behind which the data moves on.
abbrev pub eight_bytes : Reading (List ℕ)
eight_bytes = do bytes ← try_upto 8; skip 8; give bytes

-- The pair of zeros ends the block, and clears the data.
abbrev pub reservation : ℕ → ℕ → Reading MemoryReservation
reservation start size rest =
    if (start == 0) && (size == 0)
    then ok (none, [])
    else ok (some (record { start = start; size = size }), rest)

unfoldable pub next_reservation : Reading MemoryReservation
unfolding from_be_bytes
next_reservation = do
  start ← eight_bytes
  size ← eight_bytes
  reservation (from_be_bytes start) (from_be_bytes size)

-- `for reservation in reservations`
unfoldable pub all_reservations : List ℕ → Run (List MemoryReservation)
unfolding collect next_reservation
all_reservations block = collect next_reservation block
