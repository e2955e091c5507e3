-- ===== src/DeviceTree/Reservations/RoundTrip.antt =====
-- The memory reservations that the iterator reads from the bytes of their block.
use novos.Prelude.{
  ℕ, ◌+◌, ◌^◌, ◌<◌, ◌≡◌, refl, sym, ap, ◌∙◌, List, [], ◌++◌, some, false, length, take, drop,
  length-append, take-append, drop-append, ltb, le→not-ltb, ok, arith,
}
use novos.DeviceTree.Bytes.{to_be_bytes, from_be_bytes-to_be_bytes, length-to_be_bytes}
use novos.DeviceTree.Reading.Collect.{all_bytes, AllFit, collect-all_bytes}
use novos.DeviceTree.Reservations.{
  MemoryReservation, eight_bytes, reservation, next_reservation, all_reservations,
}
use mathlib.Core.List.{append_assoc}

abbrev pub reservation_bytes : MemoryReservation → List ℕ
reservation_bytes r = to_be_bytes 8 r.start ++ to_be_bytes 8 r.size

-- Numbers of 64 bits, not both zero.
abbrev pub Fits : MemoryReservation → Type 0
Fits r = (r.start < 2 ^ 64) × (r.size < 2 ^ 64) × (0 < r.start + r.size)

eight_bytes-to_be_bytes :
    (v : ℕ) (rest : List ℕ)
    → eight_bytes (to_be_bytes 8 v ++ rest) ≡ ok (some (to_be_bytes 8 v), rest)
eight_bytes-to_be_bytes v rest =
    let bytes = to_be_bytes 8 v in
    let size = length-to_be_bytes 8 v in
    let front : take 8 (bytes ++ rest) ≡ bytes =
      ap (λ k. take k (bytes ++ rest)) (sym size) ∙ take-append bytes rest in
    let back : drop 8 (bytes ++ rest) ≡ rest =
      ap (λ k. drop k (bytes ++ rest)) (sym size) ∙ drop-append bytes rest in
    let enough : ltb (length (bytes ++ rest)) 8 ≡ false =
      le→not-ltb _ _ (omega (arith, length-append bytes rest, size)) in
    rw (enough, enough, front, back) refl

next_reservation-two :
    (start size : ℕ) (rest : List ℕ)
    → start < 2 ^ 64
    → size < 2 ^ 64
    → next_reservation ((to_be_bytes 8 start ++ to_be_bytes 8 size) ++ rest)
      ≡ reservation start size rest
unfolding next_reservation
next_reservation-two start size rest h k =
    rw
      (
        append_assoc (to_be_bytes 8 start) (to_be_bytes 8 size) rest,
        eight_bytes-to_be_bytes start (to_be_bytes 8 size ++ rest),
        eight_bytes-to_be_bytes size rest,
        from_be_bytes-to_be_bytes 8 start h,
        from_be_bytes-to_be_bytes 8 size k,
      )
      refl

next_reservation-reservation_bytes :
    (r : MemoryReservation) (rest : List ℕ)
    → Fits r
    → next_reservation (reservation_bytes r ++ rest) ≡ ok (some r, rest)
next_reservation-reservation_bytes r rest h =
    next_reservation-two r.start r.size rest h.0 h.1 ∙ ground arith

some_bytes : (r : MemoryReservation) → 0 < length (reservation_bytes r)
some_bytes r = omega (
  arith,
  length-to_be_bytes 8 r.start,
  length-append (to_be_bytes 8 r.start) (to_be_bytes 8 r.size),
)

-- The loop over the memory reservations gives those that were written, up to the pair of zeros, whatever lies
-- behind it.
pub all_reservations-all_bytes :
    (rs : List MemoryReservation) (rest : List ℕ)
    → AllFit Fits rs
    → all_reservations
        (all_bytes reservation_bytes rs ++ ((to_be_bytes 8 0 ++ to_be_bytes 8 0) ++ rest))
      ≡ ok rs
unfolding all_reservations
all_reservations-all_bytes rs rest fit =
    collect-all_bytes next_reservation reservation_bytes Fits next_reservation-reservation_bytes
      some_bytes rs ((to_be_bytes 8 0 ++ to_be_bytes 8 0) ++ rest) [] fit
      (next_reservation-two 0 0 rest (omega arith) (omega arith))
