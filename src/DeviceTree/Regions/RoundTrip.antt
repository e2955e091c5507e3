-- ===== src/DeviceTree/Regions/RoundTrip.antt =====
-- The regions that the iterator reads from the bytes of a `reg` property.
use novos.Prelude.{
  ℕ, ◌*◌, ◌^◌, ◌<◌, ◌≡◌, ◌⊎◌, inl, inr, refl, sym, ap, ◌∙◌, List, [], ◌++◌, some, none, length,
  take, drop, length-append, take-append, drop-append, subst, false, ltb, le→not-ltb, ok, arith,
}
use novos.DeviceTree.Bytes.{to_be_bytes, from_be_bytes-to_be_bytes, length-to_be_bytes}
use novos.DeviceTree.Reading.{collect}
use novos.DeviceTree.Regions.{Region, read, read_num, next_region, all_regions}
use novos.DeviceTree.Reading.Collect.{all_bytes, AllFit, collect-all_bytes}
use mathlib.Core.List.{append_assoc, append-nil}

pub read-to_be_bytes :
    (n v : ℕ) (rest : List ℕ) → v < 256 ^ n → read n (to_be_bytes n v ++ rest) ≡ ok (some v, rest)
unfolding read
read-to_be_bytes n v rest h =
    let bytes = to_be_bytes n v in
    let size = length-to_be_bytes n v in
    let front : take n (bytes ++ rest) ≡ bytes =
      ap (λ k. take k (bytes ++ rest)) (sym size) ∙ take-append bytes rest in
    let back : drop n (bytes ++ rest) ≡ rest =
      ap (λ k. drop k (bytes ++ rest)) (sym size) ∙ drop-append bytes rest in
    let enough : ltb (length (bytes ++ rest)) n ≡ false =
      le→not-ltb _ _ (omega (arith, length-append bytes rest, size)) in
    rw (enough, enough, front, back, from_be_bytes-to_be_bytes n v h) refl

-- A cell count that the specification allows here, and the bytes of a number.
abbrev pub OneOrTwo : ℕ → Type 0
OneOrTwo cells = (cells ≡ 1) ⊎ (cells ≡ 2)

abbrev pub num_bytes : ℕ → ℕ → List ℕ
num_bytes cells v = to_be_bytes (cells * 4) v

pub read_num-num_bytes :
    (cells v : ℕ) (rest : List ℕ)
    → OneOrTwo cells
    → v < 256 ^ (cells * 4)
    → read_num cells (num_bytes cells v ++ rest) ≡ ok (some v, rest)
unfolding read_num
read_num-num_bytes cells v rest (inl one) h =
    subst (λ c. v < 256 ^ (c * 4) → read_num c (num_bytes c v ++ rest) ≡ ok (some v, rest))
      (sym one) (λ h'. read-to_be_bytes 4 v rest h') h
read_num-num_bytes cells v rest (inr two) h =
    subst (λ c. v < 256 ^ (c * 4) → read_num c (num_bytes c v ++ rest) ≡ ok (some v, rest))
      (sym two) (λ h'. read-to_be_bytes 8 v rest h') h

-- A region with its numbers in these cells, and numbers that fit into them.
abbrev pub region_bytes : ℕ → ℕ → Region → List ℕ
region_bytes address size r = num_bytes address r.start ++ num_bytes size r.size

abbrev pub Fits : ℕ → ℕ → Region → Type 0
Fits address size r = (r.start < 256 ^ (address * 4)) × (r.size < 256 ^ (size * 4))

module _ (address size : ℕ) (address_ok : OneOrTwo address) (size_ok : OneOrTwo size) where
  next_region-region_bytes :
      (r : Region) (rest : List ℕ)
      → Fits address size r
      → next_region (some address) (some size) (region_bytes address size r ++ rest)
        ≡ ok (some r, rest)
  unfolding next_region
  next_region-region_bytes r rest h =
      rw
        (
          append_assoc (num_bytes address r.start) (num_bytes size r.size) rest,
          read_num-num_bytes address r.start (num_bytes size r.size ++ rest) address_ok h.0,
          read_num-num_bytes size r.size rest size_ok h.1,
        )
        refl

  some_bytes : (r : Region) → 0 < length (region_bytes address size r)
  some_bytes r = omega (
    arith,
    one_or_two_pos address_ok,
    length-to_be_bytes (address * 4) r.start,
    length-append (num_bytes address r.start) (num_bytes size r.size),
  )
    where
      one_or_two_pos : {cells : ℕ} → OneOrTwo cells → 0 < cells
      one_or_two_pos (inl e) = omega (arith, e)
      one_or_two_pos (inr e) = omega (arith, e)

  nothing_left : next_region (some address) (some size) [] ≡ ok (none, [])
  unfolding next_region read_num read
  nothing_left = nothing_for address_ok
    where
      nothing_for :
          {cells : ℕ} → OneOrTwo cells → next_region (some cells) (some size) [] ≡ ok (none, [])
      nothing_for (inl e) = rw e refl
      nothing_for (inr e) = rw e refl

  -- The regions of a `reg` property are those that were written into it with the cell counts of the root node.
  pub all_regions-all_bytes :
      (rs : List Region)
      → AllFit (Fits address size) rs
      → all_regions (record {
        address_cells = some address;
        size_cells = some size;
        content = all_bytes (region_bytes address size) rs;
      })
        ≡ ok rs
  unfolding all_regions
  all_regions-all_bytes rs fit =
      let read = next_region (some address) (some size) in
      ap (collect read) (sym (append-nil (all_bytes (region_bytes address size) rs)))
      ∙ collect-all_bytes read (region_bytes address size) (Fits address size)
          next_region-region_bytes some_bytes rs [] [] fit nothing_left
