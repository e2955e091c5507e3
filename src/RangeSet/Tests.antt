-- ===== src/RangeSet/Tests.antt =====
-- Runs of the range set of rangeset.rs, and the theorems at concrete sets.
use novos.Prelude.{
  zero, suc, some, get_elem?, ℕ, ◌≤◌, ◌<◌, ◌≡◌, ◌≢◌, refl, not, ◌&&◌, [], ◌∷◌, ◌++◌, arith, ok,
  panic, out_of_fuel, Result, good, replicate,
}
use novos.RangeSet.{
  Error, RangeSet, Range, range, range_count, insert, merge_blocks, merge_loop, merge_step, push,
  remove, remove_unwrap, remove_range, as_slice, remove_inner, remove_loop, remove_step,
  drop_contained, trim_start, trim_end, split, split_at,
}
use novos.RangeSet.Slice.{IsValid}
use novos.RangeSet.Cover.{IsApart, covers, within}
use novos.RangeSet.Insert.{Inserted, insert-Inserted, insert_apart}
use novos.RangeSet.Fit.{insert_ends}
use novos.RangeSet.Spare.{IsSpare, insert_succeeds}
use novos.RangeSet.Remove.{remove_range-covers}

abbrev two_ranges : RangeSet
two_ranges = record {
  ranges = range 0x1000 0x1fff ∷ range 0x4000 0x4fff ∷ replicate 6 (range 0 0);
  idx = 2;
}

two_ranges-IsValid : IsValid two_ranges
two_ranges-IsValid = record { size = refl; bound = omega arith }

two_ranges-IsApart : IsApart (as_slice two_ranges)
unfolding as_slice
two_ranges-IsApart = ((omega arith, omega arith), (refl, tt), ((omega arith, omega arith), tt, tt))

get_elem?-replicate : (n j : ℕ) (r : Range) → j < n → get_elem? (replicate n r) j ≡ some r
get_elem?-replicate zero j r h = absurd (omega arith)
get_elem?-replicate (suc n) zero r h = refl
get_elem?-replicate (suc n) (suc j) r h = get_elem?-replicate n j r (omega arith)

spare : (j : ℕ) → 2 ≤ j → j < 8 → get_elem? two_ranges.ranges j ≡ some (range 0 0)
spare zero lo hi = absurd (omega arith)
spare (suc zero) lo hi = absurd (omega arith)
spare (suc (suc j)) lo hi = get_elem?-replicate 6 j (range 0 0) (omega arith)

two_ranges-IsSpare : IsSpare 6 two_ranges
unfolding as_slice
two_ranges-IsSpare = record { fits = omega arith; zeros = spare; high = (refl, (refl, tt)) }

abbrev merged_ranges : RangeSet
merged_ranges = record {
  ranges =
      range 0x4000 0x4fff
      ∷ range 0x1000 0x2fff
      ∷ (replicate 5 (range 0 0) ++ range 0x1000 0x1fff ∷ []);
  idx = 2;
}

insert_neighbour : insert two_ranges (range 0x2000 0x2fff) ≡ ok (merged_ranges, good tt)
unfolding insert merge_blocks merge_loop merge_step remove remove_unwrap push
insert_neighbour = refl

-- The middle of a range goes.
remove_middle :
    remove_range two_ranges (range 0x4100 0x41ff)
    ≡ ok (
      record {
        ranges =
            range 0x1000 0x1fff
            ∷ range 0x4000 0x40ff
            ∷ range 0x4200 0x4fff
            ∷ replicate 5 (range 0 0);
        idx = 3;
      },
      good tt,
    )
unfolding remove_range remove_inner remove_loop remove_step drop_contained trim_start trim_end split
    split_at remove remove_unwrap
remove_middle = refl

-- The bound of the loop is read once: the second round here finds the removed range behind the live ones.
insert_stale :
    insert
      (record { ranges = range 0 5 ∷ range 10 20 ∷ replicate 6 (range 0 0); idx = 2 })
      (range 3 12)
    ≡ panic
unfolding insert merge_blocks merge_loop merge_step remove remove_unwrap push
insert_stale = refl

abbrev done : Result Error (Unit {0})
done = good tt

insert-Inserted_example : (done ≡ good tt) × Inserted two_ranges (range 0x2000 0x2fff) merged_ranges
insert-Inserted_example =
    insert-Inserted two_ranges (range 0x2000 0x2fff) merged_ranges done two_ranges-IsValid
      two_ranges-IsApart (omega arith, omega arith) insert_neighbour

insert_apart_example :
    (two_ranges.idx < range_count
      → (t : RangeSet) × (insert two_ranges (range 0x8000 0x8fff) ≡ ok (t, good tt))
        × (as_slice t ≡ as_slice two_ranges ++ range 0x8000 0x8fff ∷ []))
    × (two_ranges.idx ≡ range_count → insert two_ranges (range 0x8000 0x8fff) ≡ panic)
unfolding as_slice
insert_apart_example =
    insert_apart two_ranges (range 0x8000 0x8fff) two_ranges-IsValid (omega arith, omega arith)
      (refl, (refl, tt))

insert_ends_example : insert two_ranges (range 0x2000 0x2fff) ≢ out_of_fuel
insert_ends_example =
    insert_ends two_ranges (range 0x2000 0x2fff) two_ranges-IsValid two_ranges-IsApart
      (omega arith, omega arith)

insert_succeeds_example :
    (t : RangeSet) × (insert two_ranges (range 0x2000 0x2fff) ≡ ok (t, good tt))
    × Inserted two_ranges (range 0x2000 0x2fff) t
insert_succeeds_example =
    insert_succeeds 6 two_ranges (range 0x2000 0x2fff) two_ranges-IsValid two_ranges-IsApart
      (omega arith, omega arith) two_ranges-IsSpare (omega arith) (omega arith) (omega arith)

remove_range-covers_example :
    (t : RangeSet) × (remove_range two_ranges (range 0x1800 0x4100) ≡ ok (t, good tt))
    × IsValid t
    × IsApart (as_slice t)
    × ((x : ℕ)
        → covers x (as_slice t)
          ≡ (covers x (as_slice two_ranges) && not (within x (range 0x1800 0x4100))))
remove_range-covers_example =
    remove_range-covers two_ranges (range 0x1800 0x4100) two_ranges-IsValid two_ranges-IsApart
      (omega arith, omega arith) (omega arith)
