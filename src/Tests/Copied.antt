-- ===== src/Tests/Copied.antt =====
-- core/file.go: the ranges to copy of a file of 25 bytes in 4 parts, of which the third is uploaded.
use akavefs.Prelude.{ℕ, ◌≡◌, refl, ◌&&◌, Option, none, some, List, [], ◌∷◌, ltb, arith}
use akavefs.PartSizes.{
  part_num, part_num_from, part_range, part_range_from, max_parts, max_parts_from, round_up,
  num_parts,
}
use akavefs.CopyParts.{MergedRange, collect_round, collect_rounds, ranges_to_copy}
use akavefs.CopyParts.Rounds.{once, times}
use akavefs.CopyParts.Parts.{is_missing}
use akavefs.CopyParts.Once.{ranges_to_copy-times}
use akavefs.Tests.Sizes.{two_tiers, two_tiers-IsValid, two_tiers_bytes}

abbrev ids : List (Option ℕ)
ids = none ∷ none ∷ some 9 ∷ none ∷ []

four_parts : num_parts two_tiers 25 ≡ some 4
unfolding num_parts round_up part_num part_num_from part_range part_range_from max_parts
    max_parts_from
four_parts = refl

merged_ranges :
    ranges_to_copy two_tiers 25 8 ids 4
    ≡ some (
        record { part_number = 0; offset = 0; size = 10 }
        ∷ record { part_number = 3; offset = 20; size = 5 }
        ∷ [])
unfolding ranges_to_copy collect_rounds collect_round part_range part_range_from
merged_ranges = refl

ranges_to_copy-times_example :
    (ranges : List MergedRange) × (ranges_to_copy two_tiers 25 8 ids 4 ≡ some ranges)
    × ((x : ℕ) → times ranges x ≡ once (ltb x 25 && is_missing two_tiers ids x))
ranges_to_copy-times_example =
    ranges_to_copy-times two_tiers two_tiers-IsValid 25 8 ids 4 (omega arith)
      (omega (arith, two_tiers_bytes)) four_parts (omega arith)
