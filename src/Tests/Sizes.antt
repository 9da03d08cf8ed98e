-- ===== src/Tests/Sizes.antt =====
-- core/file.go: the part table with two tiers, of 2 parts of 5 bytes and 3 parts of 10 bytes.
use akavefs.Prelude.{ℕ, ◌<◌, ◌+◌, ◌≤◌, ◌≡◌, refl, List, [], ◌∷◌, some, arith}
use akavefs.PartNumbering.{IsPartNumbering}
use akavefs.PartSizes.{
  max_parts, PartSizeConfig, part_num, part_range, max_file_size_from, get_max_file_size,
  part_range_from,
}
use akavefs.PartSizes.Exact.{IsValid}
use akavefs.PartSizes.Laws.{part_range-part_num, part_num-part_range, part_num-IsPartNumbering}

abbrev pub two_tiers : List PartSizeConfig
two_tiers =
    record { part_size = 5; part_count = 2 } ∷ record { part_size = 10; part_count = 3 } ∷ []

pub two_tiers-IsValid : IsValid two_tiers
two_tiers-IsValid = record { nonempty = (omega arith, (omega arith, tt)); fits = omega arith }

pub two_tiers_bytes : get_max_file_size two_tiers ≡ 40
unfolding get_max_file_size max_file_size_from
two_tiers_bytes = refl

range_3 : part_range two_tiers 3 ≡ some (20, 10)
unfolding part_range part_range_from
range_3 = refl

part_range-part_num_example :
    (p first size : ℕ) × (part_num two_tiers 25 ≡ some p)
    × (part_range two_tiers p ≡ some (first, size))
    × (first ≤ 25)
    × (25 < first + size)
    × (p < max_parts two_tiers)
part_range-part_num_example =
    part_range-part_num two_tiers two_tiers-IsValid 25 (omega (arith, two_tiers_bytes))

part_num-part_range_example :
    (part_num two_tiers 25 ≡ some 3) × (20 + 10 ≤ get_max_file_size two_tiers)
part_num-part_range_example =
    part_num-part_range two_tiers two_tiers-IsValid 3 20 10 25 (omega arith) range_3 (omega arith)
      (omega arith)

part_num-IsPartNumbering_example :
    IsPartNumbering (part_num two_tiers) (get_max_file_size two_tiers)
part_num-IsPartNumbering_example = part_num-IsPartNumbering two_tiers two_tiers-IsValid
