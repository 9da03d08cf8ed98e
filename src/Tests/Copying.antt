-- ===== src/Tests/Copying.antt =====
-- core/backend_s3.go: an object of 25 bytes in 2 parts of 5 bytes and up to 3 of 10.
use akavefs.Prelude.{ℕ, ◌≡◌, refl, All, Option, some, List, ◌∷◌, [], length, arith}
use akavefs.PartSizes.{PartSizeConfig}
use akavefs.MultipartCopy.{CopyRange, mpu_copy_parts, copy_ranges, parts_required}
use akavefs.MultipartCopy.Rounds.{IsTiling}
use akavefs.MultipartCopy.Copied.{IsValid}
use akavefs.MultipartCopy.Slots.{numbered, outcome, copy_ranges-IsTiling, mpu_copy_parts-numbered}

abbrev sizes : List PartSizeConfig
sizes = record { part_size = 5; part_count = 2 } ∷ record { part_size = 10; part_count = 3 } ∷ []

sizes-IsValid : All IsValid sizes
sizes-IsValid = (
  record {
    nonempty = omega arith;
    size_fits = omega arith;
    count_fits = omega arith;
    bytes_fit = omega arith;
  },
  (
    record {
      nonempty = omega arith;
      size_fits = omega arith;
      count_fits = omega arith;
      bytes_fit = omega arith;
    },
    tt,
  ),
)

-- Each copy gives the number of the part.
abbrev copy_part : ℕ → CopyRange → Option ℕ
copy_part n r = some n

copy_ranges-IsTiling_example :
    IsTiling 0 25 (copy_ranges sizes 25)
    × (parts_required sizes 25 ≡ some (length (copy_ranges sizes 25)))
copy_ranges-IsTiling_example =
    copy_ranges-IsTiling sizes 25 sizes-IsValid (omega arith) (omega arith) (omega arith)

copy_ranges_run :
    copy_ranges sizes 25
    ≡ record { start = 0; end = 5 }
      ∷ record { start = 5; end = 10 }
      ∷ record { start = 10; end = 20 }
      ∷ record { start = 20; end = 25 }
      ∷ []
unfolding copy_ranges
copy_ranges_run = refl

mpu_copy_parts-numbered_example :
    mpu_copy_parts copy_part sizes 25
    ≡ some (outcome copy_part (numbered copy_part 1 (copy_ranges sizes 25)))
mpu_copy_parts-numbered_example =
    mpu_copy_parts-numbered copy_part sizes 25 sizes-IsValid (omega arith) (omega arith)
      (omega arith)
