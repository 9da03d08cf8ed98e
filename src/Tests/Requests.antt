-- ===== src/Tests/Requests.antt =====
-- core/buffer_list.go: the ranges of read requests.
use akavefs.Prelude.{ℕ, ◌≡◌, ◌↔◌, List, [], ◌∷◌, some, inl, inr, All, arith}
use akavefs.Ranges.{Range, merge_ra, split_ra}
use akavefs.Ranges.Covers.{Covers, IsAscending}
use akavefs.Ranges.Merge.{merge_ra-Covers}
use akavefs.Ranges.Split.{IsAtMost, split_ra-Covers}

abbrev two_holes : List Range
two_holes = record { start = 10; end = 17 } ∷ record { start = 30; end = 34 } ∷ []

two_holes-IsAscending : IsAscending 0 two_holes
two_holes-IsAscending = (omega arith, omega arith, (omega arith, omega arith, tt))

merge_ra-Covers_example : Covers 31 (merge_ra two_holes 16 2)
merge_ra-Covers_example =
    merge_ra-Covers two_holes 16 2 31 two_holes-IsAscending (omega arith, (omega arith, tt))
      (omega arith) (inr (inl (omega arith, omega arith)))

split_ra-Covers_example :
    (out : List Range) × (split_ra two_holes 3 ≡ some out)
    × All (IsAtMost 3) out
    × ((x : ℕ) → Covers x out ↔ Covers x two_holes)
split_ra-Covers_example =
    split_ra-Covers two_holes 3 (omega arith) two_holes-IsAscending (omega arith, (omega arith, tt))
