-- ===== src/PartSizes.antt =====
-- core/file.go: the table of part sizes of a multipart upload. A run that panics is `none`.
pub mod Exact
pub mod Locate
pub mod Tiling
pub mod Inverse
pub mod Laws
use akavefs.Prelude.{
  ℕ, ◌+◌, ◌*◌, ◌/◌, Bool, Option, none, some, List, [], ◌∷◌, ltb, ◌==◌, if◌then◌else◌, ◌>>=◌, add64,
  sub64, mul64,
}

pub record PartSizeConfig : Type 0 where
  pub part_size : ℕ
  pub part_count : ℕ

-- The loop of `partNum`, from the values of `n` and `start`. Division by 0 panics.
unfoldable pub part_num_from : ℕ → ℕ → List PartSizeConfig → ℕ → Option ℕ
part_num_from n start [] offset = if offset == start then some n else none
part_num_from n start (s ∷ ss) offset =
    let rest =
      part_num_from (add64 n s.part_count) (add64 start (mul64 s.part_size s.part_count)) ss
        offset in
    let p = sub64 offset start / s.part_size in
    if s.part_size == 0 then none else if ltb p s.part_count then some (add64 n p) else rest

unfoldable pub part_num : List PartSizeConfig → ℕ → Option ℕ
unfolding part_num_from
part_num sizes offset = part_num_from 0 0 sizes offset

unfoldable pub part_range_from : ℕ → ℕ → List PartSizeConfig → ℕ → Option (ℕ × ℕ)
part_range_from n start [] num = none
part_range_from n start (s ∷ ss) num =
    let rest =
      part_range_from (add64 n s.part_count) (add64 start (mul64 s.part_size s.part_count)) ss
        num in
    if ltb num (add64 n s.part_count)
    then some (add64 start (mul64 (sub64 num n) s.part_size), s.part_size)
    else rest

unfoldable pub part_range : List PartSizeConfig → ℕ → Option (ℕ × ℕ)
unfolding part_range_from
part_range sizes num = part_range_from 0 0 sizes num

unfoldable pub max_parts_from : ℕ → List PartSizeConfig → ℕ
max_parts_from parts [] = parts
max_parts_from parts (s ∷ ss) = max_parts_from (add64 parts s.part_count) ss

unfoldable pub max_parts : List PartSizeConfig → ℕ
unfolding max_parts_from
max_parts sizes = max_parts_from 0 sizes

unfoldable pub max_file_size_from : ℕ → List PartSizeConfig → ℕ
max_file_size_from size [] = size
max_file_size_from size (s ∷ ss) =
    max_file_size_from (add64 size (mul64 s.part_size s.part_count)) ss

unfoldable pub get_max_file_size : List PartSizeConfig → ℕ
unfolding max_file_size_from
get_max_file_size sizes = max_file_size_from 0 sizes

-- The last branch of `numParts`: `part` is the number of the part where `size` lies.
unfoldable pub round_up : List PartSizeConfig → ℕ → ℕ → Option ℕ
round_up sizes size part = do
  (part_offset, _) ← part_range sizes part
  some (if ltb part_offset size then add64 part 1 else part)

unfoldable pub num_parts : List PartSizeConfig → ℕ → Option ℕ
unfolding round_up
num_parts sizes size = do
  part ← part_num sizes size
  if part == max_parts sizes then some part else round_up sizes size part
