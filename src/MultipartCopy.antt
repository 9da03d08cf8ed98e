-- ===== src/MultipartCopy.antt =====
-- core/backend_s3.go: the parts in which an object is copied by a multipart upload: `partsRequired`,
-- `mpuCopyParts` and `defaultCopyPartSizes`. The copy of one part, a request to the service, is an
-- argument.
pub mod Rounds
pub mod Copied
pub mod Slots
use akavefs.Prelude.{
  ℕ, zero, suc, ◌+◌, ◌-◌, ◌*◌, ◌/◌, Bool, true, false, not, ◌&&◌, ◌||◌, Option, none, some, List,
  [], ◌∷◌, ◌++◌, length, if◌then◌else◌, add64, sub64, mul64, slt64, sle64, is_negative, ◌==◌, ◌>>=◌,
}
use akavefs.PartSizes.{PartSizeConfig}

-- The quotient of two `int64`, towards 0.
abbrev pub abs64 : ℕ → ℕ
abs64 a = if is_negative a then sub64 0 a else a

abbrev pub quot64 : ℕ → ℕ → ℕ
quot64 a b =
    if is_negative a
    then if is_negative b then abs64 a / abs64 b else sub64 0 (abs64 a / b)
    else if is_negative b
    then sub64 0 (a / abs64 b)
    else a / b

-- The loop of `partsRequired`, from the number so far; division by 0 panics.
unfoldable pub parts_required_from : ℕ → List PartSizeConfig → ℕ → Option ℕ
parts_required_from n [] size = some n
parts_required_from n (c ∷ cs) size =
    let total = mul64 c.part_count c.part_size in
    let rest = parts_required_from (add64 n c.part_count) cs (sub64 size total) in
    if sle64 size total
    then if c.part_size == 0
      then none
      else some (add64 n (quot64 (sub64 (add64 size c.part_size) 1) c.part_size))
    else rest

unfoldable pub parts_required : List PartSizeConfig → ℕ → Option ℕ
unfolding parts_required_from
parts_required cs size = parts_required_from 0 cs size

-- The bytes of one part, the end not included.
pub record CopyRange : Type 0 where
  pub start : ℕ
  pub end : ℕ

-- The ranges of some rounds of the loop, and the start offset after them.
pub record Copies : Type 0 where
  pub ranges : List CopyRange
  pub start_offset : ℕ

abbrev pub smin64 : ℕ → ℕ → ℕ
smin64 a b = if slt64 a b then a else b

-- The inner loop, with the rounds that are left.
unfoldable pub copy_rounds : ℕ → ℕ → ℕ → ℕ → Copies
copy_rounds zero part_size size start = record { ranges = []; start_offset = start }
copy_rounds (suc k) part_size size start =
    let rest = copy_rounds k part_size size (add64 start part_size) in
    if slt64 start size
    then record rest {
      ranges = record { start = start; end = smin64 (add64 start part_size) size } ∷ rest.ranges;
    }
    else record { ranges = []; start_offset = start }

-- The rounds of the inner loop, whose counter is an `int`.
abbrev pub rounds_of : ℕ → ℕ
rounds_of count = if is_negative count then 0 else count

unfoldable pub copy_ranges_from : List PartSizeConfig → ℕ → ℕ → List CopyRange
unfolding copy_rounds
copy_ranges_from [] size start = []
copy_ranges_from (c ∷ cs) size start =
    let now = copy_rounds (rounds_of c.part_count) c.part_size size start in
    now.ranges ++ copy_ranges_from cs size now.start_offset

unfoldable pub copy_ranges : List PartSizeConfig → ℕ → List CopyRange
unfolding copy_ranges_from
copy_ranges cs size = copy_ranges_from cs size 0

pub record CompletedPart (E : Type 0) : Type 0 where
  pub etag : E
  pub part_number : ℕ

-- The slice of parts, some of them nil, or the error of a copy.
pub data CopyResult (E : Type 0) : Type 0 where
  copied : List (Option (CompletedPart E)) → CopyResult E
  copy_failed : CopyResult E

module _ {E : Type 0} (copy_part : ℕ → CopyRange → Option E) where
  -- The part of a number joins those of higher numbers.
  abbrev pub join_part : ℕ → Option E → Option (CopyResult E) → Option (CopyResult E)
  join_part n etag none = none
  join_part n etag (some CopyResult.copy_failed) = some CopyResult.copy_failed
  join_part n none (some (CopyResult.copied ps)) = some CopyResult.copy_failed
  join_part n (some e) (some (CopyResult.copied ps)) =
      some (CopyResult.copied (some (record { etag = e; part_number = n }) ∷ ps))

  abbrev pub nil_parts : ℕ → List (Option (CompletedPart E))
  nil_parts zero = []
  nil_parts (suc n) = none ∷ nil_parts n

  -- The parts from a number on, with the slots that are left; a part with no slot panics.
  unfoldable pub fill_parts : ℕ → ℕ → List CopyRange → Option (CopyResult E)
  fill_parts n slots [] = some (CopyResult.copied (nil_parts slots))
  fill_parts n zero (r ∷ rs) = none
  fill_parts n (suc slots) (r ∷ rs) = join_part n (copy_part n r) (fill_parts (add64 n 1) slots rs)

  unfoldable pub mpu_copy_parts : List PartSizeConfig → ℕ → Option (CopyResult E)
  unfolding parts_required copy_ranges fill_parts
  mpu_copy_parts cs size = do
    slots ← parts_required cs size
    fill_parts 1 slots (copy_ranges cs size)

-- 10000 parts.
abbrev pub default_copy_part_sizes : ℕ → List PartSizeConfig
default_copy_part_sizes size =
    let part_size = quot64 size (10000 - 1) in
    let min_part_size = 50 * 1024 * 1024 in
    record {
      part_size = if slt64 min_part_size part_size then part_size else min_part_size;
      part_count = 10000;
    }
    ∷ []
