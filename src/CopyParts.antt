-- ===== src/CopyParts.antt =====
-- core/file.go: the first half of `copyUnmodifiedParts`, which collects the ranges of the parts that
-- have not been uploaded, to be copied on the server. A run that panics is `none`.
pub mod Rounds
pub mod Parts
pub mod Once
use akavefs.Prelude.{
  ℕ, zero, suc, ◌+◌, Bool, Option, none, some, List, [], ◌∷◌, ◌++◌, ltb, leb, ◌==◌, if◌then◌else◌,
  ◌>>=◌, add64, sub64, mul64, get_elem?,
}
use akavefs.PartSizes.{PartSizeConfig, part_range}

-- Three entries of `ranges`.
pub record MergedRange : Type 0 where
  pub part_number : ℕ
  pub offset : ℕ
  pub size : ℕ

-- The variables of the loop.
pub record Collected : Type 0 where
  pub ranges : List MergedRange
  pub start_part : ℕ
  pub end_part : ℕ
  pub start_offset : ℕ
  pub end_offset : ℕ

abbrev pub nothing_collected : Collected
nothing_collected = record {
  ranges = [];
  start_part = 0;
  end_part = 0;
  start_offset = 0;
  end_offset = 0;
}

abbrev pub max_merge_bytes : ℕ → ℕ
max_merge_bytes max_merge_copy_mb = mul64 (mul64 max_merge_copy_mb 1024) 1024

abbrev pub add_range : Collected → Collected
add_range c = record c {
  ranges =
      c.ranges
      ++ record {
        part_number = c.start_part;
        offset = c.start_offset;
        size = sub64 c.end_offset c.start_offset;
      }
        ∷ [];
}

-- The part has not been uploaded: it begins a range or makes it longer, and a range that is long
-- enough ends.
abbrev pub extend_range : ℕ → ℕ → ℕ → Collected → Collected
extend_range i part_offset part_end c =
    if c.end_part == 0
    then record c {
      start_part = i;
      start_offset = part_offset;
      end_part = add64 i 1;
      end_offset = part_end;
    }
    else record c { end_part = add64 i 1; end_offset = part_end }

abbrev pub cut_merged : ℕ → Collected → Collected
cut_merged max_merge c =
    if leb max_merge (sub64 c.end_offset c.start_offset)
    then record (add_range c) { start_part = 0; end_part = 0 }
    else c

-- The end of a range that is open.
abbrev pub close : Collected → Collected
close c = if c.end_part == 0 then c else record (add_range c) { end_part = 0 }

abbrev pub collect_part : ℕ → ℕ → ℕ → ℕ → Option ℕ → Collected → Collected
collect_part max_merge i part_offset part_end none c =
    cut_merged max_merge (extend_range i part_offset part_end c)
collect_part max_merge i part_offset part_end (some _) c = close c

abbrev pub part_end_of : ℕ → ℕ → ℕ → ℕ
part_end_of file_size part_offset part_size =
    if ltb file_size (add64 part_offset part_size) then file_size else add64 part_offset part_size

-- One round; `parts` holds the id of each part that has been uploaded.
unfoldable pub collect_round :
    List PartSizeConfig → ℕ → ℕ → List (Option ℕ) → ℕ → Collected → Option Collected
collect_round sizes file_size max_merge parts i c = part_range sizes i >>= λ r.
    (get_elem? parts i >>= λ id.
    some (collect_part max_merge i (r.0) (part_end_of file_size (r.0) (r.1)) id c))

unfoldable pub collect_rounds :
    ℕ → List PartSizeConfig → ℕ → ℕ → List (Option ℕ) → ℕ → Collected → Option Collected
unfolding collect_round
collect_rounds zero sizes file_size max_merge parts i c = some c
collect_rounds (suc k) sizes file_size max_merge parts i c =
    collect_round sizes file_size max_merge parts i c >>= λ d.
    collect_rounds k sizes file_size max_merge parts (i + 1) d

unfoldable pub ranges_to_copy :
    List PartSizeConfig → ℕ → ℕ → List (Option ℕ) → ℕ → Option (List MergedRange)
unfolding collect_rounds
ranges_to_copy sizes file_size max_merge parts num_parts =
    collect_rounds num_parts sizes file_size max_merge parts 0 nothing_collected >>= λ c.
    some (close c).ranges
