-- ===== src/PartSizes/Exact.antt =====
-- core/file.go: the part table without the wrap-around, for tables whose sizes fit in 64 bits.
use akavefs.Prelude.{
  ℕ, ◌+◌, ◌-◌, ◌*◌, ◌/◌, ◌≤◌, ◌<◌, ◌≡◌, List, [], ◌∷◌, some, All, arith, ltb, if◌then◌else◌, word,
  add64-eq, mul64-eq, sub64-eq,
}
use akavefs.PartSizes.{PartSizeConfig, part_num_from, part_range_from}

abbrev pub bytes : PartSizeConfig → ℕ
bytes s = s.part_size * s.part_count

abbrev pub total : List PartSizeConfig → ℕ
total [] = 0
total (s ∷ ss) = bytes s + total ss

abbrev pub count : List PartSizeConfig → ℕ
count [] = 0
count (s ∷ ss) = s.part_count + count ss

abbrev pub HasParts : PartSizeConfig → Type 0
HasParts s = 0 < s.part_size

-- Every part has bytes, and the largest file has fewer than 2 ^ 64.
pub record IsValid (sizes : List PartSizeConfig) : Type 0 where
  pub nonempty : All HasParts sizes
  pub fits : total sizes < word

pub count-le-total : (ss : List PartSizeConfig) → All HasParts ss → count ss ≤ total ss
count-le-total [] h = omega arith
count-le-total (s ∷ ss) h =
    let ih = count-le-total ss h.1 in let here : s.part_count ≤ bytes s = grind arith in omega arith

module _ (n start : ℕ) (s : PartSizeConfig) (ss : List PartSizeConfig) (pos : HasParts s)
    (fits : start + (bytes s + total ss) < word) (few : n + (s.part_count + count ss) < word) where
  part_offset-le : (num : ℕ) → num < n + s.part_count → (num - n) * s.part_size ≤ bytes s
  part_offset-le num h = grind arith

  -- One round of the loop of `partNum`.
  pub part_num_from-cons :
      (offset : ℕ)
      → start ≤ offset
      → offset < word
      → part_num_from n start (s ∷ ss) offset ≡ (
          if ltb ((offset - start) / s.part_size) s.part_count
          then some (n + (offset - start) / s.part_size)
          else part_num_from (n + s.part_count) (start + bytes s) ss offset)
  unfolding part_num_from
  part_num_from-cons offset h k =
      rw
        (
          sub64-eq offset start h k,
          mul64-eq s.part_size s.part_count (omega arith),
          add64-eq start (bytes s) (omega arith),
          add64-eq n s.part_count (omega arith),
        )
        (ground arith)

  pub part_range_from-cons :
      (num : ℕ)
      → n ≤ num
      → num < word
      → part_range_from n start (s ∷ ss) num ≡ (
          if ltb num (n + s.part_count)
          then some (start + (num - n) * s.part_size, s.part_size)
          else part_range_from (n + s.part_count) (start + bytes s) ss num)
  unfolding part_range_from
  part_range_from-cons num h k =
      rw
        (
          mul64-eq s.part_size s.part_count (omega arith),
          add64-eq start (bytes s) (omega arith),
          add64-eq n s.part_count (omega arith),
          sub64-eq num n h k,
        )
        (ground (arith, part_offset-le num))

-- The part `k` of a tier of `c` parts ends within the tier.
pub tier-le : (k d c : ℕ) → k < c → k * d + d ≤ d * c
tier-le k d c h = grind arith
