-- ===== src/MultipartCopy/Slots.antt =====
-- core/backend_s3.go: `mpuCopyParts` has a slot for each part.
use akavefs.Prelude.{
  ℕ, ◌+◌, ◌-◌, ◌*◌, ◌/◌, ◌^◌, ◌≤◌, ◌<◌, ◌≡◌, ◌∙◌, refl, ap, inl, inr, false, Bool-cases, Option,
  none, some, List, [], ◌∷◌, map, All, length, add64-eq, slt64-ltb, ltb, is_negative, arith, ◌>>=◌,
}
use akavefs.PartSizes.{PartSizeConfig}
use akavefs.MultipartCopy.{
  CopyRange, CompletedPart, CopyResult, join_part, fill_parts, mpu_copy_parts, copy_ranges,
  parts_required_from, parts_required, quot64, default_copy_part_sizes,
}
use akavefs.MultipartCopy.Rounds.{IsTiling}
use akavefs.MultipartCopy.Copied.{
  IsValid, capacity, copy_ranges_from-IsTiling, parts_required_from-length,
}

IsTiling-length : (s e : ℕ) (rs : List CopyRange) → IsTiling s e rs → s + length rs ≤ e
IsTiling-length s e [] t = omega (arith, t)
IsTiling-length s e (r ∷ rs) t = omega (arith, IsTiling-length r.end e rs t.2, t.1)

-- For a table of valid part sizes that has room for an object of 1 byte to below 2 ^ 62 bytes, the parts
-- of its multipart copy follow each other from its start to its end, none is empty, and `partsRequired`
-- is their number.
pub copy_ranges-IsTiling :
    (cs : List PartSizeConfig) (size : ℕ)
    → All IsValid cs
    → 0 < size
    → size < 2 ^ 62
    → size ≤ capacity cs
    → IsTiling 0 size (copy_ranges cs size)
      × (parts_required cs size ≡ some (length (copy_ranges cs size)))
unfolding copy_ranges parts_required
copy_ranges-IsTiling cs size v pos small enough =
    let at_start : size ≡ size - 0 = omega arith in
    (
      copy_ranges_from-IsTiling size small cs 0 v pos (omega arith),
      ap (parts_required_from 0 cs) at_start
          ∙ parts_required_from-length size small cs 0 0 v pos (omega arith)
          ∙ ap some (omega arith),
    )

module _ {E : Type 0} (copy_part : ℕ → CopyRange → Option E) where
  -- Each range copied under its number, if no copy fails.
  abbrev pub numbered : ℕ → List CopyRange → Option (List (CompletedPart E))
  numbered n [] = some []
  numbered n (r ∷ rs) = do
    e ← copy_part n r
    ps ← numbered (n + 1) rs
    some (record { etag = e; part_number = n } ∷ ps)

  abbrev pub outcome : Option (List (CompletedPart E)) → CopyResult E
  outcome none = CopyResult.copy_failed
  outcome (some ps) = CopyResult.copied (map some ps)

  join_part-outcome :
      (n : ℕ) (o : Option E) (ps : Option (List (CompletedPart E)))
      → join_part copy_part n o (some (outcome ps))
        ≡ some (outcome (do e ← o; qs ← ps; some (record { etag = e; part_number = n } ∷ qs)))
  join_part-outcome n none none = refl
  join_part-outcome n none (some ps) = refl
  join_part-outcome n (some e) none = refl
  join_part-outcome n (some e) (some ps) = refl

  fill_parts-numbered :
      (n : ℕ) (rs : List CopyRange)
      → n + length rs < 2 ^ 64
      → fill_parts copy_part n (length rs) rs ≡ some (outcome (numbered n rs))
  unfolding fill_parts
  fill_parts-numbered n [] h = refl
  fill_parts-numbered n (r ∷ rs) h =
      let ih = fill_parts-numbered (n + 1) rs (omega arith) in
      let e = add64-eq n 1 (omega arith) in
      rw (fill_parts, e, ih) (join_part-outcome n (copy_part n r) (numbered (n + 1) rs))

  -- For a table of valid part sizes that has room for an object of 1 byte to below 2 ^ 62 bytes,
  -- `mpuCopyParts` does not panic, and returns one part for each range, in their
  -- order and with their numbers from 1 on and none of them nil, unless a copy fails.
  pub mpu_copy_parts-numbered :
      (cs : List PartSizeConfig) (size : ℕ)
      → All IsValid cs
      → 0 < size
      → size < 2 ^ 62
      → size ≤ capacity cs
      → mpu_copy_parts copy_part cs size ≡ some (outcome (numbered 1 (copy_ranges cs size)))
  unfolding mpu_copy_parts
  mpu_copy_parts-numbered cs size v pos small enough =
      let t = copy_ranges-IsTiling cs size v pos small enough in
      let fits : 1 + length (copy_ranges cs size) < 2 ^ 64 =
        omega (arith, IsTiling-length 0 size (copy_ranges cs size) t.0) in
      rw (mpu_copy_parts, t.1) (fill_parts-numbered 1 (copy_ranges cs size) fits)

abbrev ten_thousand : ℕ → List PartSizeConfig
ten_thousand n = record { part_size = n; part_count = 10000 } ∷ []

ten_thousand-capacity :
    (size n : ℕ)
    → 0 < n
    → n < 2 ^ 40
    → size ≤ 10000 * n
    → All IsValid (ten_thousand n) × (size ≤ capacity (ten_thousand n))
ten_thousand-capacity size n pos small enough = (
  (
    record {
      nonempty = pos;
      size_fits = omega arith;
      count_fits = omega arith;
      bytes_fit = omega arith;
    },
    tt,
  ),
  omega arith,
)

-- The default sizes are valid and hold an object of up to 5 TiB.
default_copy_part_sizes-capacity :
    (size : ℕ)
    → size ≤ 5 * 1024 ^ 4
    → All IsValid (default_copy_part_sizes size) × (size ≤ capacity (default_copy_part_sizes size))
default_copy_part_sizes-capacity size h =
    let p : is_negative size ≡ false = ground arith in
    let q : quot64 size 9999 ≡ size / 9999 = rw p in
    let l = slt64-ltb 52428800 (size / 9999) (omega arith) (omega arith) in
    rw (q, l)
      (elim (Bool-cases (ltb 52428800 (size / 9999))) [
        | inl large ↦ rw large (
            let lt : 52428800 < size / 9999 = ground arith in
            ten_thousand-capacity size (size / 9999) (omega arith) (omega arith) (omega arith))
        | inr small ↦ rw small (
            let le : size / 9999 ≤ 52428800 = ground arith in
            ten_thousand-capacity size 52428800 (omega arith) (omega arith) (omega arith))
      ])
