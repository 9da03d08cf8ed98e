-- ===== src/PartSizes/Locate.antt =====
-- core/file.go: `partNum` and `partRange` are inverse to one another.
use native.Mathlib.Nat.{add_assoc, div-lt_iff_lt-mul, le-div_iff_mul-le, div-eq_of_lt-le}
use akavefs.Prelude.{
  ℕ, ◌+◌, ◌-◌, ◌*◌, ◌/◌, ◌≤◌, ◌<◌, ◌≡◌, ◌∙◌, inl, inr, List, [], ◌∷◌, some, All, arith, ltb, word,
  Bool-cases, ltb→lt, ltb→le, lt→ltb,
}
use akavefs.PartSizes.{PartSizeConfig, part_num_from, part_range_from}
use akavefs.PartSizes.Exact.{
  bytes, total, count, HasParts, IsValid, count-le-total, part_num_from-cons, part_range_from-cons,
}

-- The loop's variables are in range, so that nothing wraps around.
pub record Fits (n start : ℕ) (ss : List PartSizeConfig) : Type 0 where
  pub nonempty : All HasParts ss
  pub bytes_fit : start + total ss < word
  pub parts_fit : n + count ss < word

pub IsValid-Fits : {ss : List PartSizeConfig} → IsValid ss → Fits 0 0 ss
IsValid-Fits {ss} v = record {
  nonempty = v.nonempty;
  bytes_fit = let h = v.fits in omega arith;
  parts_fit = let h = v.fits in omega (arith, count-le-total ss v.nonempty);
}

pub Fits-tail :
    {n start : ℕ} {s : PartSizeConfig} {ss : List PartSizeConfig}
    → Fits n start (s ∷ ss)
    → Fits (n + s.part_count) (start + bytes s) ss
Fits-tail f = record { nonempty = f.nonempty.1; bytes_fit = omega arith; parts_fit = omega arith }

module _ (n start : ℕ) (s : PartSizeConfig) (ss : List PartSizeConfig)
    (f : Fits n start (s ∷ ss)) where
  -- A byte of the first tier.
  pub part_num_from-here :
      (offset k : ℕ)
      → k < s.part_count
      → start + k * s.part_size ≤ offset
      → offset < start + k * s.part_size + s.part_size
      → part_num_from n start (s ∷ ss) offset ≡ some (n + k)
  part_num_from-here offset k h lo hi =
      let d : (offset - start) / s.part_size ≡ k =
        div-eq_of_lt-le s.part_size (omega arith) (omega arith) in
      let fit : k * s.part_size + s.part_size ≤ bytes s = grind arith in
      rw (
        part_num_from-cons n start s ss f.nonempty.0 f.bytes_fit f.parts_fit offset (omega arith)
            (omega arith),
        d,
        lt→ltb _ _ h,
      )

  pub part_num_from-later :
      (offset : ℕ)
      → start + bytes s ≤ offset
      → offset < word
      → part_num_from n start (s ∷ ss) offset
        ≡ part_num_from (n + s.part_count) (start + bytes s) ss offset
  part_num_from-later offset h k =
      let d : s.part_count ≤ (offset - start) / s.part_size =
        (le-div_iff_mul-le f.nonempty.0).1 (omega arith) in
      rw
        (part_num_from-cons n start s ss f.nonempty.0 f.bytes_fit f.parts_fit offset (omega arith)
          k)
        (ground arith)

  pub part_range_from-here :
      (k : ℕ)
      → k < s.part_count
      → part_range_from n start (s ∷ ss) (n + k) ≡ some (start + k * s.part_size, s.part_size)
  part_range_from-here k h =
      let e : n + k - n ≡ k = omega arith in
      rw (
        part_range_from-cons n start s ss f.nonempty.0 f.bytes_fit f.parts_fit (n + k) (omega arith)
            (omega arith),
        lt→ltb (n + k) (n + s.part_count) (omega arith),
        e,
      )

  pub part_range_from-later :
      (num : ℕ)
      → n + s.part_count ≤ num
      → num < word
      → part_range_from n start (s ∷ ss) num
        ≡ part_range_from (n + s.part_count) (start + bytes s) ss num
  part_range_from-later num h k =
      rw
        (part_range_from-cons n start s ss f.nonempty.0 f.bytes_fit f.parts_fit num (omega arith) k)
        (ground arith)

-- Where the byte at `offset` lies: part `p`, which takes `size` bytes from `first`.
pub record Location (n start : ℕ) (ss : List PartSizeConfig) (offset : ℕ) : Type 0 where
  pub p : ℕ
  pub first : ℕ
  pub size : ℕ
  pub num : part_num_from n start ss offset ≡ some p
  pub range : part_range_from n start ss p ≡ some (first, size)
  pub above : first ≤ offset
  pub below : offset < first + size
  pub low : n ≤ p
  pub high : p < n + count ss

pub locate_from :
    (n start : ℕ) (ss : List PartSizeConfig)
    → Fits n start ss
    → (offset : ℕ) → start ≤ offset
    → offset < start + total ss
    → Location n start ss offset
locate_from n start [] f offset lo hi = absurd (omega arith)
locate_from n start (s ∷ ss) f offset lo hi = elim (Bool-cases (ltb offset (start + bytes s))) [
  | inl here ↦
      let h : offset < start + bytes s = ltb→lt _ _ here in
      let k = (offset - start) / s.part_size in
      let below : k < s.part_count = (div-lt_iff_lt-mul f.nonempty.0).1 (omega arith) in
      let lower : k * s.part_size ≤ offset - start =
        (le-div_iff_mul-le f.nonempty.0).0 (omega arith) in
      let upper : offset - start < (k + 1) * s.part_size =
        (div-lt_iff_lt-mul f.nonempty.0).0 (omega arith) in
      record {
        p = n + k;
        first = start + k * s.part_size;
        size = s.part_size;
        num = part_num_from-here n start s ss f offset k below (omega arith) (omega arith);
        range = part_range_from-here n start s ss f k below;
        above = omega arith;
        below = omega arith;
        low = omega arith;
        high = omega arith;
      }
  | inr later ↦
      let h : start + bytes s ≤ offset = ltb→le _ _ later in
      let r =
        locate_from (n + s.part_count) (start + bytes s) ss (Fits-tail f) offset h (omega arith) in
      record {
        p = r.p;
        first = r.first;
        size = r.size;
        num = part_num_from-later n start s ss f offset h (omega arith) ∙ r.num;
        range = part_range_from-later n start s ss f r.p r.low (omega arith) ∙ r.range;
        above = r.above;
        below = r.below;
        low = omega arith;
        high = omega arith;
      }
]

pub part_num_from-end :
    (n start : ℕ) (ss : List PartSizeConfig)
    → Fits n start ss
    → part_num_from n start ss (start + total ss) ≡ some (n + count ss)
part_num_from-end n start [] f = unfold part_num_from in ground arith
part_num_from-end n start (s ∷ ss) f =
    part_num_from-later n start s ss f (start + total (s ∷ ss)) (omega arith) (omega arith)
    ∙ rw (← add_assoc start (bytes s) (total ss), ← add_assoc n s.part_count (count ss))
        (part_num_from-end (n + s.part_count) (start + bytes s) ss (Fits-tail f))
