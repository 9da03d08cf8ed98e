-- ===== src/MultipartCopy/Copied.antt =====
-- core/backend_s3.go: the parts of a copy tile the object, and there is a slot for each.
use native.Mathlib.Nat.{suc-mul}
use akavefs.Prelude.{
  ℕ, zero, suc, ◌+◌, ◌-◌, ◌*◌, ◌^◌, ◌≤◌, ◌<◌, ◌≡◌, ◌∙◌, refl, sym, ap, inl, inr, true, false,
  Bool-cases, some, List, [], ◌∷◌, ◌++◌, All, length, length-append, add64-eq, sub64, sub64-eq,
  mul64-eq, slt64, slt64-ltb, sle64, sle64-leb, ltb, ◌==◌, is_negative, arith, subst,
}
use akavefs.PartSizes.{PartSizeConfig}
use akavefs.MultipartCopy.{CopyRange, copy_rounds, copy_ranges_from, parts_required_from, rounds_of}
use akavefs.MultipartCopy.Rounds.{
  IsTiling, IsTiling-append, copy_rounds-IsFull, copy_rounds-IsLast, copy_rounds-done,
  quot64-IsLast,
}

-- Sizes that are not 0 and, with the bytes of all their parts, below 2 ^ 62.
pub record IsValid (c : PartSizeConfig) : Type 0 where
  pub nonempty : 0 < c.part_size
  pub size_fits : c.part_size < 2 ^ 62
  pub count_fits : c.part_count < 2 ^ 62
  pub bytes_fit : c.part_count * c.part_size < 2 ^ 62

-- The bytes that parts of the configured sizes hold.
abbrev pub capacity : List PartSizeConfig → ℕ
capacity [] = 0
capacity (c ∷ cs) = c.part_count * c.part_size + capacity cs

le_mul : (n m : ℕ) → 0 < m → n ≤ n * m
le_mul zero m h = omega arith
le_mul (suc n) m h = let e = suc-mul n m in omega (arith, le_mul n m h)

rounds-eq : (c : PartSizeConfig) → IsValid c → rounds_of c.part_count ≡ c.part_count
rounds-eq c v = let e : is_negative c.part_count ≡ false = ground (arith, v.count_fits) in rw e

append_nil : (rs : List CopyRange) → rs ++ [] ≡ rs
append_nil [] = refl
append_nil (r ∷ rs) = ap (λ xs. r ∷ xs) (append_nil rs)

module _ (size : ℕ) (small : size < 2 ^ 62) where
  finished : (start : ℕ) → size ≤ start → start < 2 ^ 63 → slt64 start size ≡ false
  finished start h k = slt64-ltb start size k (omega arith) ∙ ground arith

  copy_ranges_from-done :
      (cs : List PartSizeConfig) (start : ℕ)
      → size ≤ start
      → start < 2 ^ 63
      → copy_ranges_from cs size start ≡ []
  unfolding copy_ranges_from
  copy_ranges_from-done [] start h k = refl
  copy_ranges_from-done (c ∷ cs) start h k =
      let e =
        copy_rounds-done (rounds_of c.part_count) c.part_size size start (finished start h k) in
      rw (copy_ranges_from, e) (copy_ranges_from-done cs start h k)

  -- The parts of the first size, and of the others.
  copy_ranges_from-cons :
      (c : PartSizeConfig) (cs : List PartSizeConfig) (start : ℕ)
      → IsValid c
      → copy_ranges_from (c ∷ cs) size start
        ≡ (copy_rounds c.part_count c.part_size size start).ranges
          ++ copy_ranges_from cs size (copy_rounds c.part_count c.part_size size start).start_offset
  unfolding copy_ranges_from
  copy_ranges_from-cons c cs start v = rw (copy_ranges_from, rounds-eq c v)

  copy_ranges_from-last :
      (c : PartSizeConfig) (cs : List PartSizeConfig) (start : ℕ)
      → IsValid c
      → start < size
      → size ≤ start + c.part_count * c.part_size
      → copy_ranges_from (c ∷ cs) size start
        ≡ (copy_rounds c.part_count c.part_size size start).ranges
  copy_ranges_from-last c cs start v h e =
      let l =
        copy_rounds-IsLast c.part_size size v.nonempty v.size_fits small c.part_count start h e in
      let stop =
        copy_ranges_from-done cs (copy_rounds c.part_count c.part_size size start).start_offset
          (omega (arith, l.finished, l.reached))
          (omega (arith, l.reached, l.needed, v.size_fits)) in
      copy_ranges_from-cons c cs start v
      ∙ ap (λ rs. (copy_rounds c.part_count c.part_size size start).ranges ++ rs) stop
      ∙ append_nil (copy_rounds c.part_count c.part_size size start).ranges

  copy_ranges_from-full :
      (c : PartSizeConfig) (cs : List PartSizeConfig) (start : ℕ)
      → IsValid c
      → start + c.part_count * c.part_size < size
      → copy_ranges_from (c ∷ cs) size start
        ≡ (copy_rounds c.part_count c.part_size size start).ranges
          ++ copy_ranges_from cs size (start + c.part_count * c.part_size)
  copy_ranges_from-full c cs start v h =
      let l =
        copy_rounds-IsFull c.part_size size v.nonempty v.size_fits small c.part_count start h in
      copy_ranges_from-cons c cs start v
      ∙ ap
          (λ s.
            (copy_rounds c.part_count c.part_size size start).ranges ++ copy_ranges_from cs size s)
          l.reached

  pub copy_ranges_from-IsTiling :
      (cs : List PartSizeConfig) (start : ℕ)
      → All IsValid cs
      → start < size
      → size ≤ start + capacity cs
      → IsTiling start size (copy_ranges_from cs size start)
  copy_ranges_from-IsTiling [] start v h e = absurd (omega arith)
  copy_ranges_from-IsTiling (c ∷ cs) start v h e =
      elim (Bool-cases (ltb (start + c.part_count * c.part_size) size)) [
        | inl full ↦
            let lt : start + c.part_count * c.part_size < size = ground arith in
            let l =
              copy_rounds-IsFull c.part_size size v.0.nonempty v.0.size_fits small c.part_count
                start lt in
            let ih =
              copy_ranges_from-IsTiling cs (start + c.part_count * c.part_size) v.1 lt
                (omega arith) in
            subst (IsTiling start size) (sym (copy_ranges_from-full c cs start v.0 lt)) (
              IsTiling-append start (start + c.part_count * c.part_size) size
                (copy_rounds c.part_count c.part_size size start).ranges _ l.tiles ih)
        | inr last ↦
            let ge : size ≤ start + c.part_count * c.part_size = ground arith in
            let l =
              copy_rounds-IsLast c.part_size size v.0.nonempty v.0.size_fits small c.part_count
                start h ge in
            subst (IsTiling start size) (sym (copy_ranges_from-last c cs start v.0 h ge)) l.tiles
      ]

  parts_required_from-last :
      (c : PartSizeConfig) (cs : List PartSizeConfig) (n start : ℕ)
      → IsValid c
      → start < size
      → n ≤ start
      → size ≤ start + c.part_count * c.part_size
      → parts_required_from n (c ∷ cs) (size - start)
        ≡ some (n + length (copy_rounds c.part_count c.part_size size start).ranges)
  unfolding parts_required_from
  parts_required_from-last c cs n start v h less e =
      let l =
        copy_rounds-IsLast c.part_size size v.nonempty v.size_fits small c.part_count start h e in
      let m = mul64-eq c.part_count c.part_size (omega (arith, v.bytes_fit)) in
      let t : sle64 (size - start) (c.part_count * c.part_size) ≡ true =
        sle64-leb (size - start) (c.part_count * c.part_size) (omega arith)
          (omega (arith, v.bytes_fit))
        ∙ ground arith in
      let z : (c.part_size == 0) ≡ false = ground (arith, v.nonempty) in
      let few =
        le_mul (length (copy_rounds c.part_count c.part_size size start).ranges) c.part_size
          v.nonempty in
      let q =
        quot64-IsLast c.part_size size v.nonempty v.size_fits small start
          (length (copy_rounds c.part_count c.part_size size start).ranges) h l.finished l.needed in
      let a =
        add64-eq n (length (copy_rounds c.part_count c.part_size size start).ranges)
          (omega (arith, l.needed, v.size_fits)) in
      rw (parts_required_from, m, t, z, q, a)

  parts_required_from-full :
      (c : PartSizeConfig) (cs : List PartSizeConfig) (n start : ℕ)
      → IsValid c
      → n ≤ start
      → start + c.part_count * c.part_size < size
      → parts_required_from n (c ∷ cs) (size - start)
        ≡ parts_required_from (n + c.part_count) cs (size - (start + c.part_count * c.part_size))
  unfolding parts_required_from
  parts_required_from-full c cs n start v less h =
      let m = mul64-eq c.part_count c.part_size (omega (arith, v.bytes_fit)) in
      let t : sle64 (size - start) (c.part_count * c.part_size) ≡ false =
        sle64-leb (size - start) (c.part_count * c.part_size) (omega arith)
          (omega (arith, v.bytes_fit))
        ∙ ground arith in
      let few = le_mul c.part_count c.part_size v.nonempty in
      let a = add64-eq n c.part_count (omega arith) in
      let b : sub64 (size - start) (c.part_count * c.part_size)
          ≡ size - (start + c.part_count * c.part_size) =
        sub64-eq (size - start) (c.part_count * c.part_size) (omega arith) (omega arith)
        ∙ omega arith in
      rw (parts_required_from, m, t, a, b)

  pub parts_required_from-length :
      (cs : List PartSizeConfig) (n start : ℕ)
      → All IsValid cs
      → start < size
      → n ≤ start
      → parts_required_from n cs (size - start) ≡ some (n + length (copy_ranges_from cs size start))
  unfolding parts_required_from copy_ranges_from
  parts_required_from-length [] n start v h less = ap some (omega arith)
  parts_required_from-length (c ∷ cs) n start v h less =
      elim (Bool-cases (ltb (start + c.part_count * c.part_size) size)) [
        | inl full ↦
            let lt : start + c.part_count * c.part_size < size = ground arith in
            let l =
              copy_rounds-IsFull c.part_size size v.0.nonempty v.0.size_fits small c.part_count
                start lt in
            let few = le_mul c.part_count c.part_size v.0.nonempty in
            let ih =
              parts_required_from-length cs (n + c.part_count) (start + c.part_count * c.part_size)
                v.1 lt (omega arith) in
            let len =
              length-append (copy_rounds c.part_count c.part_size size start).ranges
                (copy_ranges_from cs size (start + c.part_count * c.part_size)) in
            parts_required_from-full c cs n start v.0 less lt
            ∙ ih
            ∙ ap some (omega (arith, len, l.count))
            ∙ ap (λ rs. some (n + length rs)) (sym (copy_ranges_from-full c cs start v.0 lt))
        | inr last ↦
            let ge : size ≤ start + c.part_count * c.part_size = ground arith in
            parts_required_from-last c cs n start v.0 h less ge
            ∙ ap (λ rs. some (n + length rs)) (sym (copy_ranges_from-last c cs start v.0 h ge))
      ]
