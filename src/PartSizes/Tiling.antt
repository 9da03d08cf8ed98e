-- ===== src/PartSizes/Tiling.antt =====
-- core/file.go: the parts tile the file, each beginning where the one before it ends.
use mathlib.Core.Path.{subst₂}
use native.Mathlib.Nat.{mul-zero, zero-mul, add-zero}
use akavefs.Prelude.{
  ℕ, ◌+◌, ◌-◌, ◌*◌, ◌≤◌, ◌<◌, ◌≡◌, ◌∙◌, ◌⊎◌, inl, inr, List, [], ◌∷◌, some, arith, ltb, Bool-cases,
  ltb→lt, ltb→le, sym, ◌==◌,
}
use akavefs.PartSizes.{PartSizeConfig, part_range_from}
use akavefs.PartSizes.Exact.{bytes, total, count}
use akavefs.PartSizes.Locate.{Fits, Fits-tail, part_range_from-here, part_range_from-later}

-- The table `ss` holds no part at all, or part `n` begins at `start`.
abbrev Begins : ℕ → ℕ → List PartSizeConfig → Type 0
Begins n start ss =
    ((count ss ≡ 0) × (total ss ≡ 0))
    ⊎ ((size : ℕ) × (part_range_from n start ss n ≡ some (start, size)) × (0 < size))

begins : (n start : ℕ) (ss : List PartSizeConfig) → Fits n start ss → Begins n start ss
begins n start [] f = inl (omega arith, omega arith)
begins n start (s ∷ ss) f = elim (Bool-cases (s.part_count == 0)) [
  | inl empty ↦
      let c : s.part_count ≡ 0 = ground arith in
      let b : bytes s ≡ 0 = rw c (mul-zero s.part_size) in
      let later = part_range_from-later n start s ss f n (omega arith) (omega arith) in
      elim (begins (n + s.part_count) (start + bytes s) ss (Fits-tail f)) [
        | inl (x, y) ↦ inl (omega arith, omega arith)
        | inr (size, e, h) ↦
            let n_lem : n + s.part_count ≡ n = omega arith in
            let s_lem : start + bytes s ≡ start = omega arith in
            inr (
              size,
              later
                  ∙ subst₂
                      (λ m t.
                        part_range_from (n + s.part_count) (start + bytes s) ss m ≡ some (t, size))
                      n_lem s_lem e,
              h,
            )
      ]
  | inr some_part ↦
      let here = part_range_from-here n start s ss f 0 (ground arith) in
      inr (s.part_size, rw (add-zero n, zero-mul s.part_size, add-zero start) at here, f.nonempty.0)
]

-- What follows the part `num`, which takes `size` bytes from `first`: the end of the table, or a part.
abbrev pub Next : ℕ → ℕ → List PartSizeConfig → ℕ → ℕ → ℕ → Type 0
Next n start ss num first size =
    ((num + 1 ≡ n + count ss) × (first + size ≡ start + total ss))
    ⊎ ((size' : ℕ) × (part_range_from n start ss (num + 1) ≡ some (first + size, size'))
        × (0 < size'))

-- The part after the last of a tier is the first of the next.
Next-tier :
    (n start : ℕ) (s : PartSizeConfig) (ss : List PartSizeConfig)
    → Fits n start (s ∷ ss)
    → (num first size : ℕ) → num + 1 ≡ n + s.part_count
    → first + size ≡ start + bytes s
    → Next n start (s ∷ ss) num first size
Next-tier n start s ss f num first size e d =
    elim (begins (n + s.part_count) (start + bytes s) ss (Fits-tail f)) [
      | inl (x, y) ↦ inl (omega arith, omega arith)
      | inr (size', r, h) ↦ inr (
        size',
        rw (e, d)
            (part_range_from-later n start s ss f (n + s.part_count) (omega arith) (omega arith)
              ∙ r),
        h,
      )
    ]

pub Next-from :
    (n start : ℕ) (ss : List PartSizeConfig)
    → Fits n start ss
    → (num first size : ℕ) → n ≤ num
    → num < n + count ss
    → part_range_from n start ss num ≡ some (first, size)
    → Next n start ss num first size
Next-from n start [] f num first size lo fit e = absurd (unfold part_range_from in cc)
Next-from n start (s ∷ ss) f num first size lo fit e =
    elim (Bool-cases (ltb num (n + s.part_count))) [
      | inl here ↦
          let h = ltb→lt num (n + s.part_count) here in
          let num_lem : n + (num - n) ≡ num = omega arith in
          let r : part_range_from n start (s ∷ ss) num
              ≡ some (start + (num - n) * s.part_size, s.part_size) =
            rw num_lem at (part_range_from-here n start s ss f (num - n) (omega arith)) in
          let parts : (first ≡ start + (num - n) * s.part_size) × (size ≡ s.part_size) =
            ground arith in
          elim (Bool-cases (ltb (num + 1) (n + s.part_count))) [
            | inl more ↦
                let m = ltb→lt (num + 1) (n + s.part_count) more in
                let suc_lem : n + (num + 1 - n) ≡ num + 1 = omega arith in
                let first_lem : start + (num + 1 - n) * s.part_size ≡ first + size =
                  let split : num + 1 - n ≡ (num - n) + 1 = omega arith in rw split (omega arith) in
                inr (
                  s.part_size,
                  rw (suc_lem, first_lem) at
                      (part_range_from-here n start s ss f (num + 1 - n) (omega arith)),
                  f.nonempty.0,
                )
            | inr last ↦
                let m = ltb→le (num + 1) (n + s.part_count) last in
                let c : s.part_count ≡ (num - n) + 1 = omega arith in
                Next-tier n start s ss f num first size (omega arith) (rw c (omega arith))
          ]
      | inr later ↦
          let h = ltb→le num (n + s.part_count) later in
          let r = part_range_from-later n start s ss f num h (omega arith) in
          elim (Next-from (n + s.part_count) (start + bytes s) ss (Fits-tail f) num first size h
            (omega arith) (sym r ∙ e)) [
              | inl (x, y) ↦ inl (omega arith, omega arith)
              | inr (size', q, p) ↦ inr (
                size',
                part_range_from-later n start s ss f (num + 1) (omega arith) (omega arith) ∙ q,
                p,
              )
            ]
    ]
