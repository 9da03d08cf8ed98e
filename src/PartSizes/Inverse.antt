-- ===== src/PartSizes/Inverse.antt =====
-- core/file.go: the number of a part is found from each of its bytes.
use akavefs.Prelude.{
  ℕ, ◌+◌, ◌-◌, ◌*◌, ◌≤◌, ◌<◌, ◌≡◌, ◌∙◌, inl, inr, List, [], ◌∷◌, some, arith, ltb, word, Bool-cases,
  ltb→lt, ltb→le, sym,
}
use akavefs.PartSizes.{PartSizeConfig, part_num_from, part_range_from}
use akavefs.PartSizes.Exact.{bytes, total, count, tier-le}
use akavefs.PartSizes.Locate.{
  Fits, Fits-tail, part_range_from-here, part_range_from-later, part_num_from-here,
  part_num_from-later,
}

-- The part `num` takes the `size` bytes from `first`, and all its bytes have its number.
pub record IsPart (n start : ℕ) (ss : List PartSizeConfig) (num first size : ℕ) : Type 0 where
  pub exists : num < n + count ss
  pub nonempty : 0 < size
  pub above : start ≤ first
  pub below : first + size ≤ start + total ss
  pub number :
      (offset : ℕ)
      → first ≤ offset
      → offset < first + size
      → part_num_from n start ss offset ≡ some num

pub inverse_from :
    (n start : ℕ) (ss : List PartSizeConfig)
    → Fits n start ss
    → (num first size : ℕ) → n ≤ num
    → num < word
    → part_range_from n start ss num ≡ some (first, size)
    → IsPart n start ss num first size
inverse_from n start [] f num first size lo fit e = absurd (unfold part_range_from in cc)
inverse_from n start (s ∷ ss) f num first size lo fit e =
    elim (Bool-cases (ltb num (n + s.part_count))) [
      | inl here ↦
          let h = ltb→lt num (n + s.part_count) here in
          let num_lem : n + (num - n) ≡ num = omega arith in
          let r : part_range_from n start (s ∷ ss) num
              ≡ some (start + (num - n) * s.part_size, s.part_size) =
            rw num_lem at (part_range_from-here n start s ss f (num - n) (omega arith)) in
          let parts : (first ≡ start + (num - n) * s.part_size) × (size ≡ s.part_size) =
            ground arith in
          let end : (num - n) * s.part_size + s.part_size ≤ bytes s =
            tier-le (num - n) s.part_size s.part_count (omega arith) in
          record {
            exists = omega arith;
            nonempty = omega arith;
            above = omega arith;
            below = omega arith;
            number = λ offset lo hi. rw num_lem at (
                part_num_from-here n start s ss f offset (num - n) (omega arith) (omega arith)
                  (omega arith));
          }
      | inr later ↦
          let h = ltb→le num (n + s.part_count) later in
          let r = part_range_from-later n start s ss f num h fit in
          let i =
            inverse_from (n + s.part_count) (start + bytes s) ss (Fits-tail f) num first size h fit
              (sym r ∙ e) in
          record {
            exists = omega arith;
            nonempty = i.nonempty;
            above = omega arith;
            below = omega arith;
            number = λ offset lo hi.
                part_num_from-later n start s ss f offset (omega arith) (omega arith)
                ∙ i.number offset lo hi;
          }
    ]
