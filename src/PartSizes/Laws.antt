-- ===== src/PartSizes/Laws.antt =====
-- core/file.go: `partNum`, `partRange`, `numParts`, `maxParts` and `getMaxFileSize` together.
use mathlib.Core.Path.{subst₂}
use akavefs.PartNumbering.{IsPartNumbering}
use akavefs.Prelude.{
  some_unique, ℕ, ◌+◌, ◌-◌, ◌≤◌, ◌<◌, ◌≡◌, ◌⊎◌, inl, inr, List, [], ◌∷◌, some, arith, ltb, word,
  Bool-cases, ltb→lt, ltb→le, add64-eq, mul64-eq,
}
use akavefs.PartSizes.{
  PartSizeConfig, part_num_from, part_num, part_range, max_parts_from, max_parts,
  max_file_size_from, get_max_file_size, round_up, num_parts,
}
use akavefs.PartSizes.Exact.{bytes, total, count, IsValid}
use akavefs.PartSizes.Locate.{Fits, Fits-tail, IsValid-Fits, locate_from, part_num_from-end}
use akavefs.PartSizes.Tiling.{Next-from}
use akavefs.PartSizes.Inverse.{inverse_from}

max_parts_from-count :
    (n start : ℕ) (ss : List PartSizeConfig) → Fits n start ss → max_parts_from n ss ≡ n + count ss
unfolding max_parts_from
max_parts_from-count n start [] f = omega arith
max_parts_from-count n start (s ∷ ss) f =
    rw (add64-eq n s.part_count (omega arith))
      (omega (arith, max_parts_from-count (n + s.part_count) (start + bytes s) ss (Fits-tail f)))

max_file_size_from-total :
    (n start : ℕ) (ss : List PartSizeConfig)
    → Fits n start ss
    → max_file_size_from start ss ≡ start + total ss
unfolding max_file_size_from
max_file_size_from-total n start [] f = omega arith
max_file_size_from-total n start (s ∷ ss) f =
    rw (mul64-eq s.part_size s.part_count (omega arith), add64-eq start (bytes s) (omega arith))
      (omega
        (arith, max_file_size_from-total (n + s.part_count) (start + bytes s) ss (Fits-tail f)))

module _ (sizes : List PartSizeConfig) (v : IsValid sizes) where
  pub max_parts-count : max_parts sizes ≡ count sizes
  unfolding max_parts
  max_parts-count = omega (arith, max_parts_from-count 0 0 sizes (IsValid-Fits v))

  pub get_max_file_size-total : get_max_file_size sizes ≡ total sizes
  unfolding get_max_file_size
  get_max_file_size-total = omega (arith, max_file_size_from-total 0 0 sizes (IsValid-Fits v))

  -- For a table of valid part sizes every byte below the maximal file size has a part number, that number is below `maxParts`, and
  -- the range of that part holds the byte.
  pub part_range-part_num :
      (offset : ℕ)
      → offset < get_max_file_size sizes
      → (p first size : ℕ) × (part_num sizes offset ≡ some p)
        × (part_range sizes p ≡ some (first, size))
        × (first ≤ offset)
        × (offset < first + size)
        × (p < max_parts sizes)
  unfolding part_num part_range
  part_range-part_num offset h =
      let l =
        locate_from 0 0 sizes (IsValid-Fits v) offset (omega arith)
          (omega (arith, get_max_file_size-total)) in
      (
        l.p,
        l.first,
        l.size,
        l.num,
        l.range,
        l.above,
        l.below,
        omega (arith, max_parts-count, l.high),
      )

  -- Where a part has a range, each byte of the range has the part's number, and the range is not
  -- empty and ends by the maximal file size.
  pub part_num-part_range :
      (num first size offset : ℕ)
      → num < word
      → part_range sizes num ≡ some (first, size)
      → first ≤ offset
      → offset < first + size
      → (part_num sizes offset ≡ some num) × (first + size ≤ get_max_file_size sizes)
  unfolding part_num part_range
  part_num-part_range num first size offset fit e lo hi =
      let i = inverse_from 0 0 sizes (IsValid-Fits v) num first size (omega arith) fit e in
      (i.number offset lo hi, omega (arith, get_max_file_size-total, i.below))

  -- The parts tile the file: what follows a part's range is the end of the largest file, after the
  -- last part, or else the range of the next part.
  pub part_range-suc :
      (num first size : ℕ)
      → num < word
      → part_range sizes num ≡ some (first, size)
      → ((num + 1 ≡ max_parts sizes) × (first + size ≡ get_max_file_size sizes))
        ⊎ ((next : ℕ) × (part_range sizes (num + 1) ≡ some (first + size, next)) × (0 < next))
  unfolding part_range
  part_range-suc num first size fit e =
      let i = inverse_from 0 0 sizes (IsValid-Fits v) num first size (omega arith) fit e in
      elim (Next-from 0 0 sizes (IsValid-Fits v) num first size (omega arith) i.exists e) [
        | inl (x, y) ↦ inl (omega (arith, max_parts-count), omega (arith, get_max_file_size-total))
        | inr r ↦ inr r
      ]

  -- `numParts` of a size that is not 0 is one more than the number of the part of the last byte, so
  -- that the parts below it are exactly those that the file needs.
  pub num_parts-suc :
      (size : ℕ)
      → 0 < size
      → size ≤ get_max_file_size sizes
      → (last : ℕ) × (part_num sizes (size - 1) ≡ some last)
        × (num_parts sizes size ≡ some (last + 1))
  unfolding num_parts part_num part_range round_up
  num_parts-suc size pos h =
      let f = IsValid-Fits v in
      let big = get_max_file_size-total in
      let l = locate_from 0 0 sizes f (size - 1) (omega arith) (omega arith) in
      let i = inverse_from 0 0 sizes f l.p l.first l.size (omega arith) (omega arith) l.range in
      (
        l.p,
        l.num,
        elim (Bool-cases (ltb size (l.first + l.size))) [
          | inl inside ↦
              let e = i.number size (omega arith) (ltb→lt _ _ inside) in
              let r = l.range in ground (arith, max_parts-count, e, r)
          | inr outside ↦
              let d : size ≡ l.first + l.size = omega (arith, ltb→le _ _ outside) in
              elim (Next-from 0 0 sizes f l.p l.first l.size (omega arith) l.high l.range) [
                | inl (x, y) ↦
                    let whole : 0 + total sizes ≡ size = omega arith in
                    let all : 0 + count sizes ≡ l.p + 1 = omega arith in
                    let e =
                      subst₂ (λ t m. part_num_from 0 0 sizes t ≡ some m) whole all
                        (part_num_from-end 0 0 sizes f) in
                    ground (arith, max_parts-count, e)
                | inr (next, r, p) ↦
                    let j =
                      inverse_from 0 0 sizes f (l.p + 1) (l.first + l.size) next (omega arith)
                        (omega arith) r in
                    let e = j.number size (omega arith) (omega arith) in
                    ground (arith, max_parts-count, j.exists, e, r)
              ]
        ],
      )

  -- Below the maximal file size the table numbers every byte, and the number of the next byte is the
  -- same or one more, as a buffer list relies on.
  pub part_num-IsPartNumbering : IsPartNumbering (part_num sizes) (get_max_file_size sizes)
  unfolding part_num part_range
  part_num-IsPartNumbering =
      let f = IsValid-Fits v in
      let big = get_max_file_size-total in
      record {
        total =
            λ x h. let l = locate_from 0 0 sizes f x (omega arith) (omega arith) in (l.p, l.num);
        next = λ x p q h e g.
            let l = locate_from 0 0 sizes f x (omega arith) (omega arith) in
            let i =
              inverse_from 0 0 sizes f l.p l.first l.size (omega arith) (omega arith) l.range in
            let here : p ≡ l.p = some_unique e (l.num) in
            elim (Bool-cases (ltb (x + 1) (l.first + l.size))) [
              | inl inside ↦
                  let there : q ≡ l.p =
                    some_unique g (i.number (x + 1) (omega arith) (ltb→lt _ _ inside)) in
                  (omega arith, omega arith)
              | inr outside ↦
                  let d : x + 1 ≡ l.first + l.size = omega (arith, ltb→le _ _ outside) in
                  elim (Next-from 0 0 sizes f l.p l.first l.size (omega arith) l.high l.range) [
                    | inl (a, b) ↦ absurd (omega arith)
                    | inr (next, r, pos) ↦
                        let j =
                          inverse_from 0 0 sizes f (l.p + 1) (l.first + l.size) next (omega arith)
                            (omega arith) r in
                        let there : q ≡ l.p + 1 =
                          some_unique g (j.number (x + 1) (omega arith) (omega arith)) in
                        (omega arith, omega arith)
                  ]
            ];
      }
