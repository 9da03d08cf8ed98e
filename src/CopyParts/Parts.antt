-- ===== src/CopyParts/Parts.antt =====
-- core/file.go: the ids of the parts of an upload, and the range of the first part of a file.
use akavefs.Prelude.{
  ℕ, zero, suc, ◌*◌, ◌<◌, ◌≡◌, ◌∙◌, refl, ap, Bool, true, false, inl, inr, Bool-cases, Option, none,
  some, List, [], ◌∷◌, ltb, ◌==◌, add64, mul64, add64-eq, word, arith, length, get_elem?, All,
}
use akavefs.PartSizes.{PartSizeConfig, part_num, part_range, part_range_from, get_max_file_size}
use akavefs.PartSizes.Exact.{IsValid, HasParts, total, count-le-total}
use akavefs.PartSizes.Laws.{get_max_file_size-total}
use akavefs.CopyParts.Rounds.{lacks_id}

-- The byte is in a part without an id.
abbrev pub is_missing : List PartSizeConfig → List (Option ℕ) → ℕ → Bool
is_missing sizes parts x = elim (part_num sizes x) [
  | none ↦ false
  | some p ↦ elim (get_elem? parts p) [ none ↦ false | some id ↦ lacks_id id ]
]

pub element :
    (parts : List (Option ℕ)) (i : ℕ)
    → i < length parts
    → (id : Option ℕ) × (get_elem? parts i ≡ some id)
element [] i lt = absurd (omega arith)
element (id ∷ parts) zero lt = (id, refl)
element (id ∷ parts) (suc i) lt = element parts i (omega arith)

first_range_from :
    (ss : List PartSizeConfig)
    → All HasParts ss
    → 0 < total ss
    → total ss < word
    → (size : ℕ) × (part_range_from 0 0 ss 0 ≡ some (0, size)) × (0 < size)
unfolding part_range_from
first_range_from [] h lt fits = absurd (omega arith)
first_range_from (s ∷ ss) h lt fits = elim (Bool-cases (s.part_count == 0)) [
  | inl gone ↦
      let z : s.part_count ≡ 0 = ground (arith, gone) in
      let none_here : s.part_size * s.part_count ≡ 0 = rw z (omega arith) in
      let rest = first_range_from ss (h.1) (omega arith) (omega arith) in
      let m : mul64 s.part_size 0 ≡ 0 = (let e : s.part_size * 0 ≡ 0 = omega arith in rw e refl) in
      rw (part_range_from, z, m) rest
  | inr here ↦
      let c : add64 0 s.part_count ≡ s.part_count =
        add64-eq 0 s.part_count (omega (arith, count-le-total (s ∷ ss) h)) ∙ omega arith in
      let k : ltb 0 s.part_count ≡ true = ground (arith, here) in
      let zero_offset : add64 0 (mul64 0 s.part_size) ≡ 0 =
        (let e : 0 * s.part_size ≡ 0 = omega arith in rw e refl) in
      rw (c, k) (s.part_size, ap (λ o. some (o, s.part_size)) zero_offset, h.0)
]

pub first_range :
    (sizes : List PartSizeConfig)
    → IsValid sizes
    → 0 < get_max_file_size sizes
    → (size : ℕ) × (part_range sizes 0 ≡ some (0, size)) × (0 < size)
unfolding part_range
first_range sizes v lt =
    first_range_from sizes v.nonempty (omega (arith, get_max_file_size-total sizes v)) v.fits
