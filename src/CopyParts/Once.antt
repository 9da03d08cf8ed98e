-- ===== src/CopyParts/Once.antt =====
-- core/file.go: the ranges that `copyUnmodifiedParts` copies are the bytes of the file in the parts that
-- have not been uploaded, each once.
use akavefs.Prelude.{
  ℕ, zero, suc, ◌+◌, ◌-◌, ◌≤◌, ◌<◌, ◌≡◌, ◌∙◌, refl, sym, ap, subst, ◌&&◌, inl, inr, Bool-cases,
  Option, some, some_unique, List, ltb, ◌>>=◌, add64-eq, word, arith, length, get_elem?,
}
use akavefs.PartSizes.{
  PartSizeConfig, part_num, part_range, max_parts, get_max_file_size, num_parts,
}
use akavefs.PartSizes.Exact.{IsValid, count-le-total}
use akavefs.PartSizes.Laws.{
  part_range-part_num, part_num-part_range, part_range-suc, num_parts-suc, max_parts-count,
  get_max_file_size-total,
}
use akavefs.CopyParts.{
  MergedRange, Collected, nothing_collected, close, collect_part, part_end_of, collect_round,
  collect_rounds, ranges_to_copy,
}
use akavefs.CopyParts.Rounds.{
  once, times, lacks_id, IsCollected, close-IsCollected, close-shut, nothing-IsCollected,
  collect_part-IsCollected,
}
use akavefs.CopyParts.Parts.{is_missing, element, first_range}

module _ (sizes : List PartSizeConfig) (v : IsValid sizes) (file_size max_merge : ℕ)
    (parts : List (Option ℕ)) (last : ℕ) (fits : file_size ≤ get_max_file_size sizes)
    (final : part_num sizes (file_size - 1) ≡ some last) (enough : last < length parts) where
  small : file_size < word
  small = omega (arith, fits, get_max_file_size-total sizes v, v.fits)

  last_inside : 0 < file_size → (last < max_parts sizes) × (max_parts sizes < word)
  last_inside pos =
      let l = part_range-part_num sizes v (file_size - 1) (omega (arith, fits)) in
      let same : l.0 ≡ last = some_unique (l.3) final in
      (
        subst (λ k. k < max_parts sizes) same (l.7),
        omega (arith, max_parts-count sizes v, count-le-total sizes v.nonempty, v.fits),
      )

  -- The bytes of a part are missing if it has no id.
  part-missing :
      (i first size : ℕ) (id : Option ℕ)
      → i < word
      → part_range sizes i ≡ some (first, size)
      → get_elem? parts i ≡ some id
      → (x : ℕ) → first ≤ x
      → x < part_end_of file_size first size
      → x < file_size
      → first + size < word
      → is_missing sizes parts x ≡ lacks_id id
  part-missing i first size id lt e at x le below inside no_wrap =
      let w = add64-eq first size no_wrap in
      let n =
        part_num-part_range sizes v i first size x lt e le (ground (arith, below, w, inside)) in
      rw (is_missing, n.0, at) refl

  -- The round of a part below the file size.
  round-IsCollected :
      (i first size : ℕ) (c : Collected)
      → i ≤ last
      → part_range sizes i ≡ some (first, size)
      → 0 < size
      → first < file_size
      → first + size < word
      → IsCollected (is_missing sizes parts) first c
      → (d : Collected) × (collect_round sizes file_size max_merge parts i c ≡ some d)
        × IsCollected (is_missing sizes parts) (part_end_of file_size first size) d
  unfolding collect_round
  round-IsCollected i first size c le e pos below no_wrap h =
      let at = element parts i (omega (arith, enough)) in
      let w = add64-eq first size no_wrap in
      let bound = last_inside (omega arith) in
      (
        collect_part max_merge i first (part_end_of file_size first size) (at.0) c,
        rw (e, at.1) refl,
        collect_part-IsCollected (is_missing sizes parts) max_merge i first
            (part_end_of file_size first size) (at.0) c (ground (arith, w, pos, below))
            (ground (arith, w, no_wrap)) (omega (arith, bound, le))
            (λ x lo hi.
              part-missing i first size (at.0) (omega (arith, bound, le)) e (at.1) x lo hi
                (ground (arith, hi, w)) no_wrap)
            h,
      )

  no_wrap :
      (i first size : ℕ)
      → i ≤ last
      → part_range sizes i ≡ some (first, size)
      → 0 < size
      → first < file_size
      → first + size < word
  no_wrap i first size le e pos below =
      let bound = last_inside (omega arith) in
      let n =
        part_num-part_range sizes v i first size first (omega (arith, bound)) e (omega arith)
          (omega arith) in
      omega (arith, n.1, get_max_file_size-total sizes v, v.fits)

  -- Where the next part begins.
  next_part :
      (i first size : ℕ)
      → i < last
      → part_range sizes i ≡ some (first, size)
      → 0 < size
      → first < file_size
      → (first + size < file_size)
        × ((next : ℕ) × (part_range sizes (i + 1) ≡ some (first + size, next)) × (0 < next))
  next_part i first size lt e pos below =
      let bound = last_inside (omega arith) in
      let far : first + size < file_size = elim (Bool-cases (ltb (file_size - 1) (first + size))) [
        | inl inside ↦
            let n =
              part_num-part_range sizes v i first size (file_size - 1) (omega (arith, bound)) e
                (omega arith) (ground (arith, inside)) in
            let same : i ≡ last = some_unique (n.0) final in absurd (omega arith)
        | inr beyond ↦ ground (arith, beyond, below)
      ] in
      (
        far,
        elim (part_range-suc sizes v i first size (omega (arith, bound)) e) [
          | inl (top, _) ↦ absurd (omega (arith, bound, top))
          | inr more ↦ more
        ],
      )

  last_part :
      (first size : ℕ)
      → part_range sizes last ≡ some (first, size)
      → 0 < file_size
      → file_size ≤ first + size
  last_part first size e pos =
      let l = part_range-part_num sizes v (file_size - 1) (omega (arith, fits)) in
      let same : l.0 ≡ last = some_unique (l.3) final in
      let here : part_range sizes last ≡ some (l.1, l.2) =
        subst (λ k. part_range sizes k ≡ some (l.1, l.2)) same (l.4) in
      let pair : (l.1, l.2) ≡ (first, size) = some_unique here e in
      let a : l.1 ≡ first = ap (λ q. q.0) pair in
      let b : l.2 ≡ size = ap (λ q. q.1) pair in omega (arith, l.6, a, b)

  rounds-IsCollected :
      (k i first size : ℕ) (c : Collected)
      → i + k ≡ last
      → part_range sizes i ≡ some (first, size)
      → 0 < size
      → first < file_size
      → IsCollected (is_missing sizes parts) first c
      → (d : Collected) × (collect_rounds (suc k) sizes file_size max_merge parts i c ≡ some d)
        × IsCollected (is_missing sizes parts) file_size d
  unfolding collect_rounds
  rounds-IsCollected zero i first size c at e pos below h =
      let here : i ≡ last = omega arith in
      let fit = no_wrap i first size (omega arith) e pos below in
      let r = round-IsCollected i first size c (omega arith) e pos below fit h in
      let long =
        last_part first size (subst (λ j. part_range sizes j ≡ some (first, size)) here e)
          (omega arith) in
      let w = add64-eq first size fit in
      let end : part_end_of file_size first size ≡ file_size = ground (arith, w, long) in
      (
        r.0,
        ap (λ o. o >>= λ d. some d) (r.1),
        subst (λ k. IsCollected (is_missing sizes parts) k (r.0)) end (r.2),
      )
  rounds-IsCollected (suc k) i first size c at e pos below h =
      let fit = no_wrap i first size (omega arith) e pos below in
      let r = round-IsCollected i first size c (omega arith) e pos below fit h in
      let n = next_part i first size (omega arith) e pos below in
      let next = n.1 in
      let w = add64-eq first size fit in
      let end : part_end_of file_size first size ≡ first + size = ground (arith, w, n.0) in
      let rest =
        rounds-IsCollected k (i + 1) (first + size) (next.0) (r.0) (omega arith) (next.1) (next.2)
          (n.0) (subst (λ k. IsCollected (is_missing sizes parts) k (r.0)) end (r.2)) in
      (
        rest.0,
        ap (λ o. o >>= λ d. collect_rounds (suc k) sizes file_size max_merge parts (i + 1) d) (r.1)
            ∙ rest.1,
        rest.2,
      )

  collected :
      0 < file_size
      → (ranges : List MergedRange) × (ranges_to_copy sizes file_size max_merge parts (last + 1)
          ≡ some ranges)
        × ((x : ℕ) → times ranges x ≡ once (ltb x file_size && is_missing sizes parts x))
  unfolding ranges_to_copy
  collected pos =
      let f = first_range sizes v (omega (arith, fits)) in
      let r =
        rounds-IsCollected last 0 0 (f.0) nothing_collected (omega arith) (f.1) (f.2) pos
          (nothing-IsCollected (is_missing sizes parts)) in
      let shut = close-IsCollected (is_missing sizes parts) file_size (r.0) small (r.2) in
      let one : suc last ≡ last + 1 = omega arith in
      (
        (close (r.0)).ranges,
        ap
              (λ k. collect_rounds k sizes file_size max_merge parts 0 nothing_collected >>= λ c.
                some (close c).ranges)
              (sym one)
            ∙ ap (λ o. o >>= λ c. some (close c).ranges) (r.1),
        λ x.
            (let k = shut.counts x in
              let z = close-shut (is_missing sizes parts) (r.0) in
              let k' = rw z at k in omega (arith, k')),
      )

-- For a valid table of part sizes, a file that is not empty and fits in it, and an entry for each of
-- its parts, the ranges are found without a panic and hold each byte of the file that is in a part
-- without an id once, and no other byte.
pub ranges_to_copy-times :
    (sizes : List PartSizeConfig)
    → IsValid sizes
    → (file_size max_merge : ℕ) (parts : List (Option ℕ)) (num : ℕ) → 0 < file_size
    → file_size ≤ get_max_file_size sizes
    → num_parts sizes file_size ≡ some num
    → num ≤ length parts
    → (ranges : List MergedRange) × (ranges_to_copy sizes file_size max_merge parts num
        ≡ some ranges)
      × ((x : ℕ) → times ranges x ≡ once (ltb x file_size && is_missing sizes parts x))
ranges_to_copy-times sizes v file_size max_merge parts num pos fits parts_eq enough =
    let l = num_parts-suc sizes v file_size pos fits in
    let same : l.0 + 1 ≡ num = some_unique (l.2) parts_eq in
    let c =
      collected sizes v file_size max_merge parts (l.0) fits (l.1) (omega (arith, same, enough))
        pos in
    subst
      (λ k.
        (ranges : List MergedRange) × (ranges_to_copy sizes file_size max_merge parts k
          ≡ some ranges)
        × ((x : ℕ) → times ranges x ≡ once (ltb x file_size && is_missing sizes parts x)))
      same c
