-- ===== src/Loading/Missing.antt =====
-- core/file.go: `LoadRange` requests what no buffer holds.
use akavefs.Prelude.{
  ℕ, ◌+◌, ◌*◌, ◌≤◌, ◌<◌, ◌≡◌, ◌⊎◌, refl, sym, inl, inr, none, some, List, [], ◌∷◌, All, arith, word,
  ltb, leb, Bool-cases, add64, add64-eq, subst,
}
use akavefs.BTree.{BTree}
use akavefs.Ranges.{Range, merge_ra}
use akavefs.Loading.Clipped.{StartsPast}
use akavefs.Ranges.Covers.{Covers, IsAscending, IsAscending-mono, HasRoom}
use akavefs.Ranges.Split.{IsAtMost}
use akavefs.BufferList.{FileBuffer, BufferList}
use akavefs.BufferList.Edit.{buf_end}
use akavefs.BufferList.Read.{last_hole, get_holes_from, get_holes}
use akavefs.BufferList.Shape.{IsWellFormed, covering}
use akavefs.BufferList.Holes.{get_holes-Covers, get_holes-IsAscending}
use akavefs.Loading.{LoadFlags, Requests, request_ranges}
use akavefs.Loading.Requested.{ends-HasRoom, request_ranges-IsAsked}

get_holes_from-ends :
    (cur end : ℕ) (es : List (ℕ × FileBuffer))
    → All (λ r. r.end ≤ end) (get_holes_from cur end es).holes
unfolding get_holes_from last_hole
get_holes_from-ends cur end [] = elim (Bool-cases (ltb cur end)) [
  | inl some_byte ↦ rw (get_holes_from, some_byte) (omega arith, tt)
  | inr nothing ↦ rw (get_holes_from, nothing) tt
]
get_holes_from-ends cur end ((key, b) ∷ es) =
    let rest = get_holes_from-ends (buf_end b) end es in
    elim (Bool-cases (leb end b.offset)) [
      | inl over ↦ elim (Bool-cases (ltb cur end)) [
        | inl some_byte ↦ rw (get_holes_from, over, some_byte) (omega arith, tt)
        | inr nothing ↦ rw (get_holes_from, over, nothing) tt
      ]
      | inr more ↦ elim (Bool-cases (ltb cur b.offset)) [
        | inl gap ↦ rw (get_holes_from, more, gap) (ground arith, rest)
        | inr met ↦ rw (get_holes_from, more, met) rest
      ]
    ]

module _ ⦃bt : BTree⦄ (l : BufferList) (w : IsWellFormed l) (offset size : ℕ) (some_byte : 0 < size)
    (flags : LoadFlags) (known read_ahead : ℕ)
    (room : offset + size + (read_ahead + flags.read_merge_kb * 1024) < word)
    (some_part : 0 < flags.read_ahead_parallel_kb)
    (part_fits : known + flags.read_ahead_parallel_kb * 1024 < word) where
  -- No buffer holds the offset.
  abbrev pub IsMissing : ℕ → Type 0
  IsMissing x = (offset ≤ x) × (x < offset + size) × (covering x (bt.ascend l.at 0) ≡ none)

  fits : offset + size < word
  fits = omega arith

  get_holes-HasRoom :
      HasRoom (read_ahead + flags.read_merge_kb * 1024) (get_holes l offset size).holes
  unfolding get_holes
  get_holes-HasRoom =
      let ends = get_holes_from-ends offset (offset + size) (bt.ascend l.at (add64 offset 1)) in
      ends-HasRoom (offset + size) (read_ahead + flags.read_merge_kb * 1024)
        (get_holes l offset size).holes room
        (subst
          (λ e.
            All (λ r. r.end ≤ offset + size)
              (get_holes_from offset e (bt.ascend l.at (add64 offset 1))).holes)
          (sym (add64-eq offset size fits)) ends)

  -- What the holes of a range lead to.
  request_holes :
      (rr : List Range)
      → (get_holes l offset size).holes ≡ rr
      → ((x : ℕ) → IsMissing x → ⊥)
        ⊎ ((request_ranges flags known rr read_ahead ≡ some Requests.out_of_range)
              × StartsPast known (merge_ra rr read_ahead (flags.read_merge_kb * 1024))
            ⊎ ((out : List Range) × (request_ranges flags known rr read_ahead
                  ≡ some (Requests.requests out))
                × ((x : ℕ) → x < known → IsMissing x → Covers x out)
                × ((x : ℕ) → Covers x out → x < known)
                × All (IsAtMost (flags.read_ahead_parallel_kb * 1024)) out))
  request_holes [] e =
      inl (λ x m. subst (Covers x) e ((get_holes-Covers l w offset size some_byte fits x).1 m))
  request_holes (r ∷ rr) e =
      let asc = subst (IsAscending 0) e (
        IsAscending-mono 0 offset (get_holes l offset size).holes (omega arith)
          (get_holes-IsAscending l w offset size some_byte fits)) in
      let rooms = subst (HasRoom (read_ahead + flags.read_merge_kb * 1024)) e get_holes-HasRoom in
      elim (request_ranges-IsAsked flags known read_ahead (omega arith) some_part part_fits r rr asc
        rooms) [
          | inl past ↦ inr (inl past)
          | inr (out, run, asked) ↦ inr (
              inr (
                out,
                run,
                λ x h m.
                    asked.covers x h (
                      subst (Covers x) e ((get_holes-Covers l w offset size some_byte fits x).1 m)),
                asked.within,
                asked.limited,
              ))
        ]

  -- For the holes that `GetHoles` finds in a well-formed list, in a range that is not empty, with a
  -- request size that is not 0 and room below 2 ^ 64 for the read-ahead and the merge distance after the
  -- range and for a request after the known size: either no byte of the range is missing, or `loadFromServer` refuses with ERANGE, since the last of the merged holes starts
  -- past the known size, or it requests every byte of the range that no buffer holds and that is below
  -- the known size of the object, nothing past that size, and no more than the configured size at once.
  pub request_ranges-get_holes :
      ((x : ℕ) → IsMissing x → ⊥)
      ⊎ ((request_ranges flags known (get_holes l offset size).holes read_ahead
              ≡ some Requests.out_of_range)
            × StartsPast known
                (merge_ra (get_holes l offset size).holes read_ahead (flags.read_merge_kb * 1024))
          ⊎ ((out : List Range) × (request_ranges flags known
                  (get_holes l offset size).holes
                  read_ahead
                ≡ some (Requests.requests out))
              × ((x : ℕ) → x < known → IsMissing x → Covers x out)
              × ((x : ℕ) → Covers x out → x < known)
              × All (IsAtMost (flags.read_ahead_parallel_kb * 1024)) out))
  request_ranges-get_holes = request_holes (get_holes l offset size).holes refl
