-- ===== src/Ranges/Merged.antt =====
-- core/buffer_list.go: the results of `mergeRA` do not overlap.
use akavefs.Prelude.{
  ℕ, ◌+◌, ◌≤◌, ◌<◌, ◌≡◌, refl, inl, inr, List, [], ◌∷◌, arith, word, leb, Bool-cases, add64,
}
use akavefs.Ranges.{Range, extend, merge_ra_from, merge_ra, merge_gap}
use akavefs.Ranges.Covers.{IsAscending, HasRoom, HasRoom-mono}
use akavefs.Ranges.Merge.{extend-end, merge_gap-le}

merge_ra_from-IsAscending :
    (ra gap : ℕ) (prev : Range) (lo e : ℕ) (rr : List Range)
    → lo ≤ prev.start
    → prev.start ≤ prev.end
    → prev.start ≤ e
    → prev.end + gap < word
    → IsAscending e rr
    → HasRoom (ra + gap) rr
    → IsAscending lo (merge_ra_from ra gap prev rr)
unfolding merge_ra_from
merge_ra_from-IsAscending ra gap prev lo e [] h some_end le room asc rooms = (h, some_end, tt)
merge_ra_from-IsAscending ra gap prev lo e (r ∷ rr) h some_end le room asc rooms =
    elim (Bool-cases (leb r.start (add64 prev.end gap))) [
      | inl near ↦
          rw (near, IsAscending)
            (merge_ra_from-IsAscending ra gap (record prev { end = r.end }) lo r.end rr h
              (omega arith) (omega arith) (omega arith) asc.2 rooms.1)
      | inr far ↦
          rw (far, IsAscending)
            (let end = extend-end ra r asc.1 (omega arith) in
              (
                h,
                some_end,
                merge_ra_from-IsAscending ra gap (extend ra r) prev.end r.end rr (ground arith)
                    (omega arith) asc.1 (omega arith) asc.2 rooms.1,
              ))
    ]

pub merge_ra-IsAscending :
    (rr : List Range) (read_ahead read_merge : ℕ)
    → IsAscending 0 rr
    → HasRoom (read_ahead + read_merge) rr
    → read_merge < word
    → IsAscending 0 (merge_ra rr read_ahead read_merge)
unfolding merge_ra
merge_ra-IsAscending [] ra rm asc rooms h = tt
merge_ra-IsAscending (r ∷ rr) ra rm asc rooms h =
    let gap = merge_gap-le ra rm h in
    let end = extend-end ra r asc.1 (omega arith) in
    merge_ra_from-IsAscending ra (merge_gap ra rm) (extend ra r) 0 r.end rr (omega arith)
      (omega arith) asc.1 (omega arith) asc.2
      (HasRoom-mono (ra + rm) (ra + merge_gap ra rm) rr (omega arith) rooms.1)

merge_ra_from-cons :
    (ra gap : ℕ) (prev : Range) (rr : List Range)
    → (m : Range) × (ms : List Range) × (merge_ra_from ra gap prev rr ≡ m ∷ ms)
unfolding merge_ra_from
merge_ra_from-cons ra gap prev [] = (prev, [], refl)
merge_ra_from-cons ra gap prev (r ∷ rr) = elim (Bool-cases (leb r.start (add64 prev.end gap))) [
  | inl near ↦
      let (m, ms, e) = merge_ra_from-cons ra gap (record prev { end = r.end }) rr in
      (m, ms, rw (merge_ra_from, near) e)
  | inr far ↦ (prev, merge_ra_from ra gap (extend ra r) rr, rw (merge_ra_from, far))
]

pub merge_ra-cons :
    (r : Range) (rr : List Range) (read_ahead read_merge : ℕ)
    → (m : Range) × (ms : List Range) × (merge_ra (r ∷ rr) read_ahead read_merge ≡ m ∷ ms)
unfolding merge_ra
merge_ra-cons r rr ra rm = merge_ra_from-cons ra (merge_gap ra rm) (extend ra r) rr
