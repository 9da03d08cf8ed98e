-- ===== src/Ranges/Merge.antt =====
-- core/buffer_list.go: `mergeRA` asks for every range that it was given.
use akavefs.Prelude.{
  ℕ, ◌+◌, ◌≤◌, ◌<◌, ◌⊎◌, inl, inr, List, [], ◌∷◌, arith, word, leb, Bool-cases, add64,
}
use akavefs.Ranges.{Range, extend, merge_ra_from, merge_ra, merge_gap}
use akavefs.Ranges.Covers.{Covers, IsAscending, HasRoom, HasRoom-mono}

pub extend-end :
    (ra : ℕ) (r : Range)
    → r.start ≤ r.end
    → r.end + ra < word
    → r.end ≤ (extend ra r).end × ((extend ra r).end ≤ r.end + ra)
extend-end ra r h k = ground arith

-- What is asked for stays asked for; `e` is where the ranges merged into `prev` end, which may be
-- before `prev.end`.
merge_ra_from-Covers :
    (ra gap : ℕ) (prev : Range) (e : ℕ) (rr : List Range) (x : ℕ)
    → prev.start ≤ e
    → e ≤ prev.end
    → prev.end + gap < word
    → IsAscending e rr
    → HasRoom (ra + gap) rr
    → ((prev.start ≤ x) × (x < e)) ⊎ Covers x rr
    → Covers x (merge_ra_from ra gap prev rr)
unfolding merge_ra_from
merge_ra_from-Covers ra gap prev e [] x some le room asc rooms (inl h) = inl (h.0, omega arith)
merge_ra_from-Covers ra gap prev e [] x some le room asc rooms (inr h) = absurd h
merge_ra_from-Covers ra gap prev e (r ∷ rr) x some le room asc rooms c =
    elim (Bool-cases (leb r.start (add64 prev.end gap))) [
      | inl near ↦
          rw (near, Covers)
            (merge_ra_from-Covers ra gap (record prev { end = r.end }) r.end rr x (omega arith)
              (omega arith) (omega arith) asc.2 rooms.1
              (elim c [
                | inl h ↦ inl (h.0, omega arith)
                | inr d ↦ elim d [ inl h ↦ inl (omega arith, h.1) | inr h ↦ inr h ]
              ]))
      | inr far ↦
          rw (far, Covers)
            (let end = extend-end ra r asc.1 (omega arith) in
              elim c [
                | inl h ↦ inl (h.0, omega arith)
                | inr d ↦ inr (
                    merge_ra_from-Covers ra gap (extend ra r) r.end rr x asc.1 end.0 (omega arith)
                      asc.2 rooms.1 d)
              ])
    ]

pub merge_gap-le : (ra rm : ℕ) → rm < word → merge_gap ra rm ≤ rm
merge_gap-le ra rm h = ground arith

-- For ascending ranges which do not overlap, as `GetHoles` returns them, with room for a read-ahead
-- and a gap below 2 ^ 64: each offset in one of them is in one of the merged ranges.
pub merge_ra-Covers :
    (rr : List Range) (read_ahead read_merge x : ℕ)
    → IsAscending 0 rr
    → HasRoom (read_ahead + read_merge) rr
    → read_merge < word
    → Covers x rr
    → Covers x (merge_ra rr read_ahead read_merge)
unfolding merge_ra
merge_ra-Covers [] ra rm x asc rooms h c = c
merge_ra-Covers (r ∷ rr) ra rm x asc rooms h c =
    let gap = merge_gap-le ra rm h in
    let end = extend-end ra r asc.1 (omega arith) in
    merge_ra_from-Covers ra (merge_gap ra rm) (extend ra r) r.end rr x asc.1 end.0 (omega arith)
      asc.2 (HasRoom-mono (ra + rm) (ra + merge_gap ra rm) rr (omega arith) rooms.1) c
