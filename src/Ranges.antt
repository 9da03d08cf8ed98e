-- ===== src/Ranges.antt =====
-- core/buffer_list.go: `Range`, `mergeRA` and `splitRA`, which shape the read requests.
pub mod Covers
pub mod Merge
pub mod Merged
pub mod Split
use akavefs.Prelude.{
  ℕ, zero, suc, ◌+◌, ◌≤◌, ◌<◌, Bool, true, false, Option, none, some, List, [], ◌∷◌, ◌++◌, ltb, leb,
  if◌then◌else◌, add64, sub64,
}

pub record Range : Type 0 where
  pub start : ℕ
  pub end : ℕ

-- The new element of `mergeRA`: at least `read_ahead` bytes.
abbrev pub extend : ℕ → Range → Range
extend read_ahead r =
    let sz = sub64 r.end r.start in
    record r { end = add64 r.start (if ltb sz read_ahead then read_ahead else sz) }

-- The rounds of `mergeRA` after the first; `prev` is `rr[prev]`, and the results before it are final.
pub merge_ra_from : ℕ → ℕ → Range → List Range → List Range
merge_ra_from read_ahead read_merge prev [] = prev ∷ []
merge_ra_from read_ahead read_merge prev (r ∷ rr) = elim (leb r.start (add64 prev.end read_merge)) [
  | true ↦ merge_ra_from read_ahead read_merge (record prev { end = r.end }) rr
  | false ↦ prev ∷ merge_ra_from read_ahead read_merge (extend read_ahead r) rr
]

abbrev pub merge_gap : ℕ → ℕ → ℕ
merge_gap read_ahead read_merge =
    if leb read_ahead read_merge then sub64 read_merge read_ahead else 0

pub merge_ra : List Range → ℕ → ℕ → List Range
merge_ra [] read_ahead read_merge = []
merge_ra (r ∷ rr) read_ahead read_merge =
    merge_ra_from read_ahead (merge_gap read_ahead read_merge) (extend read_ahead r) rr

-- The inner loop of `splitRA`; the fuel is the size of the range.
pub pieces : ℕ → ℕ → ℕ → ℕ → List Range
pieces zero off end max_part = []
pieces (suc fuel) off end max_part =
    let rest = pieces fuel (add64 off max_part) end max_part in
    if ltb off end then record { start = off; end = add64 off max_part } ∷ rest else []

-- `res[len(res)-1].End = end`, which panics on no results.
pub set_last_end : List Range → ℕ → Option (List Range)
set_last_end [] end = none
set_last_end (r ∷ []) end = some (record r { end = end } ∷ [])
set_last_end (r ∷ s ∷ rr) end = elim (set_last_end (s ∷ rr) end) [
  | none ↦ none
  | some res ↦ some (r ∷ res)
]

-- The outer loop; `res` holds the results so far, and `none` is a panic.
pub split_ra_from : List Range → List Range → ℕ → Option (List Range)
split_ra_from res [] max_part = some res
split_ra_from res (r ∷ rr) max_part =
    let size = sub64 r.end r.start in
    elim (ltb max_part size) [
      | true ↦ elim (set_last_end (res ++ pieces size r.start r.end max_part) r.end) [
        | none ↦ none
        | some res' ↦ split_ra_from res' rr max_part
      ]
      | false ↦ split_ra_from (res ++ r ∷ []) rr max_part
    ]

pub split_ra : List Range → ℕ → Option (List Range)
unfolding split_ra_from
split_ra rr max_part = split_ra_from [] rr max_part
