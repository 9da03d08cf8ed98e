-- ===== src/Ranges/Split.antt =====
-- core/buffer_list.go: `splitRA` cuts large requests and asks for the same offsets.
use mathlib.Core.List.{append-nil, append_assoc}
use akavefs.Prelude.{
  ℕ, zero, suc, ◌+◌, ◌-◌, ◌≤◌, ◌<◌, ◌≡◌, ap, ◌∙◌, ◌↔◌, inl, inr, some, List, [], ◌∷◌, ◌++◌, All,
  arith, word, ltb, true, false, Bool-cases, ltb→lt, ltb→le, sub64-eq, add64, sub64, if◌then◌else◌,
}
use akavefs.Ranges.{Range, pieces, set_last_end, split_ra_from, split_ra}
use akavefs.Ranges.Covers.{
  In, Covers, IsAscending, HasRoom, Covers-append, Covers-append_left, Covers-append_right,
}

-- What the inner loop leaves of the range from `off` to `end`, its last piece cut at `end`.
chop : ℕ → ℕ → ℕ → ℕ → List Range
chop zero off end max_part = []
chop (suc fuel) off end max_part =
    let rest = chop fuel (off + max_part) end max_part in
    if ltb (off + max_part) end
    then record { start = off; end = off + max_part } ∷ rest
    else record { start = off; end = end } ∷ []

set_last_end-append :
    (rr ss : List Range) (r : Range) (end : ℕ) (out : List Range)
    → set_last_end (r ∷ ss) end ≡ some out
    → set_last_end (rr ++ r ∷ ss) end ≡ some (rr ++ out)
unfolding set_last_end
set_last_end-append [] ss r end out e = e
set_last_end-append (q ∷ []) ss r end out e = ground arith
set_last_end-append (q ∷ p ∷ rr) ss r end out e =
    ground (arith, set_last_end-append (p ∷ rr) ss r end out e)

pieces-chop :
    (fuel off end max_part : ℕ)
    → 0 < max_part
    → off < end
    → end ≤ off + fuel
    → end + max_part < word
    → set_last_end (pieces fuel off end max_part) end ≡ some (chop fuel off end max_part)
unfolding pieces set_last_end chop
pieces-chop zero off end m pos lt enough room = absurd (omega arith)
pieces-chop (suc zero) off end m pos lt enough room = ground arith
pieces-chop (suc (suc fuel)) off end m pos lt enough room =
    ground (arith, pieces-chop (suc fuel) (off + m) end m)

chop-Covers :
    (fuel off end max_part x : ℕ)
    → 0 < max_part
    → off < end
    → end ≤ off + fuel
    → Covers x (chop fuel off end max_part) ↔ ((off ≤ x) × (x < end))
unfolding chop
chop-Covers zero off end m x pos lt enough = absurd (omega arith)
chop-Covers (suc fuel) off end m x pos lt enough = elim (Bool-cases (ltb (off + m) end)) [
  | inl more ↦
      let rest = chop-Covers fuel (off + m) end m x pos (ltb→lt _ _ more) (omega arith) in
      let cut = ltb→lt _ _ more in
      rw (more, Covers)
        (
          (λ c. elim c [
            | inl h ↦ (h.0, omega arith)
            | inr d ↦ (omega (arith, (rest.0 d).0), (rest.0 d).1)
          ]),
          (λ h. elim (Bool-cases (ltb x (off + m))) [
            | inl near ↦ inl (h.0, ltb→lt _ _ near)
            | inr far ↦ inr (rest.1 (ltb→le _ _ far, h.1))
          ]),
        )
  | inr last ↦ rw (last, Covers) ((λ c. elim c [ inl h ↦ h | inr d ↦ absurd d ]), λ h. inl h)
]

abbrev pub IsAtMost : ℕ → Range → Type 0
IsAtMost n r = (r.start ≤ r.end) × (r.end ≤ r.start + n)

chop-IsAtMost :
    (fuel off end max_part : ℕ)
    → 0 < max_part
    → off < end
    → end ≤ off + fuel
    → All (IsAtMost max_part) (chop fuel off end max_part)
unfolding chop
chop-IsAtMost zero off end m pos lt enough = tt
chop-IsAtMost (suc fuel) off end m pos lt enough = elim (Bool-cases (ltb (off + m) end)) [
  | inl more ↦
      let cut = ltb→lt (off + m) end more in
      rw (more, All)
        ((omega arith, omega arith), chop-IsAtMost fuel (off + m) end m pos cut (omega arith))
  | inr last ↦
      let cut = ltb→le (off + m) end last in rw (last, All) ((omega arith, omega arith), tt)
]

-- One range of the input, whole or in pieces.
split_one : ℕ → Range → List Range
split_one max_part r =
    if ltb max_part (r.end - r.start) then chop (r.end - r.start) r.start r.end max_part else r ∷ []

split_all : ℕ → List Range → List Range
split_all max_part [] = []
split_all max_part (r ∷ rr) = split_one max_part r ++ split_all max_part rr

pieces-starts :
    (size : ℕ) (r : Range) (max_part : ℕ)
    → 0 < size
    → r.start < r.end
    → (ss : List Range) × (p : Range) × (pieces size r.start r.end max_part ≡ p ∷ ss)
unfolding pieces
pieces-starts zero r m pos h = absurd (omega arith)
pieces-starts (suc size) r m pos h = (
  pieces size (add64 r.start m) r.end m,
  record { start = r.start; end = add64 r.start m },
  ground arith,
)

split_ra_from-long :
    (res : List Range) (r : Range) (rr : List Range) (max_part : ℕ)
    → 0 < max_part
    → r.start ≤ r.end
    → r.end + max_part < word
    → ltb max_part (r.end - r.start) ≡ true
    → split_ra_from res (r ∷ rr) max_part
      ≡ split_ra_from (res ++ chop (r.end - r.start) r.start r.end max_part) rr max_part
unfolding split_ra_from
split_ra_from-long res r rr m pos le room long =
    let more = ltb→lt _ _ long in
    let size : sub64 r.end r.start ≡ r.end - r.start = sub64-eq r.end r.start le (omega arith) in
    let cut = pieces-chop (r.end - r.start) r.start r.end m pos (omega arith) (omega arith) room in
    let (ss, p, e) = pieces-starts (r.end - r.start) r m (omega arith) (omega arith) in
    rw (
      split_ra_from,
      size,
      long,
      size,
      e,
      set_last_end-append res ss p r.end (chop (r.end - r.start) r.start r.end m) (rw e at cut),
    )

split_ra_from-short :
    (res : List Range) (r : Range) (rr : List Range) (max_part : ℕ)
    → r.start ≤ r.end
    → r.end + max_part < word
    → ltb max_part (r.end - r.start) ≡ false
    → split_ra_from res (r ∷ rr) max_part ≡ split_ra_from (res ++ r ∷ []) rr max_part
unfolding split_ra_from
split_ra_from-short res r rr m le room short =
    let size : sub64 r.end r.start ≡ r.end - r.start = sub64-eq r.end r.start le (omega arith) in
    rw (split_ra_from, size, short)

-- The result of the loop, which is never a panic.
split_ra_from-split_all :
    (res rr : List Range) (lo max_part : ℕ)
    → 0 < max_part
    → IsAscending lo rr
    → HasRoom max_part rr
    → split_ra_from res rr max_part ≡ some (res ++ split_all max_part rr)
unfolding split_all split_one
split_ra_from-split_all res [] lo m pos asc rooms = unfold split_ra_from in rw (append-nil res)
split_ra_from-split_all res (r ∷ rr) lo m pos asc rooms =
    elim (Bool-cases (ltb m (r.end - r.start))) [
      | inl long ↦ rw long (
          split_ra_from-long res r rr m pos asc.1 rooms.0 long
          ∙ split_ra_from-split_all (res ++ chop (r.end - r.start) r.start r.end m) rr r.end m pos
              asc.2 rooms.1
          ∙ ap some (append_assoc res _ (split_all m rr)))
      | inr short ↦ rw short (
          split_ra_from-short res r rr m asc.1 rooms.0 short
          ∙ split_ra_from-split_all (res ++ r ∷ []) rr r.end m pos asc.2 rooms.1
          ∙ ap some (append_assoc res _ (split_all m rr)))
    ]

split_one-Covers :
    (max_part : ℕ) (r : Range) (x : ℕ) → 0 < max_part → Covers x (split_one max_part r) ↔ In x r
unfolding split_one
split_one-Covers m r x pos = elim (Bool-cases (ltb m (r.end - r.start))) [
  | inl long ↦
      let more = ltb→lt _ _ long in
      rw long (chop-Covers (r.end - r.start) r.start r.end m x pos (omega arith) (omega arith))
  | inr short ↦ rw short ((λ c. elim c [ inl h ↦ h | inr d ↦ absurd d ]), λ h. inl h)
]

split_all-Covers :
    (max_part : ℕ) (rr : List Range) (x : ℕ)
    → 0 < max_part
    → Covers x (split_all max_part rr) ↔ Covers x rr
unfolding split_all
split_all-Covers m [] x pos = ((λ h. h), λ h. h)
split_all-Covers m (r ∷ rr) x pos = (
  (λ c. elim (Covers-append x (split_one m r) (split_all m rr) c) [
    | inl a ↦ inl ((split_one-Covers m r x pos).0 a)
    | inr b ↦ inr ((split_all-Covers m rr x pos).0 b)
  ]),
  (λ c. elim c [
    | inl a ↦
        Covers-append_left x (split_one m r) (split_all m rr) ((split_one-Covers m r x pos).1 a)
    | inr b ↦
        Covers-append_right x (split_one m r) (split_all m rr) ((split_all-Covers m rr x pos).1 b)
  ]),
)

All-append {ℓ κ} :
    {A : Type ℓ} (P : A → Type κ) (xs ys : List A) → All P xs → All P ys → All P (xs ++ ys)
All-append P [] ys h k = k
All-append P (x ∷ xs) ys h k = (h.0, All-append P xs ys h.1 k)

split_all-IsAtMost :
    (max_part lo : ℕ) (rr : List Range)
    → 0 < max_part
    → IsAscending lo rr
    → All (IsAtMost max_part) (split_all max_part rr)
unfolding split_all split_one
split_all-IsAtMost m lo [] pos asc = tt
split_all-IsAtMost m lo (r ∷ rr) pos asc =
    All-append (IsAtMost m) (split_one m r) (split_all m rr)
      (elim (Bool-cases (ltb m (r.end - r.start))) [
        | inl long ↦
            let more = ltb→lt _ _ long in
            rw long
              (chop-IsAtMost (r.end - r.start) r.start r.end m pos (omega arith) (omega arith))
        | inr short ↦ let less = ltb→le _ _ short in rw short ((asc.1, omega arith), tt)
      ])
      (split_all-IsAtMost m r.end rr pos asc.2)

-- For ascending ranges with room for a part below 2 ^ 64, and a part size that is not 0: there is no
-- panic, each resulting range has at most `max_part` bytes, and an offset is in one of them exactly
-- when it is in one of the given ranges.
pub split_ra-Covers :
    (rr : List Range) (max_part : ℕ)
    → 0 < max_part
    → IsAscending 0 rr
    → HasRoom max_part rr
    → (out : List Range) × (split_ra rr max_part ≡ some out)
      × All (IsAtMost max_part) out
      × ((x : ℕ) → Covers x out ↔ Covers x rr)
unfolding split_ra
split_ra-Covers rr m pos asc rooms = (
  split_all m rr,
  split_ra_from-split_all [] rr 0 m pos asc rooms,
  split_all-IsAtMost m 0 rr pos asc,
  λ x. split_all-Covers m rr x pos,
)
