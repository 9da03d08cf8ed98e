-- ===== src/BufferList/Holes.antt =====
-- core/buffer_list.go: `GetHoles` finds what no buffer covers.
use akavefs.Prelude.{
  ℕ, ◌+◌, ◌≤◌, ◌<◌, ◌≡◌, refl, ◌⊎◌, ◌↔◌, inl, inr, none, List, [], ◌∷◌, arith, word, ltb, leb,
  Bool-cases, ltb→lt, ltb→le, leb→le, leb→lt, add64, add64-eq, sym, ◌∙◌,
}
use akavefs.BTree.{BTree, from}
use akavefs.Ranges.Covers.{Covers, IsAscending, IsAscending-mono}
use akavefs.BufferList.{FileBuffer, BufferList}
use akavefs.BufferList.Read.{last_hole, get_holes_from, get_holes, min64}
use akavefs.BufferList.Shape.{
  IsBuffer, Chain, IsWellFormed, covering, buf_end-eq, covering-from, Chain-from, covering-before,
}

-- What `GetHoles` finds from `cur` on.
abbrev IsHole : ℕ → ℕ → List (ℕ × FileBuffer) → ℕ → Type 0
IsHole cur end es x = (cur ≤ x) × (x < end) × (covering x es ≡ none)

abbrev pub IsPast : ℕ → List (ℕ × FileBuffer) → Type 0
IsPast cur [] = Unit {0}
IsPast cur ((key, b) ∷ es) = cur < key

pub Chain-IsPast : (key : ℕ) (es : List (ℕ × FileBuffer)) → Chain key es → IsPast key es
Chain-IsPast key [] c = tt
Chain-IsPast key ((k, b) ∷ es) c = let v = c.0 in omega arith

pub from-IsPast : (cur : ℕ) (es : List (ℕ × FileBuffer)) → IsPast cur (from (cur + 1) es)
from-IsPast cur [] = tt
from-IsPast cur ((key, b) ∷ es) = elim (Bool-cases (leb (cur + 1) key)) [
  | inl stay ↦ let h = leb→le (cur + 1) key stay in rw (stay, IsPast) (omega arith)
  | inr drop ↦ rw (drop, IsPast) (from-IsPast cur es)
]

last_hole-Covers : (cur end x : ℕ) → Covers x (last_hole cur end).holes ↔ ((cur ≤ x) × (x < end))
unfolding last_hole
last_hole-Covers cur end x = elim (Bool-cases (ltb cur end)) [
  | inl more ↦ rw (more, Covers) ((λ c. elim c [ inl h ↦ h | inr d ↦ absurd d ]), λ h. inl h)
  | inr empty ↦
      let over = ltb→le cur end empty in rw (empty, Covers) ((λ c. absurd c), λ h. omega arith)
]

-- A hole from `cur` on is before the first buffer, or among those behind it.
IsHole-cons :
    (cur end key x : ℕ) (b : FileBuffer) (es : List (ℕ × FileBuffer))
    → IsBuffer key b
    → Chain key es
    → cur < key
    → b.offset < end
    → IsHole cur end ((key, b) ∷ es) x ↔ (((cur ≤ x) × (x < b.offset)) ⊎ IsHole key end es x)
IsHole-cons cur end key x b es v c past more = (
  (λ h.
      let e = h.2 in
      elim (Bool-cases (ltb x key)) [
        | inl near ↦ inl (h.0, ground arith)
        | inr far ↦ inr (ltb→le x key far, h.1, ground arith)
      ]),
  λ d. elim d [
    | inl h ↦ let nonempty = v.nonempty in let ends = v.ends in (h.0, omega arith, ground arith)
    | inr h ↦ let e = h.2 in (omega arith, h.1, ground arith)
  ],
)

get_holes_from-Covers :
    (cur end lo x : ℕ) (es : List (ℕ × FileBuffer))
    → Chain lo es
    → IsPast cur es
    → Covers x (get_holes_from cur end es).holes ↔ IsHole cur end es x
unfolding get_holes_from
get_holes_from-Covers cur end lo x [] c f =
    let last = last_hole-Covers cur end x in
    ((λ h. ((last.0 h).0, (last.0 h).1, refl)), λ h. last.1 (h.0, h.1))
get_holes_from-Covers cur end lo x ((key, b) ∷ es) c f =
    let v = c.0 in
    let last = last_hole-Covers cur end x in
    let rest = get_holes_from-Covers key end key x es c.2 (Chain-IsPast key es c.2) in
    let k = buf_end-eq key b v in
    let hole = IsHole-cons cur end key x b es v c.2 f in
    elim (Bool-cases (leb end b.offset)) [
      | inl over ↦
          let h = leb→le end b.offset over in
          let behind : x < end → x < b.offset = λ p. omega arith in
          let unfit : x < end → covering x ((key, b) ∷ es) ≡ none =
            λ p. covering-before x b.offset ((key, b) ∷ es) (c.0, omega arith, c.2) (behind p) in
          rw (over, Covers)
            ((λ h. ((last.0 h).0, (last.0 h).1, unfit (last.0 h).1)), λ h. last.1 (h.0, h.1))
      | inr more ↦
          let inside = leb→lt end b.offset more in
          let m : min64 end b.offset ≡ b.offset = ground arith in
          elim (Bool-cases (ltb cur b.offset)) [
            | inl gap ↦
                rw (more, gap, k, m, Covers)
                  (
                    (λ d. (hole inside).1 (elim d [ inl i ↦ inl i | inr r ↦ inr (rest.0 r) ])),
                    λ i. elim ((hole inside).0 i) [ inl g ↦ inl g | inr r ↦ inr (rest.1 r) ],
                  )
            | inr met ↦
                let no_gap = ltb→le cur b.offset met in
                rw (more, met, k, Covers)
                  (
                    (λ d. (hole inside).1 (inr (rest.0 d))),
                    λ i. elim ((hole inside).0 i) [
                      | inl g ↦ absurd (omega arith)
                      | inr r ↦ rest.1 r
                    ],
                  )
          ]
    ]

get_holes_from-IsAscending :
    (cur end lo : ℕ) (es : List (ℕ × FileBuffer))
    → Chain lo es
    → IsPast cur es
    → IsAscending cur (get_holes_from cur end es).holes
unfolding get_holes_from last_hole
get_holes_from-IsAscending cur end lo [] c f = ground arith
get_holes_from-IsAscending cur end lo ((key, b) ∷ es) c f =
    let v = c.0 in
    let rest =
      IsAscending-mono cur key _ (omega arith)
        (get_holes_from-IsAscending key end key es c.2 (Chain-IsPast key es c.2)) in
    let k = buf_end-eq key b v in
    elim (Bool-cases (leb end b.offset)) [
      | inl over ↦ rw (over, IsAscending) (ground arith)
      | inr more ↦
          let m : min64 end b.offset ≡ b.offset = ground arith in
          elim (Bool-cases (ltb cur b.offset)) [
            | inl gap ↦
                let here = ltb→lt cur b.offset gap in
                rw (more, gap, k, m, IsAscending)
                  (
                    omega arith,
                    omega arith,
                    IsAscending-mono b.offset key _ (omega arith)
                        (get_holes_from-IsAscending key end key es c.2 (Chain-IsPast key es c.2)),
                  )
            | inr met ↦ rw (more, met, k, IsAscending) rest
          ]
    ]

module _ ⦃bt : BTree⦄ (l : BufferList) (w : IsWellFormed l) (offset size : ℕ) (some_byte : 0 < size)
    (fits : offset + size < word) where
  pub entries-from : bt.ascend l.at (add64 offset 1) ≡ from (offset + 1) (bt.ascend l.at 0)
  entries-from = rw (add64-eq offset 1 (omega arith)) (bt.ascend-from l.at (offset + 1))

  -- `GetHoles` of a range that is not empty and ends below 2 ^ 64: an offset is in a hole exactly if
  -- it is in the range and no buffer covers it.
  pub get_holes-Covers :
      (x : ℕ)
      → Covers x (get_holes l offset size).holes
        ↔ ((offset ≤ x) × (x < offset + size) × (covering x (bt.ascend l.at 0) ≡ none))
  unfolding get_holes
  get_holes-Covers x =
      let es = bt.ascend l.at 0 in
      let main =
        get_holes_from-Covers offset (offset + size) 0 x (from (offset + 1) es)
          (Chain-from 0 (offset + 1) es w) (from-IsPast offset es) in
      rw (add64-eq offset size fits, entries-from)
        (
          (λ h.
              let m = main.0 h in
              (m.0, m.1, sym (covering-from x (offset + 1) es (omega arith)) ∙ m.2)),
          λ h. main.1 (h.0, h.1, covering-from x (offset + 1) es (omega arith) ∙ h.2),
        )

  -- The holes of `GetHoles` are in ascending order and do not overlap, which is what `mergeRA` and
  -- `splitRA` are given.
  pub get_holes-IsAscending : IsAscending offset (get_holes l offset size).holes
  unfolding get_holes
  get_holes-IsAscending =
      let es = bt.ascend l.at 0 in
      rw (add64-eq offset size fits, entries-from)
        (get_holes_from-IsAscending offset (offset + size) 0 (from (offset + 1) es)
          (Chain-from 0 (offset + 1) es w) (from-IsPast offset es))
