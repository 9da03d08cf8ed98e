-- ===== src/BufferList/Cells.antt =====
-- core/buffer_list.go: what the buffers of two lists have at an offset, and what `RemoveRange` leaves
-- of it.
use akavefs.Prelude.{
  ℕ, ◌≤◌, ◌<◌, ◌≡◌, ◌∙◌, refl, ap, sym, Bool, false, ◌&&◌, inl, inr, Option, none, some, List, [],
  ◌∷◌, ◌++◌, arith, Bool-cases, Option-cases, ltb, leb, if◌then◌else◌,
}
use akavefs.BufferList.{BufferState, FileBuffer}
use akavefs.BufferList.Shape.{covering}
use akavefs.BufferList.Outcomes.{covering-head, covering-tail}
use akavefs.BufferList.Places.{
  ChainTo, Cell, cell_of, cell_from, cell_at, covering-none, ChainTo-le,
}

-- The first of two that there is.
abbrev pub or_else : Option Cell → Option Cell → Option Cell
or_else none d = d
or_else (some c) d = some c

pub or_else-none : (c : Option Cell) → or_else c none ≡ c
or_else-none none = refl
or_else-none (some c) = refl

pub or_else_assoc : (a b c : Option Cell) → or_else (or_else a b) c ≡ or_else a (or_else b c)
or_else_assoc none b c = refl
or_else_assoc (some a) b c = refl

-- A buffer alone, where it is, before it and after it.
pub cell_at-here :
    (key x : ℕ) (b : FileBuffer) (es : List (ℕ × FileBuffer))
    → b.offset ≤ x
    → x < key
    → cell_at ((key, b) ∷ es) x ≡ some (cell_of x b)
cell_at-here key x b es lo hi = ap (cell_from x) (covering-head key x b es lo hi)

pub cell_at-before :
    (key x : ℕ) (b : FileBuffer) (es : List (ℕ × FileBuffer))
    → x < b.offset
    → x < key
    → cell_at ((key, b) ∷ es) x ≡ none
cell_at-before key x b es lo hi =
    let gone : covering x ((key, b) ∷ es) ≡ none = ground (arith, lo, hi) in ap (cell_from x) gone

pub cell_at-later :
    (key x : ℕ) (b : FileBuffer) (es : List (ℕ × FileBuffer))
    → key ≤ x
    → cell_at ((key, b) ∷ es) x ≡ cell_at es x
cell_at-later key x b es le = ap (cell_from x) (covering-tail key x b es le)

pub cell_at-none :
    (lo hi x : ℕ) (es : List (ℕ × FileBuffer)) → ChainTo lo es hi → x < lo → cell_at es x ≡ none
cell_at-none lo hi x es c lt = ap (cell_from x) (covering-none lo hi x es c lt)

-- Nothing is past the end of a list.
pub cell_at-beyond :
    (lo hi x : ℕ) (es : List (ℕ × FileBuffer)) → ChainTo lo es hi → hi ≤ x → cell_at es x ≡ none
cell_at-beyond lo hi x [] c le = refl
cell_at-beyond lo hi x ((key, b) ∷ es) c le =
    let last = ChainTo-le key hi es (c.2) in
    cell_at-later key x b es (omega arith) ∙ cell_at-beyond key hi x es (c.2) le

pub cell_at-append :
    (lo mid hi x : ℕ) (pre bs : List (ℕ × FileBuffer))
    → ChainTo lo pre mid
    → ChainTo mid bs hi
    → cell_at (pre ++ bs) x ≡ or_else (cell_at pre x) (cell_at bs x)
cell_at-append lo mid hi x [] bs c d = refl
cell_at-append lo mid hi x ((j, w) ∷ pre) bs c d =
    let rest = cell_at-append j mid hi x pre bs (c.2) d in
    let le = ChainTo-le j mid pre (c.2) in
    elim (Bool-cases (ltb x j)) [
      | inl here ↦ elim (Bool-cases (leb w.offset x)) [
        | inl inside ↦
            let lo' : w.offset ≤ x = ground (arith, inside) in
            let hi' : x < j = ground (arith, here) in
            cell_at-here j x w (pre ++ bs) lo' hi'
            ∙ ap (λ k. or_else k (cell_at bs x)) (sym (cell_at-here j x w pre lo' hi'))
        | inr apart ↦
            let lo' : x < w.offset = ground (arith, apart) in
            let hi' : x < j = ground (arith, here) in
            cell_at-before j x w (pre ++ bs) lo' hi'
            ∙ sym (cell_at-none mid hi x bs d (omega arith))
            ∙ ap (λ k. or_else k (cell_at bs x)) (sym (cell_at-before j x w pre lo' hi'))
      ]
      | inr later ↦
          let le' : j ≤ x = ground (arith, later) in
          cell_at-later j x w (pre ++ bs) le'
          ∙ rest
          ∙ ap (λ k. or_else k (cell_at bs x)) (sym (cell_at-later j x w pre le'))
    ]

-- What is left of a cell: nothing, if it is in the range and its buffer is picked.
abbrev pub cut : (BufferState → Bool) → ℕ → ℕ → ℕ → Option Cell → Option Cell
cut pick lo hi x none = none
cut pick lo hi x (some c) = if leb lo x && ltb x hi && pick c.cell_state then none else some c

pub cut-outside :
    (pick : BufferState → Bool) (lo hi x : ℕ) (c : Option Cell) → hi ≤ x → cut pick lo hi x c ≡ c
cut-outside pick lo hi x none le = refl
cut-outside pick lo hi x (some c) le = ground arith

pub cut-before :
    (pick : BufferState → Bool) (lo hi x : ℕ) (c : Option Cell) → x < lo → cut pick lo hi x c ≡ c
cut-before pick lo hi x none lt = refl
cut-before pick lo hi x (some c) lt = ground arith

-- A range does not reach the buffers after it.
pub cut-after :
    (pick : BufferState → Bool) (lo hi mid top x : ℕ) (es : List (ℕ × FileBuffer))
    → ChainTo mid es top
    → hi ≤ mid
    → cut pick lo hi x (cell_at es x) ≡ cell_at es x
cut-after pick lo hi mid top x es c le = elim (Bool-cases (ltb x hi)) [
  | inl inside ↦
      let gone = cell_at-none mid top x es c (ground (arith, inside, le)) in
      ap (cut pick lo hi x) gone ∙ sym gone
  | inr outside ↦ cut-outside pick lo hi x _ (ground (arith, outside))
]

-- The cells of a buffer and of those after it are cut apart.
pub cut-cons :
    (pick : BufferState → Bool) (lo hi key top x : ℕ) (b : FileBuffer) (es : List (ℕ × FileBuffer))
    → ChainTo key es top
    → cut pick lo hi x (cell_at ((key, b) ∷ es) x)
      ≡ or_else (cut pick lo hi x (cell_at ((key, b) ∷ []) x)) (cut pick lo hi x (cell_at es x))
cut-cons pick lo hi key top x b es c = elim (Bool-cases (ltb x key)) [
  | inl inside ↦
      let lt : x < key = ground (arith, inside) in
      let same : covering x ((key, b) ∷ es) ≡ covering x ((key, b) ∷ []) = ground (arith, lt) in
      ap (λ k. cut pick lo hi x (cell_from x k)) same
      ∙ sym (or_else-none _)
      ∙ ap (λ k. or_else (cut pick lo hi x (cell_at ((key, b) ∷ []) x)) (cut pick lo hi x k))
          (sym (cell_at-none key top x es c lt))
  | inr later ↦
      let le : key ≤ x = ground (arith, later) in
      ap (cut pick lo hi x) (cell_at-later key x b es le)
      ∙ ap (λ k. or_else (cut pick lo hi x k) (cut pick lo hi x (cell_at es x)))
          (sym (cell_at-later key x b [] le))
]

-- A buffer that is not picked stays.
pub cut-other :
    (pick : BufferState → Bool) (lo hi key x : ℕ) (b : FileBuffer)
    → pick b.state ≡ false
    → cut pick lo hi x (cell_at ((key, b) ∷ []) x) ≡ cell_at ((key, b) ∷ []) x
cut-other pick lo hi key x b e = elim (Option-cases (covering x ((key, b) ∷ []))) [
  | inl f ↦ ap (λ k. cut pick lo hi x (cell_from x k)) f ∙ sym (ap (cell_from x) f)
  | inr (w, f) ↦
      let same : b ≡ w = ground (arith, f) in
      let e' : pick w.state ≡ false = ap (λ k. pick k.state) (sym same) ∙ e in
      let kept : cut pick lo hi x (some (cell_of x w)) ≡ some (cell_of x w) = ground (arith, e') in
      ap (λ k. cut pick lo hi x (cell_from x k)) f ∙ kept ∙ sym (ap (cell_from x) f)
]

-- A range does not reach the buffers before it.
pub cut-append :
    (pick : BufferState → Bool) (lo hi mid top x : ℕ) (pre es : List (ℕ × FileBuffer))
    → ChainTo 0 pre mid
    → ChainTo mid es top
    → mid ≤ lo
    → or_else (cell_at pre x) (cut pick lo hi x (cell_at es x))
      ≡ cut pick lo hi x (cell_at (pre ++ es) x)
cut-append pick lo hi mid top x pre es c d le = elim (Bool-cases (ltb x lo)) [
  | inl e ↦
      let lt : x < lo = ground (arith, e) in
      ap (or_else (cell_at pre x)) (cut-before pick lo hi x (cell_at es x) lt)
      ∙ sym (cell_at-append 0 mid top x pre es c d)
      ∙ sym (cut-before pick lo hi x _ lt)
  | inr e ↦
      let ge : lo ≤ x = ground (arith, e) in
      let gone = cell_at-beyond 0 mid x pre c (omega arith) in
      ap (λ k. or_else k (cut pick lo hi x (cell_at es x))) gone
      ∙ ap (cut pick lo hi x)
          (sym (cell_at-append 0 mid top x pre es c d ∙ ap (λ k. or_else k (cell_at es x)) gone))
]
