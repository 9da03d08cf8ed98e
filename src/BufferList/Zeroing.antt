-- ===== src/BufferList/Zeroing.antt =====
-- core/buffer_list.go: a zero buffer in a gap of a list.
use akavefs.Prelude.{
  ℕ, ◌+◌, ◌≤◌, ◌<◌, ◌≡◌, ◌∙◌, refl, ap, sym, true, false, Option, none, some, List, ◌∷◌, ◌++◌,
  arith,
}
use akavefs.BufferList.{BufferState, FileBuffer}
use akavefs.BufferList.Shape.{IsBuffer}
use akavefs.BufferList.Places.{ChainTo, ChainTo-wider, Cell, cell_of, cell_at}
use akavefs.BufferList.Cells.{
  or_else, cell_at-here, cell_at-before, cell_at-later, cell_at-none, cell_at-beyond,
  cell_at-append, cut,
}
use akavefs.BufferList.Inserting.{Gap}

abbrev pub value_at : Option Cell → Option ℕ
value_at none = none
value_at (some c) = c.byte

-- The bytes of a range are zero, and the rest is as it was.
pub record IsZeroed (old new : List (ℕ × FileBuffer)) (offset size : ℕ) : Type 0 where
  pub inside : (x : ℕ) → offset ≤ x → x < offset + size → value_at (cell_at new x) ≡ some 0
  pub before : (x : ℕ) → x < offset → cell_at new x ≡ cell_at old x
  pub after : (x : ℕ) → offset + size ≤ x → cell_at new x ≡ cell_at old x

abbrev pub zero_buffer : ℕ → ℕ → ℕ → FileBuffer
zero_buffer offset size id = record {
  queue_id = 0;
  offset = offset;
  length = size;
  state = BufferState.dirty;
  loading = false;
  on_disk = false;
  zero = true;
  dirty_id = id;
  slice = none;
  ptr = none;
}

pub cut-any : (lo hi x : ℕ) (c : Option Cell) → lo ≤ x → x < hi → cut (λ k. true) lo hi x c ≡ none
cut-any lo hi x none le lt = refl
cut-any lo hi x (some c) le lt = ground arith

-- A zero buffer in a gap.
pub fill-IsZeroed :
    (limit offset size : ℕ) (old es : List (ℕ × FileBuffer)) (c : FileBuffer)
    (g : Gap limit es offset (offset + size))
    → IsBuffer (offset + size) c
    → c.offset ≡ offset
    → c.zero ≡ true
    → ((x : ℕ) → x < offset → cell_at es x ≡ cell_at old x)
    → ((x : ℕ) → offset + size ≤ x → cell_at es x ≡ cell_at old x)
    → IsZeroed old (g.before ++ (offset + size, c) ∷ g.after) offset size
fill-IsZeroed limit offset size old es c g v at zeroed before after =
    let key = offset + size in
    let tail : ChainTo offset ((key, c) ∷ g.after) g.top = (v, omega arith, g.second) in
    let pos = v.nonempty in
    let ends = v.ends in
    let whole : (x : ℕ)
        → cell_at (g.before ++ (key, c) ∷ g.after) x
          ≡ or_else (cell_at g.before x) (cell_at ((key, c) ∷ g.after) x) =
      λ x. cell_at-append 0 offset g.top x g.before ((key, c) ∷ g.after) g.first tail in
    let rest : (x : ℕ) → cell_at es x ≡ or_else (cell_at g.before x) (cell_at g.after x) = λ x.
      ap (λ k. cell_at k x) g.shape
      ∙ cell_at-append 0 offset g.top x g.before g.after g.first
          (ChainTo-wider key offset g.top g.top g.after (omega arith) (omega arith) g.second) in
    record {
      inside = λ x le lt.
          let byte : value_at (some (cell_of x c)) ≡ some 0 = rw zeroed refl in
          ap value_at (
            whole x
            ∙ ap (λ k. or_else k (cell_at ((key, c) ∷ g.after) x))
                (cell_at-beyond 0 offset x g.before g.first le)
            ∙ cell_at-here key x c g.after (omega arith) lt)
          ∙ byte;
      before = λ x lt.
          whole x
          ∙ ap (or_else (cell_at g.before x)) (
              cell_at-before key x c g.after (omega arith) (omega arith)
              ∙ sym (cell_at-none key g.top x g.after g.second (omega arith)))
          ∙ sym (rest x)
          ∙ before x lt;
      after = λ x le.
          whole x
          ∙ ap (or_else (cell_at g.before x)) (cell_at-later key x c g.after le)
          ∙ sym (rest x)
          ∙ after x le;
    }
