-- ===== src/BufferList/Cuts.antt =====
-- core/buffer_list.go: the part of a buffer that `RemoveRange` cuts out, and the pieces that stay.
use akavefs.Prelude.{
  ℕ, ◌≤◌, ◌<◌, ◌≡◌, ◌∙◌, refl, ap, sym, Bool, true, inl, inr, Option, none, some, List, [], ◌∷◌,
  ◌++◌, arith, Bool-cases, Option-cases, ltb, leb,
}
use akavefs.BufferList.{BufferState, FileBuffer}
use akavefs.BufferList.Shape.{IsBuffer, covering}
use akavefs.BufferList.Places.{ChainTo, cell_of, cell_from, cell_at}
use akavefs.BufferList.Cells.{
  cut, cut-outside, cut-before, cell_at-here, cell_at-before, cell_at-later,
}

-- The buffer that stays under the key, before others.
abbrev pub rest_of : ℕ → Option FileBuffer → List (ℕ × FileBuffer) → List (ℕ × FileBuffer)
rest_of key none es = es
rest_of key (some r) es = (key, r) ∷ es

-- A buffer without the range, by the bounds of the range that lie in it.
pub record Pieces (pick : BufferState → Bool) (lo hi key : ℕ) (b : FileBuffer)
    (left : List (ℕ × FileBuffer)) (right : Option FileBuffer) : Type 0 where
  pub until : ℕ
  pub below : until < key
  pub left_chain : ChainTo b.offset left until
  pub chain : ChainTo b.offset (left ++ rest_of key right []) key
  pub cells :
      (x : ℕ)
      → cell_at (left ++ rest_of key right []) x ≡ cut pick lo hi x (cell_at ((key, b) ∷ []) x)

module _ (pick : BufferState → Bool) (lo hi key : ℕ) (b : FileBuffer) (v : IsBuffer key b)
    (chosen : pick b.state ≡ true) where
  cut-inside : (x : ℕ) → lo ≤ x → x < hi → cut pick lo hi x (cell_at ((key, b) ∷ []) x) ≡ none
  cut-inside x le lt = elim (Option-cases (covering x ((key, b) ∷ []))) [
    | inl f ↦ ap (λ k. cut pick lo hi x (cell_from x k)) f
    | inr (w, f) ↦
        let same : b ≡ w = ground (arith, f) in
        let e : pick w.state ≡ true = ap (λ k. pick k.state) (sym same) ∙ chosen in
        let gone : cut pick lo hi x (some (cell_of x w)) ≡ none = ground (arith, e) in
        ap (λ k. cut pick lo hi x (cell_from x k)) f ∙ gone
  ]

  -- A piece at the start has the cells of the buffer before the range.
  left_cells :
      (l : FileBuffer) (x : ℕ)
      → lo < key
      → l.offset ≡ b.offset
      → ((y : ℕ) → y < lo → cell_of y l ≡ cell_of y b)
      → x < lo
      → cell_at ((lo, l) ∷ []) x ≡ cell_at ((key, b) ∷ []) x
  left_cells l x small at same lt = elim (Bool-cases (leb b.offset x)) [
    | inl inside ↦
        let le : b.offset ≤ x = ground (arith, inside) in
        cell_at-here lo x l [] (omega arith) lt
        ∙ ap some (same x lt)
        ∙ sym (cell_at-here key x b [] le (omega arith))
    | inr apart ↦
        let le : x < b.offset = ground (arith, apart) in
        cell_at-before lo x l [] (omega arith) lt ∙ sym (cell_at-before key x b [] le (omega arith))
  ]

  -- A piece at the end has the cells from the end of the range on.
  right_cells :
      (r : FileBuffer) (x : ℕ)
      → b.offset < hi
      → r.offset ≡ hi
      → ((y : ℕ) → hi ≤ y → cell_of y r ≡ cell_of y b)
      → hi ≤ x
      → cell_at ((key, r) ∷ []) x ≡ cell_at ((key, b) ∷ []) x
  right_cells r x small at same le = elim (Bool-cases (ltb x key)) [
    | inl inside ↦
        let lt : x < key = ground (arith, inside) in
        cell_at-here key x r [] (omega arith) lt
        ∙ ap some (same x le)
        ∙ sym (cell_at-here key x b [] (omega arith) lt)
    | inr apart ↦
        let lt : key ≤ x = ground (arith, apart) in
        cell_at-later key x r [] lt ∙ sym (cell_at-later key x b [] lt)
  ]

  -- Where the buffer begins in the range, where it ends in it.
  cut-start : (x : ℕ) → lo ≤ b.offset → x < lo → cell_at ((key, b) ∷ []) x ≡ none
  cut-start x le lt =
      let e = v.ends in let p = v.nonempty in cell_at-before key x b [] (omega arith) (omega arith)

  by_region :
      (ps : List (ℕ × FileBuffer)) (x : ℕ)
      → (x < lo → cell_at ps x ≡ cell_at ((key, b) ∷ []) x)
      → (lo ≤ x → x < hi → cell_at ps x ≡ none)
      → (hi ≤ x → cell_at ps x ≡ cell_at ((key, b) ∷ []) x)
      → cell_at ps x ≡ cut pick lo hi x (cell_at ((key, b) ∷ []) x)
  by_region ps x before inside after = elim (Bool-cases (ltb x lo)) [
    | inl e ↦ let lt : x < lo = ground (arith, e) in before lt ∙ sym (cut-before pick lo hi x _ lt)
    | inr e ↦
        let le : lo ≤ x = ground (arith, e) in
        elim (Bool-cases (ltb x hi)) [
          | inl f ↦ let lt : x < hi = ground (arith, f) in inside le lt ∙ sym (cut-inside x le lt)
          | inr f ↦
              let ge : hi ≤ x = ground (arith, f) in after ge ∙ sym (cut-outside pick lo hi x _ ge)
        ]
  ]

  pub no_pieces : lo ≤ b.offset → key ≤ hi → Pieces pick lo hi key b [] none
  no_pieces start end =
      let e = v.ends in
      let p = v.nonempty in
      record {
        until = b.offset;
        below = omega arith;
        left_chain = omega arith;
        chain = omega arith;
        cells = λ x.
            by_region [] x (λ lt. sym (cut-start x start lt)) (λ le lt. refl)
              (λ ge. sym (cell_at-later key x b [] (omega arith)));
      }

  module _ (r : FileBuffer) (r_ok : IsBuffer key r) (r_at : r.offset ≡ hi)
      (r_same : (y : ℕ) → hi ≤ y → cell_of y r ≡ cell_of y b) (middle : b.offset < hi)
      (end : hi < key) where
    pub right_piece : lo ≤ b.offset → Pieces pick lo hi key b [] (some r)
    right_piece start =
        let e = v.ends in
        let p = v.nonempty in
        record {
          until = b.offset;
          below = omega arith;
          left_chain = omega arith;
          chain = (r_ok, omega arith, omega arith);
          cells = λ x.
              by_region ((key, r) ∷ []) x
                (λ lt.
                  cell_at-before key x r [] (omega arith) (omega arith)
                  ∙ sym (cut-start x start lt))
                (λ le lt. cell_at-before key x r [] (omega arith) (omega arith))
                (λ ge. right_cells r x middle r_at r_same ge);
        }

    module _ (l : FileBuffer) (l_ok : IsBuffer lo l) (l_at : l.offset ≡ b.offset)
        (l_same : (y : ℕ) → y < lo → cell_of y l ≡ cell_of y b) (start : b.offset < lo)
        (ordered : lo < hi) where
      pub both_pieces : Pieces pick lo hi key b ((lo, l) ∷ []) (some r)
      both_pieces = record {
        until = lo;
        below = omega arith;
        left_chain = (l_ok, omega arith, omega arith);
        chain = (l_ok, omega arith, (r_ok, omega arith, omega arith));
        cells = λ x.
            by_region ((lo, l) ∷ (key, r) ∷ []) x
              (λ lt.
                let first : covering x ((lo, l) ∷ (key, r) ∷ []) ≡ covering x ((lo, l) ∷ []) =
                  ground (arith, lt) in
                ap (cell_from x) first ∙ left_cells l x (omega arith) l_at l_same lt)
              (λ le lt.
                cell_at-later lo x l ((key, r) ∷ []) le
                ∙ cell_at-before key x r [] (omega arith) (omega arith))
              (λ ge.
                cell_at-later lo x l ((key, r) ∷ []) (omega arith)
                ∙ right_cells r x middle r_at r_same ge);
      }

  pub left_piece :
      (l : FileBuffer)
      → IsBuffer lo l
      → l.offset ≡ b.offset
      → ((y : ℕ) → y < lo → cell_of y l ≡ cell_of y b)
      → b.offset < lo
      → lo < key
      → key ≤ hi
      → Pieces pick lo hi key b ((lo, l) ∷ []) none
  left_piece l l_ok l_at l_same start inner end = record {
    until = lo;
    below = inner;
    left_chain = (l_ok, omega arith, omega arith);
    chain = (l_ok, omega arith, omega arith);
    cells = λ x.
        by_region ((lo, l) ∷ []) x (λ lt. left_cells l x inner l_at l_same lt)
          (λ le lt. cell_at-later lo x l [] le)
          (λ ge.
            cell_at-later lo x l [] (omega arith) ∙ sym (cell_at-later key x b [] (omega arith)));
  }
