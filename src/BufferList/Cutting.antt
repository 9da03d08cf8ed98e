-- ===== src/BufferList/Cutting.antt =====
-- core/buffer_list.go: `RemoveRange` splits a buffer at the bounds of the range that lie in it.
use akavefs.Prelude.{
  ℕ, ◌≤◌, ◌<◌, ◌≡◌, ◌∙◌, refl, sym, subst, Bool, true, false, ◌&&◌, inl, inr, Option, none, some,
  List, [], ◌∷◌, ◌++◌, arith, word, Bool-cases, ltb, leb,
}
use mathlib.Core.List.{append_assoc, append-nil}
use akavefs.BTree.{BTree}
use akavefs.PartNumbering.{IsPartNumbering}
use akavefs.BufferList.{BufferState, FileBuffer, BufferListHelpers, BufferList}
use akavefs.BufferList.Edit.{buf_end, split}
use akavefs.BufferList.Ops.{cut_end, cut_start, cut_range, whole_or_cut}
use akavefs.BufferList.Shape.{IsBuffer, buf_end-eq}
use akavefs.BufferList.Sound.{Holds, ChainTo-Focus}
use akavefs.BufferList.Splitting.{split-SplitInto}
use akavefs.BufferList.Cuts.{rest_of, Pieces, no_pieces, right_piece, both_pieces, left_piece}

-- The buffer to remove is in the list, between the pieces that stay.
pub record Cutting ⦃bt : BTree⦄ (h : BufferListHelpers) (limit : ℕ) (pick : BufferState → Bool)
    (l : BufferList) (pre : List (ℕ × FileBuffer)) (key : ℕ) (b : FileBuffer)
    (es : List (ℕ × FileBuffer)) (lo hi : ℕ) : Type 0 where
  pub list : BufferList
  pub rm : FileBuffer
  pub rm_key : ℕ
  pub left : List (ℕ × FileBuffer)
  pub right : Option FileBuffer
  pub run : whole_or_cut h l b lo hi ≡ some (list, rm)
  pub holds : Holds h.part_num limit list ((pre ++ left) ++ (rm_key, rm) ∷ rest_of key right es)
  pub pieces : Pieces pick lo hi key b left right

module _ ⦃bt : BTree⦄ (h : BufferListHelpers) where
  cut_end-split :
      (l : BufferList) (b : FileBuffer) (hi key : ℕ) (l' : BufferList) (left right : FileBuffer)
      → buf_end b ≡ key
      → hi < key
      → split h l b hi ≡ some (l', left, right)
      → cut_end h l b hi ≡ some (l', left)
  unfolding cut_end
  cut_end-split l b hi key l' left right e lt run =
      let inside : ltb hi (buf_end b) ≡ true = ground (arith, e, lt) in
      rw (cut_end, inside, run) refl

  cut_end-same :
      (l : BufferList) (b : FileBuffer) (hi key : ℕ)
      → buf_end b ≡ key
      → key ≤ hi
      → cut_end h l b hi ≡ some (l, b)
  unfolding cut_end
  cut_end-same l b hi key e le =
      let outside : ltb hi (buf_end b) ≡ false = ground (arith, e, le) in rw (cut_end, outside) refl

  cut_start-split :
      (l : BufferList) (b : FileBuffer) (lo : ℕ) (l' : BufferList) (left right : FileBuffer)
      → b.offset < lo
      → split h l b lo ≡ some (l', left, right)
      → cut_start h l b lo ≡ some (l', right)
  unfolding cut_start
  cut_start-split l b lo l' left right lt run =
      let inside : ltb b.offset lo ≡ true = ground (arith, lt) in rw (cut_start, inside, run) refl

  cut_start-same :
      (l : BufferList) (b : FileBuffer) (lo : ℕ) → lo ≤ b.offset → cut_start h l b lo ≡ some (l, b)
  unfolding cut_start
  cut_start-same l b lo le =
      let outside : ltb b.offset lo ≡ false = ground (arith, le) in rw (cut_start, outside) refl

  whole_or_cut-whole :
      (l : BufferList) (b : FileBuffer) (lo hi : ℕ)
      → lo ≤ b.offset
      → buf_end b ≤ hi
      → whole_or_cut h l b lo hi ≡ some (l, b)
  unfolding whole_or_cut
  whole_or_cut-whole l b lo hi le ge =
      let first : leb lo b.offset ≡ true = ground (arith, le) in
      let last : leb (buf_end b) hi ≡ true = ground (arith, ge) in
      rw (whole_or_cut, first, last) refl

  whole_or_cut-cut :
      (l : BufferList) (b : FileBuffer) (lo hi : ℕ) (l1 l2 : BufferList) (rm1 rm2 : FileBuffer)
      → (leb lo b.offset && leb (buf_end b) hi) ≡ false
      → cut_end h l b hi ≡ some (l1, rm1)
      → cut_start h l1 rm1 lo ≡ some (l2, rm2)
      → whole_or_cut h l b lo hi ≡ some (l2, rm2)
  unfolding whole_or_cut cut_range
  whole_or_cut-cut l b lo hi l1 l2 rm1 rm2 not_whole end start =
      rw (whole_or_cut, not_whole, cut_range, end, start) refl

  module _ (limit : ℕ) (small : limit < word) (num : IsPartNumbering h.part_num limit)
      (pick : BufferState → Bool) (l : BufferList) (pre : List (ℕ × FileBuffer)) (key : ℕ)
      (b : FileBuffer) (es : List (ℕ × FileBuffer)) (lo hi : ℕ)
      (s : Holds h.part_num limit l (pre ++ (key, b) ∷ es)) (chosen : pick b.state ≡ true)
      (ordered : lo < hi) (after : lo < key) (before : b.offset < hi) where
    here : IsBuffer key b
    here = (ChainTo-Focus 0 s.top key pre b es s.chain).1

    ends : buf_end b ≡ key
    ends = buf_end-eq key b here

    abbrev Result : Type 0
    Result = Cutting h limit pick l pre key b es lo hi

    cut_whole : lo ≤ b.offset → key ≤ hi → Result
    cut_whole start end = record {
      list = l;
      rm = b;
      rm_key = key;
      left = [];
      right = none;
      run = whole_or_cut-whole l b lo hi start (omega (arith, ends));
      holds = subst (λ k. Holds h.part_num limit l (k ++ (key, b) ∷ es)) (sym (append-nil pre)) s;
      pieces = no_pieces pick lo hi key b here chosen start end;
    }

    not_whole : lo ≤ b.offset → hi < key → (leb lo b.offset && leb (buf_end b) hi) ≡ false
    not_whole start end = let e = ends in ground (arith, e, end)

    cut_right : lo ≤ b.offset → hi < key → Result
    cut_right start end =
        let p = split-SplitInto h limit small num l pre key b es hi s before end in
        let f = ChainTo-Focus 0 p.holds.top hi pre p.left ((key, p.right) ∷ es) p.holds.chain in
        record {
          list = p.list;
          rm = p.left;
          rm_key = hi;
          left = [];
          right = some p.right;
          run =
              whole_or_cut-cut l b lo hi p.list p.list p.left p.left (not_whole start end)
                (cut_end-split l b hi key p.list p.left p.right ends end p.run)
                (cut_start-same p.list p.left lo (omega (arith, p.left_offset, start)));
          holds =
              subst (λ k. Holds h.part_num limit p.list (k ++ (hi, p.left) ∷ (key, p.right) ∷ es))
                (sym (append-nil pre)) p.holds;
          pieces =
              right_piece pick lo hi key b here chosen p.right ((f.2).0) p.right_offset p.right_cell
                before end start;
        }

    abbrev Shifted : List (ℕ × FileBuffer) → (ℕ × FileBuffer) → BufferList → Type 0
    Shifted tail e k = Holds h.part_num limit k ((pre ++ e ∷ []) ++ tail)

    shift :
        (tail : List (ℕ × FileBuffer)) (e : ℕ × FileBuffer) (k : BufferList)
        → Holds h.part_num limit k (pre ++ e ∷ tail)
        → Shifted tail e k
    shift tail e k t =
        subst (λ j. Holds h.part_num limit k j) (sym (append_assoc pre (e ∷ []) tail)) t

    started : b.offset < lo → (leb lo b.offset && leb (buf_end b) hi) ≡ false
    started start = ground (arith, start)

    cut_left : b.offset < lo → key ≤ hi → Result
    cut_left start end =
        let p = split-SplitInto h limit small num l pre key b es lo s start after in
        let f = ChainTo-Focus 0 p.holds.top lo pre p.left ((key, p.right) ∷ es) p.holds.chain in
        record {
          list = p.list;
          rm = p.right;
          rm_key = key;
          left = (lo, p.left) ∷ [];
          right = none;
          run =
              whole_or_cut-cut l b lo hi l p.list b p.right (started start)
                (cut_end-same l b hi key ends end)
                (cut_start-split l b lo p.list p.left p.right start p.run);
          holds = shift ((key, p.right) ∷ es) (lo, p.left) p.list p.holds;
          pieces =
              left_piece pick lo hi key b here chosen p.left (f.1) p.left_offset p.left_cell start
                after end;
        }

    cut_both : b.offset < lo → hi < key → Result
    cut_both start end =
        let p = split-SplitInto h limit small num l pre key b es hi s before end in
        let f = ChainTo-Focus 0 p.holds.top hi pre p.left ((key, p.right) ∷ es) p.holds.chain in
        let q =
          split-SplitInto h limit small num p.list pre hi p.left ((key, p.right) ∷ es) lo p.holds
            (omega (arith, p.left_offset, start)) ordered in
        let g =
          ChainTo-Focus 0 q.holds.top lo pre q.left ((hi, q.right) ∷ (key, p.right) ∷ es)
            q.holds.chain in
        record {
          list = q.list;
          rm = q.right;
          rm_key = hi;
          left = (lo, q.left) ∷ [];
          right = some p.right;
          run =
              whole_or_cut-cut l b lo hi p.list q.list p.left q.right (started start)
                (cut_end-split l b hi key p.list p.left p.right ends end p.run)
                (cut_start-split p.list p.left lo q.list q.left q.right
                  (omega (arith, p.left_offset, start)) q.run);
          holds = shift ((hi, q.right) ∷ (key, p.right) ∷ es) (lo, q.left) q.list q.holds;
          pieces =
              both_pieces pick lo hi key b here chosen p.right ((f.2).0) p.right_offset p.right_cell
                before end q.left (g.1) (q.left_offset ∙ p.left_offset)
                (λ y lt. q.left_cell y lt ∙ p.left_cell y (omega arith)) start ordered;
        }

    -- The bounds that lie in the buffer are split off.
    pub whole_or_cut-Cutting : Result
    whole_or_cut-Cutting = elim (Bool-cases (leb lo b.offset)) [
      | inl e ↦ elim (Bool-cases (leb key hi)) [
        | inl f ↦ cut_whole (ground (arith, e)) (ground (arith, f))
        | inr f ↦ cut_right (ground (arith, e)) (ground (arith, f))
      ]
      | inr e ↦ elim (Bool-cases (leb key hi)) [
        | inl f ↦ cut_left (ground (arith, e)) (ground (arith, f))
        | inr f ↦ cut_both (ground (arith, e)) (ground (arith, f))
      ]
    ]
