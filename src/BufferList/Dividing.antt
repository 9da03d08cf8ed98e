-- ===== src/BufferList/Dividing.antt =====
-- core/buffer_list.go: `SplitAt` of a list of buffers, and what its halves have at each offset.
use akavefs.Prelude.{
  ℕ, ◌+◌, ◌≤◌, ◌<◌, ◌≡◌, ◌∙◌, refl, ap, sym, subst, inl, inr, Option, none, some, List, [], ◌∷◌,
  ◌++◌, arith, word, Bool-cases, ltb, leb, if◌then◌else◌, ◌>>=◌, add64-eq,
}
use mathlib.Core.List.{append_assoc}
use akavefs.BTree.{BTree, from, IsAbove}
use akavefs.PartNumbering.{IsPartNumbering}
use akavefs.BufferList.{FileBuffer, BufferListHelpers, BufferList}
use akavefs.BufferList.Edit.{first, split}
use akavefs.BufferList.Ops.{split_at}
use akavefs.BufferList.Shape.{Chain}
use akavefs.BufferList.Places.{
  ChainTo, ChainTo-Chain, ChainTo-append, ChainTo-wider, cell_of, cell_at, Parted, parted,
}
use akavefs.BufferList.Sound.{entries, Holds, ChainTo-Focus}
use akavefs.BufferList.Splitting.{SplitInto, split-SplitInto}
use akavefs.BufferList.Cells.{or_else, cell_at-here, cell_at-before, cell_at-later, cell_at-append}
use akavefs.BufferList.Removal.{IsSound, from-IsAbove}

-- No buffer has bytes on both sides of an offset.
pub record IsDivided (es : List (ℕ × FileBuffer)) (off : ℕ) : Type 0 where
  pub lower : List (ℕ × FileBuffer)
  pub upper : List (ℕ × FileBuffer)
  pub shape : es ≡ lower ++ upper
  pub below : ChainTo 0 lower off
  pub above : Chain off upper

module _ (off key : ℕ) (b left right : FileBuffer) (es : List (ℕ × FileBuffer))
    (lo : b.offset < off) (hi : off < key) (left_at : left.offset ≡ b.offset)
    (right_at : right.offset ≡ off) (left_cell : (x : ℕ) → x < off → cell_of x left ≡ cell_of x b)
    (right_cell : (x : ℕ) → off ≤ x → cell_of x right ≡ cell_of x b) where
  -- The halves of a buffer have what the whole has.
  cell_at-halves : (x : ℕ) → cell_at ((off, left) ∷ (key, right) ∷ es) x ≡ cell_at ((key, b) ∷ es) x
  cell_at-halves x = elim (Bool-cases (ltb x off)) [
    | inl e ↦
        let lt : x < off = ground (arith, e) in
        elim (Bool-cases (leb b.offset x)) [
          | inl f ↦
              let le : b.offset ≤ x = ground (arith, f) in
              cell_at-here off x left ((key, right) ∷ es) (omega arith) lt
              ∙ ap some (left_cell x lt)
              ∙ sym (cell_at-here key x b es le (omega arith))
          | inr f ↦
              let le : x < b.offset = ground (arith, f) in
              cell_at-before off x left ((key, right) ∷ es) (omega arith) lt
              ∙ sym (cell_at-before key x b es le (omega arith))
        ]
    | inr e ↦
        let le : off ≤ x = ground (arith, e) in
        cell_at-later off x left ((key, right) ∷ es) le ∙ elim (Bool-cases (ltb x key)) [
          | inl f ↦
              let lt : x < key = ground (arith, f) in
              cell_at-here key x right es (omega arith) lt
              ∙ ap some (right_cell x le)
              ∙ sym (cell_at-here key x b es (omega arith) lt)
          | inr f ↦
              let ge : key ≤ x = ground (arith, f) in
              cell_at-later key x right es ge ∙ sym (cell_at-later key x b es ge)
        ]
  ]

module _ ⦃bt : BTree⦄ (h : BufferListHelpers) (limit : ℕ) (small : limit < word)
    (num : IsPartNumbering h.part_num limit) (l : BufferList) (offset : ℕ)
    (s : IsSound h.part_num limit l) (fits : offset + 1 < word) where
  abbrev Divided : Type 0
  Divided =
      (l' : BufferList) × (split_at h l offset ≡ some l')
      × IsSound h.part_num limit l'
      × IsDivided (entries l') offset
      × ((x : ℕ) → cell_at (entries l') x ≡ cell_at (entries l) x)

  unchanged : split_at h l offset ≡ some l → IsDivided (entries l) offset → Divided
  unchanged run d = (l, run, s, d, λ x. refl)

  abbrev visited : List (ℕ × FileBuffer) → Option BufferList
  visited es = elim (first es) [
    | none ↦ some l
    | some b ↦ if ltb b.offset offset then (do (l', _, _) ← split h l b offset; some l') else some l
  ]

  split_at-visited :
      (es : List (ℕ × FileBuffer))
      → from (offset + 1) (entries l) ≡ es
      → split_at h l offset ≡ visited es
  unfolding split_at
  split_at-visited es e =
      ap (λ k. visited (bt.ascend l.at k)) (add64-eq offset 1 fits)
      ∙ ap visited (bt.ascend-from l.at (offset + 1) ∙ e)

  divide_inside :
      (before : List (ℕ × FileBuffer)) (until key : ℕ) (b : FileBuffer) (es : List (ℕ × FileBuffer))
      → entries l ≡ before ++ (key, b) ∷ es
      → b.offset < offset
      → offset < key
      → ChainTo 0 before until
      → ChainTo until ((key, b) ∷ es) s.top
      → ((p : SplitInto h limit l before key b es offset) → split_at h l offset ≡ some p.list)
      → Divided
  divide_inside before until key b es shape lo hi first tail run =
      let held = subst (λ k. Holds h.part_num limit l k) shape s in
      let p = split-SplitInto h limit small num l before key b es offset held lo hi in
      let found = p.holds in
      let f = ChainTo-Focus 0 found.top offset before p.left ((key, p.right) ∷ es) found.chain in
      (
        p.list,
        run p,
        subst (λ k. Holds h.part_num limit p.list k) (sym found.shape) found,
        record {
          lower = before ++ (offset, p.left) ∷ [];
          upper = (key, p.right) ∷ es;
          shape =
              found.shape ∙ sym (append_assoc before ((offset, p.left) ∷ []) ((key, p.right) ∷ es));
          below =
              ChainTo-append 0 p.left.offset offset before ((offset, p.left) ∷ []) (f.0)
                (f.1, omega arith, omega arith);
          above = (((f.2).0), ((f.2).1), ChainTo-Chain key found.top es ((f.2).2));
        },
        λ x.
            ap (λ k. cell_at k x) found.shape
            ∙ cell_at-append 0 p.left.offset found.top x before
                ((offset, p.left) ∷ (key, p.right) ∷ es) (f.0) (f.1, omega arith, f.2)
            ∙ ap (or_else (cell_at before x)) (
                cell_at-halves offset key b p.left p.right es lo hi p.left_offset p.right_offset
                  p.left_cell p.right_cell x)
            ∙ sym (cell_at-append 0 until s.top x before ((key, b) ∷ es) first tail)
            ∙ ap (λ k. cell_at k x) (sym shape),
      )

  divide :
      (es : List (ℕ × FileBuffer))
      → (q : Parted 0 s.top (offset + 1) (entries l)) → q.later ≡ es
      → IsAbove offset es
      → Divided
  divide [] q e above = unchanged (split_at-visited [] (q.visited ∙ e)) (record {
    lower = q.before;
    upper = [];
    shape = q.shape ∙ ap (λ k. q.before ++ k) e;
    below =
        ChainTo-wider 0 0 q.until offset q.before (omega arith) (omega (arith, q.below)) q.first;
    above = tt;
  })
  divide ((key, b) ∷ es) q e above =
      let run = split_at-visited ((key, b) ∷ es) (q.visited ∙ e) in
      let shape : entries l ≡ q.before ++ (key, b) ∷ es = q.shape ∙ ap (λ k. q.before ++ k) e in
      let tail : ChainTo q.until ((key, b) ∷ es) s.top =
        subst (λ k. ChainTo q.until k s.top) e q.second in
      elim (Bool-cases (ltb b.offset offset)) [
        | inr after ↦
            let same : visited ((key, b) ∷ es) ≡ some l = rw after refl in
            unchanged (run ∙ same) (record {
              lower = q.before;
              upper = (key, b) ∷ es;
              shape = shape;
              below =
                  ChainTo-wider 0 0 q.until offset q.before (omega arith) (omega (arith, q.below))
                    q.first;
              above = (tail.0, ground (arith, after), ChainTo-Chain key s.top es (tail.2));
            })
        | inl inside ↦
            let lo : b.offset < offset = ground (arith, inside) in
            let cut : (p : SplitInto h limit l q.before key b es offset)
                → visited ((key, b) ∷ es) ≡ some p.list =
              λ p. rw (inside, p.run) refl in
            divide_inside q.before q.until key b es shape lo (above.0) q.first tail
              (λ p. run ∙ cut p)
      ]

  -- Let the part numbering hold below a limit below 2 ^ 64, and the buffers be in order, end below the
  -- limit and be counted in the dirty parts. `SplitAt` an offset below 2 ^ 64 - 1 does not panic and
  -- keeps all that; after it no buffer has bytes on both sides of the offset, and there is at each
  -- offset what there was.
  pub split_at-IsSound :
      (l' : BufferList) × (split_at h l offset ≡ some l')
      × IsSound h.part_num limit l'
      × IsDivided (entries l') offset
      × ((x : ℕ) → cell_at (entries l') x ≡ cell_at (entries l) x)
  split_at-IsSound =
      let q = parted 0 s.top (offset + 1) (entries l) s.chain (omega arith) in
      divide q.later q refl
        (subst (λ k. IsAbove offset k) q.visited (from-IsAbove offset 0 s.top (entries l) s.chain))
