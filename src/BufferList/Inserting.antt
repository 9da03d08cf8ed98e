-- ===== src/BufferList/Inserting.antt =====
-- core/buffer_list.go: a new buffer in a gap of a list.
use akavefs.Prelude.{
  ℕ, ◌+◌, ◌≤◌, ◌<◌, ◌≡◌, ◌∙◌, refl, ap, sym, subst, true, inl, inr, none, some, List, [], ◌∷◌, ◌++◌,
  arith, word, Bool-cases, ltb, leb,
}
use akavefs.BTree.{BTree, insert, IsAbove}
use akavefs.PartNumbering.{IsPartNumbering}
use akavefs.BufferList.{FileBuffer, BufferListHelpers, Tracker, BufferList}
use akavefs.BufferList.Track.{queue}
use akavefs.BufferList.Edit.{buf_end, put}
use akavefs.BufferList.Shape.{IsBuffer, buf_end-eq}
use akavefs.BufferList.Counting.{refs}
use akavefs.BufferList.Spans.{part_refs}
use akavefs.BufferList.Parts.{queue-refs}
use akavefs.BufferList.Requeued.{queue-IsRequeued}
use akavefs.BufferList.Places.{
  ChainTo, ChainTo-le, ChainTo-append, ChainTo-wider, insert-append, cell_at, refs_sum,
  refs_sum-append, Parted, parted,
}
use akavefs.BufferList.Sound.{Holds, Holds-room}
use akavefs.BufferList.Cells.{or_else, cell_at-here, cell_at-beyond, cell_at-append}
use akavefs.BufferList.Removal.{from-IsAbove}

-- Nothing lies between two offsets: the buffers before and after.
pub record Gap (limit : ℕ) (es : List (ℕ × FileBuffer)) (lo hi : ℕ) : Type 0 where
  pub before : List (ℕ × FileBuffer)
  pub after : List (ℕ × FileBuffer)
  pub shape : es ≡ before ++ after
  pub top : ℕ
  pub below : top < limit
  pub first : ChainTo 0 before lo
  pub second : ChainTo hi after top

insert-before :
    (key hi : ℕ) (c : FileBuffer) (es : List (ℕ × FileBuffer))
    → ChainTo key es hi
    → insert key c es ≡ (key, c) ∷ es
insert-before key hi c [] d = refl
insert-before key hi c ((j, w) ∷ es) d =
    let v = d.0 in
    let ends = v.ends in
    let pos = v.nonempty in
    let at = d.1 in let first : ltb key j ≡ true = ground (arith, ends, pos, at) in rw first refl

-- A buffer that begins after `lo` begins after `hi`, if nothing is between them.
begins_after :
    (lo hi until key top : ℕ) (before : List (ℕ × FileBuffer)) (b : FileBuffer)
    (es : List (ℕ × FileBuffer))
    → ChainTo 0 before until
    → until ≤ lo
    → lo < key
    → lo < hi
    → ChainTo until ((key, b) ∷ es) top
    → ((x : ℕ) → lo ≤ x → x < hi → cell_at (before ++ (key, b) ∷ es) x ≡ none)
    → hi ≤ b.offset
begins_after lo hi until key top before b es c le above ordered d empty =
    let filled : (x : ℕ) → lo ≤ x → x < hi → b.offset ≤ x → x < key → ⊥ = λ x p q r t.
      let there =
        cell_at-append 0 until top x before ((key, b) ∷ es) c d
        ∙ ap (λ k. or_else k (cell_at ((key, b) ∷ es) x))
            (cell_at-beyond 0 until x before c (omega arith))
        ∙ cell_at-here key x b es r t in
      let gone = empty x p q in cc in
    let v = d.0 in
    let ends = v.ends in
    let pos = v.nonempty in
    elim (Bool-cases (leb hi b.offset)) [
      | inl e ↦ ground (arith, e)
      | inr e ↦
          let early : b.offset < hi = ground (arith, e) in
          elim (Bool-cases (leb lo b.offset)) [
            | inl f ↦ absurd (filled b.offset (ground (arith, f)) early (omega arith) (omega arith))
            | inr f ↦ absurd (filled lo (omega arith) ordered (ground (arith, f)) above)
          ]
    ]

pub gap :
    (limit lo hi top : ℕ) (es : List (ℕ × FileBuffer))
    → ChainTo 0 es top
    → top < limit
    → hi < limit
    → lo < hi
    → ((x : ℕ) → lo ≤ x → x < hi → cell_at es x ≡ none)
    → Gap limit es lo hi
gap limit lo hi top es c below small ordered empty =
    let q = parted 0 top (lo + 1) es c (omega arith) in
    split q.later q refl (subst (λ k. IsAbove lo k) q.visited (from-IsAbove lo 0 top es c))
  where
    split :
        (later : List (ℕ × FileBuffer)) (q : Parted 0 top (lo + 1) es)
        → q.later ≡ later
        → IsAbove lo later
        → Gap limit es lo hi
    split [] q e above = record {
      before = q.before;
      after = [];
      shape = q.shape ∙ ap (λ k. q.before ++ k) e;
      top = hi;
      below = small;
      first = ChainTo-wider 0 0 q.until lo q.before (omega arith) (omega (arith, q.below)) q.first;
      second = omega arith;
    }
    split ((key, b) ∷ rest) q e above =
        let tail : ChainTo q.until ((key, b) ∷ rest) top =
          subst (λ k. ChainTo q.until k top) e q.second in
        let shape : es ≡ q.before ++ (key, b) ∷ rest = q.shape ∙ ap (λ k. q.before ++ k) e in
        let start =
          begins_after lo hi q.until key top q.before b rest q.first (omega (arith, q.below))
            (above.0) ordered tail (λ x p r. ap (λ k. cell_at k x) (sym shape) ∙ empty x p r) in
        record {
          before = q.before;
          after = (key, b) ∷ rest;
          shape = shape;
          top = top;
          below = below;
          first =
              ChainTo-wider 0 0 q.until lo q.before (omega arith) (omega (arith, q.below)) q.first;
          second = (tail.0, start, tail.2);
        }

module _ ⦃bt : BTree⦄ (h : BufferListHelpers) (limit : ℕ) (small : limit < word)
    (num : IsPartNumbering h.part_num limit) where
  -- A new buffer is counted and stands between the others.
  pub queue-Holds :
      (l : BufferList) (es : List (ℕ × FileBuffer)) (key : ℕ) (b : FileBuffer)
      → Holds h.part_num limit l es
      → (g : Gap limit es b.offset key) → ((q : ℕ) → IsBuffer key (record b { queue_id = q }))
      → (u : Tracker) × (c : FileBuffer) × (queue h l.track b ≡ some (u, c))
        × (c ≡ record b { queue_id = c.queue_id })
        × Holds h.part_num limit (put (record l { track = u }) c) (g.before ++ (key, c) ∷ g.after)
  unfolding refs_sum
  queue-Holds l es key b s g v =
      let v0 = v b.queue_id in
      let ends = v0.ends in
      let pos = v0.nonempty in
      let last = ChainTo-le key g.top g.after g.second in
      let room = Holds-room h limit small num l es s in
      let (u, c, run, sums) =
        queue-refs h limit small num l.track b
          (record { nonempty = v0.nonempty; below = omega (arith, last, g.below) }) room in
      let q = queue-IsRequeued h l.track b (s.tracked).counted room u c run in
      let ok : IsBuffer key c = subst (λ k. IsBuffer key k) (sym q.same) (v c.queue_id) in
      let at : c.offset ≡ b.offset = ap (λ k. k.offset) q.same in
      let first : insert key c g.after ≡ (key, c) ∷ g.after =
        insert-before key g.top c g.after g.second in
      let same : (j : ℕ) → part_refs h.part_num c j ≡ part_refs h.part_num b j =
        λ j. ap (λ k. part_refs h.part_num k j) q.same in
      (
        u,
        c,
        run,
        q.same,
        record {
          shape =
              bt.ascend-set l.at (buf_end c) c
              ∙ ap (insert (buf_end c) c) (s.shape ∙ g.shape)
              ∙ ap (λ k. insert k c (g.before ++ g.after)) (buf_end-eq key c ok)
              ∙ insert-append 0 b.offset key c g.before g.after g.first (omega arith)
              ∙ ap (λ k. g.before ++ k) first;
          top = g.top;
          below = g.below;
          chain =
              ChainTo-append 0 b.offset g.top g.before ((key, c) ∷ g.after) g.first
                (ok, omega arith, g.second);
          tracked = record {
            counted = q.counted;
            counts = λ j.
                let old : refs l.track j ≡ refs_sum h.part_num (g.before ++ g.after) j =
                  s.tracked.counts j ∙ ap (λ k. refs_sum h.part_num k j) g.shape in
                omega (
                  arith,
                  old,
                  sums j,
                  same j,
                  refs_sum-append h.part_num g.before g.after j,
                  refs_sum-append h.part_num g.before ((key, c) ∷ g.after) j,
                );
          };
        },
      )
