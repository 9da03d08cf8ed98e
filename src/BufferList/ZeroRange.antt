-- ===== src/BufferList/ZeroRange.antt =====
-- core/buffer_list.go: `ZeroRange` of a list of buffers: a range that is zero already, and one that is not.
use akavefs.Prelude.{
  ℕ, ◌+◌, ◌≤◌, ◌<◌, ◌≡◌, ◌∙◌, refl, ap, sym, subst, Bool, true, false, ◌||◌, inl, inr, Option, some,
  List, [], ◌∷◌, ◌++◌, arith, word, Bool-cases, ◌==◌, if◌then◌else◌, ◌>>=◌, add64, add64-eq,
}
use akavefs.BTree.{BTree, from}
use akavefs.PartNumbering.{IsPartNumbering}
use akavefs.BufferList.{FileBuffer, BufferListHelpers, Tracker, BufferList}
use akavefs.BufferList.Track.{queue}
use akavefs.BufferList.Edit.{first, put, next_id}
use akavefs.BufferList.Ops.{Counted, any_buffer, remove_range, is_zeroed, zero_range}
use akavefs.BufferList.Shape.{IsBuffer, buf_end-eq}
use akavefs.BufferList.Places.{ChainTo, cell_of, cell_at, Parted, parted}
use akavefs.BufferList.Sound.{entries, Holds}
use akavefs.BufferList.Cells.{
  or_else, cell_at-here, cell_at-beyond, cell_at-append, cut-outside, cut-before,
}
use akavefs.BufferList.Removal.{IsSound, remove_range-IsSound}
use akavefs.BufferList.Inserting.{gap, queue-Holds}
use akavefs.BufferList.Zeroing.{value_at, IsZeroed, zero_buffer, cut-any, fill-IsZeroed}

next_id-Holds :
    ⦃bt : BTree⦄
    → (part_num : ℕ → Option ℕ) (limit : ℕ) (l : BufferList) (es : List (ℕ × FileBuffer))
    → Holds part_num limit l es
    → Holds part_num limit (next_id l).0 es
unfolding next_id
next_id-Holds part_num limit l es s = record {
  shape = s.shape;
  top = s.top;
  below = s.below;
  chain = s.chain;
  tracked = record { counted = (s.tracked).counted; counts = (s.tracked).counts };
}

module _ ⦃bt : BTree⦄ (h : BufferListHelpers) (l : BufferList) (offset size : ℕ) where
  abbrev removed_then : Option FileBuffer → Option (Counted × Bool)
  removed_then o =
      if size == 0 || is_zeroed h offset size o
      then some (record { list = l; allocated = 0 }, false)
      else (do
        removed ← remove_range h l offset size (any_buffer h)
        let (l', id) = next_id removed.list
        (t, b) ← queue h l'.track (zero_buffer offset size id)
        some (record removed { list = put (record l' { track = t }) b }, true))

  zero_range-visited :
      (es : List (ℕ × FileBuffer))
      → offset + 1 < word
      → from (offset + 1) (entries l) ≡ es
      → zero_range h l offset size ≡ removed_then (first es)
  unfolding zero_range
  zero_range-visited es fits e =
      ap (λ k. removed_then (first (bt.ascend l.at k))) (add64-eq offset 1 fits)
      ∙ ap (λ k. removed_then (first k)) (bt.ascend-from l.at (offset + 1) ∙ e)

  removed-run :
      (o : Option FileBuffer) (s : Counted) (u : Tracker) (c : FileBuffer)
      → (size == 0 || is_zeroed h offset size o) ≡ false
      → remove_range h l offset size (any_buffer h) ≡ some s
      → queue h s.list.track (zero_buffer offset size (add64 s.list.cur_dirty_id 1)) ≡ some (u, c)
      → (r : Counted) × (removed_then o ≡ some (r, true))
        × (r.list ≡ put (record (next_id s.list).0 { track = u }) c)
  unfolding next_id
  removed-run o s u c cond run queued = (
    record s { list = put (record (next_id s.list).0 { track = u }) c },
    rw (cond, run, queued) refl,
    refl,
  )

  module _ (limit : ℕ) (small : limit < word) (num : IsPartNumbering h.part_num limit)
      (s : IsSound h.part_num limit l) (fits : offset + size < limit) where
    abbrev Zeroed : Option (Counted × Bool) → Type 0
    Zeroed o =
        (t : Counted) × (changed : Bool) × (o ≡ some (t, changed))
        × IsSound h.part_num limit t.list
        × IsZeroed (entries l) (entries t.list) offset size

    -- A range that is zero already is left alone.
    zero_already :
        (es : List (ℕ × FileBuffer)) (q : Parted 0 s.top (offset + 1) (entries l))
        → q.later ≡ es
        → (size == 0 || is_zeroed h offset size (first es)) ≡ true
        → Zeroed (removed_then (first es))
    zero_already es q e cond = (
      record { list = l; allocated = 0 },
      false,
      rw cond refl,
      s,
      record {
        inside = λ x le lt. zero_inside es q e cond x le lt;
        before = λ x lt. refl;
        after = λ x le. refl;
      },
    )
      where
        zero_inside :
            (es : List (ℕ × FileBuffer)) (q : Parted 0 s.top (offset + 1) (entries l))
            → q.later ≡ es
            → (size == 0 || is_zeroed h offset size (first es)) ≡ true
            → (x : ℕ) → offset ≤ x
            → x < offset + size
            → value_at (cell_at (entries l) x) ≡ some 0
        zero_inside [] q e cond x le lt = absurd (ground (arith, cond, le, lt))
        zero_inside ((key, b) ∷ es) q e cond x le lt =
            let tail : ChainTo q.until ((key, b) ∷ es) s.top =
              subst (λ k. ChainTo q.until k s.top) e q.second in
            let end = buf_end-eq key b (tail.0) in
            let zeroed : b.zero ≡ true = ground (arith, cond, le, lt) in
            let lo : b.offset ≤ x = ground (arith, cond, le, lt) in
            let hi : x < key = ground (arith, cond, le, lt, end) in
            let byte : value_at (some (cell_of x b)) ≡ some 0 = rw zeroed refl in
            ap value_at (
              ap (λ k. cell_at k x) (q.shape ∙ ap (λ k. q.before ++ k) e)
              ∙ cell_at-append 0 q.until s.top x q.before ((key, b) ∷ es) q.first tail
              ∙ ap (λ k. or_else k (cell_at ((key, b) ∷ es) x))
                  (cell_at-beyond 0 q.until x q.before q.first (omega (arith, q.below, le)))
              ∙ cell_at-here key x b es lo hi)
            ∙ byte

    zero_anew :
        (o : Option FileBuffer)
        → (size == 0 || is_zeroed h offset size o) ≡ false
        → Zeroed (removed_then o)
    unfolding next_id
    zero_anew o cond =
        let pos : 0 < size = ground (arith, cond) in
        let (t, run, sound, cells) =
          remove_range-IsSound h limit small num l offset size (λ k. true) s pos (omega arith) in
        let g =
          gap limit offset (offset + size) sound.top (entries t.list) sound.chain sound.below fits
            (omega arith) (λ x le lt. cells x ∙ cut-any offset (offset + size) x _ le lt) in
        let id = add64 t.list.cur_dirty_id 1 in
        let ok : (q : ℕ)
            → IsBuffer (offset + size) (record (zero_buffer offset size id) { queue_id = q }) =
          λ q. record { nonempty = pos; ends = refl; fits = omega arith; has_data = tt } in
        let moved = next_id-Holds h.part_num limit t.list (entries t.list) sound in
        let (u, c, queued, same, holds) =
          queue-Holds h limit small num (next_id t.list).0 (entries t.list) (offset + size)
            (zero_buffer offset size id) moved g ok in
        let (r, done, list) = removed-run o t u c cond run queued in
        let found =
          subst (λ k. Holds h.part_num limit k (g.before ++ (offset + size, c) ∷ g.after))
            (sym list) holds in
        (
          r,
          true,
          done,
          subst (λ k. Holds h.part_num limit r.list k) (sym found.shape) found,
          subst (λ k. IsZeroed (entries l) k offset size) (sym found.shape)
              (fill-IsZeroed limit offset size (entries l) (entries t.list) c g
                (subst (λ k. IsBuffer (offset + size) k) (sym same) (ok c.queue_id))
                (ap (λ k. k.offset) same) (ap (λ k. k.zero) same)
                (λ x lt. cells x ∙ cut-before (λ k. true) offset (offset + size) x _ lt)
                (λ x le. cells x ∙ cut-outside (λ k. true) offset (offset + size) x _ le)),
        )

    -- Let the part numbering hold below a limit below 2 ^ 64, and the buffers be in order, end below
    -- the limit and be counted in the dirty parts. `ZeroRange` of a range that ends below the limit
    -- does not panic and keeps all that; after it each byte of the range is zero, and outside the range
    -- there is what there was.
    pub zero_range-IsSound :
        (t : Counted) × (changed : Bool) × (zero_range h l offset size ≡ some (t, changed))
        × IsSound h.part_num limit t.list
        × IsZeroed (entries l) (entries t.list) offset size
    zero_range-IsSound =
        let q = parted 0 s.top (offset + 1) (entries l) s.chain (omega arith) in
        let visited = zero_range-visited q.later (omega arith) q.visited in
        elim (Bool-cases (size == 0 || is_zeroed h offset size (first q.later))) [
          | inl e ↦ subst Zeroed (sym visited) (zero_already q.later q refl e)
          | inr e ↦ subst Zeroed (sym visited) (zero_anew (first q.later) e)
        ]
