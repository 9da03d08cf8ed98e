-- ===== src/BufferList/Removal.antt =====
-- core/buffer_list.go: `RemoveRange` of a list of buffers.
use akavefs.Prelude.{
  ℕ, ◌+◌, ◌<◌, ◌≡◌, ◌∙◌, refl, ap, sym, subst, Bool, inl, inr, Option, none, some, List, [], ◌∷◌,
  length, arith, word, Bool-cases, leb, add64, add64-eq,
}
use akavefs.BTree.{BTree, from, IsAbove}
use akavefs.PartNumbering.{IsPartNumbering}
use akavefs.BufferList.{BufferState, FileBuffer, BufferListHelpers, BufferList}
use akavefs.BufferList.Walk.{ascend_change}
use akavefs.BufferList.Ops.{Counted, remove_range}
use akavefs.BufferList.Places.{ChainTo, cell_at, parted}
use akavefs.BufferList.Sound.{entries, Holds}
use akavefs.BufferList.Cells.{cut, cut-append}
use akavefs.BufferList.Visits.{ChainTo-IsAbove, removal}
use akavefs.BufferList.Removing.{removal-Walked}

-- The buffers of a list are in order and end below the limit, and the dirty parts are counted.
abbrev pub IsSound : ⦃bt : BTree⦄ → (ℕ → Option ℕ) → ℕ → BufferList → Type 0
IsSound part_num limit l = Holds part_num limit l (entries l)

pub from-IsAbove :
    (p lo hi : ℕ) (es : List (ℕ × FileBuffer)) → ChainTo lo es hi → IsAbove p (from (p + 1) es)
from-IsAbove p lo hi [] c = tt
from-IsAbove p lo hi ((key, b) ∷ es) c = elim (Bool-cases (leb (p + 1) key)) [
  | inl e ↦ rw e (ground (arith, e), ChainTo-IsAbove key hi es (c.2))
  | inr e ↦ rw e (from-IsAbove p key hi es (c.2))
]

module _ ⦃bt : BTree⦄ (h : BufferListHelpers) (limit : ℕ) (small : limit < word)
    (num : IsPartNumbering h.part_num limit) where
  -- Let the part numbering hold below a limit below 2 ^ 64, and the buffers be in order, end below the
  -- limit and be counted in the dirty parts. For a range that is not empty and ends below 2 ^ 64, and a
  -- filter by the state of a buffer, `RemoveRange` does not panic and keeps all that; in the range
  -- nothing is left of the buffers that the filter takes, and there is no other change at any offset.
  pub remove_range-IsSound :
      (l : BufferList) (offset size : ℕ) (pick : BufferState → Bool)
      → IsSound h.part_num limit l
      → 0 < size
      → offset + size < word
      → (s : Counted) × (remove_range h l offset size (λ b. pick b.state) ≡ some s)
        × IsSound h.part_num limit s.list
        × ((x : ℕ)
            → cell_at (entries s.list) x
              ≡ cut pick offset (offset + size) x (cell_at (entries l) x))
  unfolding remove_range ascend_change
  remove_range-IsSound l offset size pick s pos fits =
      let q = parted 0 s.top (offset + 1) (entries l) s.chain (omega arith) in
      let end : add64 offset size ≡ offset + size = add64-eq offset size fits in
      let start : add64 offset 1 ≡ offset + 1 = add64-eq offset 1 (omega arith) in
      let visited : bt.ascend l.at (offset + 1) ≡ q.later =
        bt.ascend-from l.at (offset + 1) ∙ q.visited in
      let w =
        removal-Walked h pick offset (offset + size) limit small num (omega arith) q.later q.before
          (length q.later) none offset (record { list = l; allocated = 0 })
          (subst (λ k. Holds h.part_num limit l k) q.shape s) (omega arith) (omega arith)
          (subst (λ k. IsAbove offset k) q.visited
            (from-IsAbove offset 0 s.top (entries l) s.chain))
          (λ k lt. refl) in
      let found = w.holds in
      (
        w.state,
        ap
              (λ hi.
                removal h pick offset hi (length (bt.ascend l.at (add64 offset 1))) none
                  (bt.ascend l.at (add64 offset 1)) (record { list = l; allocated = 0 }))
              end
            ∙ ap
                (λ k.
                  removal h pick offset (offset + size) (length (bt.ascend l.at k)) none
                    (bt.ascend l.at k) (record { list = l; allocated = 0 }))
                start
            ∙ ap
                (λ k.
                  removal h pick offset (offset + size) (length k) none k
                    (record { list = l; allocated = 0 }))
                visited
            ∙ w.run,
        subst (λ k. Holds h.part_num limit w.state.list k) (sym found.shape) found,
        λ x.
            ap (λ k. cell_at k x) found.shape
            ∙ w.cells x
            ∙ cut-append pick offset (offset + size) q.until s.top x q.before q.later q.first
                q.second (omega (arith, q.below))
            ∙ ap (λ k. cut pick offset (offset + size) x (cell_at k x)) (sym q.shape),
      )
