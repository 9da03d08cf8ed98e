-- ===== src/BufferList/Balanced.antt =====
-- core/buffer_list.go: `unqueue` of a buffer that was queued.
use akavefs.Prelude.{ℕ, ◌+◌, ◌≤◌, ◌<◌, ◌≡◌, ap, sym, subst, some, arith, word}
use akavefs.BTree.{BTree}
use akavefs.PartNumbering.{IsPartNumbering}
use akavefs.BufferList.{FileBuffer, BufferListHelpers, Tracker}
use akavefs.BufferList.Track.{unqueue, queue}
use akavefs.BufferList.Counting.{refs, IsCounted}
use akavefs.BufferList.Spans.{part_refs, IsPlaced}
use akavefs.BufferList.Parts.{queue-refs, unqueue-refs}
use akavefs.BufferList.Requeued.{queue-IsRequeued}

module _ ⦃bt : BTree⦄ (h : BufferListHelpers) (limit : ℕ) (small : limit < word)
    (num : IsPartNumbering h.part_num limit) where
  -- Let the part numbering hold below a limit below 2 ^ 64, a buffer be not empty and end below the limit,
  -- and each part's count be from 1 to below 2 ^ 64 - 1 where it has one. Then `queue` of the buffer does not
  -- panic, and takes no reference from a part. Let a later state have its parts counted as well, with at
  -- least the references that `queue` added; then `unqueue` of the queued buffer does not panic there,
  -- keeps the parts counted, and takes from each part exactly the references that `queue` added.
  pub unqueue-queue :
      (t v : Tracker) (b : FileBuffer)
      → IsPlaced limit b
      → IsCounted t
      → ((j : ℕ) → refs t j + 1 < word)
      → IsCounted v
      → ((u : Tracker) (c : FileBuffer)
          → queue h t b ≡ some (u, c)
          → (j : ℕ) → refs u j ≤ refs t j + refs v j)
      → (u : Tracker) × (c : FileBuffer) × (w : Tracker) × (queue h t b ≡ some (u, c))
        × (unqueue h v c ≡ some w)
        × IsCounted u
        × IsCounted w
        × ((j : ℕ) → (refs t j ≤ refs u j) × (refs w j + refs u j ≡ refs v j + refs t j))
  unqueue-queue t v b placed counted room ok enough =
      let (u, c, run, sums) = queue-refs h limit small num t b placed room in
      let q = queue-IsRequeued h t b counted room u c run in
      let same : (j : ℕ) → part_refs h.part_num c j ≡ part_refs h.part_num b j =
        λ j. ap (λ k. part_refs h.part_num k j) q.same in
      let placed' : IsPlaced limit c =
        subst (λ k. IsPlaced limit k) (sym q.same)
          (record { nonempty = placed.nonempty; below = placed.below }) in
      let (w, back, ok', less) =
        unqueue-refs h limit small num v c placed' ok
          (λ j. omega (arith, enough u c run j, sums j, same j)) in
      (
        u,
        c,
        w,
        run,
        back,
        q.counted,
        ok',
        λ j. (omega (arith, sums j), omega (arith, less j, sums j, same j)),
      )
