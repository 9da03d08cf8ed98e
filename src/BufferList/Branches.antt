-- ===== src/BufferList/Branches.antt =====
-- core/buffer_list.go: `queue`, `unqueue` and `requeueSplit`, branch by branch.
use akavefs.Prelude.{
  ℕ, ◌+◌, ◌<◌, ◌≡◌, true, false, inl, inr, some, arith, word, ◌==◌, if◌then◌else◌, Bool-cases,
  sub64, add64,
}
use akavefs.BTree.{BTree}
use akavefs.BufferList.{FileBuffer, BufferListHelpers, Tracker}
use akavefs.BufferList.Track.{
  rounds, reference_dirty_part, reference_parts, release_parts, unqueue, queue, requeue_split,
  is_clean, is_dirty, is_queued, add_unclean, sub_unclean, queue_add, queue_delete,
}
use akavefs.BufferList.Counting.{refs, reference_dirty_part-refs, IsCounted}

module _ ⦃bt : BTree⦄ where
  pub reference_if-refs :
      (t : Tracker) (mid next j : ℕ)
      → refs t mid + 1 < word
      → refs (if mid == next then reference_dirty_part t mid else t) j
        ≡ refs t j + (if mid == next then (if j == mid then 1 else 0) else 0)
  reference_if-refs t mid next j room = elim (Bool-cases (mid == next)) [
    | inl e ↦ rw e (reference_dirty_part-refs t mid j room)
    | inr e ↦ rw e (omega arith)
  ]

  pub add_unclean-refs :
      (t : Tracker) (b : FileBuffer) (j : ℕ) → refs (add_unclean t b) j ≡ refs t j
  unfolding add_unclean
  add_unclean-refs t b j = elim (Bool-cases (is_clean b.state)) [ inl e ↦ rw e | inr e ↦ rw e ]

  pub sub_unclean-refs :
      (t : Tracker) (b : FileBuffer) (j : ℕ) → refs (sub_unclean t b) j ≡ refs t j
  unfolding sub_unclean
  sub_unclean-refs t b j = elim (Bool-cases (is_clean b.state)) [ inl e ↦ rw e | inr e ↦ rw e ]

  pub sub_unclean-IsCounted :
      (t : Tracker) (b : FileBuffer) → IsCounted t → IsCounted (sub_unclean t b)
  unfolding sub_unclean
  sub_unclean-IsCounted t b c = elim (Bool-cases (is_clean b.state)) [
    | inl e ↦ rw e c
    | inr e ↦ rw e c
  ]

-- What each operation returns, branch by branch.
module _ ⦃bt : BTree⦄ (h : BufferListHelpers) (t : Tracker) (b : FileBuffer) where
  pub queue-dirty :
      (sp ep : ℕ)
      → (b.length == 0) ≡ false
      → is_dirty b.state ≡ true
      → h.part_num b.offset ≡ some sp
      → h.part_num (sub64 (add64 b.offset b.length) 1) ≡ some ep
      → queue h t b ≡ some (reference_parts (rounds sp ep) sp (add_unclean t b), b)
  unfolding queue
  queue-dirty sp ep n d e f = rw (n, d, e, f)

  pub queue-queued :
      (b.length == 0) ≡ false
      → is_dirty b.state ≡ false
      → is_queued b.state ≡ true
      → queue h t b
        ≡ some (
          record (add_unclean t b) { queue = (queue_add (add_unclean t b).queue h.inode b).0 },
          (queue_add (add_unclean t b).queue h.inode b).1,
        )
  unfolding queue
  queue-queued n d q = rw (n, d, q)

  pub queue-other :
      (b.length == 0) ≡ false
      → is_dirty b.state ≡ false
      → is_queued b.state ≡ false
      → queue h t b ≡ some (add_unclean t b, b)
  unfolding queue
  queue-other n d q = rw (n, d, q)

  pub unqueue-dirty :
      (sp ep : ℕ)
      → is_dirty b.state ≡ true
      → h.part_num b.offset ≡ some sp
      → h.part_num (sub64 (add64 b.offset b.length) 1) ≡ some ep
      → unqueue h t b ≡ release_parts (rounds sp ep) sp (sub_unclean t b)
  unfolding unqueue
  unqueue-dirty sp ep d e f = rw (d, e, f)

  pub unqueue-queued :
      is_dirty b.state ≡ false
      → is_queued b.state ≡ true
      → unqueue h t b
        ≡ some (record (sub_unclean t b) { queue = queue_delete (sub_unclean t b).queue b })
  unfolding unqueue
  unqueue-queued d q = rw (d, q)

  pub unqueue-other :
      is_dirty b.state ≡ false → is_queued b.state ≡ false → unqueue h t b ≡ some (sub_unclean t b)
  unfolding unqueue
  unqueue-other d q = rw (d, q)

  pub requeue_split-dirty :
      (lbound rbound : ℕ)
      → (b.length == 0) ≡ false
      → is_dirty b.state ≡ true
      → h.part_num (sub64 (add64 b.offset b.length) 1) ≡ some lbound
      → h.part_num (add64 b.offset b.length) ≡ some rbound
      → requeue_split h t b
        ≡ some (
          (if lbound == rbound
              then reference_dirty_part (add_unclean t b) lbound
              else add_unclean t b),
          b,
        )
  unfolding requeue_split
  requeue_split-dirty l r n d e f = rw (n, d, e, f)

  pub requeue_split-queued :
      (b.length == 0) ≡ false
      → is_dirty b.state ≡ false
      → is_queued b.state ≡ true
      → requeue_split h t b
        ≡ some (
          record (add_unclean t b) { queue = (queue_add (add_unclean t b).queue h.inode b).0 },
          (queue_add (add_unclean t b).queue h.inode b).1,
        )
  unfolding requeue_split
  requeue_split-queued n d q = rw (n, d, q)

  pub requeue_split-other :
      (b.length == 0) ≡ false
      → is_dirty b.state ≡ false
      → is_queued b.state ≡ false
      → requeue_split h t b ≡ some (add_unclean t b, b)
  unfolding requeue_split
  requeue_split-other n d q = rw (n, d, q)
