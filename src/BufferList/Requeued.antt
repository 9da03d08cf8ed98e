-- ===== src/BufferList/Requeued.antt =====
-- core/buffer_list.go: what `queue` and `requeueSplit` do to the table of dirty parts and to a buffer.
use akavefs.Prelude.{
  ℕ, zero, suc, ◌+◌, ◌≤◌, ◌<◌, ◌≡◌, refl, subst, inl, inr, Option, some, arith, word, Bool-cases,
  Option-cases, add64, sub64, some_unique, ◌==◌,
}
use akavefs.BTree.{BTree}
use akavefs.BufferList.{FileBuffer, BufferListHelpers, Tracker}
use akavefs.BufferList.Track.{
  rounds, reference_dirty_part, reference_parts, queue, requeue_split, is_dirty, is_queued,
  is_clean, add_unclean, queue_add,
}
use akavefs.BufferList.Counting.{refs, IsCounted, reference_dirty_part-refs}

module _ ⦃bt : BTree⦄ where
  reference_dirty_part-IsCounted :
      (t : Tracker) (part : ℕ)
      → IsCounted t
      → refs t part + 1 < word
      → IsCounted (reference_dirty_part t part)
  unfolding reference_dirty_part
  reference_dirty_part-IsCounted t part c room j p e = elim (Option-cases (t.dirty_parts part)) [
    | inl gone ↦
        let e' = rw (reference_dirty_part, gone) at e in
        let known = c j p in ground (arith, e', known)
    | inr (q, there) ↦
        let e' = rw (reference_dirty_part, there) at e in
        let known = c j p in
        let old = c part q there in let r = rw there at room in ground (arith, e', known, old, r)
  ]

  reference_parts-IsCounted :
      (n first : ℕ) (t : Tracker)
      → IsCounted t
      → ((k : ℕ) → first ≤ k → refs t k + 1 < word)
      → IsCounted (reference_parts n first t)
  unfolding reference_parts
  reference_parts-IsCounted zero first t c room = c
  reference_parts-IsCounted (suc n) first t c room =
      reference_parts-IsCounted n (first + 1) (reference_dirty_part t first)
        (reference_dirty_part-IsCounted t first c (room first (omega arith)))
        (λ k p.
          let same = reference_dirty_part-refs t first k (room first (omega arith)) in
          let b = room k (omega arith) in ground arith)

  add_unclean-IsCounted : (t : Tracker) (b : FileBuffer) → IsCounted t → IsCounted (add_unclean t b)
  unfolding add_unclean
  add_unclean-IsCounted t b c = elim (Bool-cases (is_clean b.state)) [
    | inl e ↦ rw e c
    | inr e ↦ rw e c
  ]

  add_unclean-room : (t : Tracker) (b : FileBuffer) (j : ℕ) → refs (add_unclean t b) j ≡ refs t j
  unfolding add_unclean
  add_unclean-room t b j = elim (Bool-cases (is_clean b.state)) [
    | inl e ↦ rw e refl
    | inr e ↦ rw e refl
  ]

  -- The table is counted, and only the number in the clean queue may be new.
  pub record IsRequeued (b : FileBuffer) (u : Tracker) (c : FileBuffer) : Type 0 where
    pub counted : IsCounted u
    pub same : c ≡ record b { queue_id = c.queue_id }

  module _ (h : BufferListHelpers) (t : Tracker) (b : FileBuffer) (counted : IsCounted t)
      (room : (k : ℕ) → refs t k + 1 < word) where
    room' : (k : ℕ) → refs (add_unclean t b) k + 1 < word
    room' k = let s = add_unclean-room t b k in omega (arith, room k)

    abbrev From : Option (Tracker × FileBuffer) → Type 0
    From o = (u : Tracker) (c : FileBuffer) → o ≡ some (u, c) → IsRequeued b u c

    From-some :
        (v : Tracker) (d : FileBuffer)
        → IsCounted v
        → d ≡ record b { queue_id = d.queue_id }
        → From (some (v, d))
    From-some v d k s u c e =
        subst (λ q. IsRequeued b (q.0) (q.1)) (some_unique refl e)
          (record { counted = k; same = s })

    unclean-IsCounted : IsCounted (add_unclean t b)
    unclean-IsCounted = add_unclean-IsCounted t b counted

    -- The tracker does not depend on the queue of clean buffers.
    pub queue-IsRequeued :
        (u : Tracker) (c : FileBuffer) → queue h t b ≡ some (u, c) → IsRequeued b u c
    unfolding queue queue_add
    queue-IsRequeued u c e = elim (Bool-cases (b.length == 0)) [
      | inl empty ↦ absurd (let k = rw (queue, empty) at e in cc)
      | inr some_bytes ↦ elim (Bool-cases (is_dirty b.state)) [
        | inr other ↦ elim (Bool-cases (is_queued b.state)) [
          | inl q ↦ From-some _ _ unclean-IsCounted refl u c (rw (queue, some_bytes, other, q) at e)
          | inr q ↦ From-some _ _ unclean-IsCounted refl u c (rw (queue, some_bytes, other, q) at e)
        ]
        | inl dirty ↦ elim (Option-cases (h.part_num b.offset)) [
          | inl out ↦ absurd (let k = rw (queue, some_bytes, dirty, out) at e in cc)
          | inr (sp, first) ↦ elim (Option-cases (h.part_num (sub64 (add64 b.offset b.length) 1))) [
            | inl out ↦ absurd (let k = rw (queue, some_bytes, dirty, first, out) at e in cc)
            | inr (ep, last) ↦
                From-some _ _
                  (reference_parts-IsCounted (rounds sp ep) sp (add_unclean t b) unclean-IsCounted
                    (λ k p. room' k))
                  refl u c (rw (queue, some_bytes, dirty, first, last) at e)
          ]
        ]
      ]
    ]

    pub requeue_split-IsRequeued :
        (u : Tracker) (c : FileBuffer) → requeue_split h t b ≡ some (u, c) → IsRequeued b u c
    unfolding requeue_split queue_add
    requeue_split-IsRequeued u c e = elim (Bool-cases (b.length == 0)) [
      | inl empty ↦ absurd (let k = rw (requeue_split, empty) at e in cc)
      | inr some_bytes ↦ elim (Bool-cases (is_dirty b.state)) [
        | inr other ↦ elim (Bool-cases (is_queued b.state)) [
          | inl q ↦
              From-some _ _ unclean-IsCounted refl u c
                (rw (requeue_split, some_bytes, other, q) at e)
          | inr q ↦
              From-some _ _ unclean-IsCounted refl u c
                (rw (requeue_split, some_bytes, other, q) at e)
        ]
        | inl dirty ↦ elim (Option-cases (h.part_num (sub64 (add64 b.offset b.length) 1))) [
          | inl out ↦ absurd (let k = rw (requeue_split, some_bytes, dirty, out) at e in cc)
          | inr (lbound, last) ↦ elim (Option-cases (h.part_num (add64 b.offset b.length))) [
            | inl out ↦ absurd (let k = rw (requeue_split, some_bytes, dirty, last, out) at e in cc)
            | inr (rbound, next) ↦ elim (Bool-cases (lbound == rbound)) [
              | inl shared ↦
                  From-some _ _
                    (reference_dirty_part-IsCounted (add_unclean t b) lbound unclean-IsCounted
                      (room' lbound))
                    refl u c (rw (requeue_split, some_bytes, dirty, last, next, shared) at e)
              | inr apart ↦
                  From-some _ _ unclean-IsCounted refl u c
                    (rw (requeue_split, some_bytes, dirty, last, next, apart) at e)
            ]
          ]
        ]
      ]
    ]
