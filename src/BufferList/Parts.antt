-- ===== src/BufferList/Parts.antt =====
-- core/buffer_list.go: `queue`, `unqueue` and `requeueSplit` keep, for each part, the number of the
-- dirty buffers that have a byte in it.
use akavefs.Prelude.{
  ℕ, ◌+◌, ◌-◌, ◌≤◌, ◌<◌, ◌≡◌, ◌∙◌, refl, ap, sym, inl, inr, some, arith, word, Bool-cases, add64,
  some_unique,
}
use akavefs.BTree.{BTree}
use akavefs.PartNumbering.{IsPartNumbering}
use akavefs.BufferList.{FileBuffer, BufferListHelpers, Tracker}
use akavefs.BufferList.Track.{
  rounds, reference_parts, unqueue, queue, requeue_split, is_dirty, is_queued, add_unclean,
  sub_unclean, queue_add,
}
use akavefs.BufferList.Counting.{among, refs, reference_parts-refs, IsCounted, release_parts-refs}
use akavefs.BufferList.Spans.{
  part_refs, IsPlaced, among-one, among-split, spans, part_refs-dirty, part_refs-other,
}
use akavefs.BufferList.Branches.{
  reference_if-refs, add_unclean-refs, sub_unclean-refs, sub_unclean-IsCounted, queue-dirty,
  queue-queued, queue-other, unqueue-dirty, unqueue-queued, unqueue-other, requeue_split-dirty,
  requeue_split-queued, requeue_split-other,
}

module _ ⦃bt : BTree⦄ (h : BufferListHelpers) (limit : ℕ) (small : limit < word)
    (num : IsPartNumbering h.part_num limit) where
  -- The counts of a tracker leave room for one more.
  abbrev pub HasRoom : Tracker → Type 0
  HasRoom t = (j : ℕ) → refs t j + 1 < word

  -- To queue a dirty buffer adds one to the count of each part where it has a byte, and changes no
  -- other count; a buffer that is not dirty changes none. It does not panic.
  pub queue-refs :
      (t : Tracker) (b : FileBuffer)
      → IsPlaced limit b
      → HasRoom t
      → (u : Tracker) × (c : FileBuffer) × (queue h t b ≡ some (u, c))
        × ((j : ℕ) → refs u j ≡ refs t j + part_refs h.part_num b j)
  unfolding queue queue_add
  queue-refs t b v room =
      let s = spans h.part_num limit small num b v in
      elim (Bool-cases (is_dirty b.state)) [
        | inl d ↦ (
          reference_parts (rounds s.sp s.ep) s.sp (add_unclean t b),
          b,
          queue-dirty h t b s.sp s.ep s.some_bytes d s.first s.last64,
          λ j.
              let same = add_unclean-refs t b j in
              let own = part_refs-dirty h.part_num b s.sp s.ep j d s.first s.last s.ordered in
              let new =
                reference_parts-refs (rounds s.sp s.ep) s.sp (add_unclean t b) j
                  (λ k p. omega (arith, room k, add_unclean-refs t b k)) in
              omega arith,
        )
        | inr d ↦ elim (Bool-cases (is_queued b.state)) [
          | inl q ↦ (
            _,
            _,
            queue-queued h t b s.some_bytes d q,
            λ j. omega (arith, part_refs-other h.part_num b j d, add_unclean-refs t b j),
          )
          | inr q ↦ (
            add_unclean t b,
            b,
            queue-other h t b s.some_bytes d q,
            λ j. omega (arith, part_refs-other h.part_num b j d, add_unclean-refs t b j),
          )
        ]
      ]

  -- To unqueue a buffer takes from the counts what `queue` adds. It does not panic as long as each
  -- part where a dirty buffer has a byte is counted, and it keeps the table free of zero counts.
  pub unqueue-refs :
      (t : Tracker) (b : FileBuffer)
      → IsPlaced limit b
      → IsCounted t
      → ((j : ℕ) → part_refs h.part_num b j ≤ refs t j)
      → (u : Tracker) × (unqueue h t b ≡ some u)
        × IsCounted u
        × ((j : ℕ) → refs u j + part_refs h.part_num b j ≡ refs t j)
  unqueue-refs t b v c counted =
      let s = spans h.part_num limit small num b v in
      elim (Bool-cases (is_dirty b.state)) [
        | inl d ↦
            let own : (k : ℕ) → part_refs h.part_num b k ≡ among (rounds s.sp s.ep) s.sp k =
              λ k. part_refs-dirty h.part_num b s.sp s.ep k d s.first s.last s.ordered in
            let (u, run, c', r) =
              release_parts-refs (rounds s.sp s.ep) s.sp (sub_unclean t b)
                (sub_unclean-IsCounted t b c)
                (λ k p q.
                  let one = among-one (rounds s.sp s.ep) s.sp k p q in
                  omega (arith, counted k, own k, sub_unclean-refs t b k)) in
            (
              u,
              unqueue-dirty h t b s.sp s.ep d s.first s.last64 ∙ run,
              c',
              λ j. omega (arith, r j, own j, sub_unclean-refs t b j),
            )
        | inr d ↦ elim (Bool-cases (is_queued b.state)) [
          | inl q ↦ (
            _,
            unqueue-queued h t b d q,
            sub_unclean-IsCounted t b c,
            λ j. omega (arith, part_refs-other h.part_num b j d, sub_unclean-refs t b j),
          )
          | inr q ↦ (
            sub_unclean t b,
            unqueue-other h t b d q,
            sub_unclean-IsCounted t b c,
            λ j. omega (arith, part_refs-other h.part_num b j d, sub_unclean-refs t b j),
          )
        ]
      ]

  -- Let the part numbering hold below a limit below 2 ^ 64, a buffer end below the limit and be split
  -- inside, and the counts have room for one more. `requeueSplit` of the left half does not panic; the
  -- counts grow by what the two halves need beyond what the whole needed.
  pub requeue_split-refs :
      (t : Tracker) (b : FileBuffer) (off : ℕ)
      → IsPlaced limit b
      → b.offset < off
      → off < b.offset + b.length
      → HasRoom t
      → (u : Tracker) × (c : FileBuffer) × (requeue_split h t (record b { length = off - b.offset })
          ≡ some (u, c))
        × ((j : ℕ)
            → refs u j + part_refs h.part_num b j
              ≡ refs t j
                + part_refs h.part_num (record b { length = off - b.offset }) j
                + part_refs h.part_num
                    (record b { offset = off; length = b.offset + b.length - off })
                    j)
  requeue_split-refs t b off v lo hi room =
      let pos = v.nonempty in
      let below = v.below in
      let left : FileBuffer = record b { length = off - b.offset } in
      let right : FileBuffer = record b { offset = off; length = b.offset + b.length - off } in
      let s = spans h.part_num limit small num b v in
      let l =
        spans h.part_num limit small num left
          (record { nonempty = omega arith; below = omega arith }) in
      let r =
        spans h.part_num limit small num right
          (record { nonempty = omega arith; below = omega arith }) in
      let cut : b.offset + (off - b.offset) ≡ off = omega arith in
      let first : h.part_num (add64 b.offset (off - b.offset)) ≡ some r.sp =
        ap h.part_num (omega arith) ∙ r.first in
      let same_end : s.ep ≡ r.ep = some_unique s.last (ap h.part_num (omega arith) ∙ r.last) in
      let same_start : s.sp ≡ l.sp = some_unique s.first l.first in
      let step =
        num.next (off - 1) l.ep r.sp (omega arith) (ap h.part_num (omega arith) ∙ l.last)
          (ap h.part_num (omega arith) ∙ r.first) in
      elim (Bool-cases (is_dirty b.state)) [
        | inl d ↦ (
          _,
          left,
          requeue_split-dirty h t left l.ep r.sp l.some_bytes d l.last64 first,
          λ j.
              let same = add_unclean-refs t left j in
              let whole = part_refs-dirty h.part_num b s.sp s.ep j d s.first s.last s.ordered in
              let one = part_refs-dirty h.part_num left l.sp l.ep j d l.first l.last l.ordered in
              let two = part_refs-dirty h.part_num right r.sp r.ep j d r.first r.last r.ordered in
              let o = l.ordered in
              let o' = r.ordered in
              let meet =
                among-split s.sp s.ep l.ep r.sp j (omega arith) (omega arith) (omega arith)
                  (omega arith) in
              let new =
                reference_if-refs (add_unclean t left) l.ep r.sp j
                  (omega (arith, room l.ep, add_unclean-refs t left l.ep)) in
              let l_run : among (rounds l.sp l.ep) l.sp j ≡ among (rounds s.sp l.ep) s.sp j =
                ap (λ x. among (rounds x l.ep) x j) (sym same_start) in
              let r_run : among (rounds r.sp r.ep) r.sp j ≡ among (rounds r.sp s.ep) r.sp j =
                ap (λ x. among (rounds r.sp x) r.sp j) (sym same_end) in
              omega arith,
        )
        | inr d ↦
            let none_of : (c : FileBuffer) (j : ℕ)
                → c.state ≡ b.state
                → part_refs h.part_num c j ≡ 0 =
              λ c j e. part_refs-other h.part_num c j (ap is_dirty e ∙ d) in
            elim (Bool-cases (is_queued b.state)) [
              | inl q ↦ (
                _,
                _,
                requeue_split-queued h t left l.some_bytes d q,
                λ j. omega (
                  arith,
                  none_of b j refl,
                  none_of left j refl,
                  none_of right j refl,
                  add_unclean-refs t left j,
                ),
              )
              | inr q ↦ (
                _,
                _,
                requeue_split-other h t left l.some_bytes d q,
                λ j. omega (
                  arith,
                  none_of b j refl,
                  none_of left j refl,
                  none_of right j refl,
                  add_unclean-refs t left j,
                ),
              )
            ]
      ]
