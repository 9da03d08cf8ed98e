-- ===== src/BufferList/Queueing.antt =====
-- core/buffer_list.go: the halves of a buffer in the map and in the counts.
use akavefs.Prelude.{
  ℕ, ◌+◌, ◌-◌, ◌<◌, ◌≡◌, ◌∙◌, ap, Option, some, List, ◌∷◌, ◌++◌, arith, word, sub64, add64,
}
use akavefs.BTree.{BTree, insert}
use akavefs.PartNumbering.{IsPartNumbering}
use akavefs.BufferList.{Slice, FileBuffer, BufferListHelpers, Tracker, BufferList}
use akavefs.BufferList.Track.{requeue_split}
use akavefs.BufferList.Edit.{buf_end, put}
use akavefs.BufferList.Shape.{IsBuffer, buf_end-eq}
use akavefs.BufferList.Spans.{part_refs, IsPlaced}
use akavefs.BufferList.Counting.{refs, IsCounted}
use akavefs.BufferList.Parts.{requeue_split-refs}
use akavefs.BufferList.Requeued.{IsRequeued, requeue_split-IsRequeued}
use akavefs.BufferList.Places.{ChainTo, ChainTo-append, insert-append, refs_sum, refs_sum-append}
use akavefs.BufferList.Sound.{entries, Holds}
use akavefs.BufferList.Halves.{left_half, right_half}

insert-halves :
    (pre : List (ℕ × FileBuffer)) (key : ℕ) (b : FileBuffer) (es : List (ℕ × FileBuffer)) (off : ℕ)
    (left right : FileBuffer)
    → ChainTo 0 pre b.offset
    → b.offset < off
    → off < key
    → insert off left (insert key right (pre ++ (key, b) ∷ es))
      ≡ pre ++ (off, left) ∷ (key, right) ∷ es
insert-halves pre key b es off left right c lo hi =
    let at : insert key right ((key, b) ∷ es) ≡ (key, right) ∷ es = ground arith in
    let before : insert off left ((key, right) ∷ es) ≡ (off, left) ∷ (key, right) ∷ es =
      ground arith in
    ap (insert off left) (
      insert-append 0 b.offset key right pre ((key, b) ∷ es) c (omega arith)
      ∙ ap (λ k. pre ++ k) at)
    ∙ insert-append 0 b.offset off left pre ((key, right) ∷ es) c lo
    ∙ ap (λ k. pre ++ k) before

module _ ⦃bt : BTree⦄ where
  -- The halves stand under their keys.
  pub put_halves-Holds :
      (part_num : ℕ → Option ℕ) (limit top : ℕ) (l : BufferList) (pre : List (ℕ × FileBuffer))
      (key : ℕ) (b : FileBuffer) (es : List (ℕ × FileBuffer)) (off : ℕ) (left right : FileBuffer)
      → entries l ≡ pre ++ (key, b) ∷ es
      → top < limit
      → ChainTo 0 pre b.offset
      → ChainTo key es top
      → IsBuffer off left
      → IsBuffer key right
      → left.offset ≡ b.offset
      → right.offset ≡ off
      → b.offset < off
      → off < key
      → IsCounted l.track
      → ((j : ℕ)
          → refs l.track j + part_refs part_num b j
            ≡ refs_sum part_num (pre ++ (key, b) ∷ es) j
              + part_refs part_num left j
              + part_refs part_num right j)
      → Holds part_num limit (put (put l right) left) (pre ++ (off, left) ∷ (key, right) ∷ es)
  unfolding refs_sum
  put_halves-Holds part_num limit top l pre key b es off left right shape below before after v w at
        at' lo hi counted sums =
      record {
        shape =
            bt.ascend-set (put l right).at (buf_end left) left
            ∙ ap (insert (buf_end left) left)
                (bt.ascend-set l.at (buf_end right) right ∙ ap (insert (buf_end right) right) shape)
            ∙ ap (λ k. insert k left (insert (buf_end right) right (pre ++ (key, b) ∷ es)))
                (buf_end-eq off left v)
            ∙ ap (λ k. insert off left (insert k right (pre ++ (key, b) ∷ es)))
                (buf_end-eq key right w)
            ∙ insert-halves pre key b es off left right before lo hi;
        top = top;
        below = below;
        chain =
            ChainTo-append 0 b.offset top pre ((off, left) ∷ (key, right) ∷ es) before
              (v, omega arith, (w, omega arith, after));
        tracked = record {
          counted = counted;
          counts = λ j. omega (
            arith,
            sums j,
            refs_sum-append part_num pre ((key, b) ∷ es) j,
            refs_sum-append part_num pre ((off, left) ∷ (key, right) ∷ es) j,
          );
        };
      }

  module _ (h : BufferListHelpers) (limit : ℕ) (small : limit < word)
      (num : IsPartNumbering h.part_num limit) where
    -- The left half is queued again, and the halves are counted in place of the whole.
    pub left_back_in_queue :
        (t : Tracker) (b : FileBuffer) (off id : ℕ) (ld rd : Option Slice)
        → IsPlaced limit b
        → b.offset < off
        → off < b.offset + b.length
        → IsCounted t
        → ((j : ℕ) → refs t j + 1 < word)
        → (u : Tracker) × (c : FileBuffer) × (requeue_split h t (left_half b off ld) ≡ some (u, c))
          × IsRequeued (left_half b off ld) u c
          × ((j : ℕ)
              → refs u j + part_refs h.part_num b j
                ≡ refs t j
                  + part_refs h.part_num c j
                  + part_refs h.part_num (right_half b off rd id) j)
    left_back_in_queue t b off id ld rd placed lo hi counted room =
        let below = placed.below in
        let b' = record b { slice = ld } in
        let (u, c, run, sums) =
          requeue_split-refs h limit small num t b' off
            (record { nonempty = placed.nonempty; below = placed.below }) lo hi room in
        let n : sub64 off b.offset ≡ off - b.offset = omega arith in
        let m : sub64 (add64 b.offset b.length) off ≡ b.offset + b.length - off = omega arith in
        let run' : requeue_split h t (left_half b off ld) ≡ some (u, c) =
          ap (λ k. requeue_split h t (record b' { length = k })) n ∙ run in
        let q = requeue_split-IsRequeued h t (left_half b off ld) counted room u c run' in
        (
          u,
          c,
          run',
          q,
          λ j.
              let left_part : part_refs h.part_num c j
                  ≡ part_refs h.part_num (record b' { length = off - b.offset }) j =
                ap (λ k. part_refs h.part_num k j) q.same
                ∙ ap (λ k. part_refs h.part_num (record b' { length = k }) j) n in
              let right_part : part_refs h.part_num (right_half b off rd id) j
                  ≡ part_refs h.part_num
                      (record b' { offset = off; length = b.offset + b.length - off }) j =
                ap (λ k. part_refs h.part_num (record b' { offset = off; length = k }) j) m in
              omega (arith, sums j, left_part, right_part),
        )
