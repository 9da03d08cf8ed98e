-- ===== src/BufferList/Splitting.antt =====
-- core/buffer_list.go: `split` of a buffer in a list, with the data, the pointer, the number and the
-- queues of the halves.
use akavefs.Prelude.{
  ℕ, ◌≤◌, ◌<◌, ◌≡◌, ◌∙◌, refl, ap, sym, subst, inl, inr, Option, some, List, ◌∷◌, ◌++◌, arith, word,
  Bool-cases, Option-cases, ◌==◌, if◌then◌else◌, sub64,
}
use akavefs.BTree.{BTree}
use akavefs.PartNumbering.{IsPartNumbering}
use akavefs.BufferList.{Slice, FileBuffer, BufferListHelpers, Tracker, BufferList}
use akavefs.BufferList.Track.{requeue_split}
use akavefs.BufferList.Edit.{put, retain_ptr, share_ptr, next_id, split_data, split}
use akavefs.BufferList.Shape.{IsBuffer, HasData}
use akavefs.BufferList.Places.{Cell, cell_of}
use akavefs.BufferList.Sound.{Holds, ChainTo-Focus, Holds-room, Focus-IsPlaced}
use akavefs.BufferList.Halves.{left_half, right_half, halves}
use akavefs.BufferList.Queueing.{put_halves-Holds, left_back_in_queue}

-- A split of a buffer in a list at an offset.
pub record SplitInto ⦃bt : BTree⦄ (h : BufferListHelpers) (limit : ℕ) (l : BufferList)
    (pre : List (ℕ × FileBuffer)) (key : ℕ) (b : FileBuffer) (es : List (ℕ × FileBuffer)) (off : ℕ)
    : Type 0 where
  pub list : BufferList
  pub left : FileBuffer
  pub right : FileBuffer
  pub run : split h l b off ≡ some (list, left, right)
  pub holds : Holds h.part_num limit list (pre ++ (off, left) ∷ (key, right) ∷ es)
  pub left_offset : left.offset ≡ b.offset
  pub right_offset : right.offset ≡ off
  pub left_cell : (x : ℕ) → x < off → cell_of x left ≡ cell_of x b
  pub right_cell : (x : ℕ) → off ≤ x → cell_of x right ≡ cell_of x b

abbrev with_byte : FileBuffer → Option ℕ → Cell
with_byte b v = record {
  byte = v;
  cell_state = b.state;
  cell_loading = b.loading;
  cell_on_disk = b.on_disk;
}

module _ ⦃bt : BTree⦄ (h : BufferListHelpers) where
  share_ptr-total :
      (l : BufferList) (b : FileBuffer)
      → HasData b b.slice b.ptr
      → (l' : BufferList) × (share_ptr h l b ≡ some l') × (l'.at ≡ l.at) × (l'.track ≡ l.track)
  unfolding share_ptr retain_ptr
  share_ptr-total l b d = elim (Option-cases b.slice) [
    | inl e ↦ (l, rw (share_ptr, e) refl, refl, refl)
    | inr (s, e) ↦ elim (Option-cases b.ptr) [
      | inl f ↦ absurd (rw (e, f) at d)
      | inr (p, f) ↦ (retain_ptr l p, rw (share_ptr, e, f) refl, refl, refl)
    ]
  ]

  fresh_id-total :
      (l : BufferList) (b : FileBuffer)
      → (l' : BufferList) × (id : ℕ) × ((if b.dirty_id == 0 then (l, 0) else next_id l) ≡ (l', id))
        × (l'.at ≡ l.at)
        × (l'.track ≡ l.track)
  unfolding next_id
  fresh_id-total l b = elim (Bool-cases (b.dirty_id == 0)) [
    | inl e ↦ (l, 0, rw e refl, refl, refl)
    | inr e ↦ ((next_id l).0, (next_id l).1, rw e refl, refl, refl)
  ]

  split-run :
      (l : BufferList) (b : FileBuffer) (off id : ℕ) (ld rd : Option Slice) (l1 l2 : BufferList)
      (u : Tracker) (c : FileBuffer)
      → split_data h b.slice (sub64 off b.offset) ≡ some (ld, rd)
      → share_ptr h l b ≡ some l1
      → (if b.dirty_id == 0 then (l1, 0) else next_id l1) ≡ (l2, id)
      → requeue_split h l2.track (left_half b off ld) ≡ some (u, c)
      → split h l b off
        ≡ some (
          put (put (record l2 { track = u }) (right_half b off rd id)) c,
          c,
          right_half b off rd id,
        )
  unfolding split
  split-run l b off id ld rd l1 l2 u c cut share fresh run = rw (split, cut, share, fresh, run) refl

  module _ (limit : ℕ) (small : limit < word) (num : IsPartNumbering h.part_num limit) where
    pub split-SplitInto :
        (l : BufferList) (pre : List (ℕ × FileBuffer)) (key : ℕ) (b : FileBuffer)
        (es : List (ℕ × FileBuffer)) (off : ℕ)
        → Holds h.part_num limit l (pre ++ (key, b) ∷ es)
        → b.offset < off
        → off < key
        → SplitInto h limit l pre key b es off
    split-SplitInto l pre key b es off s lo hi =
        let f = ChainTo-Focus 0 s.top key pre b es s.chain in
        let v = f.1 in
        let ends = v.ends in
        let k = s.tracked in
        let hv = halves h b off key v lo hi in
        let (l1, share, at1, track1) = share_ptr-total l b v.has_data in
        let (l2, id, fresh, at2, track2) = fresh_id-total l1 b in
        let placed =
          Focus-IsPlaced h limit small num pre key b es s.top s.below
            (record { before = f.0; here = v; after = f.2 }) in
        let (u, c, run, q, sums) =
          left_back_in_queue h limit small num l.track b off id hv.left_data hv.right_data placed lo
            (omega arith) k.counted (Holds-room h limit small num l (pre ++ (key, b) ∷ es) s) in
        let run' : requeue_split h l2.track (left_half b off hv.left_data) ≡ some (u, c) =
          ap (λ t. requeue_split h t (left_half b off hv.left_data)) (track2 ∙ track1) ∙ run in
        let left_at : c.offset ≡ b.offset = ap (λ k. k.offset) q.same in
        record {
          list = put (put (record l2 { track = u }) (right_half b off hv.right_data id)) c;
          left = c;
          right = right_half b off hv.right_data id;
          run = split-run l b off id hv.left_data hv.right_data l1 l2 u c hv.cut share fresh run';
          holds =
              put_halves-Holds h.part_num limit s.top (record l2 { track = u }) pre key b es off c
                (right_half b off hv.right_data id) (ap (λ m. bt.ascend m 0) (at2 ∙ at1) ∙ s.shape)
                s.below (f.0) (f.2)
                (subst (λ k. IsBuffer off k) (sym q.same) (hv.left_buffer c.queue_id))
                (hv.right_buffer id) left_at refl lo hi q.counted
                (λ j. omega (arith, sums j, k.counts j));
          left_offset = left_at;
          right_offset = refl;
          left_cell = λ x lt. ap (cell_of x) q.same ∙ ap (with_byte b) (hv.left_value x lt);
          right_cell = λ x le. ap (with_byte b) (hv.right_value x id le);
        }
