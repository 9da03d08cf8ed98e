-- ===== src/BufferList/Ops.antt =====
-- core/buffer_list.go: the operations on a range of the file.
use akavefs.Prelude.{
  ℕ, zero, suc, Bool, true, false, not, ◌&&◌, ◌||◌, Option, none, some, List, [], ◌∷◌, ltb, leb,
  ◌==◌, if◌then◌else◌, ◌>>=◌, add64, sub64, length, take, drop,
}
use akavefs.BTree.{BTree}
use akavefs.BufferList.{BufferState, same_state, Slice, FileBuffer, BufferListHelpers, BufferList}
use akavefs.BufferList.Track.{unqueue, queue, is_clean}
use akavefs.BufferList.Edit.{
  buf_end, first, put, new_ptr, next_id, split, delete_buf, insert_or_append,
}
use akavefs.BufferList.Walk.{Step, ascend_change}

-- A buffer list with the memory that an operation has allocated so far.
pub record Counted ⦃bt : BTree⦄ : Type 0 where
  pub list : BufferList
  pub allocated : ℕ

module _ ⦃bt : BTree⦄ (h : BufferListHelpers) where
  open bt use {set, ascend}

  set_one : BufferList → FileBuffer → BufferState → Option BufferList
  set_one l b state = do
    t ← unqueue h l.track b
    (u, c) ← queue h t (record b { dirty_id = 0; state = state })
    some (put (record l { track = u }) c)

  set_state_from :
      BufferList → List (ℕ × FileBuffer) → ℕ → ℕ → (ℕ → Bool) → BufferState → Option BufferList
  unfolding set_one
  set_state_from l [] offset size ids state = some l
  set_state_from l ((end, b) ∷ es) offset size ids state =
      elim (if not (b.dirty_id == 0) && ids b.dirty_id then set_one l b state else some l) [
        | none ↦ none
        | some l' ↦ elim (ltb b.offset (sub64 (add64 offset size) 1)) [
          | true ↦ set_state_from l' es offset size ids state
          | false ↦ some l'
        ]
      ]

  unfoldable pub set_state : BufferList → ℕ → ℕ → (ℕ → Bool) → BufferState → Option BufferList
  unfolding set_state_from
  set_state l offset size ids state =
      set_state_from l (ascend l.at (add64 offset 1)) offset size ids state

  unfoldable pub set_flushed_clean : BufferList → Option BufferList
  unfolding ascend_change set_one delete_buf
  set_flushed_clean l =
      ascend_change (λ s. s)
        (λ s end b.
          if same_state b.state BufferState.fl_cleared
          then (do
            (s', _) ← delete_buf h s b
            some (record { state = s'; cont = true; changed = true }))
          else if same_state b.state BufferState.flushed_full
              || same_state b.state BufferState.flushed_cut
          then (do
            s' ← set_one s b BufferState.clean
            some (record { state = s'; cont = true; changed = false }))
          else some (record { state = s; cont = true; changed = false }))
        0 l

  -- The part of a buffer to remove: what lies beyond the range is split off at both ends.
  unfoldable pub cut_end : BufferList → FileBuffer → ℕ → Option (BufferList × FileBuffer)
  unfolding split
  cut_end l b end_offset =
      if ltb end_offset (buf_end b)
      then (do (l', left, _) ← split h l b end_offset; some (l', left))
      else some (l, b)

  unfoldable pub cut_start : BufferList → FileBuffer → ℕ → Option (BufferList × FileBuffer)
  unfolding split
  cut_start l rm remove_offset =
      if ltb rm.offset remove_offset
      then (do (l', _, right) ← split h l rm remove_offset; some (l', right))
      else some (l, rm)

  unfoldable pub cut_range : BufferList → FileBuffer → ℕ → ℕ → Option (BufferList × FileBuffer)
  unfolding cut_end cut_start
  cut_range l b remove_offset end_offset = do
    (l', rm) ← cut_end l b end_offset
    cut_start l' rm remove_offset

  unfoldable pub whole_or_cut : BufferList → FileBuffer → ℕ → ℕ → Option (BufferList × FileBuffer)
  unfolding cut_range
  whole_or_cut l b remove_offset end_offset =
      if leb remove_offset b.offset && leb (buf_end b) end_offset
      then some (l, b)
      else cut_range l b remove_offset end_offset

  unfoldable pub remove_one :
      ℕ → ℕ → (FileBuffer → Bool) → Counted → ℕ → FileBuffer → Option (Step Counted)
  unfolding whole_or_cut delete_buf
  remove_one remove_offset end_offset filter s end b =
      if leb end_offset b.offset
      then some (record { state = s; cont = false; changed = false })
      else if filter b && ltb remove_offset (buf_end b) && ltb b.offset end_offset
      then (do
        (l, rm) ← whole_or_cut s.list b remove_offset end_offset
        (l', freed) ← delete_buf h l rm
        some (record {
          state = record { list = l'; allocated = add64 s.allocated freed };
          cont = true;
          changed = true;
        }))
      else some (record { state = s; cont = true; changed = false })

  unfoldable pub remove_range : BufferList → ℕ → ℕ → (FileBuffer → Bool) → Option Counted
  unfolding ascend_change remove_one
  remove_range l remove_offset remove_size filter =
      ascend_change (λ s. s.list)
        (remove_one remove_offset (add64 remove_offset remove_size) filter) (add64 remove_offset 1)
        (record { list = l; allocated = 0 })

  -- A nil filter.
  abbrev pub any_buffer : FileBuffer → Bool
  any_buffer b = true

  -- The inner iteration of `fill`: where the next hole may begin, and the buffer after it.
  unfoldable pub scan : ℕ → ℕ → List (ℕ × FileBuffer) → ℕ × Option FileBuffer
  scan cur end_offset [] = (cur, none)
  scan cur end_offset ((end, b) ∷ es) = elim (leb b.offset cur) [
    | true ↦ elim (ltb (buf_end b) end_offset) [
      | true ↦ scan (buf_end b) end_offset es
      | false ↦ (buf_end b, none)
    ]
    | false ↦ (cur, some b)
  ]

  abbrev hole_end : ℕ → Option FileBuffer → ℕ
  hole_end end_offset none = end_offset
  hole_end end_offset (some next) = if ltb next.offset end_offset then next.offset else end_offset

  -- `fill` with a callback that changes the list; each round but the last fills at least one byte.
  fill_from : ℕ → Counted → ℕ → ℕ → (Counted → ℕ → ℕ → Option Counted) → Option Counted
  unfolding scan
  fill_from zero s cur end_offset cb = if ltb cur end_offset then none else some s
  fill_from (suc fuel) s cur end_offset cb =
      let (cur', next) = scan cur end_offset (ascend s.list.at (add64 cur 1)) in
      let new_end = hole_end end_offset next in
      elim (ltb cur end_offset && ltb cur' end_offset) [
        | false ↦ some s
        | true ↦ elim (cb s cur' new_end) [
          | none ↦ none
          | some s' ↦ fill_from fuel s' new_end end_offset cb
        ]
      ]

  unfoldable pub fill : Counted → ℕ → ℕ → (Counted → ℕ → ℕ → Option Counted) → Option Counted
  unfolding fill_from
  fill s offset size cb = fill_from size s offset (add64 offset size) cb

  -- `data[a:b]`
  abbrev slice_sub : Slice → ℕ → ℕ → Slice
  slice_sub s a b = record { bytes = take (sub64 b a) (drop a s.bytes); cap = sub64 s.cap a }

  unfoldable pub add : BufferList → ℕ → Slice → BufferState → Bool → Option Counted
  unfolding remove_range new_ptr fill insert_or_append
  add l offset s state copy_data = do
    let len = length s.bytes
    removed ← remove_range l offset len (λ b. is_clean b.state || not (is_clean state))
    let (l', p) = new_ptr removed.list (record { mem = len; refs = 0 })
    fill (record removed { list = l' }) offset len
        λ c cur end. do
          (l'', allocated) ←
              insert_or_append h c.list cur (slice_sub s (sub64 cur offset) (sub64 end offset))
                state copy_data p
          some (record { list = l''; allocated = add64 c.allocated allocated })

  abbrev pub is_zeroed : ℕ → ℕ → Option FileBuffer → Bool
  is_zeroed offset size none = false
  is_zeroed offset size (some b) =
      b.zero && leb b.offset offset && leb (add64 offset size) (buf_end b)

  -- Whether the range was zeroed, and the memory.
  unfoldable pub zero_range : BufferList → ℕ → ℕ → Option (Counted × Bool)
  unfolding remove_range next_id
  zero_range l offset size =
      if size == 0 || is_zeroed offset size (first (ascend l.at (add64 offset 1)))
      then some (record { list = l; allocated = 0 }, false)
      else (do
        removed ← remove_range l offset size any_buffer
        let (l', id) = next_id removed.list
        (t, b) ← queue h l'.track (record {
          queue_id = 0;
          offset = offset;
          length = size;
          state = BufferState.dirty;
          loading = false;
          on_disk = false;
          zero = true;
          dirty_id = id;
          slice = none;
          ptr = none;
        })
        some (record removed { list = put (record l' { track = t }) b }, true))

  unfoldable pub split_at : BufferList → ℕ → Option BufferList
  unfolding split
  split_at l offset = elim (first (ascend l.at (add64 offset 1))) [
    | none ↦ some l
    | some b ↦ if ltb b.offset offset then (do (l', _, _) ← split h l b offset; some l') else some l
  ]
