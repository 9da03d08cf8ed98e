-- ===== src/BufferList/Evict.antt =====
-- core/buffer_list.go: `EvictFromMemory` and `ReviveFromDisk`.
use akavefs.Prelude.{
  ℕ, Bool, true, false, not, ◌&&◌, Option, none, some, ◌==◌, if◌then◌else◌, ◌>>=◌, add64, length,
}
use akavefs.BTree.{BTree}
use akavefs.BufferList.{BufferState, same_state, Slice, FileBuffer, BufferListHelpers, BufferList}
use akavefs.BufferList.Track.{unqueue, queue, is_clean}
use akavefs.BufferList.Edit.{buf_end, is_some, first, put, release_ptr, new_ptr}

abbrev same_bool : Bool → Bool → Bool
same_bool true b = b
same_bool false b = not b

-- The previous buffer of an evicted one is joined to it if it is on disk alike.
abbrev pub joins_on_disk : FileBuffer → FileBuffer → Bool
joins_on_disk prev b =
    (buf_end prev == b.offset)
    && same_state prev.state b.state
    && not (is_some prev.ptr)
    && same_bool prev.on_disk b.on_disk

abbrev pub joins_cleared : FileBuffer → FileBuffer → Bool
joins_cleared prev b = (buf_end prev == b.offset) && same_state prev.state b.state

-- `buf.length += prev.length; buf.offset = prev.offset`
abbrev pub join : FileBuffer → FileBuffer → FileBuffer
join prev b = record b { length = add64 b.length prev.length; offset = prev.offset }

module _ ⦃bt : BTree⦄ (h : BufferListHelpers) where
  open bt use {delete, descend, ascend}

  evict_on_disk : BufferList → FileBuffer → Option FileBuffer → Option (BufferList × Bool)
  evict_on_disk l b none = some (put l b, false)
  evict_on_disk l b (some prev) =
      if joins_on_disk prev b
      then (do
        t ← unqueue h l.track b
        u ← unqueue h t prev
        (v, c) ← queue h u (join prev b)
        some (put (record l { at = delete l.at (buf_end prev); track = v }) c, true))
      else some (put l b, false)

  evict_flushed : BufferList → FileBuffer → Option FileBuffer → Option (BufferList × Bool)
  evict_flushed l b none = do
    (v, c) ← queue h l.track b
    some (put (record l { track = v }) c, false)
  evict_flushed l b (some prev) =
      if joins_cleared prev b
      then (do
        u ← unqueue h l.track prev
        (v, c) ← queue h u (join prev b)
        some (put (record l { at = delete l.at (buf_end prev); track = v }) c, true))
      else (do (v, c) ← queue h l.track b; some (put (record l { track = v }) c, false))

  -- After the memory is released.
  unfoldable pub evict_released : BufferList → FileBuffer → Option (BufferList × Bool)
  unfolding evict_on_disk evict_flushed
  evict_released l b =
      if b.on_disk
      then evict_on_disk l b (first (descend l.at b.offset))
      else if is_clean b.state
      then (do
        t ← unqueue h l.track b
        some (record l { at = delete l.at (buf_end b); track = t }, true))
      else if same_state b.state BufferState.flushed_full
      then (do
        t ← unqueue h l.track b
        let c = record b { state = BufferState.fl_cleared }
        evict_flushed (record l { track = t }) c (first (descend l.at b.offset)))
      else some (put l b, false)

  -- The bytes that memory accounting gains, and whether a buffer went from the map.
  unfoldable pub evict_from_memory : BufferList → FileBuffer → Option (BufferList × ℕ × Bool)
  unfolding release_ptr evict_released
  evict_from_memory l b = elim b.ptr [
    | none ↦ none
    | some p ↦ (do
      let (l', allocated) = release_ptr l p
      (l'', deleted) ← evict_released l' (record b { ptr = none; slice = none })
      some (l'', allocated, deleted))
  ]

  revive : BufferList → FileBuffer → Slice → Option BufferList
  unfolding new_ptr
  revive l b s =
      let (l', p) = new_ptr l (record { mem = length s.bytes; refs = 1 }) in
      let c = record b { slice = some s; ptr = some p; loading = false } in
      if same_state b.state BufferState.fl_cleared
      then (do
        t ← unqueue h l'.track c
        (u, d) ← queue h t (record c { state = BufferState.flushed_full })
        some (put (record l' { track = u }) d))
      else some (put l' c)

  unfoldable pub revive_from_disk : BufferList → ℕ → Slice → Option BufferList
  unfolding revive
  revive_from_disk l offset s = elim (first (ascend l.at (add64 offset 1))) [
    | none ↦ some l
    | some b ↦
        if (b.offset == offset) && (b.length == length s.bytes) && b.loading && b.on_disk
        then revive l b s
        else some l
  ]
