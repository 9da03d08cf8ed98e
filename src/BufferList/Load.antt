-- ===== src/BufferList/Load.antt =====
-- core/buffer_list.go: buffers that are loading, from the server or from the disk cache.
use akavefs.Prelude.{
  ℕ, Bool, true, false, not, ◌&&◌, ◌||◌, Option, none, some, List, [], ◌∷◌, ◌++◌, ltb, leb,
  if◌then◌else◌, ◌>>=◌, add64, sub64,
}
use akavefs.BTree.{BTree}
use akavefs.Ranges.{Range}
use akavefs.BufferList.{BufferState, FileBuffer, BufferListHelpers, BufferList}
use akavefs.BufferList.Track.{queue}
use akavefs.BufferList.Edit.{buf_end, is_some, put, split}
use akavefs.BufferList.Walk.{Step, ascend_change}
use akavefs.BufferList.Ops.{Counted, remove_range, fill}

-- A buffer list with the ranges to read from the disk.
pub record Reads ⦃bt : BTree⦄ : Type 0 where
  pub list : BufferList
  pub read_ranges : List Range

module _ ⦃bt : BTree⦄ (h : BufferListHelpers) where
  add_hole : Counted → ℕ → ℕ → Option Counted
  add_hole s cur end = do
    (t, b) ← queue h s.list.track (record {
      queue_id = 0;
      offset = cur;
      length = sub64 end cur;
      state = BufferState.clean;
      loading = true;
      on_disk = false;
      zero = false;
      dirty_id = 0;
      slice = none;
      ptr = none;
    })
    some (record s { list = put (record s.list { track = t }) b })

  unfoldable pub add_loading : BufferList → ℕ → ℕ → Option BufferList
  unfolding fill add_hole
  add_loading l offset size = do
    s ← fill h (record { list = l; allocated = 0 }) offset size add_hole
    some s.list

  unfoldable pub remove_loading : BufferList → ℕ → ℕ → Option BufferList
  unfolding remove_range
  remove_loading l offset size = do
    s ← remove_range h l offset size (λ b. not b.on_disk && b.loading)
    some s.list

  -- What lies beyond the range is split off; the flag tells whether there was a split.
  load_start : BufferList → FileBuffer → ℕ → Option (BufferList × FileBuffer × Bool)
  unfolding split
  load_start l b offset =
      if ltb b.offset offset
      then (do (l', _, right) ← split h l b offset; some (l', right, true))
      else some (l, b, false)

  load_end : BufferList → FileBuffer → ℕ → Option (BufferList × FileBuffer × Bool)
  unfolding split
  load_end l b end_offset =
      if ltb end_offset (buf_end b)
      then (do (l', left, _) ← split h l b end_offset; some (l', left, true))
      else some (l, b, false)

  -- A round of `AddLoadingFromDisk`.
  load_one : ℕ → ℕ → Reads → ℕ → FileBuffer → Option (Step Reads)
  unfolding load_start load_end
  load_one offset end_offset s end b =
      if leb end_offset b.offset
      then some (record { state = s; cont = false; changed = false })
      else if not (is_some b.slice) && b.on_disk && not b.loading
      then (do
        (l, c, cut_before) ← load_start s.list b offset
        (l', d, cut_after) ← load_end l c end_offset
        some (record {
          state = record {
            list = put l' (record d { loading = true });
            read_ranges = s.read_ranges ++ record { start = d.offset; end = buf_end d } ∷ [];
          };
          cont = true;
          changed = cut_before || cut_after;
        }))
      else some (record { state = s; cont = true; changed = false })

  unfoldable pub add_loading_from_disk : BufferList → ℕ → ℕ → Option Reads
  unfolding ascend_change load_one
  add_loading_from_disk l offset size =
      ascend_change (λ s. s.list) (load_one offset (add64 offset size)) (add64 offset 1)
        (record { list = l; read_ranges = [] })
