-- ===== src/FlushParts.antt =====
-- core/file.go: `sendUploadParts`, which chooses the parts of a file to upload, and the locks that
-- `goFlushPart` takes. The parts are those that `IterateDirtyParts` visits; the limits of the flusher
-- are a test on the number of parts that were started.
pub mod Chosen
pub mod Started
use akavefs.Prelude.{
  ℕ, ◌+◌, Bool, true, false, not, ◌&&◌, ◌||◌, Option, none, some, List, [], ◌∷◌, ◌++◌, ltb, leb,
  ◌==◌, if◌then◌else◌, ◌>>=◌, add64, length,
}
use akavefs.BTree.{BTree}
use akavefs.PartSizes.{PartSizeConfig, part_num, part_range}
use akavefs.RangeLocks.{ReadRange, lock_range, is_range_locked}
use akavefs.BufferList.{BufferState, same_state, FileBuffer, BufferList}
use akavefs.BufferList.Track.{iterate_dirty_parts}

-- What the buffers of a part are.
pub record PartScan : Type 0 where
  pub dirty : Bool
  pub evicted : Bool
  pub zero : Bool
  pub non_zero : Bool
  pub last_end : ℕ

abbrev pub scan_buffer : PartScan → ℕ → FileBuffer → PartScan
scan_buffer s end b = record {
  dirty = s.dirty || same_state b.state BufferState.dirty;
  evicted = s.evicted || same_state b.state BufferState.fl_cleared;
  zero = s.zero || b.zero;
  non_zero = s.non_zero || not b.zero;
  last_end = end;
}

unfoldable pub scan_part : ℕ → List (ℕ × FileBuffer) → PartScan → PartScan
scan_part part_end [] s = s
scan_part part_end ((end, b) ∷ es) s =
    let rest = scan_part part_end es (scan_buffer s end b) in
    if leb part_end b.offset then s else rest

abbrev pub no_buffer : PartScan
no_buffer = record { dirty = false; evicted = false; zero = false; non_zero = false; last_end = 0 }

pub record FlushView : Type 0 where
  pub flush_inode : Bool
  pub want_free : Bool
  pub priority : ℕ
  pub last_write_end : ℕ
  -- `flushLimitsExceeded` after some parts are started.
  pub exceeded : ℕ → Bool

-- What to do with a part.
pub data Choice : Type 0 where
  skip flush postpone partly_zero fully_zero : Choice

abbrev pub choose_zero : FlushView → PartScan → Choice
choose_zero v s =
    if not s.non_zero && leb 3 v.priority
    then Choice.fully_zero
    else if v.want_free && s.non_zero && leb 2 v.priority
    then Choice.partly_zero
    else Choice.postpone

abbrev pub choose : FlushView → ℕ → PartScan → Choice
choose v part_end s =
    if not s.dirty || s.evicted
    then Choice.skip
    else if (s.zero || ltb s.last_end part_end) && not v.flush_inode
    then choose_zero v s
    else Choice.flush

-- The locks, the parts started so far, and the other variables of the loop.
pub record Upload : Type 0 where
  pub locks : List ReadRange
  pub started : List ℕ
  pub should_complete : Bool
  pub partly : List ℕ
  pub fully : List ℕ
  pub any_evicted : Bool

abbrev pub go_flush_part : Upload → ℕ → ℕ → ℕ → Upload
go_flush_part u part offset size = record u {
  locks = lock_range u.locks offset size true;
  started = u.started ++ part ∷ [];
}

abbrev pub busy : Upload → Upload
busy u = record u { should_complete = false }

-- The choice carried out, and whether to go on.
abbrev pub carry_out : FlushView → ℕ → ℕ → ℕ → PartScan → Choice → Upload → Upload × Bool
carry_out v part offset size s Choice.skip u =
    (record u { any_evicted = u.any_evicted || s.evicted }, true)
carry_out v part offset size s Choice.fully_zero u =
    (busy (record u { fully = u.fully ++ part ∷ [] }), true)
carry_out v part offset size s Choice.partly_zero u =
    (busy (record u { partly = u.partly ++ part ∷ [] }), true)
carry_out v part offset size s Choice.postpone u = (busy u, true)
carry_out v part offset size s Choice.flush u =
    let u' = go_flush_part (busy u) part offset size in (u', not (v.exceeded (length u'.started)))

module _ ⦃bt : BTree⦄ (sizes : List PartSizeConfig) (v : FlushView) (l : BufferList) where
  open bt use {ascend}

  abbrev pub scan_of : ℕ → ℕ → PartScan
  unfolding scan_part
  scan_of offset size = scan_part (add64 offset size) (ascend l.at (add64 offset 1)) no_buffer

  -- The part that is still written to.
  abbrev pub is_last_written : ℕ → ℕ → Bool
  is_last_written part last = part == last && not v.flush_inode && not v.want_free

  -- A round of the loop over the dirty parts.
  unfoldable pub visit_part : ℕ → Upload → Option (Upload × Bool)
  unfolding part_num part_range scan_of is_range_locked
  visit_part part u = do
    (offset, size) ← part_range sizes part
    (if is_range_locked u.locks offset size true then some (busy u, true) else (do
      last ← part_num sizes v.last_write_end
      (if is_last_written part last
          then some (busy u, true)
          else some (
              carry_out v part offset size (scan_of offset size)
                (choose v (add64 offset size) (scan_of offset size)) u))))

  unfoldable pub visit_parts : List ℕ → Upload → Option Upload
  unfolding visit_part
  visit_parts [] u = some u
  visit_parts (p ∷ ps) u = elim (visit_part p u) [
    | none ↦ none
    | some (u', cont) ↦ elim cont [ true ↦ visit_parts ps u' | false ↦ some u' ]
  ]

  -- The loops over the parts that have zeroes: after the first part that is started the others are
  -- only counted over.
  unfoldable pub flush_rest : List ℕ → Bool → Upload → Option Upload
  unfolding part_range
  flush_rest [] initiated u = some u
  flush_rest (p ∷ ps) initiated u = do
    (offset, size) ← part_range sizes p
    let u' = if initiated then u else go_flush_part u p offset size
    (let rest = flush_rest ps true u' in if v.exceeded (length u'.started) then some u' else rest)

  abbrev pub is_empty : List ℕ → Bool
  is_empty [] = true
  is_empty (p ∷ ps) = false

  abbrev pub flush_partly : Upload → Option Upload
  unfolding flush_rest
  flush_partly u =
      if is_empty u.started && not (is_empty u.partly) then flush_rest u.partly false u else some u

  -- The loop for the parts of zeroes only; it goes over the other ones, as the code does.
  abbrev pub flush_fully : Upload → Option Upload
  unfolding flush_rest
  flush_fully u =
      if (is_empty u.started && u.any_evicted) && not (is_empty u.fully)
      then flush_rest u.partly false u
      else some u

  unfoldable pub send_upload_parts : List ReadRange → Option Upload
  unfolding visit_parts flush_partly flush_fully iterate_dirty_parts
  send_upload_parts locks = do
    u ← visit_parts (iterate_dirty_parts l.track) (record {
      locks = locks;
      started = [];
      should_complete = true;
      partly = [];
      fully = [];
      any_evicted = false;
    })
    w ← flush_partly u
    flush_fully w
