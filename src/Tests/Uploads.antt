-- ===== src/Tests/Uploads.antt =====
-- core/file.go: a file with a dirty part of four bytes and one that is only half there.
use akavefs.Prelude.{ℕ, ◌≡◌, refl, true, false, Option, none, some, List, [], ◌∷◌, All, ltb, arith}
use akavefs.BTree.Assoc.{assoc_tree}
use akavefs.PartSizes.{PartSizeConfig, part_num, part_range}
use akavefs.BufferList.{BufferState, FileBuffer, BufferList}
use akavefs.BufferList.Track.{iterate_dirty_parts}
use akavefs.FlushParts.{FlushView, Upload, send_upload_parts}
use akavefs.FlushParts.Chosen.{HasRange, IsStartable, IsSettled}
use akavefs.FlushParts.Started.{send_upload_parts-started}
use akavefs.RangeLocks.{lock_range}
use akavefs.Tests.Buffers.{no_buffers}

abbrev sizes : List PartSizeConfig
sizes = record { part_size = 4; part_count = 100 } ∷ []

abbrev dirty_buffer : ℕ → ℕ → FileBuffer
dirty_buffer offset length = record {
  queue_id = 0;
  offset = offset;
  length = length;
  state = BufferState.dirty;
  loading = false;
  on_disk = false;
  zero = false;
  dirty_id = 1;
  slice = none;
  ptr = none;
}

abbrev two_parts : BufferList
two_parts = record no_buffers {
  at = ((4, dirty_buffer 0 4) ∷ (6, dirty_buffer 4 2) ∷ [], (omega arith, tt));
  track = record no_buffers.track { dirty_queue = ((1, 0) ∷ (2, 1) ∷ [], (omega arith, tt)) };
}

-- At most two parts, while the file is open.
abbrev view : FlushView
view = record {
  flush_inode = false;
  want_free = false;
  priority = 1;
  last_write_end = 20;
  exceeded = λ n. ltb 1 n;
}

two_parts-HasRange : All (HasRange sizes view two_parts []) (iterate_dirty_parts two_parts.track)
unfolding iterate_dirty_parts part_range
two_parts-HasRange = ((0, 4, refl), ((4, 4, refl), tt))

last_part : part_num sizes 20 ≡ some 5
unfolding part_num
last_part = refl

send_upload_parts-started_example :
    (w : Upload) × (send_upload_parts sizes view two_parts [] ≡ some w)
    × All (IsStartable sizes view two_parts []) w.started
    × (w.should_complete ≡ true
        → (w.started ≡ [])
          × All (IsSettled sizes view two_parts []) (iterate_dirty_parts two_parts.track))
send_upload_parts-started_example =
    send_upload_parts-started sizes view two_parts [] 5 two_parts-HasRange last_part

started_parts : Option Upload → List ℕ
started_parts none = []
started_parts (some u) = u.started

two_parts_run : started_parts (send_upload_parts sizes view two_parts []) ≡ 0 ∷ []
unfolding started_parts send_upload_parts lock_range
two_parts_run = refl
