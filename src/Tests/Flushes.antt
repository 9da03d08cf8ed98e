-- ===== src/Tests/Flushes.antt =====
-- core/file.go: a new file of 30 MB, closed, with a limit of 8 parallel parts.
use akavefs.Prelude.{◌*◌, ◌≡◌, refl, true, false, arith}
use akavefs.Flushing.{CacheState, View, Action, Flight, Reached, try_flush}
use akavefs.Flushing.Exclusive.{IsExclusive, Reached-IsExclusive}

abbrev new_file : View
new_file = record {
  cache_state = CacheState.created;
  is_dir = false;
  modified_children = 0;
  parent_changed = false;
  over_deleted = false;
  retry_later = false;
  is_flushing = 0;
  max_parallel_parts = 8;
  renamed = false;
  has_mpu = false;
  user_metadata_dirty = false;
  any_unclean = true;
  size = 30 * 1024 * 1024;
  known_size = 0;
  single_part_mb = 5;
  use_patch = false;
  prefer_patch_uploads = false;
  uploaded_as_multipart = false;
  has_known_etag = false;
  file_handles = 0;
  force_flush = false;
  want_free = false;
  patched = false;
  parts_started = 0;
  should_complete = false;
  range_locked = false;
}

-- The upload is there, and three parts start.
abbrev with_upload : View
with_upload = record new_file { has_mpu = true; parts_started = 3 }

new_file_run : try_flush new_file ≡ Action.start_multipart
unfolding try_flush
new_file_run = refl

with_upload_run : try_flush with_upload ≡ Action.upload_parts 3
unfolding try_flush
with_upload_run = refl

abbrev three_parts : Flight
three_parts = record { parts = 3; others = 0 }

three_parts-Reached : Reached 8 three_parts
unfolding try_flush
three_parts-Reached =
    Reached.flushes (record { parts = 0; others = 0 }) with_upload
      (Reached.other_ends 0 0 (
        Reached.flushes (record { parts = 0; others = 0 }) new_file Reached.idle refl refl refl
          (λ h. absurd (omega arith))))
      refl refl refl (λ h. absurd (omega arith))

Reached-IsExclusive_example : IsExclusive three_parts
Reached-IsExclusive_example = Reached-IsExclusive 8 (omega arith) three_parts three_parts-Reached
