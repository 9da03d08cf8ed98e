-- ===== src/Flushing.antt =====
-- core/file.go: what `TryFlush` and `sendUpload` start for an inode. What they read is a record: the
-- inode's fields, the tests on other objects, and the results of `sendUploadParts` and
-- `patchObjectRanges`. Counts and limits are not negative.
pub mod Exclusive
use akavefs.Prelude.{
  ℕ, suc, ◌+◌, ◌*◌, Bool, true, false, not, ◌&&◌, ◌||◌, ltb, leb, ◌==◌, if◌then◌else◌, mul64, ◌≡◌,
  ◌<◌, Option, none, some,
}

pub data CacheState : Type 0 where
  cached dead created modified deleted : CacheState

pub record View : Type 0 where
  pub cache_state : CacheState
  pub is_dir : Bool
  pub modified_children : ℕ
  -- The parent is another one than before its lock was taken.
  pub parent_changed : Bool
  -- The name is among the deleted children of the parent.
  pub over_deleted : Bool
  -- There was an error within the retry interval.
  pub retry_later : Bool
  pub is_flushing : ℕ
  pub max_parallel_parts : ℕ
  -- There is an old parent, to rename from, and an upload.
  pub renamed : Bool
  pub has_mpu : Bool
  pub user_metadata_dirty : Bool
  pub any_unclean : Bool
  pub size : ℕ
  pub known_size : ℕ
  pub single_part_mb : ℕ
  pub use_patch : Bool
  pub prefer_patch_uploads : Bool
  pub uploaded_as_multipart : Bool
  pub has_known_etag : Bool
  pub file_handles : ℕ
  pub force_flush : Bool
  pub want_free : Bool
  -- Whether `patchObjectRanges` starts requests.
  pub patched : Bool
  -- How many parts `sendUploadParts` starts, and whether the upload should complete.
  pub parts_started : ℕ
  pub should_complete : Bool
  -- The flusher has locked a range of the file.
  pub range_locked : Bool

-- What is started.
pub data Action : Type 0 where
  nothing schedule_retry delete_object make_dir rename update_meta : Action
  patch small_object min_multipart start_multipart complete : Action
  upload_parts : ℕ → Action

abbrev pub is_modified : CacheState → Bool
is_modified CacheState.modified = true
is_modified _ = false

abbrev pub is_changed : CacheState → Bool
is_changed CacheState.created = true
is_changed CacheState.modified = true
is_changed _ = false

abbrev pub is_deleted : CacheState → Bool
is_deleted CacheState.deleted = true
is_deleted _ = false

abbrev pub small_file : View → Bool
small_file v = leb v.size (mul64 (mul64 v.single_part_mb 1024) 1024)

abbrev pub can_patch : View → Bool
can_patch v =
    v.use_patch
    && (is_modified v.cache_state && not v.has_mpu)
    && (v.uploaded_as_multipart || not v.has_known_etag || small_file v)
    && ltb 0 v.known_size
    && leb v.known_size v.size

abbrev pub wants_flush : View → Bool
wants_flush v = v.file_handles == 0 || v.force_flush || v.want_free

-- The end of `sendUpload`, with an upload.
abbrev pub upload_or_complete : View → Action
upload_or_complete v =
    if ltb 0 v.parts_started
    then Action.upload_parts v.parts_started
    else if (v.should_complete && not v.range_locked) && wants_flush v
    then Action.complete
    else Action.nothing

-- The part of `sendUpload` that sends data.
abbrev pub send_data : View → Action
send_data v =
    if leb v.max_parallel_parts v.is_flushing
    then Action.nothing
    else if can_patch v
    then (if v.patched then Action.patch else Action.nothing)
    else if small_file v && not v.has_mpu
    then (if v.is_flushing == 0 && wants_flush v then Action.small_object else Action.nothing)
    else if not v.has_mpu
    then (if ltb 0 v.is_flushing
        then Action.nothing
        else if v.use_patch && v.prefer_patch_uploads
        then Action.min_multipart
        else Action.start_multipart)
    else upload_or_complete v

unfoldable pub send_upload : View → Action
send_upload v =
    if v.renamed && v.is_flushing == 0 && not v.has_mpu
    then Action.rename
    else if (is_modified v.cache_state
          && v.user_metadata_dirty
          && not v.renamed
          && v.is_flushing == 0)
        && not v.any_unclean
    then Action.update_meta
    else send_data v

unfoldable pub try_flush : View → Action
unfolding send_upload
try_flush v =
    if v.parent_changed
    then Action.nothing
    else if v.retry_later
    then Action.schedule_retry
    else if is_deleted v.cache_state
    then (if v.is_flushing == 0 && (not v.is_dir || v.modified_children == 0)
        then Action.delete_object
        else Action.nothing)
    else if is_changed v.cache_state && v.is_dir
    then (if v.is_flushing == 0 && not v.over_deleted then Action.make_dir else Action.nothing)
    else if is_changed v.cache_state
    then (if v.over_deleted then Action.nothing else send_upload v)
    else Action.nothing

-- The requests in flight for an inode: of parts, each counted once in `IsFlushing`, and others, each
-- counted as `MaxParallelParts`.
pub record Flight : Type 0 where
  pub parts : ℕ
  pub others : ℕ

abbrev pub flushing : ℕ → Flight → ℕ
flushing max_parts s = s.parts + s.others * max_parts

-- Patches are not counted here.
abbrev pub started : Action → Flight → Flight
started Action.patch s = s
started Action.nothing s = s
started Action.schedule_retry s = s
started (Action.upload_parts n) s = record s { parts = s.parts + n }
started _ s = record s { others = suc s.others }

-- The flights that are reached from none by `TryFlush` without PATCH, and by the ends of requests. A
-- part in flight has its range locked, since `goFlushPart` locks it until the part ends.
pub data Reached (max_parts : ℕ) : Flight → Type 0 where
  idle : Reached max_parts (record { parts = 0; others = 0 })
  flushes :
      (s : Flight) (v : View)
      → Reached max_parts s
      → v.is_flushing ≡ flushing max_parts s
      → v.max_parallel_parts ≡ max_parts
      → v.use_patch ≡ false
      → (0 < s.parts → v.range_locked ≡ true)
      → Reached max_parts (started (try_flush v) s)
  part_ends :
      (n m : ℕ)
      → Reached max_parts (record { parts = suc n; others = m })
      → Reached max_parts (record { parts = n; others = m })
  other_ends :
      (n m : ℕ)
      → Reached max_parts (record { parts = n; others = suc m })
      → Reached max_parts (record { parts = n; others = m })
