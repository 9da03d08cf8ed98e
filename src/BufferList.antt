-- ===== src/BufferList.antt =====
-- core/buffer_list.go: the data types. A value of Go's `int` and `int64` is its bit pattern, a number
-- below 2 ^ 64. A pointer to a `FileBuffer` stands only in the map `at`, at the key of its end, so a
-- buffer that the code changes through its pointer is written back under its key. A `BufferPointer`
-- is shared by buffers, so it is the index of a cell of `ptrs`.
pub mod Track
pub mod Edit
pub mod Walk
pub mod Evict
pub mod Ops
pub mod Load
pub mod Read
pub mod Shape
pub mod Holes
pub mod Counting
pub mod Spans
pub mod Branches
pub mod Parts
pub mod Contents
pub mod Chunks
pub mod Outcomes
pub mod Reading
pub mod Requeued
pub mod Balanced
pub mod Places
pub mod Sound
pub mod Halves
pub mod Queueing
pub mod Splitting
pub mod Cells
pub mod Cuts
pub mod Cutting
pub mod Visits
pub mod Removing
pub mod Removal
pub mod Dividing
pub mod Inserting
pub mod Zeroing
pub mod ZeroRange
use akavefs.Prelude.{ℕ, Bool, List, Option, ◌==◌}
use akavefs.BTree.{BTree}

pub data BufferState : Type 0 where
  clean dirty flushed_full flushed_cut fl_cleared : BufferState

abbrev pub state_code : BufferState → ℕ
state_code BufferState.clean = 1
state_code BufferState.dirty = 2
state_code BufferState.flushed_full = 3
state_code BufferState.flushed_cut = 4
state_code BufferState.fl_cleared = 5

abbrev pub same_state : BufferState → BufferState → Bool
same_state a b = state_code a == state_code b

-- A slice of a byte array: its bytes and its capacity.
pub record Slice : Type 0 where
  pub bytes : List ℕ
  pub cap : ℕ

pub record FileBuffer : Type 0 where
  pub queue_id : ℕ
  pub offset : ℕ
  pub length : ℕ
  pub state : BufferState
  pub loading : Bool
  pub on_disk : Bool
  pub zero : Bool
  pub dirty_id : ℕ
  pub slice : Option Slice
  pub ptr : Option ℕ

-- `mem` is the length of the array.
pub record BufferPointer : Type 0 where
  pub mem : ℕ
  pub refs : ℕ

-- Its number is its key in `dirty_parts`.
pub record DirtyPart : Type 0 where
  pub queue_id : ℕ
  pub refcnt : ℕ

pub record QueuedBuffer : Type 0 where
  pub inode : ℕ
  pub end : ℕ

-- `BufferListHelpers`: `none` is a panic. The clean queue is that of the file system.
pub record BufferListHelpers : Type 0 where
  pub part_num : ℕ → Option ℕ
  pub inode : ℕ

module _ ⦃bt : BTree⦄ where
  open bt use {Map}

  -- core/buffer_queue.go
  pub record BufferQueue : Type 0 where
    pub clean_queue : Map QueuedBuffer
    pub cur_queue_id : ℕ

  -- The part of a `BufferList` that counts: which parts are dirty, and how many buffers are unclean.
  pub record Tracker : Type 0 where
    pub dirty_queue : Map ℕ
    pub dirty_parts : ℕ → Option DirtyPart
    pub dirty_qid : ℕ
    pub unclean_count : ℕ
    pub queue : BufferQueue

  pub record BufferList : Type 0 where
    pub at : Map FileBuffer
    pub ptrs : ℕ → BufferPointer
    pub next_ptr : ℕ
    pub cur_dirty_id : ℕ
    pub track : Tracker
