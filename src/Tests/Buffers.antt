-- ===== src/Tests/Buffers.antt =====
-- core/buffer_list_test.go, with smaller sizes.
use akavefs.Prelude.{
  ℕ, ◌/◌, ◌≡◌, refl, false, true, ◌<◌, ◌≤◌, ◌+◌, ◌↔◌, arith, Option, none, some, List, [], ◌∷◌,
  ◌>>=◌, replicate,
}
use akavefs.BTree.{from}
use akavefs.BTree.Assoc.{assoc_tree}
use akavefs.BufferList.{BufferState, Slice, FileBuffer, BufferListHelpers, BufferList}
use akavefs.BufferList.Track.{queue, unqueue, requeue_split}
use akavefs.BufferList.Shape.{IsWellFormed, covering}
use akavefs.BufferList.Holes.{get_holes-Covers}
use akavefs.BufferList.Outcomes.{Outcome}
use akavefs.BufferList.Reading.{get_data-Outcome}
use akavefs.Ranges.Covers.{Covers}
use akavefs.BufferList.Ops.{add}
use akavefs.BufferList.Read.{ReadResult, ok, get_holes, get_data}

abbrev helpers : BufferListHelpers
helpers = record { part_num = λ offset. some (offset / 4); inode = 1 }

abbrev pub no_buffers : BufferList
no_buffers = record {
  at = ([], tt);
  ptrs = λ p. record { mem = 0; refs = 0 };
  next_ptr = 0;
  cur_dirty_id = 0;
  track = record {
    dirty_queue = ([], tt);
    dirty_parts = λ p. none;
    dirty_qid = 0;
    unclean_count = 0;
    queue = record { clean_queue = ([], tt); cur_queue_id = 0 };
  };
}

abbrev filled : ℕ → ℕ → Slice
filled n c = record { bytes = replicate n c; cap = n }

-- TestAppend
test_append : Option ReadResult
unfolding add get_data
test_append = do
  a ← add helpers no_buffers 0 (filled 4 1) BufferState.dirty true
  b ← add helpers a.list 4 (filled 4 2) BufferState.dirty true
  c ← add helpers b.list 6 (filled 4 3) BufferState.dirty true
  get_data c.list 0 8 true

chunks_of : Option ReadResult → List (List ℕ)
chunks_of (some (ok d)) = d.chunks
chunks_of _ = []

test_append_run : chunks_of test_append ≡ (1 ∷ 1 ∷ 1 ∷ 1 ∷ []) ∷ (2 ∷ 2 ∷ 3 ∷ 3 ∷ []) ∷ []
unfolding test_append chunks_of queue unqueue requeue_split
test_append_run = refl

-- Bytes 4 and 5 are in memory and bytes 8 to 10 are zero.
abbrev data_buffer : FileBuffer
data_buffer = record {
  queue_id = 1;
  offset = 4;
  length = 2;
  state = BufferState.clean;
  loading = false;
  on_disk = false;
  zero = false;
  dirty_id = 0;
  slice = some (record { bytes = 7 ∷ 9 ∷ []; cap = 2 });
  ptr = some 0;
}

abbrev zero_buffer : FileBuffer
zero_buffer = record {
  queue_id = 0;
  offset = 8;
  length = 3;
  state = BufferState.dirty;
  loading = false;
  on_disk = false;
  zero = true;
  dirty_id = 1;
  slice = none;
  ptr = none;
}

abbrev pub two_buffers : BufferList
two_buffers = record no_buffers {
  at = ((6, data_buffer) ∷ (11, zero_buffer) ∷ [], (omega arith, tt));
}

pub two_buffers-IsWellFormed : IsWellFormed two_buffers
two_buffers-IsWellFormed = (
  record {
    nonempty = omega arith;
    ends = refl;
    fits = omega arith;
    has_data = (refl, omega arith, refl, refl, omega arith);
  },
  omega arith,
  (
    record { nonempty = omega arith; ends = refl; fits = omega arith; has_data = tt },
    omega arith,
    tt,
  ),
)

get_holes-Covers_example :
    Covers 7 (get_holes two_buffers 5 4).holes
    ↔ ((5 ≤ 7) × (7 < 5 + 4) × (covering 7 two_buffers.at.0 ≡ none))
get_holes-Covers_example =
    get_holes-Covers two_buffers two_buffers-IsWellFormed 5 4 (omega arith) (omega arith) 7

get_data-Outcome_example :
    Outcome 8 (8 + 2) (from 9 two_buffers.at.0) [] (get_data two_buffers 8 2 true)
get_data-Outcome_example =
    get_data-Outcome two_buffers two_buffers-IsWellFormed 8 2 (omega arith) (omega arith) true
