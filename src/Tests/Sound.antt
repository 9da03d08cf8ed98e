-- ===== src/Tests/Sound.antt =====
-- core/buffer_list.go: changes of a list of buffers, with the part table of Tests/Sizes.antt.
use akavefs.Prelude.{
  ℕ, ◌+◌, ◌<◌, ◌≡◌, ◌&&◌, refl, Bool, true, Option, ◌>>=◌, none, some, word, arith, leb,
  if◌then◌else◌,
}
use akavefs.PartNumbering.{IsPartNumbering}
use akavefs.PartSizes.{part_num_from, part_num, get_max_file_size}
use akavefs.PartSizes.Laws.{part_num-IsPartNumbering}
use akavefs.BTree.Assoc.{assoc_tree}
use akavefs.BufferList.{BufferState, same_state, BufferListHelpers, BufferList}
use akavefs.BufferList.Track.{queue, unqueue, requeue_split}
use akavefs.BufferList.Counting.{refs}
use akavefs.BufferList.Ops.{Counted, remove_range, split_at, zero_range}
use akavefs.BufferList.Places.{cell_at, refs_sum}
use akavefs.BufferList.Sound.{entries}
use akavefs.BufferList.Cells.{cut}
use akavefs.BufferList.Removal.{IsSound, remove_range-IsSound}
use akavefs.BufferList.Dividing.{IsDivided, split_at-IsSound}
use akavefs.BufferList.Zeroing.{IsZeroed, value_at}
use akavefs.BufferList.ZeroRange.{zero_range-IsSound}
use akavefs.Tests.Sizes.{two_tiers, two_tiers-IsValid, two_tiers_bytes}
use akavefs.Tests.Buffers.{no_buffers, two_buffers}

abbrev helpers : BufferListHelpers
helpers = record { part_num = part_num two_tiers; inode = 1 }

small : get_max_file_size two_tiers < word
small = omega (arith, two_tiers_bytes)

numbered : IsPartNumbering helpers.part_num (get_max_file_size two_tiers)
numbered = part_num-IsPartNumbering two_tiers two_tiers-IsValid

-- The dirty buffer has bytes 8 to 10, of the parts 1 and 2.
abbrev counted_buffers : BufferList
counted_buffers = record two_buffers {
  track = record no_buffers.track {
    dirty_parts =
        λ j. if leb 1 j && leb j 2 then some (record { queue_id = j; refcnt = 1 }) else none;
  };
}

counted_buffers-refs :
    (j : ℕ) → refs counted_buffers.track j ≡ refs_sum helpers.part_num (entries counted_buffers) j
unfolding part_num part_num_from refs_sum
counted_buffers-refs j = ground arith

counted_buffers-IsSound : IsSound helpers.part_num (get_max_file_size two_tiers) counted_buffers
counted_buffers-IsSound = record {
  shape = refl;
  top = 11;
  below = omega (arith, two_tiers_bytes);
  chain = (
    record {
      nonempty = omega arith;
      ends = refl;
      fits = omega arith;
      has_data = (refl, omega arith, refl, refl, omega arith);
    },
    omega arith,
    (
      record { nonempty = omega arith; ends = refl; fits = omega arith; has_data = tt },
      omega arith,
      omega arith,
    ),
  );
  tracked = record { counted = λ j p e. ground arith; counts = counted_buffers-refs };
}

abbrev only_dirty : BufferState → Bool
only_dirty state = same_state state BufferState.dirty

-- The byte 9 alone is removed, so both bounds are in the zero buffer.
remove_range-IsSound_example :
    (s : Counted) × (remove_range helpers counted_buffers 9 1 (λ b. only_dirty b.state) ≡ some s)
    × IsSound helpers.part_num (get_max_file_size two_tiers) s.list
    × ((x : ℕ)
        → cell_at (entries s.list) x
          ≡ cut only_dirty 9 (9 + 1) x (cell_at (entries counted_buffers) x))
remove_range-IsSound_example =
    remove_range-IsSound helpers (get_max_file_size two_tiers) small numbered counted_buffers 9 1
      only_dirty counted_buffers-IsSound (omega arith) (omega arith)

split_at-IsSound_example :
    (l : BufferList) × (split_at helpers counted_buffers 10 ≡ some l)
    × IsSound helpers.part_num (get_max_file_size two_tiers) l
    × IsDivided (entries l) 10
    × ((x : ℕ) → cell_at (entries l) x ≡ cell_at (entries counted_buffers) x)
split_at-IsSound_example =
    split_at-IsSound helpers (get_max_file_size two_tiers) small numbered counted_buffers 10
      counted_buffers-IsSound (omega arith)

-- Bytes 5 to 8: the end of one buffer, a hole and the start of another.
zero_range-IsSound_example :
    (t : Counted) × (changed : Bool) × (zero_range helpers counted_buffers 5 4 ≡ some (t, changed))
    × IsSound helpers.part_num (get_max_file_size two_tiers) t.list
    × IsZeroed (entries counted_buffers) (entries t.list) 5 4
zero_range-IsSound_example =
    zero_range-IsSound helpers counted_buffers 5 4 (get_max_file_size two_tiers) small numbered
      counted_buffers-IsSound (omega (arith, two_tiers_bytes))

-- To remove no bytes at offset 5, inside the buffer of 4 and 5, loses the byte 4.
removed_nothing : Option (Option ℕ × Option ℕ)
unfolding remove_range
removed_nothing = do
  s ← remove_range helpers counted_buffers 5 0 (λ b. true)
  some (value_at (cell_at (entries s.list) 4), value_at (cell_at (entries s.list) 5))

removed_nothing_run : removed_nothing ≡ some (none, some 9)
unfolding removed_nothing queue unqueue requeue_split part_num part_num_from
removed_nothing_run = refl
