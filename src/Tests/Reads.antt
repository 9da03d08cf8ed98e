-- ===== src/Tests/Reads.antt =====
-- core/file.go: read-ahead and range locks.
use akavefs.Prelude.{
  ℕ, ◌+◌, ◌≤◌, ◌<◌, ◌≡◌, ◌↔◌, ◌>>=◌, refl, true, false, Option, some, List, [], ◌∷◌, arith,
}
use akavefs.ReadAhead.{ReadFlags, FileHandle, new_file_handle, track_read}
use akavefs.ReadAhead.Tracked.{IsTracked, track_read-IsTracked}
use akavefs.RangeLocks.{ReadRange, lock_range, unlock_range, is_range_locked}
use akavefs.RangeLocks.Held.{held, unlock_range-lock_range}
use akavefs.RangeLocks.Overlap.{Holds, is_range_locked-Holds}

abbrev locks : List ReadRange
locks =
    record { offset = 10; size = 5; flushing = false }
    ∷ record { offset = 20; size = 4; flushing = true }
    ∷ []

is_range_locked-Holds_example :
    (is_range_locked locks 12 10 true ≡ true)
    ↔ ((x : ℕ) × (12 ≤ x) × (x < 12 + 10) × Holds true locks x)
is_range_locked-Holds_example =
    is_range_locked-Holds locks 12 10 true
      ((omega arith, omega arith), ((omega arith, omega arith), tt)) (omega arith) (omega arith)

unlock_range-lock_range_example :
    held 10 5 false (unlock_range (lock_range locks 10 5 false) 10 5 false) ≡ held 10 5 false locks
unlock_range-lock_range_example = unlock_range-lock_range 10 5 false 10 5 false locks

-- Two sizes in the ring.
abbrev handle : FileHandle
handle = record {
  last_read_end = 40;
  seq_read_size = 8;
  last_read_count = 1;
  last_read_total = 6;
  last_read_sizes = 6 ∷ 0 ∷ [];
  last_read_idx = 1;
}

handle-IsTracked : IsTracked handle
handle-IsTracked = record {
  index = λ h. omega arith;
  sizes = (omega arith, (omega arith, tt));
  total = refl;
  count = refl;
  few = omega arith;
}

track_read-IsTracked_example :
    (next : FileHandle) × (track_read handle 100 3 ≡ some next)
    × IsTracked next
    × (0 < next.seq_read_size)
track_read-IsTracked_example =
    track_read-IsTracked handle 100 3 handle-IsTracked (omega arith) (omega arith) (omega arith)

-- Two reads of a new handle, neither of them at offset 0: the first adds a size of 0 to the ring, and
-- the count is then above the size of the ring.
first_reads : ReadFlags → Option ℕ
first_reads flags = do
  a ← track_read (new_file_handle flags) 10 1
  b ← track_read a 20 1
  some b.last_read_count

first_reads_run :
    first_reads (record {
      read_ahead_kb = 5120;
      small_read_count = 2;
      small_read_cutoff_kb = 128;
      read_ahead_small_kb = 128;
      large_read_cutoff_kb = 20480;
      read_ahead_large_kb = 102400;
    })
    ≡ some 2
unfolding first_reads track_read new_file_handle
first_reads_run = refl
