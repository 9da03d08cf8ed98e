-- ===== src/Tests/Dirty.antt =====
-- core/buffer_list.go: counting the dirty parts, with the part table of Tests/Sizes.antt.
use akavefs.Prelude.{
  ℕ, ◌+◌, ◌-◌, ◌<◌, ◌≤◌, ◌≡◌, false, none, some, ap, some_unique, word, arith, leb, true,
  if◌then◌else◌,
}
use akavefs.PartSizes.{part_num_from, part_num, get_max_file_size}
use akavefs.PartSizes.Laws.{part_num-IsPartNumbering}
use akavefs.BTree.Assoc.{assoc_tree}
use akavefs.BufferList.{BufferState, FileBuffer, BufferListHelpers, Tracker}
use akavefs.BufferList.Track.{queue, unqueue, requeue_split}
use akavefs.BufferList.Counting.{refs, IsCounted}
use akavefs.BufferList.Spans.{IsPlaced, part_refs}
use akavefs.BufferList.Balanced.{unqueue-queue}
use akavefs.BufferList.Parts.{queue-refs, requeue_split-refs}
use akavefs.Tests.Sizes.{two_tiers, two_tiers-IsValid, two_tiers_bytes}
use akavefs.Tests.Buffers.{no_buffers}

abbrev helpers : BufferListHelpers
helpers = record { part_num = part_num two_tiers; inode = 1 }

-- Bytes 3 to 21, of the parts 0 to 3.
abbrev dirty_buffer : FileBuffer
dirty_buffer = record {
  queue_id = 0;
  offset = 3;
  length = 19;
  state = BufferState.dirty;
  loading = false;
  on_disk = false;
  zero = true;
  dirty_id = 1;
  slice = none;
  ptr = none;
}

dirty_buffer-IsPlaced : IsPlaced (get_max_file_size two_tiers) dirty_buffer
dirty_buffer-IsPlaced = record { nonempty = omega arith; below = omega (arith, two_tiers_bytes) }

small : get_max_file_size two_tiers < word
small = omega (arith, two_tiers_bytes)

-- Parts 0 to 3 are counted once.
abbrev counted : Tracker
counted = record no_buffers.track {
  dirty_parts = λ j. if leb j 3 then some (record { queue_id = j; refcnt = 1 }) else none;
}

counted-IsCounted : IsCounted counted
counted-IsCounted j p e = ground arith

counted-part_refs : (j : ℕ) → part_refs helpers.part_num dirty_buffer j ≤ refs counted j
unfolding part_num part_num_from
counted-part_refs j = ground arith

-- What `queue` adds to no counts is in the counts of the parts 0 to 3.
queued-enough :
    (u : Tracker) (c : FileBuffer)
    → queue helpers no_buffers.track dirty_buffer ≡ some (u, c)
    → (j : ℕ) → refs u j ≤ refs no_buffers.track j + refs counted j
queued-enough u c e j =
    let (u', c', run, sums) =
      queue-refs helpers (get_max_file_size two_tiers) small
        (part_num-IsPartNumbering two_tiers two_tiers-IsValid) no_buffers.track dirty_buffer
        dirty_buffer-IsPlaced (λ j. omega arith) in
    let same : refs u' j ≡ refs u j = ap (λ q. refs (q.0) j) (some_unique run e) in
    omega (arith, same, sums j, counted-part_refs j)

unqueue-queue_example :
    (u : Tracker) × (c : FileBuffer) × (w : Tracker) × (queue helpers no_buffers.track dirty_buffer
      ≡ some (u, c))
    × (unqueue helpers counted c ≡ some w)
    × IsCounted u
    × IsCounted w
    × ((j : ℕ)
        → (refs no_buffers.track j ≤ refs u j)
          × (refs w j + refs u j ≡ refs counted j + refs no_buffers.track j))
unqueue-queue_example =
    unqueue-queue helpers (get_max_file_size two_tiers) small
      (part_num-IsPartNumbering two_tiers two_tiers-IsValid) no_buffers.track counted dirty_buffer
      dirty_buffer-IsPlaced (λ j p e. absurd (let k = e in cc)) (λ j. omega arith) counted-IsCounted
      queued-enough

requeue_split-refs_example :
    (u : Tracker) × (c : FileBuffer) × (requeue_split helpers counted
        (record dirty_buffer { length = 12 - 3 })
      ≡ some (u, c))
    × ((j : ℕ)
        → refs u j + part_refs helpers.part_num dirty_buffer j
          ≡ refs counted j
            + part_refs helpers.part_num (record dirty_buffer { length = 12 - 3 }) j
            + part_refs helpers.part_num
                (record dirty_buffer { offset = 12; length = 3 + 19 - 12 })
                j)
requeue_split-refs_example =
    requeue_split-refs helpers (get_max_file_size two_tiers) small
      (part_num-IsPartNumbering two_tiers two_tiers-IsValid) counted dirty_buffer 12
      dirty_buffer-IsPlaced (omega arith) (omega arith) (λ j. ground arith)
