-- ===== src/Tests/Loads.antt =====
-- core/file.go: requests for two holes, and for what is missing of a file of two buffers.
use akavefs.Prelude.{ℕ, ◌*◌, ◌<◌, ◌≡◌, ◌⊎◌, false, some, List, All, arith}
use akavefs.Ranges.{Range, merge_ra}
use akavefs.Ranges.Covers.{Covers}
use akavefs.Ranges.Split.{IsAtMost}
use akavefs.BTree.Assoc.{assoc_tree}
use akavefs.BufferList.Read.{get_holes}
use akavefs.Loading.{LoadFlags, Requests, request_ranges}
use akavefs.Loading.Clipped.{StartsPast}
use akavefs.Loading.Missing.{IsMissing, request_ranges-get_holes}
use akavefs.Tests.Buffers.{two_buffers, two_buffers-IsWellFormed}

abbrev flags : LoadFlags
flags = record { read_merge_kb = 1; read_ahead_parallel_kb = 1; has_cache = false }

abbrev first_hole : Range
first_hole = record { start = 0; end = 5000 }

abbrev second_hole : Range
second_hole = record { start = 9000; end = 9500 }

request_ranges-get_holes_example :
    ((x : ℕ)
      → IsMissing two_buffers two_buffers-IsWellFormed 5 4
          (omega arith)
          flags
          12
          3
          (omega arith)
          (omega arith)
          (omega arith)
          x
      → ⊥)
    ⊎ ((request_ranges flags 12 (get_holes two_buffers 5 4).holes 3 ≡ some Requests.out_of_range)
          × StartsPast 12 (merge_ra (get_holes two_buffers 5 4).holes 3 (1 * 1024))
        ⊎ ((out : List Range) × (request_ranges flags 12 (get_holes two_buffers 5 4).holes 3
              ≡ some (Requests.requests out))
            × ((x : ℕ)
                → x < 12
                → IsMissing two_buffers two_buffers-IsWellFormed 5 4
                    (omega arith)
                    flags
                    12
                    3
                    (omega arith)
                    (omega arith)
                    (omega arith)
                    x
                → Covers x out)
            × ((x : ℕ) → Covers x out → x < 12)
            × All (IsAtMost (1 * 1024)) out))
request_ranges-get_holes_example =
    request_ranges-get_holes two_buffers two_buffers-IsWellFormed 5 4 (omega arith) flags 12 3
      (omega arith) (omega arith) (omega arith)
