-- ===== src/ReadAhead.antt =====
-- core/file.go: `FileHandle`, which tracks the sizes of reads and picks the read-ahead.
pub mod Tracked
use akavefs.Prelude.{
  ℕ, zero, suc, ◌+◌, ◌-◌, ◌*◌, ◌/◌, ◌%◌, Option, none, some, List, [], ◌∷◌, ltb, leb, ◌==◌,
  if◌then◌else◌, ◌>>=◌, add64, sub64, mul64, length, get_elem?, replicate,
}

-- The fields that do not hold the inode.
pub record FileHandle : Type 0 where
  pub last_read_end : ℕ
  pub seq_read_size : ℕ
  pub last_read_count : ℕ
  pub last_read_total : ℕ
  pub last_read_sizes : List ℕ
  pub last_read_idx : ℕ

-- The flags of core/cfg/config.go that matter here.
pub record ReadFlags : Type 0 where
  pub read_ahead_kb : ℕ
  pub small_read_count : ℕ
  pub small_read_cutoff_kb : ℕ
  pub read_ahead_small_kb : ℕ
  pub large_read_cutoff_kb : ℕ
  pub read_ahead_large_kb : ℕ

unfoldable pub new_file_handle : ReadFlags → FileHandle
new_file_handle flags = record {
  last_read_end = 0;
  seq_read_size = 0;
  last_read_count = 0;
  last_read_total = 0;
  last_read_sizes =
      if ltb 1 flags.small_read_count then replicate (flags.small_read_count - 1) 0 else [];
  last_read_idx = 0;
}

-- `l[i] = v`, within the list.
abbrev pub set_elem : List ℕ → ℕ → ℕ → List ℕ
set_elem [] i v = []
set_elem (x ∷ xs) zero v = v ∷ xs
set_elem (x ∷ xs) (suc i) v = x ∷ set_elem xs i v

-- The handle with the size `old` of the ring replaced by that of the last sequence of reads.
abbrev pub pushed : FileHandle → ℕ → FileHandle
pushed fh old =
    let total = if old == 0 then fh.last_read_total else sub64 fh.last_read_total old in
    let count = if old == 0 then fh.last_read_count else sub64 fh.last_read_count 1 in
    record fh {
      last_read_sizes = set_elem fh.last_read_sizes fh.last_read_idx fh.seq_read_size;
      last_read_total = add64 total fh.seq_read_size;
      last_read_count = add64 count 1;
      last_read_idx = (fh.last_read_idx + 1) % length fh.last_read_sizes;
    }

-- An index out of range panics.
unfoldable pub push_size : FileHandle → Option FileHandle
push_size fh = do old ← get_elem? fh.last_read_sizes fh.last_read_idx; some (pushed fh old)

unfoldable pub count_read : FileHandle → ℕ → ℕ → Option FileHandle
unfolding push_size
count_read fh offset size =
    if size == 0
    then some fh
    else if offset == fh.last_read_end
    then some (record fh { seq_read_size = add64 fh.seq_read_size size })
    else (do
      pushed ← if length fh.last_read_sizes == 0 then some fh else push_size fh
      some (record pushed { seq_read_size = size }))

unfoldable pub track_read : FileHandle → ℕ → ℕ → Option FileHandle
unfolding count_read
track_read fh offset size = do
  counted ← count_read fh offset size
  some (record counted { last_read_end = add64 offset size })

-- Division by 0 panics.
pub get_read_ahead : ReadFlags → FileHandle → Option ℕ
get_read_ahead flags fh =
    let ra = mul64 flags.read_ahead_kb 1024 in
    let reads = add64 1 fh.last_read_count in
    if leb (mul64 flags.large_read_cutoff_kb 1024) fh.seq_read_size
    then some (mul64 flags.read_ahead_large_kb 1024)
    else if fh.last_read_count == 0
    then some ra
    else if reads == 0
    then none
    else if leb (add64 fh.seq_read_size fh.last_read_total / reads)
        (mul64 flags.small_read_cutoff_kb 1024)
    then some (mul64 flags.read_ahead_small_kb 1024)
    else some ra
