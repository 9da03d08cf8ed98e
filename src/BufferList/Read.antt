-- ===== src/BufferList/Read.antt =====
-- core/buffer_list.go: the operations that only read a buffer list.
use akavefs.Prelude.{
  ℕ, zero, suc, ◌-◌, Bool, true, false, not, ◌&&◌, ◌||◌, Option, none, some, List, [], ◌∷◌, ◌++◌,
  ltb, leb, ◌==◌, if◌then◌else◌, ◌>>=◌, add64, sub64, length, take, drop, replicate,
}
use akavefs.BTree.{BTree}
use akavefs.Ranges.{Range}
use akavefs.BufferList.{BufferState, same_state, Slice, FileBuffer, BufferList}
use akavefs.BufferList.Track.{update}
use akavefs.BufferList.Edit.{buf_end, slice_or_nil}

pub data ReadError : Type 0 where
  buffer_is_missing buffer_is_loading : ReadError

-- The chunks that were read, and the dirty IDs of their buffers.
pub record ReadData : Type 0 where
  pub chunks : List (List ℕ)
  pub ids : ℕ → Bool

pub data ReadResult : Type 0 where
  ok : ReadData → ReadResult
  err : ReadError → ReadResult

-- The length of `zeroBuf`.
unfoldable pub zero_buf_len : ℕ
zero_buf_len = 1048576

-- `appendZero`; the fuel is the length.
unfoldable pub append_zero_from : ℕ → List (List ℕ) → ℕ → List (List ℕ)
append_zero_from zero chunks zero_len = chunks
append_zero_from (suc fuel) chunks zero_len = elim (ltb zero_buf_len zero_len) [
  | true ↦
      append_zero_from fuel (chunks ++ replicate zero_buf_len 0 ∷ []) (sub64 zero_len zero_buf_len)
  | false ↦ if ltb 0 zero_len then chunks ++ replicate zero_len 0 ∷ [] else chunks
]

abbrev pub append_zero : List (List ℕ) → ℕ → List (List ℕ)
append_zero chunks zero_len = append_zero_from zero_len chunks zero_len

-- `min`
abbrev pub min64 : ℕ → ℕ → ℕ
min64 a b = if ltb a b then a else b

-- `b.data[from:to]`, which panics beyond the data.
unfoldable pub read_slice : Option Slice → ℕ → ℕ → Option (List ℕ)
read_slice s from to =
    let bytes = (slice_or_nil s).bytes in
    if leb from to && leb to (length bytes) then some (take (to - from) (drop from bytes)) else none

-- The chunk of one buffer, from `cur` to `cur_end`.
unfoldable pub add_chunk : FileBuffer → ℕ → ℕ → List (List ℕ) → Option (List (List ℕ))
unfolding read_slice
add_chunk b cur cur_end chunks =
    if b.zero then some (append_zero chunks (sub64 cur_end cur)) else (do
      chunk ← read_slice b.slice (sub64 cur b.offset) (sub64 cur_end b.offset)
      some (chunks ++ chunk ∷ []))

-- What `GetHoles` returns.
pub record Holes : Type 0 where
  pub holes : List Range
  pub loading : Bool
  pub flush_cleared : Bool

unfoldable pub last_hole : ℕ → ℕ → Holes
last_hole cur end_offset = record {
  holes = if ltb cur end_offset then record { start = cur; end = end_offset } ∷ [] else [];
  loading = false;
  flush_cleared = false;
}

unfoldable pub get_holes_from : ℕ → ℕ → List (ℕ × FileBuffer) → Holes
unfolding last_hole
get_holes_from cur end_offset [] = last_hole cur end_offset
get_holes_from cur end_offset ((end, b) ∷ es) =
    let rest = get_holes_from (buf_end b) end_offset es in
    if leb end_offset b.offset then last_hole cur end_offset else record {
      holes =
          if ltb cur b.offset
          then record { start = cur; end = min64 end_offset b.offset } ∷ rest.holes
          else rest.holes;
      loading = b.loading || rest.loading;
      flush_cleared = same_state b.state BufferState.fl_cleared || rest.flush_cleared;
    }

abbrev finish : ℕ → ℕ → ReadData → ReadResult
finish cur end_offset d = if ltb cur end_offset then err buffer_is_missing else ok d

abbrev pub with_id : Bool → FileBuffer → (ℕ → Bool) → ℕ → Bool
with_id return_ids b ids =
    if return_ids && not (b.dirty_id == 0) then update ids b.dirty_id true else ids

unfoldable pub get_data_from : ℕ → ℕ → Bool → List (ℕ × FileBuffer) → ReadData → Option ReadResult
unfolding add_chunk
get_data_from cur end_offset return_ids [] d = some (finish cur end_offset d)
get_data_from cur end_offset return_ids ((end, b) ∷ es) d =
    let cur_end = min64 end_offset (buf_end b) in
    let ids = with_id return_ids b d.ids in
    if ltb cur b.offset
    then some (err buffer_is_missing)
    else if leb end_offset b.offset
    then some (finish cur end_offset d)
    else if b.loading
    then some (err buffer_is_loading)
    else elim (add_chunk b cur cur_end d.chunks) [
      | none ↦ none
      | some chunks ↦ elim (ltb cur_end end_offset) [
        | true ↦
            get_data_from cur_end end_offset return_ids es (record { chunks = chunks; ids = ids })
        | false ↦ some (ok (record { chunks = chunks; ids = ids }))
      ]
    ]

is_flushed : BufferState → Bool
is_flushed s =
    same_state s BufferState.flushed_full
    || same_state s BufferState.flushed_cut
    || same_state s BufferState.fl_cleared

unfoldable pub any_flushed_from : ℕ → List (ℕ × FileBuffer) → Bool
unfolding is_flushed
any_flushed_from end_offset [] = false
any_flushed_from end_offset ((end, b) ∷ es) =
    not (leb end_offset b.offset) && (is_flushed b.state || any_flushed_from end_offset es)

unfoldable pub select_from : ℕ → (FileBuffer → Bool) → List (ℕ × FileBuffer) → List FileBuffer
select_from end_offset good [] = []
select_from end_offset good ((end, b) ∷ es) =
    let rest = select_from end_offset good es in
    if leb end_offset b.offset then [] else if good b then b ∷ rest else rest

module _ ⦃bt : BTree⦄ where
  open bt use {get, ascend}

  unfoldable pub get_buf : BufferList → ℕ → Option FileBuffer
  get_buf l end = get l.at end

  -- The callback of `Select` changes nothing here.
  unfoldable pub select : BufferList → ℕ → ℕ → (FileBuffer → Bool) → List FileBuffer
  unfolding select_from
  select l start end good = select_from end good (ascend l.at (add64 start 1))

  unfoldable pub get_holes : BufferList → ℕ → ℕ → Holes
  unfolding get_holes_from
  get_holes l offset size = get_holes_from offset (add64 offset size) (ascend l.at (add64 offset 1))

  -- `none` is a panic.
  unfoldable pub get_data : BufferList → ℕ → ℕ → Bool → Option ReadResult
  unfolding get_data_from
  get_data l offset size return_ids =
      get_data_from offset (add64 offset size) return_ids (ascend l.at (add64 offset 1))
        (record { chunks = []; ids = λ id. false })

  unfoldable pub any_flushed : BufferList → ℕ → ℕ → Bool
  unfolding any_flushed_from
  any_flushed l offset size = any_flushed_from (add64 offset size) (ascend l.at (add64 offset 1))

  -- The count is above 0 as an `int64`.
  unfoldable pub any_unclean : BufferList → Bool
  any_unclean l = ltb 0 l.track.unclean_count && ltb l.track.unclean_count 0x8000000000000000
