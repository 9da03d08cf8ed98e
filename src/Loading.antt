-- ===== src/Loading.antt =====
-- core/file.go: `loadFromServer`, `loadFromDisk` and `LoadRange`, up to the wait for the data and a
-- round of that wait. What opening and reading the file of the disk cache gives are arguments. The
-- requests that are sent are a result; goroutines read them into the buffers later.
pub mod Clipped
pub mod Requested
pub mod Missing
use akavefs.Prelude.{
  ℕ, ◌+◌, ◌-◌, Bool, true, false, not, ◌&&◌, ◌||◌, Option, none, some, List, [], ◌∷◌, ltb, leb,
  ◌==◌, if◌then◌else◌, ◌>>=◌, add64, sub64, mul64, length, ◌⊎◌, inl, inr,
}
use akavefs.BTree.{BTree}
use akavefs.Ranges.{Range, merge_ra, split_ra}
use akavefs.BufferList.{BufferListHelpers, BufferList, Slice}
use akavefs.BufferList.Load.{add_loading, add_loading_from_disk}
use akavefs.BufferList.Evict.{revive_from_disk}
use akavefs.BufferList.Read.{
  ReadError, buffer_is_missing, buffer_is_loading, ReadResult, ok, err, get_holes, get_data,
}
use akavefs.Errors.{erange}

abbrev pub eio : ℕ
eio = 5

abbrev pub espipe : ℕ
espipe = 29

pub record LoadFlags : Type 0 where
  pub read_merge_kb : ℕ
  pub read_ahead_parallel_kb : ℕ
  -- `CachePath` is not empty.
  pub has_cache : Bool

-- The ranges to request, or ERANGE.
pub data Requests : Type 0 where
  out_of_range : Requests
  requests : List Range → Requests

abbrev pub clip : ℕ → Range → Requests
clip known r =
    if ltb known r.end
    then if ltb known r.start
      then Requests.out_of_range
      else Requests.requests (record r { end = known } ∷ [])
    else Requests.requests (r ∷ [])

abbrev pub before : Range → Requests → Requests
before r Requests.out_of_range = Requests.out_of_range
before r (Requests.requests rr) = Requests.requests (r ∷ rr)

-- The last range ends at the known size; there is a panic if there is none.
unfoldable pub clip_last : ℕ → List Range → Option Requests
clip_last known [] = none
clip_last known (r ∷ []) = some (clip known r)
clip_last known (r ∷ s ∷ rr) = do c ← clip_last known (s ∷ rr); some (before r c)

abbrev pub split_requests : LoadFlags → Requests → Option Requests
split_requests flags Requests.out_of_range = some Requests.out_of_range
split_requests flags (Requests.requests rr) = do
  out ← split_ra rr (mul64 flags.read_ahead_parallel_kb 1024)
  some (Requests.requests out)

-- The first part of `loadFromServer`.
unfoldable pub request_ranges : LoadFlags → ℕ → List Range → ℕ → Option Requests
unfolding clip_last
request_ranges flags known rr read_ahead = do
  c ← clip_last known (merge_ra rr read_ahead (mul64 flags.read_merge_kb 1024))
  split_requests flags c

-- The range that `LoadRange` asks for, within the size of the file.
abbrev pub load_size : ℕ → ℕ → ℕ → ℕ
load_size file_size offset size =
    if leb file_size (add64 offset size) then sub64 file_size offset else size

abbrev pub read_ahead_size : ℕ → ℕ → ℕ → ℕ → ℕ
read_ahead_size file_size offset size read_ahead =
    let more = if ltb size read_ahead then read_ahead else size in
    if ltb file_size (add64 offset more) then sub64 file_size offset else more

-- What is known of the file.
pub record Sizes : Type 0 where
  pub file_size : ℕ
  pub known_size : ℕ

-- What `LoadRange` has done before it waits: `err` is `none` for nil.
pub record Loaded ⦃bt : BTree⦄ : Type 0 where
  pub miss : Bool
  pub err : Option ℕ
  pub list : BufferList
  pub sent : List Range
  pub waits : Bool

-- A round of the wait.
pub data Round : Type 0 where
  still_loading ready : Round
  failed : ℕ → Round

module _ ⦃bt : BTree⦄ (h : BufferListHelpers) where
  unfoldable pub add_loadings : BufferList → List Range → Option BufferList
  unfolding add_loading
  add_loadings l [] = some l
  add_loadings l (r ∷ rr) = do
    l' ← add_loading h l r.start (sub64 r.end r.start)
    add_loadings l' rr

  -- The disk cache: the error of opening it, and for each range what reading it gives.
  module _ (open_error : Option ℕ) (read_at : Range → ℕ ⊎ Slice) where
    -- The error is that of the last range.
    unfoldable pub revive_ranges :
        Option ℕ → BufferList → List Range → Option (BufferList × Option ℕ)
    unfolding revive_from_disk
    revive_ranges e l [] = some (l, e)
    revive_ranges e l (r ∷ rr) = elim (read_at r) [
      | inl failure ↦ revive_ranges (some failure) l rr
      | inr data_read ↦ elim (revive_from_disk h l r.start data_read) [
        | none ↦ none
        | some l' ↦ revive_ranges none l' rr
      ]
    ]

    unfoldable pub load_from_disk : BufferList → List Range → Option (BufferList × Option ℕ)
    unfolding revive_ranges
    load_from_disk l rr = elim open_error [
      | some e ↦ some (l, some e)
      | none ↦ revive_ranges none l rr
    ]

    abbrev pub after_disk : Loaded → BufferList → Option ℕ → Loaded
    after_disk s l none = record s { list = l }
    after_disk s l (some failure) = record s { err = some failure; list = l; waits = false }

    -- Ranges of the disk cache are read only if there is no error before.
    abbrev pub from_disk : LoadFlags → ℕ → ℕ → Loaded → Option Loaded
    unfolding add_loading_from_disk load_from_disk
    from_disk flags offset size s =
        if flags.has_cache
        then (do
          reads ← add_loading_from_disk h s.list offset size
          (if length reads.read_ranges == 0 then some (record s { list = reads.list }) else (do
            (l, e) ← load_from_disk reads.list reads.read_ranges
            some (after_disk s l e))))
        else some s

  -- What is requested for the holes.
  abbrev pub from_server : BufferList → Requests → Option Loaded
  unfolding add_loadings
  from_server l Requests.out_of_range =
      some (record { miss = true; err = some erange; list = l; sent = []; waits = false })
  from_server l (Requests.requests rr) = do
    l' ← add_loadings l rr
    some (record { miss = true; err = none; list = l'; sent = rr; waits = true })

  unfoldable pub load_holes : LoadFlags → ℕ → BufferList → Bool → ℕ → List Range → Option Loaded
  unfolding request_ranges from_server
  load_holes flags known l loading read_ahead [] =
      some (record { miss = false; err = none; list = l; sent = []; waits = loading })
  load_holes flags known l loading read_ahead (r ∷ rr) = do
    q ← request_ranges flags known (r ∷ rr) read_ahead
    from_server l q

  abbrev pub no_error : Option ℕ → Bool
  no_error none = true
  no_error (some e) = false

  unfoldable pub load_range :
      Option ℕ → (Range → ℕ ⊎ Slice) → LoadFlags → Sizes → BufferList → ℕ → ℕ → ℕ → Option Loaded
  unfolding load_holes from_disk get_holes
  load_range open_error read_at flags sizes l offset size read_ahead =
      let sz = load_size sizes.file_size offset size in
      let holes = get_holes l offset (read_ahead_size sizes.file_size offset sz read_ahead) in
      if leb sizes.file_size offset
      then some (record { miss = false; err = none; list = l; sent = []; waits = false })
      else if holes.flush_cleared
      then some (record { miss = true; err = some espipe; list = l; sent = []; waits = false })
      else (do
        s ← load_holes flags sizes.known_size l holes.loading read_ahead holes.holes
        (if no_error s.err then from_disk open_error read_at flags offset sz s else some s))

  -- A buffer that is gone is a failed read, with the error that was noted for it.
  abbrev pub read_failure : Option ℕ → ℕ
  read_failure none = eio
  read_failure (some e) = e

  abbrev pub round_of : Option ℕ → ReadResult → Round
  round_of read_error (ok d) = Round.ready
  round_of read_error (err buffer_is_loading) = Round.still_loading
  round_of read_error (err buffer_is_missing) = Round.failed (read_failure read_error)

  unfoldable pub wait_round : BufferList → Option ℕ → ℕ → ℕ → Option Round
  unfolding get_data
  wait_round l read_error offset size = do
    r ← get_data l offset size false
    some (round_of read_error r)
