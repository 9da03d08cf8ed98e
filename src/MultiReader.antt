-- ===== src/MultiReader.antt =====
-- core/buffer_reader.go: `MultiReader`, which reads a sequence of byte slices and runs of zeroes.
pub mod Rest
pub mod Rounds
pub mod Reading
pub mod Landing
pub mod Seeking
use akavefs.Prelude.{
  ℕ, zero, suc, ◌+◌, ◌-◌, Bool, true, false, ◌&&◌, Option, none, some, List, [], ◌∷◌, ◌++◌, ltb,
  leb, if◌then◌else◌, ◌>>=◌, ◌==◌, add64, sub64, slt64, is_negative, length, get_elem?, take, drop,
  replicate,
}

pub record BufferOrZero : Type 0 where
  pub bytes : List ℕ
  pub zero : Bool
  pub size : ℕ

pub record MultiReader : Type 0 where
  pub buffers : List BufferOrZero
  pub idx : ℕ
  pub pos : ℕ
  pub buf_pos : ℕ
  pub size : ℕ

unfoldable pub new_multi_reader : MultiReader
new_multi_reader = record { buffers = []; idx = 0; pos = 0; buf_pos = 0; size = 0 }

unfoldable pub add_buffer : MultiReader → List ℕ → MultiReader
add_buffer r buf = record r {
  buffers = r.buffers ++ record { bytes = buf; zero = false; size = length buf } ∷ [];
  size = add64 r.size (length buf);
}

unfoldable pub add_zero : MultiReader → ℕ → MultiReader
add_zero r size = record r {
  buffers = r.buffers ++ record { bytes = []; zero = true; size = size } ∷ [];
  size = add64 r.size size;
}

-- How many bytes a round reads.
abbrev pub round_len : BufferOrZero → ℕ → ℕ → ℕ
round_len b buf_pos remaining =
    let l = sub64 b.size buf_pos in if ltb remaining l then remaining else l

-- The bytes of a round; a slice beyond the data panics.
abbrev pub round_bytes : BufferOrZero → ℕ → ℕ → Option (List ℕ)
round_bytes b buf_pos l =
    if b.zero
    then some (replicate l 0)
    else if leb buf_pos (add64 buf_pos l) && leb (add64 buf_pos l) (length b.bytes)
    then some (take l (drop buf_pos b.bytes))
    else none

-- The reader after `l` bytes of the buffer `b`.
abbrev pub advance : MultiReader → BufferOrZero → ℕ → MultiReader
advance r b l =
    let done = leb b.size (add64 r.buf_pos l) in
    record r {
      pos = add64 r.pos l;
      idx = if done then r.idx + 1 else r.idx;
      buf_pos = if done then 0 else add64 r.buf_pos l;
    }

-- The loop of `Read`, with the bytes that it writes.
unfoldable pub read_from : ℕ → MultiReader → ℕ → Option (MultiReader × List ℕ)
read_from zero r remaining =
    if ltb r.idx (length r.buffers) && ltb 0 remaining then none else some (r, [])
read_from (suc fuel) r remaining = elim (ltb 0 remaining) [
  | false ↦ some (r, [])
  | true ↦ elim (get_elem? r.buffers r.idx) [
    | none ↦ some (r, [])
    | some b ↦
        let l = round_len b r.buf_pos remaining in
        elim (round_bytes b r.buf_pos l) [
          | none ↦ none
          | some bytes ↦ elim (read_from fuel (advance r b l) (sub64 remaining l)) [
            | none ↦ none
            | some (r', rest) ↦ some (r', bytes ++ rest)
          ]
        ]
  ]
]

-- `Read` into a slice of a length: the bytes, or `none` for EOF. A round that does not finish a buffer
-- is the last one.
unfoldable pub read : MultiReader → ℕ → Option (MultiReader × Option (List ℕ))
unfolding read_from
read r len =
    if leb (length r.buffers) r.idx
    then some (r, none)
    else (do (r', bytes) ← read_from (length r.buffers + 1) r len; some (r', some bytes))

-- Where a seek ends: the index, the position and the position in the buffer.
pub record Place : Type 0 where
  pub idx : ℕ
  pub pos : ℕ
  pub buf_pos : ℕ

-- The loop of `Seek`, with the buffers from the index on; an index out of range panics.
unfoldable pub seek_from : List BufferOrZero → ℕ → ℕ → ℕ → Option Place
seek_from [] idx pos offset =
    if ltb pos offset then none else some (record { idx = idx; pos = pos; buf_pos = 0 })
seek_from (b ∷ bs) idx pos offset =
    let end = add64 pos b.size in
    let rest = seek_from bs (idx + 1) end offset in
    if ltb pos offset
    then if leb end offset
      then rest
      else some (record { idx = idx; pos = offset; buf_pos = sub64 offset pos })
    else some (record { idx = idx; pos = pos; buf_pos = 0 })

-- `io.SeekCurrent` is 1 and `io.SeekEnd` is 2.
abbrev pub moved : MultiReader → ℕ → ℕ → ℕ
moved r offset whence =
    if whence == 2 then add64 offset r.size else if whence == 1 then add64 offset r.pos else offset

abbrev pub seek_target : MultiReader → ℕ → ℕ → ℕ
seek_target r offset whence =
    let o = moved r offset whence in
    let below = if slt64 r.size o then r.size else o in if is_negative below then 0 else below

-- `Seek`
unfoldable pub seek_reader : MultiReader → ℕ → ℕ → Option (MultiReader × ℕ)
unfolding seek_from
seek_reader r offset whence = do
  p ← seek_from r.buffers 0 0 (seek_target r offset whence)
  some (record r { idx = p.idx; pos = p.pos; buf_pos = p.buf_pos }, p.pos)

-- `Len`
abbrev pub reader_len : MultiReader → ℕ
reader_len r = r.size
