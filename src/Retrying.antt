-- ===== src/Retrying.antt =====
-- core/file.go: the reads of a range from the server, `sendRead`, and their attempts in `retryRead`,
-- each of which goes on where the one before ended. The answers of the server are an argument; the end
-- of a body is an error, io.EOF or another one, that comes after its bytes. The allocated memory, the
-- extended attributes and the sleeps of `ReadBackoff` are not part of it.
pub mod Resumed
use akavefs.Prelude.{
  ℕ, zero, suc, ◌+◌, ◌-◌, ◌*◌, Bool, Option, none, some, List, [], ◌∷◌, ◌++◌, ltb, leb, min,
  if◌then◌else◌, ◌>>=◌, add64, sub64,
}
use akavefs.Errors.{Error}
use akavefs.Backoff.{RetryFlags, tries_again}

-- What the reads of a body give: some bytes at a time, and then an error.
pub record Body : Type 0 where
  pub chunks : List ℕ
  pub end_error : Error

pub data Response : Type 0 where
  refused : Error → Response
  body : Body → Response

-- The buffers that are added, the number of bytes in them, and the error.
pub record Sent : Type 0 where
  pub added : List (ℕ × ℕ)
  pub total_done : ℕ
  pub err : Option Error

pub record Filled : Type 0 where
  pub chunks_left : List ℕ
  pub filled : ℕ

abbrev pub read_buf_size : ℕ
read_buf_size = 131072

-- Reads into a buffer until it is full or the body ends; a read gives at most what there is room for.
unfoldable pub fill_buffer : List ℕ → ℕ → Filled
fill_buffer [] room = record { chunks_left = []; filled = 0 }
fill_buffer (c ∷ cs) room =
    let rest = fill_buffer cs (room - c) in
    if leb room c
    then record { chunks_left = (c - room) ∷ cs; filled = room }
    else record { chunks_left = rest.chunks_left; filled = c + rest.filled }

abbrev pub nothing_sent : Option Error → Sent
nothing_sent e = record { added = []; total_done = 0; err = e }

abbrev pub with_buffer : ℕ → ℕ → Sent → Sent
with_buffer offset done_bytes s = record s {
  added = (offset, done_bytes) ∷ s.added;
  total_done = add64 done_bytes s.total_done;
}

-- The loop; each round takes one fuel, and the size is enough.
unfoldable pub send_rounds : ℕ → Error → List ℕ → ℕ → ℕ → Sent
unfolding fill_buffer
send_rounds zero end_error chunks offset size = nothing_sent none
send_rounds (suc fuel) end_error chunks offset size =
    let bs = min size read_buf_size in
    let f = fill_buffer chunks bs in
    let rest =
      send_rounds fuel end_error f.chunks_left (add64 offset f.filled) (sub64 size f.filled) in
    if ltb 0 size
    then if ltb f.filled bs then nothing_sent (some end_error) else with_buffer offset f.filled rest
    else nothing_sent none

unfoldable pub send_read : Response → ℕ → ℕ → Sent
unfolding send_rounds
send_read (Response.refused e) offset size = nothing_sent (some e)
send_read (Response.body b) offset size = send_rounds size b.end_error b.chunks offset size

-- The attempt before another one.
abbrev pub before_retry : Sent → Sent → Sent
before_retry s t = record {
  added = s.added ++ t.added;
  total_done = add64 s.total_done t.total_done;
  err = t.err;
}

-- The attempts; each takes one fuel, and `none` is a loop that goes on.
unfoldable pub retry_read : ℕ → RetryFlags → (ℕ → Response) → ℕ → ℕ → ℕ → Option Sent
unfolding send_read
retry_read zero flags respond attempt offset size = none
retry_read (suc fuel) flags respond attempt offset size =
    let s = send_read (respond attempt) offset size in
    let rest =
      retry_read fuel flags respond (add64 attempt 1) (add64 offset s.total_done)
        (sub64 size s.total_done) in
    elim s.err [
      | none ↦ some s
      | some e ↦
          if tries_again flags attempt e then (rest >>= λ t. some (before_retry s t)) else some s
    ]
