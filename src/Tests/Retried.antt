-- ===== src/Tests/Retried.antt =====
-- core/file.go: a read of a buffer and 10 bytes more, of which the first answer has 4.
use akavefs.Prelude.{ℕ, ◌+◌, ◌≤◌, ◌≡◌, refl, none, some, [], ◌∷◌, if◌then◌else◌, ◌==◌, arith}
use akavefs.Errors.{Error}
use akavefs.Backoff.{RetryFlags}
use akavefs.Retrying.{Response, Sent, fill_buffer, send_rounds, send_read, retry_read}
use akavefs.Retrying.Resumed.{Follows, retry_read-IsRead}

abbrev three_attempts : RetryFlags
three_attempts = record { read_retry_interval = 1; read_retry_max = 60; read_retry_attempts = 3 }

abbrev broken_once : ℕ → Response
broken_once n =
    if n == 1
    then Response.body record { chunks = 131072 ∷ 4 ∷ []; end_error = Error.unknown 1 }
    else Response.body record { chunks = 6 ∷ 4 ∷ []; end_error = Error.unknown 1 }

abbrev some_size : ℕ
some_size = 131082

retry_read-IsRead_example :
    (s : Sent) × (retry_read 3 three_attempts broken_once 1 100 some_size ≡ some s)
    × Follows 100 (100 + s.total_done) s.added
    × (s.total_done ≤ some_size)
    × (s.err ≡ none → s.total_done ≡ some_size)
retry_read-IsRead_example =
    retry_read-IsRead three_attempts broken_once 100 some_size (omega arith) (omega arith)
      (omega arith)

-- A read of 2 bytes of a body that has 10.
small_read :
    send_read (Response.body record { chunks = 6 ∷ 4 ∷ []; end_error = Error.unknown 1 }) 100 2
    ≡ record { added = (100, 2) ∷ []; total_done = 2; err = none }
unfolding send_read send_rounds fill_buffer
small_read = refl
