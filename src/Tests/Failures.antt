-- ===== src/Tests/Failures.antt =====
-- core/goofys.go: errors that are mapped, and attempts that fail.
use akavefs.Prelude.{
  ℕ, not, ◌+◌, ◌==◌, if◌then◌else◌, ◌≡◌, refl, Option, none, some, ◌∷◌, [], arith,
}
use akavefs.Errors.{
  Error, other_code, request_failure, map_aws_error, should_retry, is_errno, enoent, eagain,
}
use akavefs.Errors.Mapping.{is_missing, is_overloaded, is_refused, map_aws_error-classes}
use akavefs.Backoff.{RetryFlags, Backoff, read_backoff}
use akavefs.Backoff.Attempts.{IsRun, read_backoff-IsRun}

abbrev slow_down : Option Error
slow_down = some (request_failure (other_code 0) 503)

-- An answer 404 without a code that is known.
abbrev not_there : Error
not_there = request_failure (other_code 0) 404

map_aws_error-classes_example :
    (is_errno enoent (map_aws_error (some not_there)) ≡ is_missing not_there)
    × (is_errno eagain (map_aws_error (some not_there)) ≡ is_overloaded not_there)
    × (should_retry (some not_there) ≡ not (is_refused not_there))
    × (map_aws_error (map_aws_error (some not_there)) ≡ map_aws_error (some not_there))
map_aws_error-classes_example = map_aws_error-classes not_there

abbrev three_attempts : RetryFlags
three_attempts = record { read_retry_interval = 2; read_retry_max = 3; read_retry_attempts = 3 }

double : ℕ → ℕ
double n = n + n

-- The second attempt succeeds.
abbrev fails_once : ℕ → Option Error
fails_once n = if n == 1 then slow_down else none

read_backoff-IsRun_example :
    (b : Backoff) × (read_backoff 3 three_attempts double fails_once ≡ some b)
    × IsRun 3 fails_once 1 b
read_backoff-IsRun_example =
    read_backoff-IsRun three_attempts double fails_once (omega arith) (omega arith)

fails_once_run :
    read_backoff 3 three_attempts double fails_once ≡ some (record { err = none; slept = 2 ∷ [] })
unfolding read_backoff double
fails_once_run = refl
