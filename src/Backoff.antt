-- ===== src/Backoff.antt =====
-- core/goofys.go: `ReadBackoff`. The outcome of each attempt and the product of the multiplier, which
-- is a float, and an interval are arguments.
pub mod Attempts
use akavefs.Prelude.{
  ℕ, zero, suc, ◌+◌, Bool, true, false, ◌&&◌, ◌||◌, Option, none, some, List, [], ◌∷◌,
  if◌then◌else◌, add64, slt64, ◌>>=◌,
}
use akavefs.Errors.{Error, should_retry}

-- Durations and the number of attempts are signed.
pub record RetryFlags : Type 0 where
  pub read_retry_interval : ℕ
  pub read_retry_max : ℕ
  pub read_retry_attempts : ℕ

-- What is returned, and the intervals slept through before; `none` is nil.
pub record Backoff : Type 0 where
  pub err : Option Error
  pub slept : List ℕ

abbrev pub tries_again : RetryFlags → ℕ → Error → Bool
tries_again flags attempt e =
    should_retry (some e)
    && (slt64 flags.read_retry_attempts 1 || slt64 attempt flags.read_retry_attempts)

abbrev pub next_interval : RetryFlags → (ℕ → ℕ) → ℕ → ℕ
next_interval flags grow interval =
    if slt64 flags.read_retry_max (grow interval) then flags.read_retry_max else grow interval

abbrev pub after_sleep : ℕ → Option Backoff → Option Backoff
after_sleep interval rest = do b ← rest; some (record b { slept = interval ∷ b.slept })

-- The loop; each attempt takes one fuel, and `none` is a loop that goes on.
unfoldable pub read_backoff_from :
    ℕ → RetryFlags → (ℕ → ℕ) → (ℕ → Option Error) → ℕ → ℕ → Option Backoff
read_backoff_from zero flags grow try interval attempt = none
read_backoff_from (suc fuel) flags grow try interval attempt =
    let rest =
      read_backoff_from fuel flags grow try (next_interval flags grow interval) (add64 attempt 1) in
    elim (try attempt) [
      | none ↦ some (record { err = none; slept = [] })
      | some e ↦
          if tries_again flags attempt e
          then after_sleep interval rest
          else some (record { err = some e; slept = [] })
    ]

unfoldable pub read_backoff : ℕ → RetryFlags → (ℕ → ℕ) → (ℕ → Option Error) → Option Backoff
unfolding read_backoff_from
read_backoff fuel flags grow try = read_backoff_from fuel flags grow try flags.read_retry_interval 1
