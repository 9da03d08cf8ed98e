-- ===== src/Backoff/Attempts.antt =====
-- core/goofys.go: `ReadBackoff` ends.
use akavefs.Prelude.{
  ℕ, zero, suc, ◌+◌, ◌^◌, ◌≡◌, ◌≤◌, ◌<◌, ◌∙◌, sym, ap, inl, inr, Bool, true, false, ◌&&◌, Option,
  none, some, [], ◌∷◌, Bool-cases, Option-cases, length, add64, add64-eq, slt64, slt64-ltb, arith,
  subst, ltb, ◌==◌,
}
use akavefs.Errors.{Error, should_retry}
use akavefs.Backoff.{
  RetryFlags, Backoff, tries_again, next_interval, after_sleep, read_backoff_from, read_backoff,
}

abbrev pub is_retried : Option Error → Bool
is_retried none = false
is_retried (some e) = should_retry (some e)

-- The attempts from one on: how many there are, which one gives the result, and why there is no more.
pub record IsRun (n : ℕ) (try : ℕ → Option Error) (a : ℕ) (b : Backoff) : Type 0 where
  pub limited : a + length b.slept ≤ n
  pub last : b.err ≡ try (a + length b.slept)
  pub failed : (k : ℕ) → a ≤ k → k < a + length b.slept → is_retried (try k) ≡ true
  pub exhausted : is_retried b.err ≡ true → a + length b.slept ≡ n

next-eq : (n a : ℕ) → a ≤ n → n < 2 ^ 63 → add64 a 1 ≡ a + 1
next-eq n a h small = add64-eq a 1 (omega arith)

-- A further attempt, and the last one.
IsRun-again :
    (n : ℕ) (try : ℕ → Option Error) (a interval : ℕ) (b : Backoff)
    → is_retried (try a) ≡ true
    → IsRun n try (a + 1) b
    → IsRun n try a (record b { slept = interval ∷ b.slept })
IsRun-again n try a interval b h r =
    let e : a + 1 + length b.slept ≡ a + suc (length b.slept) = omega arith in
    record {
      limited = omega (arith, r.limited);
      last = subst (λ k. b.err ≡ try k) e r.last;
      failed = λ k lo hi. elim (Bool-cases (k == a)) [
        | inl here ↦
            let same : a ≡ k = ground arith in subst (λ i. is_retried (try i) ≡ true) same h
        | inr later ↦ r.failed k (ground arith) (omega arith)
      ];
      exhausted = λ t. sym e ∙ r.exhausted t;
    }

IsRun-once :
    (n : ℕ) (try : ℕ → Option Error) (a : ℕ) (err : Option Error)
    → a ≤ n
    → try a ≡ err
    → (is_retried err ≡ true → a ≡ n)
    → IsRun n try a (record { err = err; slept = [] })
IsRun-once n try a err h e stop =
    let zero_more : a + 0 ≡ a = omega arith in
    record {
      limited = omega arith;
      last = sym (ap try zero_more ∙ e);
      failed = λ k lo hi. absurd (omega arith);
      exhausted = λ t. zero_more ∙ stop t;
    }

module _ (flags : RetryFlags) (grow : ℕ → ℕ) (try : ℕ → Option Error)
    (pos : 1 ≤ flags.read_retry_attempts) (small : flags.read_retry_attempts < 2 ^ 63) where
  pub tries_again-ltb :
      (a : ℕ) (e : Error)
      → a ≤ flags.read_retry_attempts
      → tries_again flags a e ≡ (should_retry (some e) && ltb a flags.read_retry_attempts)
  tries_again-ltb a e h =
      let p = slt64-ltb flags.read_retry_attempts 1 small (omega arith) in
      let q = slt64-ltb a flags.read_retry_attempts (omega arith) small in
      let none_left : ltb flags.read_retry_attempts 1 ≡ false = ground arith in rw (p, q, none_left)

  read_backoff_again :
      (fuel interval a : ℕ) (e : Error) (b : Backoff)
      → try a ≡ some e
      → tries_again flags a e ≡ true
      → read_backoff_from fuel flags grow try (next_interval flags grow interval) (add64 a 1)
        ≡ some b
      → read_backoff_from (suc fuel) flags grow try interval a
        ≡ some (record b { slept = interval ∷ b.slept })
  unfolding read_backoff_from
  read_backoff_again fuel interval a e b failed again rest =
      rw (read_backoff_from, failed, again) (ap (after_sleep interval) rest)

  read_backoff_from-IsRun :
      (fuel interval a : ℕ)
      → a + fuel ≡ flags.read_retry_attempts + 1
      → a ≤ flags.read_retry_attempts
      → (b : Backoff) × (read_backoff_from fuel flags grow try interval a ≡ some b)
        × IsRun flags.read_retry_attempts try a b
  unfolding read_backoff_from
  read_backoff_from-IsRun zero interval a h le = absurd (omega arith)
  read_backoff_from-IsRun (suc fuel) interval a h le = elim (Option-cases (try a)) [
    | inl done ↦ (
      record { err = none; slept = [] },
      rw (read_backoff_from, done),
      IsRun-once flags.read_retry_attempts try a none le done (λ t. absurd (ground (arith, t))),
    )
    | inr (e, failed) ↦
        let again = tries_again-ltb a e le in
        let next = next-eq flags.read_retry_attempts a le small in
        elim (Bool-cases (should_retry (some e))) [
          | inr stop ↦ (
            record { err = some e; slept = [] },
            rw (read_backoff_from, failed, again, stop),
            IsRun-once flags.read_retry_attempts try a (some e) le failed
                (λ t. absurd (ground (arith, t, stop))),
          )
          | inl retry ↦ elim (Bool-cases (ltb a flags.read_retry_attempts)) [
            | inr out ↦ (
              record { err = some e; slept = [] },
              rw (read_backoff_from, failed, again, retry, out),
              IsRun-once flags.read_retry_attempts try a (some e) le failed (λ t. ground arith),
            )
            | inl more ↦
                let (b, run, done) =
                  read_backoff_from-IsRun fuel (next_interval flags grow interval) (a + 1)
                    (omega arith) (ground arith) in
                (
                  record b { slept = interval ∷ b.slept },
                  read_backoff_again fuel interval a e b failed (rw (again, retry, more)) (
                      ap (read_backoff_from fuel flags grow try (next_interval flags grow interval))
                        next
                      ∙ run),
                  IsRun-again flags.read_retry_attempts try a interval b
                      (ap is_retried failed ∙ retry) done,
                )
          ]
        ]
  ]

  -- With a limit on the attempts from 1 on `ReadBackoff` returns, after at most so many attempts, with
  -- the outcome of the last one; each attempt before failed with an error that is tried again, and so
  -- did the last one only if the limit is reached.
  pub read_backoff-IsRun :
      (b : Backoff) × (read_backoff flags.read_retry_attempts flags grow try ≡ some b)
      × IsRun flags.read_retry_attempts try 1 b
  unfolding read_backoff
  read_backoff-IsRun =
      read_backoff_from-IsRun flags.read_retry_attempts flags.read_retry_interval 1 (omega arith)
        pos

-- No interval but the first one is longer than the longest one.
abbrev pub IsCapped : RetryFlags → ℕ → Type 0
IsCapped flags interval = slt64 flags.read_retry_max interval ≡ false

slt64_irrefl : (a : ℕ) → slt64 a a ≡ false
slt64_irrefl a = ground arith

next_interval-IsCapped :
    (flags : RetryFlags) (grow : ℕ → ℕ) (interval : ℕ)
    → IsCapped flags (next_interval flags grow interval)
next_interval-IsCapped flags grow interval =
    elim (Bool-cases (slt64 flags.read_retry_max (grow interval))) [
      | inl long ↦ rw long (slt64_irrefl flags.read_retry_max)
      | inr short ↦ rw (short, short)
    ]
