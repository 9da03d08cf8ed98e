-- ===== src/Retrying/Resumed.antt =====
-- core/file.go: the buffers that `retryRead` adds follow each other from the start of the range, and
-- fill it if there is no error.
use akavefs.Prelude.{
  ℕ, zero, suc, ◌+◌, ◌-◌, ◌^◌, ◌≤◌, ◌<◌, ◌≡◌, ◌∙◌, refl, sym, ap, subst, inl, inr, Bool-cases,
  Option, Option-cases, none, some, List, [], ◌∷◌, ◌++◌, ltb, min, ◌>>=◌, add64, sub64, add64-eq,
  sub64-eq, word, arith,
}
use akavefs.Errors.{Error}
use akavefs.Backoff.{RetryFlags, tries_again}
use akavefs.Backoff.Attempts.{tries_again-ltb}
use akavefs.Retrying.{
  Response, Sent, read_buf_size, fill_buffer, with_buffer, send_rounds, send_read, before_retry,
  retry_read,
}

-- Buffers that are not empty and follow each other from one place to another.
abbrev pub Follows : ℕ → ℕ → List (ℕ × ℕ) → Type 0
Follows first last [] = first ≡ last
Follows first last (b ∷ bs) = (b.0 ≡ first) × (0 < b.1) × Follows (first + b.1) last bs

Follows-append :
    (first middle last : ℕ) (bs cs : List (ℕ × ℕ))
    → Follows first middle bs
    → Follows middle last cs
    → Follows first last (bs ++ cs)
Follows-append first middle last [] cs f g = subst (λ k. Follows k last cs) (sym f) g
Follows-append first middle last (b ∷ bs) cs f g =
    (f.0, f.1, Follows-append (first + b.1) middle last bs cs (f.2) g)

-- The bytes that are added are the first ones of the range, all of them if there is no error.
pub record IsRead (offset size : ℕ) (s : Sent) : Type 0 where
  pub follows : Follows offset (offset + s.total_done) s.added
  pub inside : s.total_done ≤ size
  pub complete : s.err ≡ none → s.total_done ≡ size

fill_buffer-le : (cs : List ℕ) (room : ℕ) → (fill_buffer cs room).filled ≤ room
unfolding fill_buffer
fill_buffer-le [] room = omega arith
fill_buffer-le (c ∷ cs) room = let rest = fill_buffer-le cs (room - c) in ground (arith, rest)

-- A part of the range and then the rest of it.
module _ (offset size n : ℕ) (t : Sent) (inside : n ≤ size) (fits : offset + size < word)
    (r : IsRead (offset + n) (size - n) t) where
  total : add64 n t.total_done ≡ n + t.total_done
  total = add64-eq n t.total_done (omega (arith, r.inside, inside, fits))

  rest-Follows : Follows (offset + n) (offset + (n + t.total_done)) t.added
  rest-Follows =
      let e : offset + n + t.total_done ≡ offset + (n + t.total_done) = omega arith in
      subst (λ k. Follows (offset + n) k t.added) e r.follows

  rest_complete : t.err ≡ none → n + t.total_done ≡ size
  rest_complete h = omega (arith, r.complete h, inside)

  with_buffer-IsRead : 0 < n → IsRead offset size (with_buffer offset n t)
  with_buffer-IsRead pos = record {
    follows = rw total (refl, pos, rest-Follows);
    inside = rw total (omega (arith, r.inside, inside));
    complete = λ h. rw total (rest_complete h);
  }

  before_retry-IsRead :
      (s : Sent) → s.total_done ≡ n → IsRead offset size s → IsRead offset size (before_retry s t)
  before_retry-IsRead s e q = record {
    follows =
        rw (e, total)
          (Follows-append offset (offset + n) (offset + (n + t.total_done)) s.added t.added
            (subst (λ k. Follows offset (offset + k) s.added) e q.follows) rest-Follows);
    inside = rw (e, total) (omega (arith, r.inside, inside));
    complete = λ h. rw (e, total) (rest_complete h);
  }

send_rounds-IsRead :
    (fuel : ℕ) (end_error : Error) (chunks : List ℕ) (offset size : ℕ)
    → size ≤ fuel
    → offset + size < word
    → IsRead offset size (send_rounds fuel end_error chunks offset size)
unfolding send_rounds
send_rounds-IsRead zero end_error chunks offset size le lt = record {
  follows = omega arith;
  inside = omega arith;
  complete = λ h. omega arith;
}
send_rounds-IsRead (suc fuel) end_error chunks offset size le lt = elim (Bool-cases (ltb 0 size)) [
  | inr gone ↦
      rw gone
        record { follows = omega arith; inside = omega arith; complete = λ h. ground (arith, gone) }
  | inl some_bytes ↦
      let bs = min size read_buf_size in
      let f = fill_buffer chunks bs in
      let most = fill_buffer-le chunks bs in
      elim (Bool-cases (ltb f.filled bs)) [
        | inl short ↦
            rw (some_bytes, short)
              record { follows = omega arith; inside = omega arith; complete = λ h. absurd cc }
        | inr full ↦
            let pos : 0 < f.filled = ground (arith, some_bytes, full) in
            let a : add64 offset f.filled ≡ offset + f.filled =
              add64-eq offset f.filled (omega (arith, most)) in
            let b : sub64 size f.filled ≡ size - f.filled =
              sub64-eq size f.filled (omega (arith, most)) (omega arith) in
            let r =
              send_rounds-IsRead fuel end_error f.chunks_left (offset + f.filled) (size - f.filled)
                (omega (arith, pos)) (omega (arith, most)) in
            rw (some_bytes, full, a, b)
              (with_buffer-IsRead offset size f.filled
                (send_rounds fuel end_error f.chunks_left (offset + f.filled) (size - f.filled))
                (omega (arith, most)) lt r pos)
      ]
]

send_read-IsRead :
    (p : Response) (offset size : ℕ)
    → offset + size < word
    → IsRead offset size (send_read p offset size)
unfolding send_read
send_read-IsRead (Response.refused e) offset size lt = record {
  follows = omega arith;
  inside = omega arith;
  complete = λ h. absurd cc;
}
send_read-IsRead (Response.body b) offset size lt =
    send_rounds-IsRead size b.end_error b.chunks offset size (omega arith) lt

module _ (flags : RetryFlags) (respond : ℕ → Response) (pos : 1 ≤ flags.read_retry_attempts)
    (small : flags.read_retry_attempts < 2 ^ 63) where
  retry_read-from :
      (fuel attempt offset size : ℕ)
      → attempt + fuel ≡ flags.read_retry_attempts + 1
      → 0 < fuel
      → offset + size < word
      → (s : Sent) × (retry_read fuel flags respond attempt offset size ≡ some s)
        × IsRead offset size s
  unfolding retry_read
  retry_read-from zero attempt offset size at some_fuel lt = absurd (omega arith)
  retry_read-from (suc fuel) attempt offset size at some_fuel lt =
      let s = send_read (respond attempt) offset size in
      let r = send_read-IsRead (respond attempt) offset size lt in
      elim (Option-cases s.err) [
        | inl good ↦ (s, rw (retry_read, good) refl, r)
        | inr (e, failed) ↦ elim (Bool-cases (tries_again flags attempt e)) [
          | inr stop ↦ (s, rw (retry_read, failed, stop) refl, r)
          | inl again ↦
              let limit =
                tries_again-ltb flags (λ k. k) (λ _. none) pos small attempt e (omega arith) in
              let less : attempt < flags.read_retry_attempts =
                (let k = sym limit ∙ again in ground (arith, k)) in
              let next : add64 attempt 1 ≡ attempt + 1 =
                add64-eq attempt 1 (omega (arith, less, small)) in
              let from : add64 offset s.total_done ≡ offset + s.total_done =
                add64-eq offset s.total_done (omega (arith, r.inside, lt)) in
              let left : sub64 size s.total_done ≡ size - s.total_done =
                sub64-eq size s.total_done r.inside (omega (arith, lt)) in
              let t =
                retry_read-from fuel (attempt + 1) (offset + s.total_done) (size - s.total_done)
                  (omega arith) (omega (arith, less)) (omega (arith, r.inside, lt)) in
              let go : Option Sent → Option Sent = λ o. o >>= λ k. some (before_retry s k) in
              let step : retry_read (suc fuel) flags respond attempt offset size
                  ≡ go (
                      retry_read fuel flags respond (attempt + 1) (offset + s.total_done)
                        (size - s.total_done)) =
                (rw (retry_read, failed, again) refl)
                ∙ ap
                    (λ k. go (
                      retry_read fuel flags respond k (add64 offset s.total_done)
                        (sub64 size s.total_done)))
                    next
                ∙ ap
                    (λ k.
                      go (retry_read fuel flags respond (attempt + 1) k (sub64 size s.total_done)))
                    from
                ∙ ap
                    (λ k.
                      go (retry_read fuel flags respond (attempt + 1) (offset + s.total_done) k))
                    left in
              (
                before_retry s (t.0),
                step ∙ ap go (t.1),
                before_retry-IsRead offset size s.total_done (t.0) r.inside lt (t.2) s refl r,
              )
        ]
      ]

-- With a limit on the attempts from 1 on, `retryRead` of a range that ends below 2 ^ 64 returns,
-- whatever the server answers; the buffers that it adds are not empty and follow each other from the
-- start of the range, none ends past its end, and without an error they fill it.
pub retry_read-IsRead :
    (flags : RetryFlags) (respond : ℕ → Response) (offset size : ℕ)
    → 1 ≤ flags.read_retry_attempts
    → flags.read_retry_attempts < 2 ^ 63
    → offset + size < word
    → (s : Sent) × (retry_read flags.read_retry_attempts flags respond 1 offset size ≡ some s)
      × Follows offset (offset + s.total_done) s.added
      × (s.total_done ≤ size)
      × (s.err ≡ none → s.total_done ≡ size)
retry_read-IsRead flags respond offset size pos small lt =
    let r =
      retry_read-from flags respond pos small flags.read_retry_attempts 1 offset size (omega arith)
        (omega arith) lt in
    let q = r.2 in (r.0, r.1, q.follows, q.inside, q.complete)
