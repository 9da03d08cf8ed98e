-- ===== src/Loading/Requested.antt =====
-- core/file.go: the requests of `loadFromServer` and `LoadRange`.
use akavefs.Prelude.{
  ℕ, ◌+◌, ◌*◌, ◌≤◌, ◌<◌, ◌≡◌, ◌⊎◌, ◌∙◌, sym, ap, inl, inr, some, List, [], ◌∷◌, All, arith, word,
  mul64-eq, subst, ◌>>=◌,
}
use akavefs.Ranges.{Range, merge_ra, split_ra}
use akavefs.Ranges.Covers.{Covers, IsAscending, HasRoom}
use akavefs.Ranges.Merge.{merge_ra-Covers}
use akavefs.Ranges.Merged.{merge_ra-IsAscending, merge_ra-cons}
use akavefs.Ranges.Split.{IsAtMost, split_ra-Covers}
use akavefs.Loading.{LoadFlags, Requests, clip_last, split_requests, request_ranges}
use akavefs.Loading.Clipped.{StartsPast, IsClipped, clip_last-IsClipped}

pub ends-HasRoom :
    (known n : ℕ) (rr : List Range) → known + n < word → All (λ r. r.end ≤ known) rr → HasRoom n rr
ends-HasRoom known n [] h a = tt
ends-HasRoom known n (r ∷ rr) h a = let le = a.0 in (omega arith, ends-HasRoom known n rr h a.1)

Covers-ends :
    (known x : ℕ) (rr : List Range) → All (λ r. r.end ≤ known) rr → Covers x rr → x < known
Covers-ends known x [] a c = absurd c
Covers-ends known x (r ∷ rr) a (inl i) = let le = a.0 in omega (arith, i.1)
Covers-ends known x (r ∷ rr) a (inr d) = Covers-ends known x rr a.1 d

-- The requests for some ranges: all that was asked for below the known size and nothing past it, in
-- ranges of a limited size.
pub record IsAsked (known max_part : ℕ) (rr out : List Range) : Type 0 where
  pub covers : (x : ℕ) → x < known → Covers x rr → Covers x out
  pub within : (x : ℕ) → Covers x out → x < known
  pub limited : All (IsAtMost max_part) out

module _ (flags : LoadFlags) (known read_ahead : ℕ) (merge_fits : flags.read_merge_kb * 1024 < word)
    (some_part : 0 < flags.read_ahead_parallel_kb)
    (part_fits : known + flags.read_ahead_parallel_kb * 1024 < word) where
  split_requests-IsAsked :
      (rr mm cut : List Range)
      → ((x : ℕ) → Covers x rr → Covers x mm)
      → IsClipped known 0 mm cut
      → (out : List Range) × (split_requests flags (Requests.requests cut)
          ≡ some (Requests.requests out))
        × IsAsked known (flags.read_ahead_parallel_kb * 1024) rr out
  split_requests-IsAsked rr mm cut merged ok =
      let e = mul64-eq flags.read_ahead_parallel_kb 1024 (omega arith) in
      let room = ends-HasRoom known (flags.read_ahead_parallel_kb * 1024) cut part_fits ok.ends in
      let (out, run, limited, same) =
        split_ra-Covers cut (flags.read_ahead_parallel_kb * 1024) (omega arith) ok.ascending room in
      (
        out,
        ap (λ n. split_ra cut n >>= (λ o. some (Requests.requests o))) e
            ∙ ap (λ o. o >>= (λ p. some (Requests.requests p))) run,
        record {
          covers = λ x h c. (same x).1 (ok.covers x h (merged x c));
          within = λ x c. Covers-ends known x cut ok.ends ((same x).0 c);
          limited = limited;
        },
      )

  request_ranges_run :
      (rr merged : List Range) (q : Requests)
      → merge_ra rr read_ahead (flags.read_merge_kb * 1024) ≡ merged
      → clip_last known merged ≡ some q
      → request_ranges flags known rr read_ahead ≡ split_requests flags q
  unfolding request_ranges
  request_ranges_run rr merged q shape run =
      ap (λ n. clip_last known (merge_ra rr read_ahead n) >>= split_requests flags)
        (mul64-eq flags.read_merge_kb 1024 merge_fits)
      ∙ ap (λ mm. clip_last known mm >>= split_requests flags) shape
      ∙ ap (λ o. o >>= split_requests flags) run

  -- `loadFromServer` of ranges in ascending order with room for the read-ahead: if it does not refuse
  -- them, since the last one of them merged starts past the known size, it requests all that they
  -- ask for below the known size and nothing past it, in ranges of at most the configured size. It
  -- does not panic.
  pub request_ranges-IsAsked :
      (r : Range) (rr : List Range)
      → IsAscending 0 (r ∷ rr)
      → HasRoom (read_ahead + flags.read_merge_kb * 1024) (r ∷ rr)
      → ((request_ranges flags known (r ∷ rr) read_ahead ≡ some Requests.out_of_range)
          × StartsPast known (merge_ra (r ∷ rr) read_ahead (flags.read_merge_kb * 1024)))
        ⊎ ((out : List Range) × (request_ranges flags known (r ∷ rr) read_ahead
              ≡ some (Requests.requests out))
            × IsAsked known (flags.read_ahead_parallel_kb * 1024) (r ∷ rr) out)
  unfolding request_ranges
  request_ranges-IsAsked r rr asc rooms =
      let (m, ms, shape) = merge_ra-cons r rr read_ahead (flags.read_merge_kb * 1024) in
      let asc' = subst (IsAscending 0) shape (
        merge_ra-IsAscending (r ∷ rr) read_ahead (flags.read_merge_kb * 1024) asc rooms
          merge_fits) in
      elim (clip_last-IsClipped known 0 m ms asc') [
        | inl past ↦ inl (
          request_ranges_run (r ∷ rr) (m ∷ ms) Requests.out_of_range shape past.0,
          subst (StartsPast known) (sym shape) past.1,
        )
        | inr (cut, run, ok) ↦
            let (out, split, asked) =
              split_requests-IsAsked (r ∷ rr) (m ∷ ms) cut
                (λ x c. subst (Covers x) shape (
                  merge_ra-Covers (r ∷ rr) read_ahead (flags.read_merge_kb * 1024) x asc rooms
                    merge_fits c))
                ok in
            inr (
              out,
              request_ranges_run (r ∷ rr) (m ∷ ms) (Requests.requests cut) shape run ∙ split,
              asked,
            )
      ]
