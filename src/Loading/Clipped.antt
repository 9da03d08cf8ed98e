-- ===== src/Loading/Clipped.antt =====
-- core/file.go: `loadFromServer` asks for what is needed and not past the known size.
use akavefs.Prelude.{
  ℕ, ◌≤◌, ◌<◌, ◌≡◌, ◌⊎◌, inl, inr, some, List, [], ◌∷◌, All, arith, ltb, Bool-cases,
}
use akavefs.Ranges.{Range}
use akavefs.Ranges.Covers.{Covers, IsAscending}
use akavefs.Loading.{Requests, clip_last}

-- Ranges within a known size that ask for what others ask for below it.
pub record IsClipped (known lo : ℕ) (rr out : List Range) : Type 0 where
  pub ascending : IsAscending lo out
  pub inside : lo ≤ known
  pub ends : All (λ r. r.end ≤ known) out
  pub covers : (x : ℕ) → x < known → Covers x rr → Covers x out

-- The last range starts past a size.
abbrev pub StartsPast : ℕ → List Range → Type 0
StartsPast known [] = ⊥
StartsPast known (r ∷ []) = known < r.start
StartsPast known (r ∷ s ∷ rr) = StartsPast known (s ∷ rr)

pub clip_last-IsClipped :
    (known lo : ℕ) (r : Range) (rr : List Range)
    → IsAscending lo (r ∷ rr)
    → ((clip_last known (r ∷ rr) ≡ some Requests.out_of_range) × StartsPast known (r ∷ rr))
      ⊎ ((out : List Range) × (clip_last known (r ∷ rr) ≡ some (Requests.requests out))
          × IsClipped known lo (r ∷ rr) out)
unfolding clip_last
clip_last-IsClipped known lo r [] asc = elim (Bool-cases (ltb known r.end)) [
  | inr short ↦ inr (
    r ∷ [],
    rw short,
    record {
      ascending = asc;
      inside = ground arith;
      ends = (ground arith, tt);
      covers = λ x h c. c;
    },
  )
  | inl long ↦ elim (Bool-cases (ltb known r.start)) [
    | inl past ↦ inl (rw (long, past), ground arith)
    | inr cut ↦
        let le : r.start ≤ known = ground arith in
        inr (
          record r { end = known } ∷ [],
          rw (long, cut),
          record {
            ascending = (asc.0, le, tt);
            inside = omega arith;
            ends = (omega arith, tt);
            covers = λ x h c. elim c [ inl i ↦ inl (i.0, h) | inr d ↦ inr d ];
          },
        )
  ]
]
clip_last-IsClipped known lo r (s ∷ rr) asc = elim (clip_last-IsClipped known r.end s rr asc.2) [
  | inl past ↦ inl (rw past.0, past.1)
  | inr (out, run, ok) ↦ inr (
    r ∷ out,
    rw run,
    record {
      ascending = (asc.0, asc.1, ok.ascending);
      inside = omega (arith, ok.inside);
      ends = (ok.inside, ok.ends);
      covers = λ x h c. elim c [ inl i ↦ inl i | inr d ↦ inr (ok.covers x h d) ];
    },
  )
]
