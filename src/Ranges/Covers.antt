-- ===== src/Ranges/Covers.antt =====
-- core/buffer_list.go: the offsets that a list of `Range` covers.
use akavefs.Prelude.{ℕ, ◌+◌, ◌≤◌, ◌<◌, ◌⊎◌, inl, inr, List, [], ◌∷◌, ◌++◌, All, word, arith}
use akavefs.Ranges.{Range}

abbrev pub In : ℕ → Range → Type 0
In x r = (r.start ≤ x) × (x < r.end)

abbrev pub Covers : ℕ → List Range → Type 0
Covers x [] = ⊥
Covers x (r ∷ rr) = In x r ⊎ Covers x rr

-- Ranges in ascending order from `lo` on, none overlapping another.
abbrev pub IsAscending : ℕ → List Range → Type 0
IsAscending lo [] = Unit {0}
IsAscending lo (r ∷ rr) = (lo ≤ r.start) × (r.start ≤ r.end) × IsAscending r.end rr

-- All ranges leave room for `n` bytes behind them below 2 ^ 64.
abbrev pub HasRoom : ℕ → List Range → Type 0
HasRoom n = All λ r. r.end + n < word

pub Covers-append_left : (x : ℕ) (rr ss : List Range) → Covers x rr → Covers x (rr ++ ss)
Covers-append_left x (r ∷ rr) ss (inl h) = inl h
Covers-append_left x (r ∷ rr) ss (inr h) = inr (Covers-append_left x rr ss h)
Covers-append_left x [] ss h = absurd h

pub Covers-append_right : (x : ℕ) (rr ss : List Range) → Covers x ss → Covers x (rr ++ ss)
Covers-append_right x [] ss h = h
Covers-append_right x (r ∷ rr) ss h = inr (Covers-append_right x rr ss h)

pub Covers-append : (x : ℕ) (rr ss : List Range) → Covers x (rr ++ ss) → Covers x rr ⊎ Covers x ss
Covers-append x [] ss h = inr h
Covers-append x (r ∷ rr) ss (inl h) = inl (inl h)
Covers-append x (r ∷ rr) ss (inr h) = elim (Covers-append x rr ss h) [
  | inl a ↦ inl (inr a)
  | inr b ↦ inr b
]

pub HasRoom-mono : (m n : ℕ) (rr : List Range) → n ≤ m → HasRoom m rr → HasRoom n rr
HasRoom-mono m n [] le h = tt
HasRoom-mono m n (r ∷ rr) le h = (omega arith, HasRoom-mono m n rr le h.1)

pub IsAscending-mono :
    (lo lo' : ℕ) (rr : List Range) → lo ≤ lo' → IsAscending lo' rr → IsAscending lo rr
IsAscending-mono lo lo' [] le a = tt
IsAscending-mono lo lo' (r ∷ rr) le a = (omega arith, a.1, a.2)
