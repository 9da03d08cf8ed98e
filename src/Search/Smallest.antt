-- ===== src/Search/Smallest.antt =====
-- `sort.Search` finds the smallest index.
use akavefs.Prelude.{
  ℕ, zero, suc, ◌+◌, ◌-◌, ◌/◌, ◌≤◌, ◌<◌, ◌≡◌, Bool, true, false, inl, inr, Bool-cases, ltb, ltb→lt,
  ltb→le, arith,
}
use akavefs.Search.{search_from, search}

-- Once the test holds it holds up to `n`.
abbrev pub IsMonotone : ℕ → (ℕ → Bool) → Type 0
IsMonotone n f = (i j : ℕ) → i ≤ j → j < n → f i ≡ true → f j ≡ true

-- The index splits the range by the test.
pub record IsSplit (n : ℕ) (f : ℕ → Bool) (r : ℕ) : Type 0 where
  pub within : r ≤ n
  pub below : (i : ℕ) → i < r → f i ≡ false
  pub above : (i : ℕ) → r ≤ i → i < n → f i ≡ true

module _ (n : ℕ) (f : ℕ → Bool) (m : IsMonotone n f) where
  below_mono : (i j : ℕ) → i ≤ j → j < n → f j ≡ false → f i ≡ false
  below_mono i j le lt e = elim (Bool-cases (f i)) [
    | inl t ↦ absurd (ground (arith, m i j le lt t))
    | inr f' ↦ f'
  ]

  search_from-IsSplit :
      (fuel i j : ℕ)
      → j - i ≤ fuel
      → i ≤ j
      → j ≤ n
      → ((k : ℕ) → k < i → f k ≡ false)
      → ((k : ℕ) → j ≤ k → k < n → f k ≡ true)
      → IsSplit n f (search_from fuel i j f)
  unfolding search_from
  search_from-IsSplit zero i j h le top lo hi = record {
    within = omega arith;
    below = lo;
    above = λ k p q. hi k (omega arith) q;
  }
  search_from-IsSplit (suc fuel) i j h le top lo hi = elim (Bool-cases (ltb i j)) [
    | inr done ↦
        let e = ltb→le i j done in
        rw (search_from, done)
          (record { within = omega arith; below = lo; above = λ k p q. hi k (omega arith) q })
    | inl more ↦
        let lt = ltb→lt i j more in
        elim (Bool-cases (f ((i + j) / 2))) [
          | inl t ↦
              rw (search_from, more, t)
                (search_from-IsSplit fuel i ((i + j) / 2) (omega arith) (omega arith) (omega arith)
                  lo (λ k p q. m ((i + j) / 2) k p q t))
          | inr e ↦
              rw (search_from, more, e)
                (search_from-IsSplit fuel ((i + j) / 2 + 1) j (omega arith) (omega arith) top
                  (λ k p. below_mono k ((i + j) / 2) (omega arith) (omega arith) e) hi)
        ]
  ]

  pub search-IsSplit : IsSplit n f (search n f)
  unfolding search
  search-IsSplit =
      search_from-IsSplit n 0 n (omega arith) (omega arith) (omega arith)
        (λ k p. absurd (omega arith)) (λ k p q. absurd (omega arith))

-- There is only one such index.
pub IsSplit-unique : (n : ℕ) (f : ℕ → Bool) (r s : ℕ) → IsSplit n f r → IsSplit n f s → r ≡ s
IsSplit-unique n f r s a b = elim (Bool-cases (ltb r s)) [
  | inl lt ↦ absurd (ground (arith, ltb→lt r s lt, a.above r, b.below r, b.within))
  | inr le ↦ elim (Bool-cases (ltb s r)) [
    | inl lt ↦ absurd (ground (arith, ltb→lt s r lt, b.above s, a.below s, a.within))
    | inr ge ↦ omega (arith, ltb→le r s le, ltb→le s r ge)
  ]
]
