-- ===== src/RangeLocks/Overlap.antt =====
-- core/file.go: what `IsRangeLocked` answers.
use akavefs.Prelude.{
  ℕ, ◌+◌, ◌≤◌, ◌<◌, ◌≡◌, ◌⊎◌, ◌↔◌, Bool, true, not, inl, inr, List, [], ◌∷◌, ◌&&◌, ◌||◌, All, arith,
  ltb, word, add64, add64-eq, max, refl, Bool-cases,
}
use akavefs.RangeLocks.{ReadRange, is_range_locked}

-- A lock with at least one byte, that ends below 2 ^ 64.
abbrev pub IsLock : ReadRange → Type 0
IsLock r = (0 < r.size) × (r.offset + r.size < word)

-- One of the locks holds the byte; only the locks of the flusher count if `only_flushing` is set.
abbrev pub Holds : Bool → List ReadRange → ℕ → Type 0
Holds only [] x = ⊥
Holds only (r ∷ rs) x =
    ((r.offset ≤ x) × (x < r.offset + r.size) × ((not only || r.flushing) ≡ true)) ⊎ Holds only rs x

-- With locks that are not empty and end below 2 ^ 64, `IsRangeLocked` of such a range is true exactly if a lock
-- holds a byte of the range.
pub is_range_locked-Holds :
    (rs : List ReadRange) (offset size : ℕ) (only : Bool)
    → All IsLock rs
    → 0 < size
    → offset + size < word
    → (is_range_locked rs offset size only ≡ true)
      ↔ ((x : ℕ) × (offset ≤ x) × (x < offset + size) × Holds only rs x)
unfolding is_range_locked
is_range_locked-Holds [] offset size only v p q =
    ((λ h. absurd (ground (arith, h))), λ (x, a, b, h). absurd h)
is_range_locked-Holds (r ∷ rs) offset size only v p q =
    let ih = is_range_locked-Holds rs offset size only v.1 p q in
    let a = add64-eq offset size q in
    let b = add64-eq r.offset r.size v.0.1 in
    let pos = v.0.0 in
    elim (Bool-cases (
      ltb r.offset (add64 offset size)
      && ltb offset (add64 r.offset r.size)
      && (not only || r.flushing))) [
        | inl here ↦ rw here (
          (λ h. (
            max offset r.offset,
            ground arith,
            ground arith,
            inl (ground arith, ground arith, ground arith),
          )),
          λ h. refl,
        )
        | inr there ↦ rw there (
          (λ h. let (x, lo, hi, m) = ih.0 h in (x, lo, hi, inr m)),
          λ (x, lo, hi, m). elim m [
            | inl (c, d, e) ↦ absurd (ground (arith, e))
            | inr m' ↦ ih.1 (x, lo, hi, m')
          ],
        )
      ]
