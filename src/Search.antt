-- ===== src/Search.antt =====
-- Go's `sort.Search`, by which core/dir.go finds names: the smallest index from 0 to `n` where a test
-- that is monotone holds.
pub mod Smallest
use akavefs.Prelude.{ℕ, zero, suc, ◌+◌, ◌/◌, Bool, true, false, ltb}

-- The range from `i` to `j` is halved; the fuel is its length.
unfoldable pub search_from : ℕ → ℕ → ℕ → (ℕ → Bool) → ℕ
search_from zero i j f = i
search_from (suc fuel) i j f = elim (ltb i j) [
  | false ↦ i
  | true ↦ elim (f ((i + j) / 2)) [
    | true ↦ search_from fuel i ((i + j) / 2) f
    | false ↦ search_from fuel ((i + j) / 2 + 1) j f
  ]
]

unfoldable pub search : ℕ → (ℕ → Bool) → ℕ
unfolding search_from
search n f = search_from n 0 n f
