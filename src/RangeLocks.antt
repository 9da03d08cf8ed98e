-- ===== src/RangeLocks.antt =====
-- core/file.go and core/handles.go: the ranges of a file that are locked against eviction.
pub mod Held
pub mod Overlap
pub mod Locked
use akavefs.Prelude.{
  ℕ, Bool, true, false, not, ◌&&◌, ◌||◌, List, [], ◌∷◌, ◌++◌, ltb, ◌==◌, if◌then◌else◌, add64,
}

pub record ReadRange : Type 0 where
  pub offset : ℕ
  pub size : ℕ
  pub flushing : Bool

abbrev pub same_flag : Bool → Bool → Bool
same_flag true b = b
same_flag false b = not b

-- The test of `UnlockRange`.
abbrev pub is_range : ℕ → ℕ → Bool → ReadRange → Bool
is_range offset size flushing v =
    (v.offset == offset) && (v.size == size) && same_flag v.flushing flushing

unfoldable pub lock_range : List ReadRange → ℕ → ℕ → Bool → List ReadRange
lock_range rs offset size flushing =
    rs ++ record { offset = offset; size = size; flushing = flushing } ∷ []

-- The first entry with these values goes.
pub unlock_range : List ReadRange → ℕ → ℕ → Bool → List ReadRange
unlock_range [] offset size flushing = []
unlock_range (v ∷ rs) offset size flushing =
    let rest = unlock_range rs offset size flushing in
    if is_range offset size flushing v then rs else v ∷ rest

unfoldable pub is_range_locked : List ReadRange → ℕ → ℕ → Bool → Bool
is_range_locked [] offset size only_flushing = false
is_range_locked (r ∷ rs) offset size only_flushing =
    (ltb r.offset (add64 offset size)
      && ltb offset (add64 r.offset r.size)
      && (not only_flushing || r.flushing))
    || is_range_locked rs offset size only_flushing
