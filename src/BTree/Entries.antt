-- ===== src/BTree/Entries.antt =====
-- Lists of entries in the order of their keys, by which the laws of the ordered map are stated.
use akavefs.Prelude.{ℕ, ◌<◌, Option, none, some, List, [], ◌∷◌, ltb, leb, ◌==◌, if◌then◌else◌}

module _ {V : Type 0} where
  -- The entries whose key is at least `pivot`, of a sorted list.
  abbrev pub from : ℕ → List (ℕ × V) → List (ℕ × V)
  from pivot [] = []
  from pivot ((k, v) ∷ es) = if leb pivot k then (k, v) ∷ es else from pivot es

  abbrev pub upto : ℕ → List (ℕ × V) → List (ℕ × V)
  upto pivot [] = []
  upto pivot ((k, v) ∷ es) = if leb k pivot then (k, v) ∷ upto pivot es else []

  abbrev pub lookup : ℕ → List (ℕ × V) → Option V
  lookup k [] = none
  lookup k ((j, v) ∷ es) = if j == k then some v else lookup k es

  abbrev pub insert : ℕ → V → List (ℕ × V) → List (ℕ × V)
  insert k v [] = (k, v) ∷ []
  insert k v ((j, w) ∷ es) =
      if ltb k j
      then (k, v) ∷ (j, w) ∷ es
      else if j == k
      then (k, v) ∷ es
      else (j, w) ∷ insert k v es

  abbrev pub remove : ℕ → List (ℕ × V) → List (ℕ × V)
  remove k [] = []
  remove k ((j, v) ∷ es) = if j == k then es else (j, v) ∷ remove k es

  -- All keys are above `lo`, which is below the first.
  abbrev pub IsAbove : ℕ → List (ℕ × V) → Type 0
  IsAbove lo [] = Unit {0}
  IsAbove lo ((k, v) ∷ es) = (lo < k) × IsAbove k es

  abbrev pub IsSorted : List (ℕ × V) → Type 0
  IsSorted [] = Unit {0}
  IsSorted ((k, v) ∷ es) = IsAbove k es
