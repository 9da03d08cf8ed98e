-- ===== src/Names.antt =====
-- Go's strings as lists of bytes, and their order, which is that of the bytes.
pub mod Order
use akavefs.Prelude.{ℕ, Bool, true, false, not, List, [], ◌∷◌, ltb, ◌==◌, if◌then◌else◌}

abbrev pub Name : Type 0
Name = List ℕ

-- `a < b`
abbrev pub name_lt : Name → Name → Bool
name_lt [] [] = false
name_lt [] (y ∷ ys) = true
name_lt (x ∷ xs) [] = false
name_lt (x ∷ xs) (y ∷ ys) = if ltb x y then true else if x == y then name_lt xs ys else false

-- `a == b`
abbrev pub name_eq : Name → Name → Bool
name_eq [] [] = true
name_eq [] (y ∷ ys) = false
name_eq (x ∷ xs) [] = false
name_eq (x ∷ xs) (y ∷ ys) = if x == y then name_eq xs ys else false

-- `a >= b`
abbrev pub name_ge : Name → Name → Bool
name_ge a b = not (name_lt a b)
