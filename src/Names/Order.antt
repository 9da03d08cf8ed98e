-- ===== src/Names/Order.antt =====
-- The order of strings is a strict linear order.
use akavefs.Prelude.{◌≡◌, refl, true, false, [], ◌∷◌, arith}
use akavefs.Names.{Name, name_lt, name_eq}

pub name_lt_irrefl : (a : Name) → name_lt a a ≡ false
name_lt_irrefl [] = refl
name_lt_irrefl (x ∷ xs) = ground (arith, name_lt_irrefl xs)

pub name_lt_trans : (a b c : Name) → name_lt a b ≡ true → name_lt b c ≡ true → name_lt a c ≡ true
name_lt_trans [] [] c h k = cc
name_lt_trans [] (y ∷ ys) [] h k = cc
name_lt_trans [] (y ∷ ys) (z ∷ zs) h k = refl
name_lt_trans (x ∷ xs) [] c h k = cc
name_lt_trans (x ∷ xs) (y ∷ ys) [] h k = cc
name_lt_trans (x ∷ xs) (y ∷ ys) (z ∷ zs) h k = ground (arith, name_lt_trans xs ys zs)

pub name_lt_asym : (a b : Name) → name_lt a b ≡ true → name_lt b a ≡ false
name_lt_asym [] [] h = refl
name_lt_asym [] (y ∷ ys) h = refl
name_lt_asym (x ∷ xs) [] h = cc
name_lt_asym (x ∷ xs) (y ∷ ys) h = ground (arith, name_lt_asym xs ys)

pub name_lt_total : (a b : Name) → name_lt a b ≡ false → name_lt b a ≡ false → a ≡ b
name_lt_total [] [] h k = refl
name_lt_total [] (y ∷ ys) h k = cc
name_lt_total (x ∷ xs) [] h k = cc
name_lt_total (x ∷ xs) (y ∷ ys) h k = ground (arith, name_lt_total xs ys)

pub name_eq_refl : (a : Name) → name_eq a a ≡ true
name_eq_refl [] = refl
name_eq_refl (x ∷ xs) = ground (arith, name_eq_refl xs)

pub name_eq-eq : (a b : Name) → name_eq a b ≡ true → a ≡ b
name_eq-eq [] [] h = refl
name_eq-eq [] (y ∷ ys) h = cc
name_eq-eq (x ∷ xs) [] h = cc
name_eq-eq (x ∷ xs) (y ∷ ys) h = ground (arith, name_eq-eq xs ys)
