-- ===== src/ListingCut/Strings.antt =====
-- core/dir.go: strings that lie between a name and the same name with a slash, and the order of
-- strings by their first bytes.
use akavefs.Prelude.{
  ℕ, zero, suc, ◌≤◌, ◌<◌, ◌≡◌, refl, ap, true, false, inl, inr, Bool-cases, some, [], ◌∷◌, ◌++◌,
  ◌==◌, length, get_elem?, take, arith, subst,
}
use akavefs.Names.{Name, name_lt, name_eq}
use akavefs.ListingCut.{slash}

pub name_lt-le_trans :
    (a b c : Name) → name_lt a b ≡ true → name_lt c b ≡ false → name_lt a c ≡ true
name_lt-le_trans [] [] c h k = cc
name_lt-le_trans [] (y ∷ ys) [] h k = cc
name_lt-le_trans [] (y ∷ ys) (z ∷ zs) h k = refl
name_lt-le_trans (x ∷ xs) [] c h k = cc
name_lt-le_trans (x ∷ xs) (y ∷ ys) [] h k = cc
name_lt-le_trans (x ∷ xs) (y ∷ ys) (z ∷ zs) h k = ground (arith, name_lt-le_trans xs ys zs)

pub name_le_trans : (a b c : Name) → name_lt b a ≡ false → name_lt c b ≡ false → name_lt c a ≡ false
name_le_trans a b c h k = elim (Bool-cases (name_lt c a)) [
  | inr le ↦ le
  | inl lt ↦ absurd (ground (arith, name_lt-le_trans c a b lt h, k))
]

-- A directory and a name with a byte before the slash after the directory's.
pub record IsDashed (n s : Name) : Type 0 where
  pub byte : ℕ
  pub tail : Name
  pub shape : s ≡ n ++ byte ∷ tail
  pub before : byte < slash

IsDashed-cons : (x : ℕ) (n s : Name) → IsDashed n s → IsDashed (x ∷ n) (x ∷ s)
IsDashed-cons x n s d = record {
  byte = d.byte;
  tail = d.tail;
  shape = ap (λ t. x ∷ t) d.shape;
  before = d.before;
}

-- A string after a name and before the name with a slash is the name with such a byte.
pub between-IsDashed :
    (n s : Name) → name_lt n s ≡ true → name_lt s (n ++ slash ∷ []) ≡ true → IsDashed n s
between-IsDashed [] [] h k = cc
between-IsDashed [] (y ∷ []) h k = record {
  byte = y;
  tail = [];
  shape = refl;
  before = ground arith;
}
between-IsDashed [] (y ∷ z ∷ ys) h k = record {
  byte = y;
  tail = z ∷ ys;
  shape = refl;
  before = ground arith;
}
between-IsDashed (x ∷ xs) [] h k = cc
between-IsDashed (x ∷ xs) (y ∷ ys) h k = elim (Bool-cases (x == y)) [
  | inl same ↦
      let e : x ≡ y = ground arith in
      subst (λ z. IsDashed (x ∷ xs) (z ∷ ys)) e
        (IsDashed-cons x xs ys (between-IsDashed xs ys (ground arith) (ground arith)))
  | inr other ↦ absurd (ground arith)
]

-- A string that is less by its first bytes is less with any bytes after them.
pub name_lt-take :
    (pos : ℕ) (n y t : Name)
    → pos ≤ length n
    → name_lt (take pos n) (take pos y) ≡ true
    → name_lt (n ++ t) y ≡ true
name_lt-take zero n y t h k = cc
name_lt-take (suc pos) [] y t h k = absurd (omega arith)
name_lt-take (suc pos) (x ∷ n) [] t h k = cc
name_lt-take (suc pos) (x ∷ n) (z ∷ y) t h k = ground (arith, name_lt-take pos n y t)

-- `take` is the same for a longer list.
pub take-append_left : (pos : ℕ) (n t : Name) → pos ≤ length n → take pos (n ++ t) ≡ take pos n
take-append_left zero n t h = refl
take-append_left (suc pos) [] t h = absurd (omega arith)
take-append_left (suc pos) (x ∷ n) t h = ap (λ u. x ∷ u) (take-append_left pos n t (omega arith))

pub take_all : (pos : ℕ) (y : Name) → length y ≤ pos → take pos y ≡ y
take_all zero [] h = refl
take_all zero (z ∷ y) h = absurd (omega arith)
take_all (suc pos) [] h = refl
take_all (suc pos) (z ∷ y) h = ap (λ u. z ∷ u) (take_all pos y (omega arith))

-- Equal first bytes, and then a byte after the slash against one that is not.
pub name_lt-byte :
    (pos : ℕ) (n y : Name) (b c : ℕ) (t : Name)
    → pos ≤ length n
    → b < slash
    → get_elem? (n ++ b ∷ t) pos ≡ some c
    → c < slash
    → name_eq (take pos n) (take pos y) ≡ true
    → (d : ℕ) → get_elem? y pos ≡ some d
    → slash < d
    → name_lt (n ++ slash ∷ []) y ≡ true
name_lt-byte zero [] [] b c t h lt e small same d f large = cc
name_lt-byte zero [] (z ∷ y) b c t h lt e small same d f large = ground (arith, f)
name_lt-byte zero (x ∷ n) [] b c t h lt e small same d f large = cc
name_lt-byte zero (x ∷ n) (z ∷ y) b c t h lt e small same d f large = ground (arith, e, f)
name_lt-byte (suc pos) [] y b c t h lt e small same d f large = absurd (omega arith)
name_lt-byte (suc pos) (x ∷ n) [] b c t h lt e small same d f large = cc
name_lt-byte (suc pos) (x ∷ n) (z ∷ y) b c t h lt e small same d f large =
    elim (Bool-cases (x == z)) [
      | inl here ↦
          let rest = name_lt-byte pos n y b c t (omega arith) lt e small (ground arith) d f large in
          ground (arith, rest)
      | inr other ↦ absurd (ground arith)
    ]
