-- ===== src/Directory/Rank.antt =====
-- core/dir.go: where a name stands among the children.
use akavefs.Prelude.{
  ℕ, zero, suc, ◌≤◌, ◌<◌, ◌≡◌, refl, Bool, true, false, inl, inr, Bool-cases, List, [], ◌∷◌, All,
  if◌then◌else◌, length, arith, ltb, ltb→lt, ltb→le,
}
use akavefs.Names.{Name, name_lt}
use akavefs.Names.Order.{name_lt_trans}
use akavefs.Search.{search}
use akavefs.Search.Smallest.{IsMonotone, IsSplit, search-IsSplit, IsSplit-unique}
use akavefs.Directory.{Child, find_inode_func}

abbrev pub Before : Name → Child → Type 0
Before name c = name_lt name c.name ≡ true

-- The names rise.
abbrev pub IsOrdered : List Child → Type 0
IsOrdered [] = Unit {0}
IsOrdered (c ∷ cs) = All (Before c.name) cs × IsOrdered cs

-- How many children come before a name.
abbrev pub rank : Name → List Child → ℕ
rank name [] = 0
rank name (c ∷ cs) = if name_lt c.name name then suc (rank name cs) else 0

pub rank-le : (name : Name) (cs : List Child) → rank name cs ≤ length cs
rank-le name [] = omega arith
rank-le name (c ∷ cs) = ground (arith, rank-le name cs)

name_lt_nil : (a : Name) → name_lt a [] ≡ false
name_lt_nil [] = refl
name_lt_nil (x ∷ xs) = refl

rank_nil : (cs : List Child) → rank [] cs ≡ 0
rank_nil [] = refl
rank_nil (c ∷ cs) = rw (name_lt_nil c.name)

module _ (x : ℕ) (xs : Name) where
  -- The names from a name on are not before it.
  all_above :
      (name : Name) (cs : List Child) (i : ℕ)
      → name_lt name (x ∷ xs) ≡ false
      → All (Before name) cs
      → i < length cs
      → find_inode_func cs (x ∷ xs) i ≡ true
  all_above name [] i h a lt = absurd (omega arith)
  all_above name (c ∷ cs) zero h a lt = elim (Bool-cases (name_lt c.name (x ∷ xs))) [
    | inl less ↦ absurd (ground (arith, name_lt_trans name c.name (x ∷ xs) a.0 less))
    | inr ge ↦ rw ge
  ]
  all_above name (c ∷ cs) (suc i) h a lt = all_above name cs i h a.1 (omega arith)

  below_rank :
      (cs : List Child) (i : ℕ) → i < rank (x ∷ xs) cs → find_inode_func cs (x ∷ xs) i ≡ false
  below_rank [] i lt = absurd (omega arith)
  below_rank (c ∷ cs) zero lt = ground (arith, lt)
  below_rank (c ∷ cs) (suc i) lt = ground (arith, lt, below_rank cs i)

  above_rank :
      (cs : List Child) (i : ℕ)
      → IsOrdered cs
      → rank (x ∷ xs) cs ≤ i
      → i < length cs
      → find_inode_func cs (x ∷ xs) i ≡ true
  above_rank [] i o le lt = absurd (omega arith)
  above_rank (c ∷ cs) zero o le lt = elim (Bool-cases (name_lt c.name (x ∷ xs))) [
    | inl less ↦ let le' = rw less at le in absurd (omega arith)
    | inr ge ↦ rw ge
  ]
  above_rank (c ∷ cs) (suc i) o le lt = elim (Bool-cases (name_lt c.name (x ∷ xs))) [
    | inl less ↦ let le' = rw less at le in above_rank cs i o.1 (omega arith) (omega arith)
    | inr ge ↦ all_above c.name cs i ge o.0 (omega arith)
  ]

rank-IsSplit :
    (name : Name) (cs : List Child)
    → IsOrdered cs
    → IsSplit (length cs) (find_inode_func cs name) (rank name cs)
rank-IsSplit [] cs o =
    let z = rank_nil cs in
    record { within = omega arith; below = λ i p. absurd (omega arith); above = λ i p q. refl }
rank-IsSplit (x ∷ xs) cs o = record {
  within = rank-le (x ∷ xs) cs;
  below = below_rank x xs cs;
  above = λ i p q. above_rank x xs cs i o p q;
}

IsSplit-IsMonotone : (n : ℕ) (f : ℕ → Bool) (r : ℕ) → IsSplit n f r → IsMonotone n f
IsSplit-IsMonotone n f r v i j le lt e = elim (Bool-cases (ltb i r)) [
  | inl below ↦ absurd (ground (arith, v.below i (ltb→lt i r below), e))
  | inr above ↦ v.above j (omega (arith, ltb→le i r above)) lt
]

-- `sort.Search` finds where a name stands among ordered children.
pub search-rank :
    (name : Name) (cs : List Child)
    → IsOrdered cs
    → search (length cs) (find_inode_func cs name) ≡ rank name cs
search-rank name cs o =
    let v = rank-IsSplit name cs o in
    let n = length cs in
    let f = find_inode_func cs name in
    IsSplit-unique n f (search n f) (rank name cs)
      (search-IsSplit n f (IsSplit-IsMonotone n f (rank name cs) v)) v
