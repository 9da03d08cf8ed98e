-- ===== src/Directory/Finding.antt =====
-- core/dir.go: `findChildUnlocked` and `findChildIdxUnlocked` against the map from names to children.
use akavefs.Prelude.{
  ℕ, zero, suc, ◌≤◌, ◌≡◌, ◌⊎◌, refl, Bool, true, false, inl, inr, Bool-cases, none, some, List, [],
  ◌∷◌, if◌then◌else◌, ◌&&◌, length, get_elem?, arith, ltb, ltb→le, ◌==◌, ◌>>=◌,
}
use akavefs.Names.{Name}
use akavefs.Directory.{Child, Dir, is_named, find_child_unlocked, find_child_idx_unlocked}
use akavefs.Directory.Rank.{IsOrdered, rank, search-rank}
use akavefs.Directory.Children.{child_named, child_named-rank}

pub get_elem?-none : (cs : List Child) (i : ℕ) → length cs ≤ i → get_elem? cs i ≡ none
get_elem?-none [] i h = refl
get_elem?-none (c ∷ cs) zero h = absurd (omega arith)
get_elem?-none (c ∷ cs) (suc i) h = get_elem?-none cs i (omega arith)

-- An index in range is one that holds a child.
pub in_range :
    (name : Name) (cs : List Child) (i : ℕ)
    → (ltb i (length cs) && is_named name (get_elem? cs i)) ≡ is_named name (get_elem? cs i)
in_range name cs i = elim (Bool-cases (ltb i (length cs))) [
  | inl inside ↦ rw inside
  | inr outside ↦ rw (outside, get_elem?-none cs i (ltb→le i (length cs) outside))
]

pub empty_or : (cs : List Child) → (cs ≡ []) ⊎ ((length cs == 0) ≡ false)
empty_or [] = inl refl
empty_or (c ∷ cs) = inr (ground arith)

pick :
    (b : Bool) (i : ℕ) (cs : List Child)
    → ((if b then some i else none) >>= get_elem? cs) ≡ (if b then get_elem? cs i else none)
pick true i cs = refl
pick false i cs = refl

-- `findChildUnlocked` in a directory whose names rise finds the child of the name, and
-- `findChildIdxUnlocked` its index, if there is one.
pub find_child_unlocked-child_named :
    (dir : Dir) (name : Name)
    → IsOrdered dir.children
    → (find_child_unlocked dir name ≡ child_named name dir.children)
      × ((find_child_idx_unlocked dir name >>= get_elem? dir.children)
          ≡ child_named name dir.children)
unfolding find_child_unlocked find_child_idx_unlocked
find_child_unlocked-child_named dir name o =
    let at = search-rank name dir.children o in
    let here = child_named-rank name dir.children o in
    let inside = in_range name dir.children (rank name dir.children) in
    elim (empty_or dir.children) [
      | inl nil ↦ (rw (find_child_unlocked, nil), rw (find_child_idx_unlocked, nil))
      | inr more ↦ (
        rw (find_child_unlocked, at, more, inside, here),
        rw (find_child_idx_unlocked, at, more, inside, here)
            (pick (is_named name (get_elem? dir.children (rank name dir.children)))
              (rank name dir.children) dir.children),
      )
    ]
