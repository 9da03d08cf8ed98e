-- ===== src/Directory/Position.antt =====
-- core/dir.go: `checkDirPosition` finds the place of a handle again.
use akavefs.Prelude.{
  ℕ, zero, suc, ◌+◌, ◌<◌, ◌≡◌, ◌≢◌, refl, true, false, inl, inr, Bool-cases, some, List, [], ◌∷◌,
  All, if◌then◌else◌, get_elem?, take, drop, arith, subst, some_unique, ◌^◌, ◌==◌,
}
use akavefs.Names.{Name, name_lt, name_eq}
use akavefs.Names.Order.{name_eq_refl, name_eq-eq, name_lt_irrefl, name_lt_total, name_lt_asym}
use akavefs.Directory.{
  Child, Dir, DirHandle, is_named, find_position, check_dir_position, next, dot, dot_dot,
}
use akavefs.Directory.Finding.{in_range}
use akavefs.Directory.Children.{All-Before_trans}
use akavefs.Directory.Rank.{Before, IsOrdered, rank, search-rank}

-- Up to a name, and after it.
abbrev pub IsUpTo : Name → Child → Type 0
IsUpTo name c = name_lt name c.name ≡ false

-- How many children have names up to a name.
abbrev pub passed : Name → List Child → ℕ
passed name [] = 0
passed name (c ∷ cs) = if name_lt name c.name then 0 else suc (passed name cs)

passed-none : (name : Name) (cs : List Child) → All (Before name) cs → passed name cs ≡ 0
passed-none name [] a = refl
passed-none name (c ∷ cs) a = rw a.0

passed-rank :
    (name : Name) (cs : List Child)
    → IsOrdered cs
    → (if is_named name (get_elem? cs (rank name cs)) then rank name cs + 1 else rank name cs)
      ≡ passed name cs
passed-rank name [] o = refl
passed-rank name (c ∷ cs) o = elim (Bool-cases (name_lt c.name name)) [
  | inl less ↦
      let ih = passed-rank name cs o.1 in
      rw (less, name_lt_asym c.name name less)
        (elim (Bool-cases (is_named name (get_elem? cs (rank name cs)))) [
          | inl here ↦ let ih' = rw here at ih in rw here (omega arith)
          | inr other ↦ let ih' = rw other at ih in rw other (omega arith)
        ])
  | inr ge ↦ elim (Bool-cases (name_eq c.name name)) [
    | inl same ↦
        let e = name_eq-eq c.name name same in
        let ge' = subst (λ n. name_lt n c.name ≡ false) e (name_lt_irrefl c.name) in
        let rest = passed-none name cs (subst (λ n. All (Before n) cs) e o.0) in
        rw (ge, same, ge', rest)
    | inr other ↦ elim (Bool-cases (name_lt name c.name)) [
      | inl above ↦ rw (ge, other, above)
      | inr ge' ↦
          let e = name_lt_total c.name name ge ge' in
          absurd (ground (arith, e, name_eq_refl name, other))
    ]
  ]
]

passed-split :
    (name : Name) (cs : List Child)
    → IsOrdered cs
    → All (IsUpTo name) (take (passed name cs) cs) × All (Before name) (drop (passed name cs) cs)
passed-split name [] o = (tt, tt)
passed-split name (c ∷ cs) o = elim (Bool-cases (name_lt name c.name)) [
  | inl above ↦ rw above (tt, (above, All-Before_trans name c.name cs above o.0))
  | inr upto ↦ let ih = passed-split name cs o.1 in rw upto ((upto, ih.0), ih.1)
]

All-at :
    (name : Name) (c : Child) (k : ℕ) (cs : List Child)
    → All (Before name) cs
    → get_elem? cs k ≡ some c
    → name_lt name c.name ≡ true
All-at name c k [] a e = absurd (ground (arith, e))
All-at name c zero (d ∷ cs) a e =
    let same : d ≡ c = some_unique refl e in subst (λ x. name_lt name x.name ≡ true) same a.0
All-at name c (suc k) (d ∷ cs) a e = All-at name c k cs a.1 e

passed-at :
    (c : Child) (k : ℕ) (cs : List Child)
    → IsOrdered cs
    → get_elem? cs k ≡ some c
    → passed c.name cs ≡ k + 1
passed-at c k [] o e = absurd (ground (arith, e))
passed-at c zero (d ∷ cs) o e =
    let same : d ≡ c = some_unique refl e in
    subst (λ x. passed x.name (d ∷ cs) ≡ 0 + 1) same
      (rw (name_lt_irrefl d.name, passed-none d.name cs o.0) (omega arith))
passed-at c (suc k) (d ∷ cs) o e =
    let later = name_lt_asym d.name c.name (All-at d.name c k cs o.0 e) in
    let ih = passed-at c k cs o.1 e in rw later (omega arith)

-- The handle stands after the children up to its last name.
abbrev pub IsPlaced : Dir → DirHandle → Type 0
IsPlaced dir dh = dh.last_internal_offset ≡ passed dh.last_name dir.children + 2

find_position-passed :
    (dir : Dir) (name : Name)
    → IsOrdered dir.children
    → find_position dir name ≡ passed name dir.children + 2
unfolding find_position
find_position-passed dir name o =
    let at = search-rank name dir.children o in
    let p = passed-rank name dir.children o in
    let inside = in_range name dir.children (rank name dir.children) in
    rw (find_position, at, inside)
      (elim (Bool-cases (is_named name (get_elem? dir.children (rank name dir.children)))) [
        | inl here ↦ let p' = rw here at p in rw here (omega arith)
        | inr other ↦ let p' = rw other at p in rw other (omega arith)
      ])

-- A handle that has returned an entry other than the dot entries, and whose directory has a new
-- generation, is placed again: of the children, whose names rise, those before its offset have names
-- up to the last one returned and those from it on have later names, so that the listing goes on
-- without a repetition and leaves out no later name.
pub check_dir_position-IsPlaced :
    (dir : Dir) (dh : DirHandle)
    → IsOrdered dir.children
    → dh.generation ≢ dir.generation
    → 0 < dh.last_external_offset
    → name_eq dh.last_name dot ≡ false
    → name_eq dh.last_name dot_dot ≡ false
    → IsPlaced dir (check_dir_position dir dh)
      × ((check_dir_position dir dh).generation ≡ dir.generation)
      × ((check_dir_position dir dh).last_name ≡ dh.last_name)
      × All (IsUpTo dh.last_name) (take (passed dh.last_name dir.children) dir.children)
      × All (Before dh.last_name) (drop (passed dh.last_name dir.children) dir.children)
unfolding check_dir_position
check_dir_position-IsPlaced dir dh o stale some_entry d dd =
    let new : (dh.generation == dir.generation) ≡ false = ground arith in
    let returned : (dh.last_external_offset == 0) ≡ false = ground arith in
    let split = passed-split dh.last_name dir.children o in
    (
      rw (check_dir_position, new, returned, d, dd) (find_position-passed dir dh.last_name o),
      rw (check_dir_position, new),
      rw (check_dir_position, new),
      split.0,
      split.1,
    )

-- A handle that stands at its place and returns the child there stands at its place again, one child
-- further on.
pub next-IsPlaced :
    (dir : Dir) (dh : DirHandle) (k : ℕ) (c : Child)
    → IsOrdered dir.children
    → IsPlaced dir dh
    → k + 3 < 2 ^ 63
    → dh.last_internal_offset ≡ k + 2
    → get_elem? dir.children k ≡ some c
    → IsPlaced dir (next dh c.name) × ((next dh c.name).last_internal_offset ≡ k + 3)
unfolding next
next-IsPlaced dir dh k c o placed small at here =
    let p = passed-at c k dir.children o here in ground (arith, p)
