-- ===== src/ListingCut/Loop.antt =====
-- core/dir.go: the loop of `intelligentListCut` stops at positions of a sorted page that stand
-- between the name where the page is cut and the name after it.
use akavefs.Prelude.{
  ℕ, zero, suc, ◌+◌, ◌-◌, ◌≤◌, ◌<◌, ◌≡◌, refl, true, false, inl, inr, Bool-cases, Option-cases,
  some, List, [], ◌∷◌, leb, length, if◌then◌else◌, arith,
}
use akavefs.Names.{Name, name_lt}
use akavefs.ListingCut.{Page, Max, last_of, max_name, may_cut, locate_lt_slash, Stop, cut_from}
use akavefs.ListingCut.Strings.{name_le_trans}
use akavefs.ListingCut.Sorted.{
  IsSorted, IsTop, IsBehind, IsBehind-le, IsBehind-back, last_of-none, max_name-IsTop,
}

-- The name at the last of the first entries is not behind the maximum of more of them.
last_of-le :
    (xs : List Name) (n k : ℕ) (x name : Name)
    → k ≤ n
    → last_of xs k ≡ some x
    → IsTop xs n name
    → name_lt name x ≡ false
last_of-le xs n zero x name le e t = cc
last_of-le xs n (suc k) x name le e t = t k x (omega arith) e

name_lt-empty : (name : Name) → name_lt name [] ≡ false
name_lt-empty [] = refl
name_lt-empty (x ∷ name) = refl

pub max_name-le :
    (resp : Page) (i p k l : ℕ) (name : Name)
    → IsTop resp.items i name
    → IsTop resp.prefixes p name
    → k ≤ i
    → l ≤ p
    → name_lt name (max_name resp k l).name ≡ false
unfolding max_name
max_name-le resp i p k l name t u hk hl = elim (Option-cases (last_of resp.items k)) [
  | inl no_item ↦ elim (Option-cases (last_of resp.prefixes l)) [
    | inl no_prefix ↦ rw (no_item, no_prefix) (name_lt-empty name)
    | inr (y, e) ↦ rw (no_item, e) (last_of-le resp.prefixes p l y name hl e u)
  ]
  | inr (x, d) ↦ elim (Option-cases (last_of resp.prefixes l)) [
    | inl no_prefix ↦ rw (d, no_prefix) (last_of-le resp.items i k x name hk d t)
    | inr (y, e) ↦ elim (Bool-cases (name_lt y x)) [
      | inl item ↦ rw (d, e, item) (last_of-le resp.items i k x name hk d t)
      | inr prefix ↦ rw (d, e, prefix) (last_of-le resp.prefixes p l y name hl e u)
    ]
  ]
]

-- The positions one entry back.
abbrev pub item_back : Max → ℕ → ℕ
item_back m i = if m.is_prefix then i else i - 1

abbrev pub prefix_back : Max → ℕ → ℕ
prefix_back m p = if m.is_prefix then p - 1 else p

abbrev IsBehindAt : Page → ℕ → ℕ → Name → Type 0
IsBehindAt resp i p name = IsBehind resp.items i name × IsBehind resp.prefixes p name

-- The maximum is behind itself one entry back.
max_name-back :
    (resp : Page) (i p : ℕ)
    → 0 < i + p
    → i ≤ length resp.items
    → p ≤ length resp.prefixes
    → IsBehindAt resp i p (max_name resp i p).name
    → IsBehindAt resp
        (item_back (max_name resp i p) i)
        (prefix_back (max_name resp i p) p)
        (max_name resp i p).name
unfolding max_name
max_name-back resp i p lt hi hp b = elim (Option-cases (last_of resp.items i)) [
  | inl no_item ↦
      let i0 = last_of-none resp.items i hi no_item in
      elim (Option-cases (last_of resp.prefixes p)) [
        | inl no_prefix ↦ let p0 = last_of-none resp.prefixes p hp no_prefix in absurd (omega arith)
        | inr (y, e) ↦
            let b' = rw (max_name, no_item, e) at b in
            rw (max_name, no_item, e) (b'.0, IsBehind-back resp.prefixes p y e (b'.1))
      ]
  | inr (x, d) ↦ elim (Option-cases (last_of resp.prefixes p)) [
    | inl no_prefix ↦
        let b' = rw (max_name, d, no_prefix) at b in
        rw (max_name, d, no_prefix) (IsBehind-back resp.items i x d (b'.0), b'.1)
    | inr (y, e) ↦ elim (Bool-cases (name_lt y x)) [
      | inl item ↦
          let b' = rw (max_name, d, e, item) at b in
          rw (max_name, d, e, item) (IsBehind-back resp.items i x d (b'.0), b'.1)
      | inr prefix ↦
          let b' = rw (max_name, d, e, prefix) at b in
          rw (max_name, d, e, prefix) (b'.0, IsBehind-back resp.prefixes p y e (b'.1))
    ]
  ]
]

item_back-le : (m : Max) (i : ℕ) → item_back m i ≤ i
item_back-le m i = ground arith

prefix_back-le : (m : Max) (p : ℕ) → prefix_back m p ≤ p
prefix_back-le m p = ground arith

-- The place of a cut: a name that the entries from the positions on are not before, and the name
-- before it, between which the page may be cut.
pub record IsCut (resp : Page) (prefix_len : ℕ) (top : Name) (s : Stop) : Type 0 where
  pub name : Name
  pub below : name_lt top name ≡ false
  pub items_behind : IsBehind resp.items s.item_pos name
  pub prefixes_behind : IsBehind resp.prefixes s.prefix_pos name
  pub items_inside : s.item_pos ≤ length resp.items
  pub prefixes_inside : s.prefix_pos ≤ length resp.prefixes
  pub before : s.prev ≡ (max_name resp s.item_pos s.prefix_pos).name
  pub may : may_cut s.prev name (locate_lt_slash s.prev prefix_len) ≡ true

module _ (resp : Page) (prefix_len half : ℕ) (top : Name) (items : IsSorted resp.items)
    (prefixes : IsSorted resp.prefixes) where
  -- The loop from the maximum at two positions.
  pub cut_from-IsCut :
      (fuel i p : ℕ)
      → i ≤ length resp.items
      → p ≤ length resp.prefixes
      → name_lt top (max_name resp i p).name ≡ false
      → IsBehindAt resp i p (max_name resp i p).name
      → (cut_from fuel resp prefix_len half i p (max_name resp i p)).ok ≡ true
      → IsCut resp prefix_len top (cut_from fuel resp prefix_len half i p (max_name resp i p))
  unfolding cut_from
  cut_from-IsCut zero i p hi hp low b h = cc
  cut_from-IsCut (suc fuel) i p hi hp low b h =
      let m = max_name resp i p in
      let hi' : item_back m i ≤ length resp.items = ground (arith, hi, item_back-le m i) in
      let hp' : prefix_back m p ≤ length resp.prefixes = ground (arith, hp, prefix_back-le m p) in
      let next = max_name resp (item_back m i) (prefix_back m p) in
      elim (Bool-cases (leb (i + p) half)) [
        | inl done ↦ absurd (let h' = rw (cut_from, done) at h in cc)
        | inr more ↦
            let back = max_name-back resp i p (ground (arith, more)) hi hp b in
            let t = max_name-IsTop resp items prefixes i p hi hp in
            let le =
              max_name-le resp i p (item_back m i) (prefix_back m p) m.name (t.0) (t.1)
                (item_back-le m i) (prefix_back-le m p) in
            elim (Bool-cases (may_cut next.name m.name (locate_lt_slash next.name prefix_len))) [
              | inl may ↦
                  rw (cut_from, more, may)
                    record {
                      name = m.name;
                      below = low;
                      items_behind = back.0;
                      prefixes_behind = back.1;
                      items_inside = hi';
                      prefixes_inside = hp';
                      before = refl;
                      may = may;
                    }
              | inr on ↦
                  let h' = rw (cut_from, more, on) at h in
                  rw (cut_from, more, on)
                    (cut_from-IsCut fuel (item_back m i) (prefix_back m p) hi' hp'
                      (name_le_trans next.name m.name top le low)
                      (
                        IsBehind-le resp.items (item_back m i) m.name next.name (back.0) le,
                        IsBehind-le resp.prefixes (prefix_back m p) m.name next.name (back.1) le,
                      )
                      h')
            ]
      ]
