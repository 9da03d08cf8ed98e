-- ===== src/ListingCut/Sorted.antt =====
-- core/dir.go: the maximum of the names before two positions of a sorted page, and the loop of
-- `intelligentListCut`.
use akavefs.Prelude.{
  ℕ, zero, suc, ◌-◌, ◌≤◌, ◌<◌, ◌≡◌, refl, false, inl, inr, Bool-cases, Option-cases, none, some,
  some_unique, List, [], ◌∷◌, ◌==◌, length, get_elem?, arith, subst,
}
use akavefs.Names.{Name, name_lt}
use akavefs.Names.Order.{name_lt_irrefl, name_lt_asym}
use akavefs.ListingCut.{Page, last_of, max_name}
use akavefs.ListingCut.Strings.{name_le_trans}

abbrev pub IsSorted : List Name → Type 0
IsSorted xs =
    (a b : ℕ) (x y : Name)
    → a ≤ b
    → get_elem? xs a ≡ some x
    → get_elem? xs b ≡ some y
    → name_lt y x ≡ false

-- No name before a position is behind a name, and none from a position on is before it.
abbrev pub IsTop : List Name → ℕ → Name → Type 0
IsTop xs n name = (a : ℕ) (x : Name) → a < n → get_elem? xs a ≡ some x → name_lt name x ≡ false

abbrev pub IsBehind : List Name → ℕ → Name → Type 0
IsBehind xs n name = (a : ℕ) (x : Name) → n ≤ a → get_elem? xs a ≡ some x → name_lt x name ≡ false

IsTop-le : (xs : List Name) (n : ℕ) (x y : Name) → IsTop xs n x → name_lt y x ≡ false → IsTop xs n y
IsTop-le xs n x y t h a z lt e = name_le_trans z x y (t a z lt e) h

pub IsBehind-le :
    (xs : List Name) (n : ℕ) (x y : Name) → IsBehind xs n x → name_lt x y ≡ false → IsBehind xs n y
IsBehind-le xs n x y t h a z le e = name_le_trans y x z h (t a z le e)

last_of-IsTop :
    (xs : List Name) (n : ℕ) (y : Name) → IsSorted xs → last_of xs n ≡ some y → IsTop xs n y
last_of-IsTop xs zero y s e a x lt f = cc
last_of-IsTop xs (suc n) y s e a x lt f = s a n x y (omega arith) f e

get_elem?-inside : (xs : List Name) (n : ℕ) → n < length xs → get_elem? xs n ≡ none → ⊥
get_elem?-inside [] n lt e = absurd (omega arith)
get_elem?-inside (x ∷ xs) zero lt e = cc
get_elem?-inside (x ∷ xs) (suc n) lt e = get_elem?-inside xs n (omega arith) e

get_elem?-outside : (xs : List Name) (n : ℕ) → length xs ≤ n → get_elem? xs n ≡ none
get_elem?-outside [] n h = refl
get_elem?-outside (x ∷ xs) zero h = absurd (omega arith)
get_elem?-outside (x ∷ xs) (suc n) h = get_elem?-outside xs n (omega arith)

pub last_of-none : (xs : List Name) (n : ℕ) → n ≤ length xs → last_of xs n ≡ none → n ≡ 0
last_of-none xs zero h e = refl
last_of-none xs (suc n) h e = absurd (get_elem?-inside xs n (omega arith) e)

pub IsBehind-end : (xs : List Name) (name : Name) → IsBehind xs (length xs) name
IsBehind-end xs name a x le e = let out = get_elem?-outside xs a le in cc

-- The last name before a position falls behind it when the position goes back.
pub IsBehind-back :
    (xs : List Name) (n : ℕ) (y : Name)
    → last_of xs n ≡ some y
    → IsBehind xs n y
    → IsBehind xs (n - 1) y
IsBehind-back xs zero y e b a x le f = cc
IsBehind-back xs (suc n) y e b a x le f = elim (Bool-cases (a == n)) [
  | inl here ↦
      let at : a ≡ n = ground arith in
      let f' = subst (λ k. get_elem? xs k ≡ some x) at f in
      subst (λ z. name_lt z y ≡ false) (some_unique e f') (name_lt_irrefl y)
  | inr later ↦ b a x (ground arith) f
]

module _ (resp : Page) (items : IsSorted resp.items) (prefixes : IsSorted resp.prefixes) where
  pub max_name-IsTop :
      (i p : ℕ)
      → i ≤ length resp.items
      → p ≤ length resp.prefixes
      → IsTop resp.items i (max_name resp i p).name × IsTop resp.prefixes p (max_name resp i p).name
  unfolding max_name
  max_name-IsTop i p hi hp = elim (Option-cases (last_of resp.items i)) [
    | inl no_item ↦
        let i0 = last_of-none resp.items i hi no_item in
        elim (Option-cases (last_of resp.prefixes p)) [
          | inl no_prefix ↦
              let p0 = last_of-none resp.prefixes p hp no_prefix in
              (λ a x lt e. absurd (omega arith), λ a x lt e. absurd (omega arith))
          | inr (y, e) ↦
              rw (no_item, e)
                (λ a x lt f. absurd (omega arith), last_of-IsTop resp.prefixes p y prefixes e)
        ]
    | inr (x, d) ↦ elim (Option-cases (last_of resp.prefixes p)) [
      | inl no_prefix ↦
          let p0 = last_of-none resp.prefixes p hp no_prefix in
          rw (d, no_prefix) (last_of-IsTop resp.items i x items d, λ a z lt f. absurd (omega arith))
      | inr (y, e) ↦ elim (Bool-cases (name_lt y x)) [
        | inl item ↦
            rw (d, e, item)
              (
                last_of-IsTop resp.items i x items d,
                IsTop-le resp.prefixes p y x (last_of-IsTop resp.prefixes p y prefixes e)
                    (name_lt_asym y x item),
              )
        | inr prefix ↦
            rw (d, e, prefix)
              (
                IsTop-le resp.items i x y (last_of-IsTop resp.items i x items d) prefix,
                last_of-IsTop resp.prefixes p y prefixes e,
              )
      ]
    ]
  ]
