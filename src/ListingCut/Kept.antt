-- ===== src/ListingCut/Kept.antt =====
-- core/dir.go: what `intelligentListCut` keeps of a sorted page, against the directories of the
-- entries that it leaves and of later pages.
use akavefs.Prelude.{
  ℕ, zero, suc, ◌+◌, ◌/◌, ◌≤◌, ◌<◌, ◌≡◌, refl, sym, Bool, true, false, not, ◌⊎◌, inl, inr,
  Bool-cases, Option-cases, none, some, List, [], ◌∷◌, ◌++◌, ltb, length, get_elem?, take, drop,
  arith, subst,
}
use akavefs.Names.{Name, name_lt}
use akavefs.Names.Order.{name_lt_irrefl, name_lt_trans}
use akavefs.ListingCut.{
  slash, Page, max_name, may_cut, locate_lt_slash, Stop, cut_from, Checked, Cut, kept,
  intelligent_list_cut,
}
use akavefs.ListingCut.Strings.{name_lt-le_trans, between-IsDashed}
use akavefs.ListingCut.Slashes.{is_named, may_cut-dir}
use akavefs.ListingCut.Sorted.{IsSorted, IsTop, IsBehind, IsBehind-end, max_name-IsTop}
use akavefs.ListingCut.Loop.{cut_from-IsCut}

-- A key among the items or the prefixes of a page.
pub record IsIn (xs : List Name) (s : Name) : Type 0 where
  pub index : ℕ
  pub here : get_elem? xs index ≡ some s

abbrev pub IsEntry : Page → Name → Type 0
IsEntry resp s = IsIn resp.items s ⊎ IsIn resp.prefixes s

abbrev pub top_of : Page → Name
top_of resp = (max_name resp (length resp.items) (length resp.prefixes)).name

abbrev pub stop_of : Page → ℕ → Stop
stop_of resp prefix_len =
    cut_from (length resp.items + length resp.prefixes) resp prefix_len
      ((length resp.items + length resp.prefixes) / 2) (length resp.items) (length resp.prefixes)
      (max_name resp (length resp.items) (length resp.prefixes))

-- Whether the last name has a byte before the slash and no place for a cut is found, so that a
-- further request is made.
abbrev pub is_checked : Page → ℕ → Bool
is_checked resp prefix_len = elim (locate_lt_slash (top_of resp) prefix_len) [
  | none ↦ false
  | some _ ↦ not (stop_of resp prefix_len).ok
]

get_elem?-take :
    (n : ℕ) (xs : List Name) (a : ℕ) (s : Name)
    → get_elem? (take n xs) a ≡ some s
    → get_elem? xs a ≡ some s
get_elem?-take zero xs a s e = cc
get_elem?-take (suc n) [] a s e = cc
get_elem?-take (suc n) (x ∷ xs) zero s e = e
get_elem?-take (suc n) (x ∷ xs) (suc a) s e = get_elem?-take n xs a s e

get_elem?-take_lt :
    (n : ℕ) (xs : List Name) (a : ℕ) (s : Name) → get_elem? (take n xs) a ≡ some s → a < n
get_elem?-take_lt zero xs a s e = cc
get_elem?-take_lt (suc n) [] a s e = cc
get_elem?-take_lt (suc n) (x ∷ xs) zero s e = omega arith
get_elem?-take_lt (suc n) (x ∷ xs) (suc a) s e =
    let lt = get_elem?-take_lt n xs a s e in omega arith

get_elem?-lt : (xs : List Name) (a : ℕ) (s : Name) → get_elem? xs a ≡ some s → a < length xs
get_elem?-lt [] a s e = cc
get_elem?-lt (x ∷ xs) zero s e = omega arith
get_elem?-lt (x ∷ xs) (suc a) s e = let lt = get_elem?-lt xs a s e in omega arith

-- No name up to the cut is behind a directory whose key is behind the cut.
no_dir_between :
    (prev name n s : Name) (prefix_len : ℕ)
    → prefix_len ≤ length n
    → is_named (drop prefix_len n) ≡ true
    → may_cut prev name (locate_lt_slash prev prefix_len) ≡ true
    → name_lt prev s ≡ false
    → name_lt prev (n ++ slash ∷ []) ≡ true
    → name_lt (n ++ slash ∷ []) name ≡ false
    → name_lt n s ≡ false
no_dir_between prev name n s prefix_len le h may low lt ge = elim (Bool-cases (name_lt n s)) [
  | inr out ↦ out
  | inl bad ↦
      let d = between-IsDashed n prev (name_lt-le_trans n s prev bad low) lt in
      absurd (let k = may_cut-dir prev name n prefix_len d le h may in cc)
]

-- A key in order behind the cut is not before the name after the cut.
IsBehind-key :
    (xs : List Name) (k : ℕ) (prev name key : Name)
    → IsTop xs k prev
    → IsBehind xs k name
    → name_lt prev key ≡ true
    → IsIn xs key
    → name_lt key name ≡ false
IsBehind-key xs k prev name key t b lt e = elim (Bool-cases (ltb e.index k)) [
  | inl before ↦ absurd (let c = t e.index key (ground arith) e.here in cc)
  | inr after ↦ b e.index key (ground arith) e.here
]

beyond-key :
    (top name key : Name)
    → name_lt top name ≡ false
    → name_lt top key ≡ true
    → name_lt key name ≡ false
beyond-key top name key low lt = elim (Bool-cases (name_lt key name)) [
  | inr out ↦ out
  | inl bad ↦ absurd (let c = name_lt_trans top key name lt bad in cc)
]

module _ (resp : Page) (prefix_len : ℕ) (items : IsSorted resp.items)
    (prefixes : IsSorted resp.prefixes) where
  IsTop-top_of :
      IsTop resp.items (length resp.items) (top_of resp)
      × IsTop resp.prefixes (length resp.prefixes) (top_of resp)
  IsTop-top_of =
      max_name-IsTop resp items prefixes (length resp.items) (length resp.prefixes) (omega arith)
        (omega arith)

  -- The directory is behind the cut, and is an entry of the page or belongs to a later page.
  abbrev IsLater : Name → Name → Type 0
  IsLater prev key = name_lt prev key ≡ true × (IsEntry resp key ⊎ name_lt (top_of resp) key ≡ true)

  kept-no_dir :
      (n s : Name)
      → (stop_of resp prefix_len).ok ≡ true
      → prefix_len ≤ length n
      → is_named (drop prefix_len n) ≡ true
      → IsEntry (kept resp (stop_of resp prefix_len)) s
      → name_lt (stop_of resp prefix_len).prev (n ++ slash ∷ []) ≡ true
      → IsEntry resp (n ++ slash ∷ []) ⊎ name_lt (top_of resp) (n ++ slash ∷ []) ≡ true
      → name_lt n s ≡ false
  kept-no_dir n s ok le h entry lt later =
      let c =
        cut_from-IsCut resp prefix_len ((length resp.items + length resp.prefixes) / 2)
          (top_of resp) items prefixes (length resp.items + length resp.prefixes)
          (length resp.items) (length resp.prefixes) (omega arith) (omega arith)
          (name_lt_irrefl (top_of resp))
          (IsBehind-end resp.items (top_of resp), IsBehind-end resp.prefixes (top_of resp)) ok in
      let stop = stop_of resp prefix_len in
      let t =
        max_name-IsTop resp items prefixes stop.item_pos stop.prefix_pos c.items_inside
          c.prefixes_inside in
      let t0 = subst (IsTop resp.items stop.item_pos) (sym c.before) (t.0) in
      let t1 = subst (IsTop resp.prefixes stop.prefix_pos) (sym c.before) (t.1) in
      let ge : name_lt (n ++ slash ∷ []) c.name ≡ false = elim later [
        | inl (inl i) ↦
            IsBehind-key resp.items stop.item_pos stop.prev c.name (n ++ slash ∷ []) t0
              c.items_behind lt i
        | inl (inr i) ↦
            IsBehind-key resp.prefixes stop.prefix_pos stop.prev c.name (n ++ slash ∷ []) t1
              c.prefixes_behind lt i
        | inr far ↦ beyond-key (top_of resp) c.name (n ++ slash ∷ []) c.below far
      ] in
      let low : name_lt stop.prev s ≡ false = elim entry [
        | inl i ↦
            t0 i.index s (get_elem?-take_lt stop.item_pos resp.items i.index s i.here)
              (get_elem?-take stop.item_pos resp.items i.index s i.here)
        | inr i ↦
            t1 i.index s (get_elem?-take_lt stop.prefix_pos resp.prefixes i.index s i.here)
              (get_elem?-take stop.prefix_pos resp.prefixes i.index s i.here)
      ] in
      no_dir_between stop.prev c.name n s prefix_len le h c.may low lt ge

  uncut-no_dir :
      (n s : Name)
      → locate_lt_slash (top_of resp) prefix_len ≡ none
      → prefix_len ≤ length n
      → is_named (drop prefix_len n) ≡ true
      → IsEntry resp s
      → name_lt (top_of resp) (n ++ slash ∷ []) ≡ true
      → name_lt n s ≡ false
  uncut-no_dir n s e le h entry lt =
      let low : name_lt (top_of resp) s ≡ false = elim entry [
        | inl i ↦ IsTop-top_of.0 i.index s (get_elem?-lt resp.items i.index s i.here) i.here
        | inr i ↦ IsTop-top_of.1 i.index s (get_elem?-lt resp.prefixes i.index s i.here) i.here
      ] in
      no_dir_between (top_of resp) (n ++ slash ∷ []) n s prefix_len le h (rw e refl) low lt
        (name_lt_irrefl (n ++ slash ∷ []))

-- Of a sorted page that is cut without a further request, let a directory's key be behind the name
-- where the listing goes on, in the page or after all its names. Then no name that is kept is behind
-- the directory, so that none would be returned before the directory is known.
pub intelligent_list_cut-no_dir :
    (check : Name → Checked) (resp page : Page) (prefix_len : ℕ) (prev n s : Name)
    → IsSorted resp.items
    → IsSorted resp.prefixes
    → is_checked resp prefix_len ≡ false
    → intelligent_list_cut check resp true prefix_len ≡ Cut.cut_at page prev
    → prefix_len ≤ length n
    → is_named (drop prefix_len n) ≡ true
    → IsEntry page s
    → name_lt prev (n ++ slash ∷ []) ≡ true
    → IsEntry resp (n ++ slash ∷ []) ⊎ name_lt (top_of resp) (n ++ slash ∷ []) ≡ true
    → name_lt n s ≡ false
unfolding intelligent_list_cut
intelligent_list_cut-no_dir check resp page prefix_len prev n s items prefixes checked run le h
      entry lt later =
    elim (Option-cases (locate_lt_slash (top_of resp) prefix_len)) [
      | inl gone ↦
          let run' = rw (intelligent_list_cut, gone) at run in
          let same : resp ≡ page = cc in
          let at : top_of resp ≡ prev = cc in
          uncut-no_dir resp prefix_len items prefixes n s gone le h
            (subst (λ p. IsEntry p s) (sym same) entry)
            (subst (λ p. name_lt p (n ++ slash ∷ []) ≡ true) (sym at) lt)
      | inr (pos, found) ↦
          let ok : (stop_of resp prefix_len).ok ≡ true =
            let c = rw (is_checked, found) at checked in ground (arith, c) in
          let run' = rw (intelligent_list_cut, found, ok) at run in
          let same : kept resp (stop_of resp prefix_len) ≡ page = cc in
          let at : (stop_of resp prefix_len).prev ≡ prev = cc in
          kept-no_dir resp prefix_len items prefixes n s ok le h
            (subst (λ p. IsEntry p s) (sym same) entry)
            (subst (λ p. name_lt p (n ++ slash ∷ []) ≡ true) (sym at) lt) later
    ]
