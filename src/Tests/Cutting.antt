-- ===== src/Tests/Cutting.antt =====
-- core/dir.go: the cut of a page with a name that has a byte before the slash.
use akavefs.Prelude.{
  ℕ, zero, suc, ◌≡◌, refl, Bool, true, false, ◌&&◌, not, inl, inr, some, some_unique, List, [], ◌∷◌,
  get_elem?, arith, subst,
}
use akavefs.Names.{Name, name_lt}
use akavefs.Names.Order.{name_lt_irrefl}
use akavefs.ListingCut.{Page, Checked, Cut, slash, intelligent_list_cut}
use akavefs.ListingCut.Strings.{name_le_trans}
use akavefs.ListingCut.Sorted.{IsSorted}
use akavefs.ListingCut.Kept.{intelligent_list_cut-no_dir}

abbrev is_ascending : List Name → Bool
is_ascending [] = true
is_ascending (x ∷ []) = true
is_ascending (x ∷ y ∷ xs) = not (name_lt y x) && is_ascending (y ∷ xs)

is_ascending-first :
    (x : Name) (xs : List Name)
    → is_ascending (x ∷ xs) ≡ true
    → (b : ℕ) (y : Name) → get_elem? (x ∷ xs) b ≡ some y
    → name_lt y x ≡ false
is_ascending-first x xs h zero y e =
    subst (λ z. name_lt z x ≡ false) (some_unique refl e) (name_lt_irrefl x)
is_ascending-first x [] h (suc b) y e = cc
is_ascending-first x (z ∷ xs) h (suc b) y e =
    name_le_trans x z y (ground arith) (is_ascending-first z xs (ground arith) b y e)

is_ascending-rest :
    (x : Name) (xs : List Name) → is_ascending (x ∷ xs) ≡ true → is_ascending xs ≡ true
is_ascending-rest x [] h = refl
is_ascending-rest x (y ∷ xs) h = ground arith

is_ascending-IsSorted : (xs : List Name) → is_ascending xs ≡ true → IsSorted xs
is_ascending-IsSorted [] h a b x y le e f = cc
is_ascending-IsSorted (z ∷ xs) h zero b x y le e f =
    subst (λ w. name_lt y w ≡ false) (some_unique refl e) (is_ascending-first z xs h b y f)
is_ascending-IsSorted (z ∷ xs) h (suc a) zero x y le e f = absurd (omega arith)
is_ascending-IsSorted (z ∷ xs) h (suc a) (suc b) x y le e f =
    is_ascending-IsSorted xs (is_ascending-rest z xs h) a b x y (omega arith) e f

-- "a", "a-1", "c" and "d-1", and the prefix "c/"
abbrev dashed_page : Page
dashed_page = record {
  items = (97 ∷ []) ∷ (97 ∷ 45 ∷ 49 ∷ []) ∷ (99 ∷ []) ∷ (100 ∷ 45 ∷ 49 ∷ []) ∷ [];
  prefixes = (99 ∷ slash ∷ []) ∷ [];
}

abbrev cut_page : Page
cut_page = record {
  items = (97 ∷ []) ∷ (97 ∷ 45 ∷ 49 ∷ []) ∷ (99 ∷ []) ∷ [];
  prefixes = (99 ∷ slash ∷ []) ∷ [];
}

abbrev nothing_further : Name → Checked
nothing_further _ = Checked.failed

dashed_page-cut :
    intelligent_list_cut nothing_further dashed_page true 0 ≡ Cut.cut_at cut_page (99 ∷ slash ∷ [])
unfolding intelligent_list_cut
dashed_page-cut = refl

intelligent_list_cut-no_dir_example : name_lt (100 ∷ []) (99 ∷ []) ≡ false
unfolding akavefs.ListingCut.locate_lt_slash akavefs.ListingCut.max_name akavefs.ListingCut.cut_from
intelligent_list_cut-no_dir_example =
    intelligent_list_cut-no_dir nothing_further dashed_page cut_page 0 (99 ∷ slash ∷ []) (100 ∷ [])
      (99 ∷ []) (is_ascending-IsSorted dashed_page.items refl)
      (is_ascending-IsSorted dashed_page.prefixes refl) refl dashed_page-cut (omega arith) refl
      (inl record { index = 2; here = refl }) refl (inr refl)
