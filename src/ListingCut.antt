-- ===== src/ListingCut.antt =====
-- core/dir.go: `locateLtSlash`, `maxName`, `prefixLarger` and `intelligentListCut`, which cuts a page
-- of a listing so that no name of a later page belongs before the names that are kept. The first key
-- that a further request finds is an argument.
pub mod Strings
pub mod Slashes
pub mod Sorted
pub mod Loop
pub mod Fuel
pub mod Kept
use akavefs.Prelude.{
  ℕ, zero, suc, ◌+◌, ◌-◌, ◌/◌, Bool, true, false, not, ◌&&◌, ◌||◌, Option, none, some, List, [],
  ◌∷◌, ◌++◌, ltb, leb, ◌==◌, if◌then◌else◌, ◌>>=◌, length, get_elem?, take, drop,
}
use akavefs.Names.{Name, name_lt, name_eq}

abbrev pub slash : ℕ
slash = b'/'

-- The index of the first byte before '/', from an index on.
abbrev pub find_lt : ℕ → Name → Option ℕ
find_lt i [] = none
find_lt i (x ∷ xs) = let rest = find_lt (i + 1) xs in if ltb x slash then some i else rest

-- Past the slashes, and one byte further on.
abbrev pub locate_from : ℕ → Name → Option ℕ
locate_from i [] = none
locate_from i (x ∷ xs) =
    let rest = locate_from (i + 1) xs in if x == slash then rest else find_lt (i + 1) xs

-- `none` is -1.
unfoldable pub locate_lt_slash : Name → ℕ → Option ℕ
locate_lt_slash inp prefix_len = locate_from prefix_len (drop prefix_len inp)

-- The keys of the items and of the prefixes of a page.
pub record Page : Type 0 where
  pub items : List Name
  pub prefixes : List Name

-- A name, and whether it is a prefix.
pub record Max : Type 0 where
  pub name : Name
  pub is_prefix : Bool

-- The last of the first items and the last of the first prefixes; no position is past the lists.
abbrev pub last_of : List Name → ℕ → Option Name
last_of xs zero = none
last_of xs (suc n) = get_elem? xs n

abbrev pub larger : Option Name → Option Name → Max
larger none none = record { name = []; is_prefix = false }
larger none (some p) = record { name = p; is_prefix = true }
larger (some x) none = record { name = x; is_prefix = false }
larger (some x) (some p) =
    if name_lt p x
    then record { name = x; is_prefix = false }
    else record { name = p; is_prefix = true }

unfoldable pub max_name : Page → ℕ → ℕ → Max
max_name resp item_pos prefix_pos =
    larger (last_of resp.items item_pos) (last_of resp.prefixes prefix_pos)

abbrev pub byte_larger : Option ℕ → Bool
byte_larger none = false
byte_larger (some x) = ltb slash x

abbrev pub prefix_larger : Name → Name → ℕ → Bool
prefix_larger s1 s2 pos =
    if (ltb pos (length s2) && name_lt (take pos s1) (take pos s2))
      || (leb (length s2) pos && name_lt (take pos s1) s2)
    then true
    else leb (pos + 1) (length s2)
      && name_eq (take pos s1) (take pos s2)
      && byte_larger (get_elem? s2 pos)

-- Whether the page may be cut between two names.
abbrev pub may_cut : Name → Name → Option ℕ → Bool
may_cut prev name none = true
may_cut prev name (some lt_pos) = prefix_larger prev name lt_pos

-- Where the loop stops: whether the page may be cut, and there.
pub record Stop : Type 0 where
  pub ok : Bool
  pub item_pos : ℕ
  pub prefix_pos : ℕ
  pub prev : Name

-- The loop, from the maximum of the names before the positions; the fuel is the number of names.
unfoldable pub cut_from : ℕ → Page → ℕ → ℕ → ℕ → ℕ → Max → Stop
unfolding max_name locate_lt_slash
cut_from zero resp prefix_len half i p m = record {
  ok = false;
  item_pos = i;
  prefix_pos = p;
  prev = m.name;
}
cut_from (suc fuel) resp prefix_len half i p m =
    let i' = if m.is_prefix then i else i - 1 in
    let p' = if m.is_prefix then p - 1 else p in
    let next = max_name resp i' p' in
    let rest = cut_from fuel resp prefix_len half i' p' next in
    if leb (i + p) half
    then record { ok = false; item_pos = i; prefix_pos = p; prev = m.name }
    else if may_cut next.name m.name (locate_lt_slash next.name prefix_len)
    then record { ok = true; item_pos = i'; prefix_pos = p'; prev = next.name }
    else rest

-- What the further request gives: an error, or the first key that it finds.
pub data Checked : Type 0 where
  failed : Checked
  first : Option Name → Checked

-- The page that is left with the name where the listing goes on, or the error.
pub data Cut : Type 0 where
  cut_failed : Cut
  cut_at : Page → Name → Cut

-- '.' and the bytes EF BF BD
abbrev pub start_after : Name → ℕ → Name
start_after last_name pos = take pos last_name ++ b'.' ∷ 239 ∷ 191 ∷ 189 ∷ []

abbrev pub add_prefix : Page → Name → ℕ → Name → Page
add_prefix resp last_name pos checked =
    if leb (pos + 1) (length checked)
      && name_eq (take (pos + 1) checked) (take pos last_name ++ slash ∷ [])
    then record resp { prefixes = resp.prefixes ++ take (pos + 1) checked ∷ [] }
    else resp

abbrev pub after_check : Page → Name → ℕ → Checked → Cut
after_check resp last_name pos Checked.failed = Cut.cut_failed
after_check resp last_name pos (Checked.first none) = Cut.cut_at resp last_name
after_check resp last_name pos (Checked.first (some key)) =
    Cut.cut_at (add_prefix resp last_name pos key) last_name

abbrev pub kept : Page → Stop → Page
kept resp s = record {
  items = take s.item_pos resp.items;
  prefixes = take s.prefix_pos resp.prefixes;
}

-- A page that is not truncated is left alone, with no name.
unfoldable pub intelligent_list_cut : (Name → Checked) → Page → Bool → ℕ → Cut
unfolding max_name locate_lt_slash cut_from
intelligent_list_cut check resp is_truncated prefix_len =
    let i = length resp.items in
    let p = length resp.prefixes in
    let last = max_name resp i p in
    let stop = cut_from (i + p) resp prefix_len ((i + p) / 2) i p last in
    if not is_truncated then Cut.cut_at resp [] else elim (locate_lt_slash last.name prefix_len) [
      | none ↦ Cut.cut_at resp last.name
      | some pos ↦
          if stop.ok
          then Cut.cut_at (kept resp stop) stop.prev
          else after_check resp last.name pos (check (start_after last.name pos))
    ]
