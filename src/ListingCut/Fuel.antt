-- ===== src/ListingCut/Fuel.antt =====
-- core/dir.go: the number of names of a page is enough fuel for the loop of `intelligentListCut`.
use akavefs.Prelude.{
  ℕ, zero, suc, ◌+◌, ◌≤◌, ◌<◌, ◌≡◌, refl, ap, true, inl, inr, Bool-cases, Option-cases, some, List,
  leb, length, if◌then◌else◌, arith,
}
use akavefs.Names.{Name, name_lt}
use akavefs.ListingCut.{Page, last_of, max_name, may_cut, locate_lt_slash, Stop, cut_from}
use akavefs.ListingCut.Sorted.{last_of-none}
use akavefs.ListingCut.Loop.{item_back, prefix_back}

last_of-some : (xs : List Name) (n : ℕ) (x : Name) → last_of xs n ≡ some x → 0 < n
last_of-some xs zero x e = cc
last_of-some xs (suc n) x e = omega arith

-- One of the two positions goes one back.
max_name-shrinks :
    (resp : Page) (i p : ℕ)
    → 0 < i + p
    → i ≤ length resp.items
    → p ≤ length resp.prefixes
    → item_back (max_name resp i p) i + prefix_back (max_name resp i p) p + 1 ≡ i + p
unfolding max_name
max_name-shrinks resp i p lt hi hp = elim (Option-cases (last_of resp.items i)) [
  | inl no_item ↦
      let i0 = last_of-none resp.items i hi no_item in
      elim (Option-cases (last_of resp.prefixes p)) [
        | inl no_prefix ↦ let p0 = last_of-none resp.prefixes p hp no_prefix in absurd (omega arith)
        | inr (y, e) ↦ rw (max_name, no_item, e) (omega arith)
      ]
  | inr (x, d) ↦
      let i1 = last_of-some resp.items i x d in
      elim (Option-cases (last_of resp.prefixes p)) [
        | inl no_prefix ↦ rw (max_name, d, no_prefix) (omega arith)
        | inr (y, e) ↦
            let p1 = last_of-some resp.prefixes p y e in
            elim (Bool-cases (name_lt y x)) [
              | inl item ↦ rw (max_name, d, e, item) (omega arith)
              | inr prefix ↦ rw (max_name, d, e, prefix) (omega arith)
            ]
      ]
]

-- More fuel than the positions' sum changes nothing.
pub cut_from-fuel :
    (resp : Page) (prefix_len half : ℕ) (fuel i p : ℕ)
    → i + p ≤ fuel
    → i ≤ length resp.items
    → p ≤ length resp.prefixes
    → cut_from (suc fuel) resp prefix_len half i p (max_name resp i p)
      ≡ cut_from fuel resp prefix_len half i p (max_name resp i p)
unfolding cut_from
cut_from-fuel resp prefix_len half zero i p le hi hp = ground arith
cut_from-fuel resp prefix_len half (suc fuel) i p le hi hp = elim (Bool-cases (leb (i + p) half)) [
  | inl done ↦ rw (cut_from, done) refl
  | inr more ↦
      let m = max_name resp i p in
      let shrinks = max_name-shrinks resp i p (ground (arith, more)) hi hp in
      let rest =
        cut_from-fuel resp prefix_len half fuel (item_back m i) (prefix_back m p)
          (ground (arith, shrinks)) (ground arith) (ground arith) in
      let next = max_name resp (item_back m i) (prefix_back m p) in
      let here : Stop = record {
        ok = true;
        item_pos = item_back m i;
        prefix_pos = prefix_back m p;
        prev = next.name;
      } in
      rw (cut_from, more)
        (ap
          (λ r. if may_cut next.name m.name (locate_lt_slash next.name prefix_len) then here else r)
          rest)
]
