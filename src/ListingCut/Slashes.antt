-- ===== src/ListingCut/Slashes.antt =====
-- core/dir.go: `locateLtSlash` finds a byte before the slash if a directory's name goes on with one,
-- and `prefixLarger` tells whether the name with a slash is then behind another name.
use akavefs.Prelude.{
  ℕ, zero, suc, ◌+◌, ◌≤◌, ◌<◌, ◌≡◌, ◌∙◌, refl, sym, ap, Bool, true, false, not, ◌||◌, inl, inr,
  Bool-cases, Option, Option-cases, some, [], ◌∷◌, ◌++◌, ltb, leb, ◌==◌, length, get_elem?, take,
  drop, arith, subst,
}
use akavefs.Names.{Name, name_lt}
use akavefs.ListingCut.{slash, find_lt, locate_from, locate_lt_slash, prefix_larger, may_cut}
use akavefs.ListingCut.Strings.{IsDashed, name_lt-take, take-append_left, take_all, name_lt-byte}

-- Some byte is not a slash.
abbrev pub is_named : Name → Bool
is_named [] = false
is_named (x ∷ xs) = not (x == slash) || is_named xs

-- A byte before the slash that is found at an index of a string, not past the length of a name.
record IsFound (base : ℕ) (n s : Name) (o : Option ℕ) : Type 0 where
  at : ℕ
  found : o ≡ some (base + at)
  inside : at ≤ length n
  byte : ℕ
  here : get_elem? s at ≡ some byte
  small : byte < slash

IsFound-cons :
    (base x : ℕ) (n s : Name) (o : Option ℕ)
    → IsFound (base + 1) n s o
    → IsFound base (x ∷ n) (x ∷ s) o
IsFound-cons base x n s o f = record {
  at = suc f.at;
  found = f.found ∙ ap some (omega arith);
  inside = omega (arith, f.inside);
  byte = f.byte;
  here = f.here;
  small = f.small;
}

find_lt-IsFound :
    (base : ℕ) (n t : Name) (b : ℕ)
    → b < slash
    → IsFound base n (n ++ b ∷ t) (find_lt base (n ++ b ∷ t))
find_lt-IsFound base [] t b lt = record {
  at = 0;
  found = ground arith;
  inside = omega arith;
  byte = b;
  here = refl;
  small = lt;
}
find_lt-IsFound base (x ∷ n) t b lt = elim (Bool-cases (ltb x slash)) [
  | inl now ↦ record {
    at = 0;
    found = rw now (ap some (omega arith));
    inside = omega arith;
    byte = x;
    here = refl;
    small = ground arith;
  }
  | inr later ↦ rw later (
      IsFound-cons base x n (n ++ b ∷ t) (find_lt (base + 1) (n ++ b ∷ t))
        (find_lt-IsFound (base + 1) n t b lt))
]

locate_from-IsFound :
    (base : ℕ) (n t : Name) (b : ℕ)
    → b < slash
    → is_named n ≡ true
    → IsFound base n (n ++ b ∷ t) (locate_from base (n ++ b ∷ t))
locate_from-IsFound base [] t b lt h = cc
locate_from-IsFound base (x ∷ n) t b lt h = elim (Bool-cases (x == slash)) [
  | inl skip ↦ rw skip (
      IsFound-cons base x n (n ++ b ∷ t) (locate_from (base + 1) (n ++ b ∷ t))
        (locate_from-IsFound (base + 1) n t b lt (ground arith)))
  | inr start ↦ rw start (
      IsFound-cons base x n (n ++ b ∷ t) (find_lt (base + 1) (n ++ b ∷ t))
        (find_lt-IsFound (base + 1) n t b lt))
]

locate-IsFound :
    (base prefix_len : ℕ) (n t : Name) (b : ℕ)
    → b < slash
    → prefix_len ≤ length n
    → is_named (drop prefix_len n) ≡ true
    → IsFound base n (n ++ b ∷ t) (locate_from (base + prefix_len) (drop prefix_len (n ++ b ∷ t)))
locate-IsFound base zero n t b lt le h =
    let e : base ≡ base + 0 = omega arith in
    subst (λ k. IsFound base n (n ++ b ∷ t) (locate_from k (n ++ b ∷ t))) e
      (locate_from-IsFound base n t b lt h)
locate-IsFound base (suc k) [] t b lt le h = cc
locate-IsFound base (suc k) (x ∷ n) t b lt le h =
    let e : base + 1 + k ≡ base + suc k = omega arith in
    subst (λ j. IsFound base (x ∷ n) (x ∷ n ++ b ∷ t) (locate_from j (drop k (n ++ b ∷ t)))) e
      (IsFound-cons base x n (n ++ b ∷ t) (locate_from (base + 1 + k) (drop k (n ++ b ∷ t)))
        (locate-IsFound (base + 1) k n t b lt (omega arith) h))

-- The test of `prefixLarger` at such an index puts the directory before the other name.
prefix_larger-dir :
    (n t name : Name) (b c pos : ℕ)
    → b < slash
    → pos ≤ length n
    → get_elem? (n ++ b ∷ t) pos ≡ some c
    → c < slash
    → prefix_larger (n ++ b ∷ t) name pos ≡ true
    → name_lt (n ++ slash ∷ []) name ≡ true
prefix_larger-dir n t name b c pos lt le here small h =
    let e = take-append_left pos n (b ∷ t) le in
    elim (Bool-cases (name_lt (take pos n) (take pos name))) [
      | inl less ↦ name_lt-take pos n name (slash ∷ []) le less
      | inr ge ↦ elim (Option-cases (get_elem? name pos)) [
        | inl gone ↦ absurd (elim (Bool-cases (leb (length name) pos)) [
          | inl short ↦
              let w = take_all pos name (ground arith) in
              let ge' = rw w at ge in ground (arith, rw e at h, gone, ge', short)
          | inr long ↦ ground (arith, rw e at h, gone, ge, long)
        ])
        | inr (d, there) ↦ elim (Bool-cases (leb (length name) pos)) [
          | inl short ↦
              let w = take_all pos name (ground arith) in
              let ge' = rw w at ge in absurd (ground (arith, rw e at h, ge', short))
          | inr long ↦
              let h' = rw e at h in
              name_lt-byte pos n name b c t le lt here small (ground (arith, h', ge, long)) d there
                (ground (arith, h', ge, long, there))
        ]
      ]
    ]

pub may_cut-dir :
    (prev name n : Name) (prefix_len : ℕ)
    → IsDashed n prev
    → prefix_len ≤ length n
    → is_named (drop prefix_len n) ≡ true
    → may_cut prev name (locate_lt_slash prev prefix_len) ≡ true
    → name_lt (n ++ slash ∷ []) name ≡ true
unfolding locate_lt_slash
may_cut-dir prev name n prefix_len d le h cut =
    let f = locate-IsFound 0 prefix_len n d.tail d.byte d.before le h in
    let zero_plus : 0 + prefix_len ≡ prefix_len = omega arith in
    let at_start : 0 + f.at ≡ f.at = omega arith in
    let found : locate_from prefix_len (drop prefix_len (n ++ d.byte ∷ d.tail)) ≡ some f.at =
      ap (λ k. locate_from k (drop prefix_len (n ++ d.byte ∷ d.tail))) (sym zero_plus)
      ∙ f.found
      ∙ ap some at_start in
    let cut' : may_cut (n ++ d.byte ∷ d.tail) name
          (locate_from prefix_len (drop prefix_len (n ++ d.byte ∷ d.tail)))
        ≡ true =
      subst (λ s. may_cut s name (locate_from prefix_len (drop prefix_len s)) ≡ true) d.shape cut in
    let larger : prefix_larger (n ++ d.byte ∷ d.tail) name f.at ≡ true =
      subst (λ o. may_cut (n ++ d.byte ∷ d.tail) name o ≡ true) found cut' in
    prefix_larger-dir n d.tail name d.byte f.byte f.at d.before f.inside f.here f.small larger
