-- ===== src/RangeLocks/Held.antt =====
-- core/file.go: `UnlockRange` undoes `LockRange`.
use akavefs.Prelude.{
  ℕ, ◌+◌, ◌<◌, refl, ◌≡◌, Bool, true, false, inl, inr, List, [], ◌∷◌, ◌++◌, arith, if◌then◌else◌,
  Bool-cases,
}
use akavefs.RangeLocks.{ReadRange, is_range, same_flag, lock_range, unlock_range}

-- How often a range is locked.
abbrev pub held : ℕ → ℕ → Bool → List ReadRange → ℕ
held o s f [] = 0
held o s f (v ∷ rs) = (if is_range o s f v then 1 else 0) + held o s f rs

held-append :
    (o s : ℕ) (f : Bool) (rs ss : List ReadRange)
    → held o s f (rs ++ ss) ≡ held o s f rs + held o s f ss
held-append o s f [] ss = omega arith
held-append o s f (v ∷ rs) ss = omega (arith, held-append o s f rs ss)

-- 1 if the two keys are the same.
abbrev pub one : ℕ → ℕ → Bool → ℕ → ℕ → Bool → ℕ
one o s f o' s' f' =
    if is_range o' s' f' (record { offset = o; size = s; flushing = f }) then 1 else 0

flag_trans : (a b c : Bool) → same_flag a b ≡ true → same_flag a c ≡ same_flag b c
flag_trans true true c e = refl
flag_trans false false c e = refl
flag_trans true false c e = absurd (ground (arith, e))
flag_trans false true c e = absurd (ground (arith, e))

-- Each entry counts under one key only.
same_key :
    (o s o' s' : ℕ) (f f' : Bool) (v : ReadRange)
    → is_range o s f v ≡ true
    → (if is_range o' s' f' v then 1 else 0) ≡ one o s f o' s' f'
same_key o s o' s' f f' v e = let t = flag_trans v.flushing f f' in ground arith

own_key : (o s : ℕ) (f : Bool) → one o s f o s f ≡ 1
own_key o s true = ground arith
own_key o s false = ground arith

module _ (o s : ℕ) (f : Bool) (o' s' : ℕ) (f' : Bool) where
  -- To unlock a range that is locked takes one of its locks away and no lock of another range.
  pub unlock_range-held :
      (rs : List ReadRange)
      → 0 < held o s f rs
      → held o' s' f' (unlock_range rs o s f) + one o s f o' s' f' ≡ held o' s' f' rs
  unfolding unlock_range
  unlock_range-held [] h = absurd (omega arith)
  unlock_range-held (v ∷ rs) h = elim (Bool-cases (is_range o s f v)) [
    | inl here ↦ let k = same_key o s o' s' f f' v here in rw here (omega arith)
    | inr there ↦
        let h'' = rw there at h in
        let h' : 0 < held o s f rs = omega arith in
        let ih = unlock_range-held rs h' in rw there (omega arith)
  ]

  -- After a lock and the unlock of the same range each range is locked as often as before.
  pub unlock_range-lock_range :
      (rs : List ReadRange)
      → held o' s' f' (unlock_range (lock_range rs o s f) o s f) ≡ held o' s' f' rs
  unfolding lock_range
  unlock_range-lock_range rs =
      let here = held-append o s f rs (record { offset = o; size = s; flushing = f } ∷ []) in
      let there = held-append o' s' f' rs (record { offset = o; size = s; flushing = f } ∷ []) in
      let own : one o s f o s f ≡ 1 = own_key o s f in
      let ih =
        unlock_range-held (rs ++ record { offset = o; size = s; flushing = f } ∷ [])
          (omega arith) in
      omega arith
