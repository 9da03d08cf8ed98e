-- ===== src/RangeLocks/Locked.antt =====
-- core/file.go: a further lock frees no range.
use akavefs.Prelude.{ℕ, ◌≡◌, Bool, true, false, ◌||◌, List, [], ◌∷◌, refl, arith}
use akavefs.RangeLocks.{ReadRange, lock_range, is_range_locked}

or_free : (a b c : Bool) → (b ≡ false → c ≡ false) → (a || b) ≡ false → (a || c) ≡ false
or_free true b c f h = absurd (ground (arith, h))
or_free false b c f h = f h

pub is_range_locked-lock_range :
    (rs : List ReadRange) (offset size o s : ℕ)
    → is_range_locked (lock_range rs o s true) offset size true ≡ false
    → is_range_locked rs offset size true ≡ false
unfolding lock_range is_range_locked
is_range_locked-lock_range [] offset size o s h = refl
is_range_locked-lock_range (r ∷ rs) offset size o s h =
    or_free _ _ _ (is_range_locked-lock_range rs offset size o s) h
