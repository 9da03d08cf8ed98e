-- ===== src/Prelude/Word.antt =====
-- Go's `uint64` arithmetic: the results wrap around modulo 2 ^ 64.
use Prim.Native.Nat.{ℕ, ◌+◌, ◌-◌, ◌*◌, ◌%◌, ◌^◌, ◌≤◌, ◌<◌}
use mathlib.Core.Path.{◌≡◌}
use mathlib.Core.Bool.{Bool}
use native.Mathlib.Nat.{mod-eq_of_lt}
use native.Mathlib.Omega.{arith}
use akavefs.Prelude.Tests.{leb, ltb}

abbrev pub word : ℕ
word = 2 ^ 64

abbrev pub add64 : ℕ → ℕ → ℕ
add64 a b = (a + b) % word

abbrev pub sub64 : ℕ → ℕ → ℕ
sub64 a b = (a + word - b) % word

abbrev pub mul64 : ℕ → ℕ → ℕ
mul64 a b = (a * b) % word

-- Tests on `int64` and `int`: a bit pattern from 2 ^ 63 on is negative.
abbrev pub is_negative : ℕ → Bool
is_negative a = leb (2 ^ 63) a

abbrev pub slt64 : ℕ → ℕ → Bool
slt64 a b = ltb ((a + 2 ^ 63) % word) ((b + 2 ^ 63) % word)

abbrev pub sle64 : ℕ → ℕ → Bool
sle64 a b = leb ((a + 2 ^ 63) % word) ((b + 2 ^ 63) % word)

pub add64-eq : (a b : ℕ) → a + b < word → add64 a b ≡ a + b
add64-eq a b h = mod-eq_of_lt h

pub mul64-eq : (a b : ℕ) → a * b < word → mul64 a b ≡ a * b
mul64-eq a b h = mod-eq_of_lt h

pub sub64-eq : (a b : ℕ) → b ≤ a → a < word → sub64 a b ≡ a - b
sub64-eq a b h k = omega arith

-- Values that are not negative.
biased : (a : ℕ) → a < 2 ^ 63 → (a + 2 ^ 63) % word ≡ a + 2 ^ 63
biased a h = mod-eq_of_lt (omega arith)

pub slt64-ltb : (a b : ℕ) → a < 2 ^ 63 → b < 2 ^ 63 → slt64 a b ≡ ltb a b
slt64-ltb a b h k = let e = biased a h in let f = biased b k in rw (e, f) (ground arith)

pub sle64-leb : (a b : ℕ) → a < 2 ^ 63 → b < 2 ^ 63 → sle64 a b ≡ leb a b
sle64-leb a b h k = let e = biased a h in let f = biased b k in rw (e, f) (ground arith)
