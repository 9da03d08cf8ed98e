-- ===== src/MultiReader/Landing.antt =====
-- core/buffer_reader.go: where `Seek` moves to, by a signed offset from a place.
use akavefs.Prelude.{
  ℕ, ◌+◌, min, add64, ◌-◌, ◌^◌, ◌≤◌, ◌<◌, ◌≡◌, ◌∙◌, ap, sym, true, false, inl, inr, Bool-cases, leb,
  if◌then◌else◌, subst, slt64, slt64-ltb, is_negative, length, word, arith,
}
use akavefs.MultiReader.{MultiReader, seek_target, reader_len}
use akavefs.MultiReader.Rest.{content}

-- The size is the number of the bytes, which an `int64` can count, and the position is not past it.
pub record IsSized (r : MultiReader) : Type 0 where
  pub counted : reader_len r ≡ length (content r.buffers)
  pub small : reader_len r < 2 ^ 63
  pub inside : r.pos ≤ reader_len r

-- Where an offset is counted from: `io.SeekStart`, `io.SeekCurrent` and `io.SeekEnd`.
pub data Whence : Type 0 where
  seek_start seek_current seek_end : Whence

abbrev pub whence_code : Whence → ℕ
whence_code Whence.seek_start = 0
whence_code Whence.seek_current = 1
whence_code Whence.seek_end = 2

abbrev pub origin : MultiReader → Whence → ℕ
origin r Whence.seek_start = 0
origin r Whence.seek_current = r.pos
origin r Whence.seek_end = length (content r.buffers)

-- A signed offset, with its bit pattern.
pub data Shift : Type 0 where
  forward backward : ℕ → Shift

abbrev pub shift_bits : Shift → ℕ
shift_bits (Shift.forward n) = n
shift_bits (Shift.backward n) = word - n

-- An `int64`, of which the sum with a place is one too.
abbrev pub IsShift : ℕ → Shift → Type 0
IsShift at (Shift.forward n) = at + n < 2 ^ 63
IsShift at (Shift.backward n) = (0 < n) × (n ≤ 2 ^ 63)

-- The place that is so far from another one, or the end of the data that is nearer.
abbrev pub landing : ℕ → ℕ → Shift → ℕ
landing size at (Shift.forward n) = min (at + n) size
landing size at (Shift.backward n) = at - n

abbrev clamped : ℕ → ℕ → ℕ
clamped size o =
    let below = if slt64 size o then size else o in if is_negative below then 0 else below

clamped-landing :
    (size at : ℕ) (sh : Shift)
    → size < 2 ^ 63
    → at ≤ size
    → IsShift at sh
    → clamped size (add64 (shift_bits sh) at) ≡ landing size at sh
clamped-landing size at (Shift.forward n) small le v =
    let e : add64 n at ≡ at + n = omega arith in
    let t = slt64-ltb size (at + n) small v in rw (e, t) (ground arith)
clamped-landing size at (Shift.backward n) small le v = elim (Bool-cases (leb n at)) [
  | inl inside ↦
      let e : add64 (word - n) at ≡ at - n = ground (arith, inside, v) in
      let t = slt64-ltb size (at - n) small (omega arith) in rw (e, t) (ground (arith, inside))
  | inr past ↦
      let e : add64 (word - n) at ≡ word + at - n = ground (arith, past, v) in
      let t : slt64 size (word + at - n) ≡ false = ground (arith, past, v) in
      let u : is_negative (word + at - n) ≡ true = ground (arith, past, v) in
      let z : 0 ≡ at - n = ground (arith, past) in rw (e, t, u) z
]

shift_bits-add64 : (sh : Shift) → IsShift 0 sh → add64 (shift_bits sh) 0 ≡ shift_bits sh
shift_bits-add64 (Shift.forward n) v = omega arith
shift_bits-add64 (Shift.backward n) v = omega arith

pub seek_target-landing :
    (r : MultiReader) (w : Whence) (sh : Shift)
    → IsSized r
    → IsShift (origin r w) sh
    → seek_target r (shift_bits sh) (whence_code w)
      ≡ landing (length (content r.buffers)) (origin r w) sh
seek_target-landing r Whence.seek_start sh s v =
    ap (clamped r.size) (sym (shift_bits-add64 sh v))
    ∙ clamped-landing r.size 0 sh s.small (omega arith) v
    ∙ ap (λ n. landing n 0 sh) s.counted
seek_target-landing r Whence.seek_current sh s v =
    clamped-landing r.size r.pos sh s.small s.inside v ∙ ap (λ n. landing n r.pos sh) s.counted
seek_target-landing r Whence.seek_end sh s v =
    let c = s.counted in
    let v' : IsShift r.size sh = subst (λ n. IsShift n sh) (sym c) v in
    clamped-landing r.size r.size sh s.small (omega arith) v' ∙ ap (λ n. landing n n sh) c

pub landing-le : (size at : ℕ) (sh : Shift) → at ≤ size → landing size at sh ≤ size
landing-le size at (Shift.forward n) h = omega arith
landing-le size at (Shift.backward n) h = omega arith

pub origin-le : (r : MultiReader) (w : Whence) → IsSized r → origin r w ≤ length (content r.buffers)
origin-le r Whence.seek_start s = omega arith
origin-le r Whence.seek_current s = let c = s.counted in let i = s.inside in omega arith
origin-le r Whence.seek_end s = omega arith
