-- ===== src/MultiReader/Rounds.antt =====
-- core/buffer_reader.go: one round of the loop of `Read`.
use akavefs.Prelude.{
  ℕ, zero, suc, ◌+◌, ◌-◌, ◌≤◌, ◌<◌, ◌≡◌, ◌∙◌, refl, ap, sym, true, false, inl, inr, Bool-cases,
  none, some, List, [], ◌∷◌, ◌++◌, ltb, leb, add64, add64-eq, sub64, sub64-eq, length, get_elem?,
  take, drop, length-drop, word, arith,
}
use akavefs.MultiReader.{BufferOrZero, MultiReader, round_len, round_bytes, advance, read_from}
use akavefs.MultiReader.Rest.{IsWithin, drop-append, drop-all, drop-drop, take-drop, take-append}

append_nil : (xs : List ℕ) → xs ++ [] ≡ xs
append_nil [] = refl
append_nil (x ∷ xs) = ap (λ zs. x ∷ zs) (append_nil xs)

-- The buffer at an index, and those after it.
pub drop-empty :
    (i : ℕ) (bs : List BufferOrZero) → drop i bs ≡ [] → (get_elem? bs i ≡ none) × (length bs ≤ i)
drop-empty i [] e = (refl, omega arith)
drop-empty zero (b ∷ bs) e = absurd (ground (arith, e))
drop-empty (suc i) (b ∷ bs) e = let ih = drop-empty i bs e in (ih.0, omega arith)

shift : (i : ℕ) → suc i + 1 ≡ suc (i + 1)
shift i = omega arith

pub drop-cons :
    (i : ℕ) (bs cs : List BufferOrZero) (b : BufferOrZero)
    → drop i bs ≡ b ∷ cs
    → (get_elem? bs i ≡ some b) × (drop (i + 1) bs ≡ cs) × (i < length bs)
drop-cons zero [] cs b e = absurd (ground (arith, e))
drop-cons (suc i) [] cs b e = absurd (ground (arith, e))
drop-cons zero (c ∷ bs) cs b e = (cc, cc, omega arith)
drop-cons (suc i) (c ∷ bs) cs b e =
    let ih = drop-cons i bs cs b e in
    (ih.0, ap (λ k. drop k (c ∷ bs)) (shift i) ∙ ih.1, omega arith)

module _ (fuel : ℕ) (r : MultiReader) (remaining l : ℕ) (b : BufferOrZero) (bytes out : List ℕ)
    (next : MultiReader) where
  pub read_from-step :
      ltb 0 remaining ≡ true
      → get_elem? r.buffers r.idx ≡ some b
      → round_len b r.buf_pos remaining ≡ l
      → round_bytes b r.buf_pos l ≡ some bytes
      → read_from fuel (advance r b l) (sub64 remaining l) ≡ some (next, out)
      → read_from (suc fuel) r remaining ≡ some (next, bytes ++ out)
  unfolding read_from
  read_from-step pos here e run more = rw (read_from, pos, here, e, run, e, more)

pub read_from-none : (fuel : ℕ) (r : MultiReader) → read_from fuel r 0 ≡ some (r, [])
unfolding read_from
read_from-none zero r = ground arith
read_from-none (suc fuel) r = refl

pub read_from-end :
    (fuel : ℕ) (r : MultiReader) (remaining : ℕ)
    → get_elem? r.buffers r.idx ≡ none
    → length r.buffers ≤ r.idx
    → read_from fuel r remaining ≡ some (r, [])
unfolding read_from
read_from-end zero r remaining gone end = ground arith
read_from-end (suc fuel) r remaining gone end = elim (Bool-cases (ltb 0 remaining)) [
  | inl pos ↦ rw (read_from, pos, gone)
  | inr empty ↦ rw (read_from, empty)
]

-- The bytes of a round, and what is left, when the buffer ends in the round and when it does not.
module _ (xs ys : List ℕ) (m l : ℕ) (e : m + l ≡ length xs) where
  pub drop-finished : drop l (drop m (xs ++ ys)) ≡ ys
  drop-finished =
      let size = length-drop m xs in
      ap (drop l) (drop-append m xs ys (omega arith))
      ∙ drop-append l (drop m xs) ys (omega arith)
      ∙ ap (λ zs. zs ++ ys) (drop-drop m l xs ∙ ap (λ k. drop k xs) e ∙ drop-all xs)

  pub take-finished : (k : ℕ) → take l (drop m xs) ++ take k ys ≡ take (l + k) (drop m (xs ++ ys))
  take-finished k =
      let size = length-drop m xs in
      ap (λ zs. take l (drop m xs) ++ take k zs) (sym drop-finished)
      ∙ ap (λ zs. zs ++ take k (drop l (drop m (xs ++ ys))))
          (sym (
            ap (take l) (drop-append m xs ys (omega arith))
            ∙ take-append l (drop m xs) ys (omega arith)))
      ∙ take-drop l k (drop m (xs ++ ys))

pub take-inside :
    (xs ys : List ℕ) (m l : ℕ)
    → m + l ≤ length xs
    → take l (drop m xs) ++ [] ≡ take l (drop m (xs ++ ys))
take-inside xs ys m l le =
    let size = length-drop m xs in
    append_nil (take l (drop m xs))
    ∙ sym (
        ap (take l) (drop-append m xs ys (omega arith))
        ∙ take-append l (drop m xs) ys (omega arith))

pub within_zero : (bs : List BufferOrZero) → IsWithin 0 bs
within_zero [] = refl
within_zero (b ∷ bs) = omega arith

-- The length of a round and the reader after it.
module _ (r : MultiReader) (b : BufferOrZero) (w : r.buf_pos ≤ b.size) (small : b.size < word) where
  pub round_len-inside : (n : ℕ) → ltb n (b.size - r.buf_pos) ≡ true → round_len b r.buf_pos n ≡ n
  round_len-inside n h = rw (sub64-eq b.size r.buf_pos w small, h)

  pub round_len-finished :
      (n : ℕ) → ltb n (b.size - r.buf_pos) ≡ false → round_len b r.buf_pos n ≡ b.size - r.buf_pos
  round_len-finished n h = rw (sub64-eq b.size r.buf_pos w small, h)

  pub advance-inside :
      (n : ℕ)
      → r.buf_pos + n < b.size
      → advance r b n ≡ record r { pos = add64 r.pos n; buf_pos = r.buf_pos + n }
  advance-inside n h =
      let more : leb b.size (r.buf_pos + n) ≡ false = ground arith in
      rw (add64-eq r.buf_pos n (omega arith), more)

  pub advance-finished :
      (n : ℕ)
      → r.buf_pos + n ≡ b.size
      → advance r b n ≡ record r { pos = add64 r.pos n; idx = r.idx + 1; buf_pos = 0 }
  advance-finished n h =
      let done : leb b.size (r.buf_pos + n) ≡ true = ground arith in
      rw (add64-eq r.buf_pos n (omega arith), done)
