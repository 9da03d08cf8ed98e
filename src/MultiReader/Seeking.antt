-- ===== src/MultiReader/Seeking.antt =====
-- core/buffer_reader.go: `Seek` and `Len`.
use akavefs.Prelude.{
  ℕ, suc, ◌+◌, ◌-◌, ◌≤◌, ◌<◌, ◌≡◌, ◌∙◌, refl, ap, sym, true, false, inl, inr, Bool-cases, some,
  List, [], ◌∷◌, ◌++◌, All, ltb, leb, subst, add64-eq, sub64-eq, length, length-append, drop, word,
  arith,
}
use akavefs.MultiReader.{BufferOrZero, MultiReader, Place, seek_from, seek_target, seek_reader}
use akavefs.MultiReader.Rest.{bytes_of, content, IsBuffer, rest, IsWithin, IsReader}
use akavefs.MultiReader.Landing.{
  IsSized, Whence, whence_code, origin, Shift, shift_bits, IsShift, landing, seek_target-landing,
  landing-le, origin-le,
}

suc_add : (m n : ℕ) → suc m + n ≡ suc (m + n)
suc_add m n = omega arith

drop-past : (xs ys : List ℕ) (n : ℕ) → drop (length xs + n) (xs ++ ys) ≡ drop n ys
drop-past [] ys n = ap (λ k. drop k ys) (omega arith)
drop-past (x ∷ xs) ys n =
    ap (λ k. drop k (x ∷ xs ++ ys)) (suc_add (length xs) n) ∙ drop-past xs ys n

-- The place is some buffers further on, and the offset is reached there.
record IsPlace (bs : List BufferOrZero) (idx pos offset : ℕ) (p : Place) : Type 0 where
  passed : ℕ
  index : p.idx ≡ idx + passed
  reached : p.pos ≡ offset
  left : drop p.buf_pos (content (drop passed bs)) ≡ drop (offset - pos) (content bs)
  within : IsWithin p.buf_pos (drop passed bs)

IsPlace-here :
    (b : BufferOrZero) (bs : List BufferOrZero) (idx pos offset k : ℕ)
    → k ≡ offset - pos
    → k ≤ b.size
    → IsPlace (b ∷ bs) idx pos offset (record { idx = idx; pos = offset; buf_pos = k })
IsPlace-here b bs idx pos offset k e h = record {
  passed = 0;
  index = omega arith;
  reached = refl;
  left = ap (λ n. drop n (content (b ∷ bs))) e;
  within = h;
}

IsPlace-later :
    (b : BufferOrZero) (bs : List BufferOrZero) (idx pos offset : ℕ) (p : Place)
    → IsBuffer b
    → pos + b.size ≤ offset
    → IsPlace bs (idx + 1) (pos + b.size) offset p
    → IsPlace (b ∷ bs) idx pos offset p
IsPlace-later b bs idx pos offset p v h later =
    let whole = v.0 in
    let e : length (bytes_of b) + (offset - (pos + b.size)) ≡ offset - pos = omega arith in
    record {
      passed = suc later.passed;
      index = omega (arith, later.index);
      reached = later.reached;
      left =
          later.left
          ∙ sym (drop-past (bytes_of b) (content bs) (offset - (pos + b.size)))
          ∙ ap (λ n. drop n (content (b ∷ bs))) e;
      within = later.within;
    }

seek_from-later :
    (b : BufferOrZero) (bs : List BufferOrZero) (idx pos offset : ℕ)
    → pos + b.size ≤ offset
    → offset < word
    → ltb pos offset ≡ true
    → seek_from (b ∷ bs) idx pos offset ≡ seek_from bs (idx + 1) (pos + b.size) offset
unfolding seek_from
seek_from-later b bs idx pos offset h k before =
    let e = add64-eq pos b.size (omega arith) in
    let past : leb (pos + b.size) offset ≡ true = ground arith in rw (seek_from, before, e, past)

seek_from-inside :
    (b : BufferOrZero) (bs : List BufferOrZero) (idx pos offset : ℕ)
    → offset < pos + b.size
    → pos + b.size < word
    → ltb pos offset ≡ true
    → seek_from (b ∷ bs) idx pos offset
      ≡ some (record { idx = idx; pos = offset; buf_pos = offset - pos })
unfolding seek_from
seek_from-inside b bs idx pos offset h k before =
    let e = add64-eq pos b.size k in
    let d = sub64-eq offset pos (ground arith) (omega arith) in
    let inside : leb (pos + b.size) offset ≡ false = ground arith in
    rw (seek_from, before, e, inside, d)

seek_from-here :
    (bs : List BufferOrZero) (idx offset : ℕ)
    → seek_from bs idx offset offset ≡ some (record { idx = idx; pos = offset; buf_pos = 0 })
unfolding seek_from
seek_from-here [] idx offset = let h : ltb offset offset ≡ false = ground arith in rw (seek_from, h)
seek_from-here (b ∷ bs) idx offset =
    let h : ltb offset offset ≡ false = ground arith in rw (seek_from, h)

IsPlace-seek_from :
    (bs : List BufferOrZero) (idx pos offset : ℕ)
    → All IsBuffer bs
    → pos ≤ offset
    → offset ≤ pos + length (content bs)
    → pos + length (content bs) < word
    → (p : Place) × (seek_from bs idx pos offset ≡ some p) × IsPlace bs idx pos offset p
unfolding seek_from
IsPlace-seek_from [] idx pos offset v lo hi small =
    let e : pos ≡ offset = omega arith in
    let z : 0 ≡ offset - pos = omega arith in
    (
      record { idx = idx; pos = offset; buf_pos = 0 },
      ap (λ x. seek_from [] idx x offset) e ∙ seek_from-here [] idx offset,
      record {
        passed = 0;
        index = omega arith;
        reached = refl;
        left = ap (λ n. drop {A = ℕ} n []) z;
        within = refl;
      },
    )
IsPlace-seek_from (b ∷ bs) idx pos offset v lo hi small =
    let whole = v.0.0 in
    let len = length-append (bytes_of b) (content bs) in
    elim (Bool-cases (ltb pos offset)) [
      | inr done ↦
          let e : pos ≡ offset = ground arith in
          (
            record { idx = idx; pos = offset; buf_pos = 0 },
            ap (λ x. seek_from (b ∷ bs) idx x offset) e ∙ seek_from-here (b ∷ bs) idx offset,
            IsPlace-here b bs idx pos offset 0 (omega arith) (omega arith),
          )
      | inl before ↦ elim (Bool-cases (leb (pos + b.size) offset)) [
        | inl past ↦
            let le : pos + b.size ≤ offset = ground arith in
            let (p, run, ok) =
              IsPlace-seek_from bs (idx + 1) (pos + b.size) offset v.1 le (omega arith)
                (omega arith) in
            (
              p,
              seek_from-later b bs idx pos offset le (omega arith) before ∙ run,
              IsPlace-later b bs idx pos offset p v.0 le ok,
            )
        | inr inside ↦
            let lt : offset < pos + b.size = ground arith in
            (
              record { idx = idx; pos = offset; buf_pos = offset - pos },
              seek_from-inside b bs idx pos offset lt (omega arith) before,
              IsPlace-here b bs idx pos offset (offset - pos) refl (omega arith),
            )
      ]
    ]

seek_reader_run :
    (r : MultiReader) (offset whence : ℕ) (p : Place)
    → p.pos ≡ seek_target r offset whence
    → seek_from r.buffers 0 0 (seek_target r offset whence) ≡ some p
    → seek_reader r offset whence
      ≡ some
          (record r { idx = p.idx; pos = p.pos; buf_pos = p.buf_pos }, seek_target r offset whence)
unfolding seek_reader
seek_reader_run r offset whence p e run =
    rw (seek_reader, run)
      (ap (λ n. some (record r { idx = p.idx; pos = p.pos; buf_pos = p.buf_pos }, n)) e)

-- Let the buffers of a reader be whole and its size the number of their bytes, below 2 ^ 63, with the
-- position not past it. `Seek` by a signed offset from the start, the position or the end, where the sum
-- is an `int64`, does not panic and its loop ends. It returns the place that is so far from there, or
-- the start or the end of the data if that place lies outside, and leaves a well-formed reader at that
-- place, whose rest is what follows there.
pub seek_reader-rest :
    (r : MultiReader) (w : Whence) (sh : Shift)
    → All IsBuffer r.buffers
    → IsSized r
    → IsShift (origin r w) sh
    → (next : MultiReader) × (seek_reader r (shift_bits sh) (whence_code w)
        ≡ some (next, landing (length (content r.buffers)) (origin r w) sh))
      × (next.pos ≡ landing (length (content r.buffers)) (origin r w) sh)
      × (rest next
          ≡ drop (landing (length (content r.buffers)) (origin r w) sh) (content r.buffers))
      × IsReader next
      × IsSized next
unfolding seek_reader
seek_reader-rest r w sh v s d =
    let size = length (content r.buffers) in
    let to = landing size (origin r w) sh in
    let le : to ≤ size = landing-le size (origin r w) sh (origin-le r w s) in
    let counted = s.counted in
    let small = s.small in
    let target = seek_target-landing r w sh s d in
    let (p, run, ok) =
      IsPlace-seek_from r.buffers 0 0 to v (omega arith) (omega (arith, le)) (omega arith) in
    let at : p.idx ≡ ok.passed = omega (arith, ok.index) in
    let whole : to - 0 ≡ to = omega arith in
    (
      record r { idx = p.idx; pos = p.pos; buf_pos = p.buf_pos },
      seek_reader_run r (shift_bits sh) (whence_code w) p (ok.reached ∙ sym target)
            (ap (seek_from r.buffers 0 0) target ∙ run)
          ∙ ap (λ n. some (record r { idx = p.idx; pos = p.pos; buf_pos = p.buf_pos }, n)) target,
      ok.reached,
      ap (λ i. drop p.buf_pos (content (drop i r.buffers))) at
          ∙ ok.left
          ∙ ap (λ n. drop n (content r.buffers)) whole,
      record {
        buffers = v;
        within = subst (λ i. IsWithin p.buf_pos (drop i r.buffers)) (sym at) ok.within;
      },
      record { counted = counted; small = small; inside = omega (arith, ok.reached) },
    )
