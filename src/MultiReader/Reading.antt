-- ===== src/MultiReader/Reading.antt =====
-- core/buffer_reader.go: `Read` reads the next bytes.
use akavefs.Prelude.{
  ℕ, zero, suc, ◌+◌, ◌-◌, ◌≤◌, ◌<◌, ◌≡◌, ◌∙◌, refl, ap, sym, true, false, inl, inr, Bool-cases,
  none, some, List, [], ◌∷◌, All, ltb, leb, ◌⊎◌, subst, lt→ltb, ltb→lt, ltb→le, leb→le, add64,
  sub64, sub64-eq, length, take, drop, length-drop, word, arith,
}
use akavefs.MultiReader.{BufferOrZero, MultiReader, read_from, read}
use akavefs.MultiReader.Rest.{
  bytes_of, content, IsBuffer, rest, IsWithin, IsReader, drop-drop, take-bytes_of, drop-nil,
  take-nil,
}
use akavefs.MultiReader.Rounds.{
  drop-empty, drop-cons, read_from-step, read_from-none, read_from-end, drop-finished,
  take-finished, take-inside, within_zero, round_len-inside, round_len-finished, advance-inside,
  advance-finished,
}

-- What a run of the loop gives: the next bytes, and a reader that has the rest.
record NextBytes (fuel : ℕ) (r : MultiReader) (bs : List BufferOrZero) (remaining : ℕ)
    : Type 0 where
  next : MultiReader
  run : read_from fuel r remaining ≡ some (next, take remaining (drop r.buf_pos (content bs)))
  same : next.buffers ≡ r.buffers
  left : rest next ≡ drop remaining (drop r.buf_pos (content bs))
  within : IsWithin next.buf_pos (drop next.idx next.buffers)

NextBytes-none :
    (fuel : ℕ) (bs : List BufferOrZero) (r : MultiReader)
    → drop r.idx r.buffers ≡ bs
    → IsWithin r.buf_pos bs
    → NextBytes fuel r bs 0
NextBytes-none fuel bs r e w = record {
  next = r;
  run = read_from-none fuel r;
  same = refl;
  left = ap (λ cs. drop r.buf_pos (content cs)) e;
  within = subst (IsWithin r.buf_pos) (sym e) w;
}

-- A round that ends within its buffer.
NextBytes-inside :
    (fuel : ℕ) (b : BufferOrZero) (bs : List BufferOrZero) (r : MultiReader) (n : ℕ)
    → drop r.idx r.buffers ≡ b ∷ bs
    → IsBuffer b
    → ltb 0 n ≡ true
    → r.buf_pos + n < b.size
    → NextBytes (suc fuel) r (b ∷ bs) n
NextBytes-inside fuel b bs r n e v pos lt =
    let d = drop-cons r.idx r.buffers bs b e in
    let whole = v.0 in
    let small = v.1 in
    let next : MultiReader = record r { pos = add64 r.pos n; buf_pos = r.buf_pos + n } in
    let adv = advance-inside r b (omega arith) small n lt in
    let nothing : sub64 n n ≡ 0 = omega arith in
    record {
      next = next;
      run =
          read_from-step fuel r n n b (take n (drop r.buf_pos (bytes_of b))) [] next pos d.0
            (round_len-inside r b (omega arith) small n
              (lt→ltb n (b.size - r.buf_pos) (omega arith)))
            (take-bytes_of b r.buf_pos n v (omega arith))
            (ap (λ z. read_from fuel z (sub64 n n)) adv
              ∙ ap (read_from fuel next) nothing
              ∙ read_from-none fuel next)
          ∙ ap (λ zs. some (next, zs))
              (take-inside (bytes_of b) (content bs) r.buf_pos n (omega arith));
      same = refl;
      left =
          ap (λ cs. drop (r.buf_pos + n) (content cs)) e
          ∙ sym (drop-drop r.buf_pos n (content (b ∷ bs)));
      within = subst (IsWithin (r.buf_pos + n)) (sym e) (omega arith);
    }

-- A round that finishes its buffer.
NextBytes-finished :
    (fuel : ℕ) (b : BufferOrZero) (bs : List BufferOrZero) (r : MultiReader) (n l : ℕ)
    → drop r.idx r.buffers ≡ b ∷ bs
    → IsBuffer b
    → ltb 0 n ≡ true
    → r.buf_pos + l ≡ b.size
    → l ≤ n
    → n < word
    → ltb n (b.size - r.buf_pos) ≡ false
    → NextBytes fuel (record r { pos = add64 r.pos l; idx = r.idx + 1; buf_pos = 0 }) bs (n - l)
    → NextBytes (suc fuel) r (b ∷ bs) n
NextBytes-finished fuel b bs r n l e v pos ends le h far ih =
    let d = drop-cons r.idx r.buffers bs b e in
    let whole = v.0 in
    let small = v.1 in
    let after : MultiReader = record r { pos = add64 r.pos l; idx = r.idx + 1; buf_pos = 0 } in
    let adv = advance-finished r b (omega arith) small l ends in
    let size : b.size - r.buf_pos ≡ l = omega arith in
    let sum : l + (n - l) ≡ n = omega arith in
    let full : r.buf_pos + l ≡ length (bytes_of b) = omega arith in
    record {
      next = ih.next;
      run =
          read_from-step fuel r n l b (take l (drop r.buf_pos (bytes_of b)))
            (take (n - l) (content bs)) ih.next pos d.0
            (round_len-finished r b (omega arith) small n far ∙ size)
            (take-bytes_of b r.buf_pos l v (omega arith))
            (ap (λ z. read_from fuel z (sub64 n l)) adv
              ∙ ap (read_from fuel after) (sub64-eq n l le h)
              ∙ ih.run)
          ∙ ap (λ zs. some (ih.next, zs))
              (take-finished (bytes_of b) (content bs) r.buf_pos l full (n - l)
                ∙ ap (λ k. take k (drop r.buf_pos (content (b ∷ bs)))) sum);
      same = ih.same;
      left =
          ih.left
          ∙ ap (drop (n - l)) (sym (drop-finished (bytes_of b) (content bs) r.buf_pos l full))
          ∙ drop-drop l (n - l) (drop r.buf_pos (content (b ∷ bs)))
          ∙ ap (λ k. drop k (drop r.buf_pos (content (b ∷ bs)))) sum;
      within = ih.within;
    }

NextBytes-read_from :
    (fuel : ℕ) (bs : List BufferOrZero) (r : MultiReader) (remaining : ℕ)
    → length bs < fuel
    → drop r.idx r.buffers ≡ bs
    → All IsBuffer bs
    → IsWithin r.buf_pos bs
    → remaining < word
    → NextBytes fuel r bs remaining
NextBytes-read_from zero bs r remaining f e v w h = absurd (omega arith)
NextBytes-read_from (suc fuel) [] r remaining f e v w h =
    let d = drop-empty r.idx r.buffers e in
    record {
      next = r;
      run =
          read_from-end (suc fuel) r remaining d.0 d.1
          ∙ ap (λ zs. some (r, zs))
              (sym (ap (take remaining) (drop-nil r.buf_pos) ∙ take-nil remaining));
      same = refl;
      left =
          ap (λ cs. drop r.buf_pos (content cs)) e
          ∙ drop-nil r.buf_pos
          ∙ sym (ap (drop remaining) (drop-nil r.buf_pos) ∙ drop-nil remaining);
      within = subst (IsWithin r.buf_pos) (sym e) w;
    }
NextBytes-read_from (suc fuel) (b ∷ bs) r remaining f e v w h =
    let d = drop-cons r.idx r.buffers bs b e in
    elim (Bool-cases (ltb 0 remaining)) [
      | inr empty ↦
          let nothing : 0 ≡ remaining = omega (arith, ltb→le 0 remaining empty) in
          subst (NextBytes (suc fuel) r (b ∷ bs)) nothing (NextBytes-none (suc fuel) (b ∷ bs) r e w)
      | inl pos ↦ elim (Bool-cases (ltb remaining (b.size - r.buf_pos))) [
        | inl inside ↦
            let lt = ltb→lt remaining (b.size - r.buf_pos) inside in
            NextBytes-inside fuel b bs r remaining e v.0 pos (omega arith)
        | inr finished ↦
            let l = b.size - r.buf_pos in
            let le = ltb→le remaining l finished in
            let after : MultiReader = record r {
              pos = add64 r.pos l;
              idx = r.idx + 1;
              buf_pos = 0;
            } in
            NextBytes-finished fuel b bs r remaining l e v.0 pos (omega arith) le h finished (
              NextBytes-read_from fuel bs after (remaining - l) (omega arith) d.1 v.1
                (within_zero bs) (omega arith))
      ]
    ]

length-drop_le : (i : ℕ) (bs : List BufferOrZero) → length (drop i bs) ≤ length bs
length-drop_le i bs = omega (arith, length-drop i bs)

All-drop : (i : ℕ) (bs : List BufferOrZero) → All IsBuffer bs → All IsBuffer (drop i bs)
All-drop zero bs v = v
All-drop (suc i) [] v = tt
All-drop (suc i) (b ∷ bs) v = All-drop i bs v.1

-- `Read` of a well-formed reader into a slice of fewer than 2 ^ 64 bytes does not panic and its loop
-- ends. At the end of the buffers it returns EOF and changes nothing; otherwise it returns the next
-- bytes, as many as there are up to the length of the slice, and the reader that is left is
-- well-formed and has what follows them.
pub read-rest :
    (r : MultiReader) (len : ℕ)
    → IsReader r
    → len < word
    → ((length r.buffers ≤ r.idx) × (read r len ≡ some (r, none)))
      ⊎ ((next : MultiReader) × (read r len ≡ some (next, some (take len (rest r))))
          × (rest next ≡ drop len (rest r))
          × IsReader next)
unfolding read
read-rest r len v h = elim (Bool-cases (leb (length r.buffers) r.idx)) [
  | inl eof ↦ inl (leb→le (length r.buffers) r.idx eof, rw eof)
  | inr more ↦
      let bound = length-drop_le r.idx r.buffers in
      let n =
        NextBytes-read_from (length r.buffers + 1) (drop r.idx r.buffers) r len (omega arith) refl
          (All-drop r.idx r.buffers v.buffers) v.within h in
      inr (
        n.next,
        rw (more, n.run),
        n.left,
        record { buffers = subst (All IsBuffer) (sym n.same) v.buffers; within = n.within },
      )
]
