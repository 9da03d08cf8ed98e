-- ===== src/BufferList/Chunks.antt =====
-- core/buffer_list.go: the chunk that `GetData` adds for one buffer.
use akavefs.Prelude.{
  ℕ, ◌+◌, ◌-◌, ◌≤◌, ◌<◌, ◌≡◌, true, false, inl, inr, none, some, List, [], ◌∷◌, ◌++◌, arith, leb,
  length, get_elem?, take, drop, replicate, Bool-cases, Option-cases, sub64, sub64-eq,
  length-replicate, length-take, length-drop,
}
use akavefs.BufferList.{Slice, FileBuffer}
use akavefs.BufferList.Read.{append_zero_from, read_slice, add_chunk}
use akavefs.BufferList.Shape.{IsBuffer, value_of, IsBuffer-slice}
use akavefs.BufferList.Contents.{
  drop-cons, Spells, Spells-map, Spells-take, Spells-replicate, concat, concat-append,
  concat-append_zero_from,
}

-- The chunk that a buffer adds: the bytes of the buffer from `cur` to `cur_end`.
pub record Chunk (b : FileBuffer) (cur cur_end : ℕ) (before after : List (List ℕ)) : Type 0 where
  pub bytes : List ℕ
  pub joined : concat after ≡ concat before ++ bytes
  pub size : cur + length bytes ≡ cur_end
  pub spelled : Spells (value_of b) cur bytes

module _ (key : ℕ) (b : FileBuffer) (v : IsBuffer key b) (cur cur_end : ℕ) (lo : b.offset ≤ cur)
    (le : cur ≤ cur_end) (hi : cur_end ≤ key) where
  pub zero-Chunk :
      (before : List (List ℕ))
      → b.zero ≡ true
      → Chunk b cur cur_end before (append_zero_from (sub64 cur_end cur) before (sub64 cur_end cur))
  zero-Chunk before z =
      let fits = v.fits in
      let size = sub64-eq cur_end cur le (omega arith) in
      record {
        bytes = replicate (cur_end - cur) 0;
        joined = rw size (
            concat-append_zero_from (cur_end - cur) (cur_end - cur) before (omega arith)
              (omega arith));
        size = omega (arith, length-replicate {A = ℕ} (cur_end - cur) 0);
        spelled = Spells-replicate (value_of b) (cur_end - cur) cur (λ y. rw z);
      }

  pub slice-Chunk :
      (before : List (List ℕ)) (s : Slice)
      → b.slice ≡ some s
      → b.zero ≡ false
      → length s.bytes ≡ b.length
      → (after : List (List ℕ)) × (add_chunk b cur cur_end before ≡ some after)
        × Chunk b cur cur_end before after
  unfolding add_chunk read_slice
  slice-Chunk before s e z len =
      let fits = v.fits in
      let ends = v.ends in
      let from = sub64-eq cur b.offset lo (omega arith) in
      let to = sub64-eq cur_end b.offset (omega arith) (omega arith) in
      let bytes = take (cur_end - b.offset - (cur - b.offset)) (drop (cur - b.offset) s.bytes) in
      let sz =
        length-take (cur_end - b.offset - (cur - b.offset)) (drop (cur - b.offset) s.bytes) in
      let sd = length-drop (cur - b.offset) s.bytes in
      let ordered : leb (cur - b.offset) (cur_end - b.offset) ≡ true = ground arith in
      let inside : leb (cur_end - b.offset) (length s.bytes) ≡ true = ground arith in
      (
        before ++ bytes ∷ [],
        rw (z, e, from, to, ordered, inside),
        record {
          bytes = bytes;
          joined = concat-append before bytes;
          size = omega arith;
          spelled =
              Spells-map (λ y. get_elem? s.bytes (y - b.offset)) (value_of b) cur cur_end bytes
                (omega arith) (λ y p q. rw (z, e))
                (Spells-take b.offset (cur - b.offset) (cur_end - b.offset - (cur - b.offset)) cur
                  s.bytes (omega arith) (omega arith));
        },
      )

  -- With its first byte in memory, a buffer gives its part of the range.
  pub buffer-Chunk :
      (before : List (List ℕ)) (w : ℕ)
      → value_of b cur ≡ some w
      → (after : List (List ℕ)) × (add_chunk b cur cur_end before ≡ some after)
        × Chunk b cur cur_end before after
  buffer-Chunk before w h = elim (Bool-cases b.zero) [
    | inl z ↦ (
      append_zero_from (sub64 cur_end cur) before (sub64 cur_end cur),
      unfold add_chunk in rw z,
      zero-Chunk before z,
    )
    | inr z ↦ elim (Option-cases b.slice) [
      | inl e ↦ let h' : value_of b cur ≡ none = rw (z, e) in cc
      | inr (s, e) ↦ slice-Chunk before s e z (IsBuffer-slice key b s v e).0
    ]
  ]

  -- Otherwise the buffer has no data, and reading it panics.
  pub no_chunk :
      (before : List (List ℕ))
      → cur < cur_end
      → value_of b cur ≡ none
      → add_chunk b cur cur_end before ≡ none
  unfolding add_chunk read_slice
  no_chunk before lt h = elim (Bool-cases b.zero) [
    | inl z ↦ let h' : value_of b cur ≡ some 0 = rw z in cc
    | inr z ↦ elim (Option-cases b.slice) [
      | inl e ↦
          let fits = v.fits in
          let to = sub64-eq cur_end b.offset (omega arith) (omega arith) in
          let outside : leb (cur_end - b.offset) 0 ≡ false = ground arith in
          rw (z, e, to, outside) (ground arith)
      | inr (s, e) ↦
          let len = (IsBuffer-slice key b s v e).0 in
          let ends = v.ends in
          let (w, at, split) = drop-cons (cur - b.offset) s.bytes (omega arith) in
          let h' : value_of b cur ≡ some w = rw (z, e) at in cc
    ]
  ]
