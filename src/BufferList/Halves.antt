-- ===== src/BufferList/Halves.antt =====
-- core/buffer_list.go: the two halves of a buffer that `split` makes: their data.
use akavefs.Prelude.{
  ℕ, zero, suc, ◌+◌, ◌-◌, ◌≤◌, ◌<◌, ◌≡◌, ◌∙◌, refl, ap, true, inl, inr, Option, none, some, List,
  [], ◌∷◌, length, take, drop, get_elem?, length-take, length-drop, arith, Option-cases, leb, add64,
  sub64,
}
use akavefs.BTree.{BTree}
use akavefs.BufferList.{Slice, FileBuffer, BufferListHelpers}
use akavefs.BufferList.Edit.{slice_to, slice_from, split_data}
use akavefs.BufferList.Shape.{IsBuffer, value_of}

get_elem?-take : (n i : ℕ) (xs : List ℕ) → i < n → get_elem? (take n xs) i ≡ get_elem? xs i
get_elem?-take zero i xs lt = absurd (omega arith)
get_elem?-take (suc n) i [] lt = refl
get_elem?-take (suc n) zero (x ∷ xs) lt = refl
get_elem?-take (suc n) (suc i) (x ∷ xs) lt = get_elem?-take n i xs (omega arith)

get_elem?-drop : (n i : ℕ) (xs : List ℕ) → get_elem? (drop n xs) i ≡ get_elem? xs (n + i)
get_elem?-drop zero i xs = let e : 0 + i ≡ i = omega arith in rw e refl
get_elem?-drop (suc n) i [] = refl
get_elem?-drop (suc n) i (x ∷ xs) =
    let e : suc n + i ≡ suc (n + i) = omega arith in rw e (get_elem?-drop n i xs)

-- The left half, before it is queued again, and the right one, whatever its number.
abbrev pub left_half : FileBuffer → ℕ → Option Slice → FileBuffer
left_half b off bytes = record b { length = sub64 off b.offset; slice = bytes }

abbrev pub right_half : FileBuffer → ℕ → Option Slice → ℕ → FileBuffer
right_half b off bytes id = record b {
  offset = off;
  length = sub64 (add64 b.offset b.length) off;
  slice = bytes;
  dirty_id = id;
}

pub record Halves ⦃bt : BTree⦄ (h : BufferListHelpers) (b : FileBuffer) (off key : ℕ) : Type 0 where
  pub left_data : Option Slice
  pub right_data : Option Slice
  pub cut : split_data h b.slice (sub64 off b.offset) ≡ some (left_data, right_data)
  pub left_buffer : (q : ℕ) → IsBuffer off (record (left_half b off left_data) { queue_id = q })
  pub right_buffer : (id : ℕ) → IsBuffer key (right_half b off right_data id)
  pub left_value : (x : ℕ) → x < off → value_of (left_half b off left_data) x ≡ value_of b x
  pub right_value :
      (x id : ℕ) → off ≤ x → value_of (right_half b off right_data id) x ≡ value_of b x

module _ ⦃bt : BTree⦄ (h : BufferListHelpers) (b : FileBuffer) (off key : ℕ) (v : IsBuffer key b)
    (lo : b.offset < off) (hi : off < key) where
  pub halves : Halves h b off key
  unfolding split_data slice_to slice_from
  halves =
      let e = v.ends in
      let fits = v.fits in
      let n : sub64 off b.offset ≡ off - b.offset = omega arith in
      let m : sub64 (add64 b.offset b.length) off ≡ key - off = omega arith in
      let d = v.has_data in
      let end : off + (key - off) ≡ key = omega arith in
      let mid : b.offset + (off - b.offset) ≡ off = omega arith in
      elim (Option-cases b.slice) [
        | inl f ↦ elim (Option-cases b.ptr) [
          | inr (p, g) ↦ absurd (rw (f, g) at d)
          | inl g ↦ record {
            left_data = none;
            right_data = none;
            cut = rw (f, split_data) refl;
            left_buffer = λ q. record {
              nonempty = omega (arith, n, lo);
              ends = omega (arith, n, mid);
              fits = omega arith;
              has_data = rw g tt;
            };
            right_buffer = λ id. record {
              nonempty = omega (arith, m, hi);
              ends = omega (arith, m, end);
              fits = fits;
              has_data = rw g tt;
            };
            left_value = λ x lt. rw f refl;
            right_value = λ x id le. rw f refl;
          }
        ]
        | inr (s, f) ↦ elim (Option-cases b.ptr) [
          | inl g ↦ absurd (rw (f, g) at d)
          | inr (p, g) ↦
              let (size, capacity, not_zero, not_loading, machine) = rw (f, g) at d in
              let inside : leb (off - b.offset) (length s.bytes) ≡ true = ground arith in
              let took = length-take (off - b.offset) s.bytes in
              let dropped = length-drop (off - b.offset) s.bytes in
              record {
                left_data = some (record s { bytes = take (off - b.offset) s.bytes });
                right_data = some (record {
                  bytes = drop (off - b.offset) s.bytes;
                  cap = sub64 s.cap (off - b.offset);
                });
                cut = rw (f, n, split_data, slice_to, slice_from, inside) refl;
                left_buffer = λ q. record {
                  nonempty = omega (arith, n, lo);
                  ends = omega (arith, n, mid);
                  fits = omega arith;
                  has_data = rw g (
                    omega (arith, n, took, size),
                    omega (arith, n),
                    not_zero,
                    not_loading,
                    machine,
                  );
                };
                right_buffer = λ id. record {
                  nonempty = omega (arith, m, hi);
                  ends = omega (arith, m, end);
                  fits = fits;
                  has_data = rw g (
                    omega (arith, m, dropped, size),
                    omega (arith, m),
                    not_zero,
                    not_loading,
                    omega arith,
                  );
                };
                left_value = λ x lt.
                    rw (f, not_zero)
                      (get_elem?-take (off - b.offset) (x - b.offset) s.bytes (omega arith));
                right_value = λ x id le.
                    let at : off - b.offset + (x - off) ≡ x - b.offset = omega arith in
                    rw (f, not_zero)
                      (get_elem?-drop (off - b.offset) (x - off) s.bytes
                        ∙ ap (get_elem? s.bytes) at);
              }
        ]
      ]
