-- ===== src/MultiReader/Rest.antt =====
-- core/buffer_reader.go: the bytes that a reader has not read yet.
use akavefs.Prelude.{
  ℕ, zero, suc, ◌+◌, ◌≤◌, ◌<◌, ◌≡◌, ◌∙◌, refl, ap, sym, true, inl, inr, Bool-cases, some, List, [],
  ◌∷◌, ◌++◌, All, leb, if◌then◌else◌, add64, add64-eq, length, take, drop, replicate, word, arith,
}
use akavefs.MultiReader.{BufferOrZero, MultiReader, round_bytes}

abbrev pub bytes_of : BufferOrZero → List ℕ
bytes_of b = if b.zero then replicate b.size 0 else b.bytes

abbrev pub content : List BufferOrZero → List ℕ
content [] = []
content (b ∷ bs) = bytes_of b ++ content bs

-- The size of a buffer is the number of its bytes.
abbrev pub IsBuffer : BufferOrZero → Type 0
IsBuffer b = (length (bytes_of b) ≡ b.size) × (b.size < word)

abbrev pub rest : MultiReader → List ℕ
rest r = drop r.buf_pos (content (drop r.idx r.buffers))

-- The position is in the buffer at the index, or the reader is at the end.
abbrev pub IsWithin : ℕ → List BufferOrZero → Type 0
IsWithin buf_pos [] = buf_pos ≡ 0
IsWithin buf_pos (b ∷ bs) = buf_pos ≤ b.size

pub record IsReader (r : MultiReader) : Type 0 where
  pub buffers : All IsBuffer r.buffers
  pub within : IsWithin r.buf_pos (drop r.idx r.buffers)

pub drop-append : (m : ℕ) (xs ys : List ℕ) → m ≤ length xs → drop m (xs ++ ys) ≡ drop m xs ++ ys
drop-append zero xs ys h = refl
drop-append (suc m) [] ys h = absurd (omega arith)
drop-append (suc m) (x ∷ xs) ys h = drop-append m xs ys (omega arith)

pub drop-all : (xs : List ℕ) → drop (length xs) xs ≡ []
drop-all [] = refl
drop-all (x ∷ xs) = drop-all xs

pub drop-nil : (n : ℕ) → drop {A = ℕ} n [] ≡ []
drop-nil zero = refl
drop-nil (suc n) = refl

pub take-nil : (n : ℕ) → take {A = ℕ} n [] ≡ []
take-nil zero = refl
take-nil (suc n) = refl

suc_add : (m n : ℕ) → suc (m + n) ≡ suc m + n
suc_add m n = omega arith

pub drop-drop : (m n : ℕ) (xs : List ℕ) → drop n (drop m xs) ≡ drop (m + n) xs
drop-drop zero n xs = ap (λ k. drop k xs) (omega arith)
drop-drop (suc m) n [] = drop-nil n ∙ sym (drop-nil (suc m + n))
drop-drop (suc m) n (x ∷ xs) = drop-drop m n xs ∙ ap (λ k. drop k (x ∷ xs)) (suc_add m n)

-- A run of a list, joined with the next run.
pub take-drop : (m n : ℕ) (xs : List ℕ) → take m xs ++ take n (drop m xs) ≡ take (m + n) xs
take-drop zero n xs = ap (λ k. take k xs) (omega arith)
take-drop (suc m) n [] = take-nil n ∙ sym (take-nil (suc m + n))
take-drop (suc m) n (x ∷ xs) =
    ap (λ zs. x ∷ zs) (take-drop m n xs) ∙ ap (λ k. take k (x ∷ xs)) (suc_add m n)

pub take-append : (m : ℕ) (xs ys : List ℕ) → m ≤ length xs → take m (xs ++ ys) ≡ take m xs
take-append zero xs ys h = refl
take-append (suc m) [] ys h = absurd (omega arith)
take-append (suc m) (x ∷ xs) ys h = ap (λ zs. x ∷ zs) (take-append m xs ys (omega arith))

pub take-drop-replicate :
    (l m n a : ℕ) → m + l ≤ n → take l (drop m (replicate n a)) ≡ replicate l a
take-drop-replicate zero zero n a h = refl
take-drop-replicate (suc l) zero zero a h = absurd (omega arith)
take-drop-replicate (suc l) zero (suc n) a h =
    ap (λ zs. a ∷ zs) (take-drop-replicate l 0 n a (omega arith))
take-drop-replicate l (suc m) zero a h = absurd (omega arith)
take-drop-replicate l (suc m) (suc n) a h = take-drop-replicate l m n a (omega arith)

-- `Read` of a buffer: the bytes of a round.
pub take-bytes_of :
    (b : BufferOrZero) (buf_pos l : ℕ)
    → IsBuffer b
    → buf_pos + l ≤ b.size
    → round_bytes b buf_pos l ≡ some (take l (drop buf_pos (bytes_of b)))
take-bytes_of b buf_pos l v h = elim (Bool-cases b.zero) [
  | inl z ↦ rw (z, take-drop-replicate l buf_pos b.size 0 h)
  | inr z ↦
      let len : length (if b.zero then replicate b.size 0 else b.bytes) ≡ b.size = v.0 in
      let len' : length b.bytes ≡ b.size = rw z at len in
      let sum = add64-eq buf_pos l (omega (arith, v.1)) in
      let lo : leb buf_pos (add64 buf_pos l) ≡ true = ground arith in
      let hi : leb (add64 buf_pos l) (length b.bytes) ≡ true = ground arith in rw (z, lo, hi)
]
