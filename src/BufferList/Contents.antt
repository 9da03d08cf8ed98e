-- ===== src/BufferList/Contents.antt =====
-- core/buffer_list.go: the bytes that a buffer list holds, and the chunks that `GetData` makes.
use mathlib.Core.List.{append-nil, append_assoc}
use native.Mathlib.Nat.{zero-add, suc-add}
use akavefs.Prelude.{
  ℕ, zero, suc, ◌+◌, ◌-◌, ◌≤◌, ◌<◌, ◌≡◌, ◌∙◌, refl, ap, sym, inl, inr, Option, none, some, List, [],
  ◌∷◌, ◌++◌, arith, word, ltb, if◌then◌else◌, length, get_elem?, take, drop, replicate, Bool-cases,
  ltb→lt, ltb→le, sub64-eq,
}
use akavefs.BufferList.{FileBuffer}
use akavefs.BufferList.Read.{append_zero_from, zero_buf_len}
use akavefs.BufferList.Shape.{covering, value_of}

-- The byte at an offset, if it is in memory and not being loaded.
abbrev pub byte_of : Option FileBuffer → ℕ → Option ℕ
byte_of none x = none
byte_of (some b) x = if b.loading then none else value_of b x

abbrev pub byte_at : ℕ → List (ℕ × FileBuffer) → Option ℕ
byte_at x es = byte_of (covering x es) x

-- The values of `f` from `x` on.
abbrev pub Spells : (ℕ → Option ℕ) → ℕ → List ℕ → Type 0
Spells f x [] = Unit {0}
Spells f x (v ∷ vs) = (f x ≡ some v) × Spells f (suc x) vs

pub Spells-append :
    (f : ℕ → Option ℕ) (x y : ℕ) (vs ws : List ℕ)
    → x + length vs ≡ y
    → Spells f x vs
    → Spells f y ws
    → Spells f x (vs ++ ws)
Spells-append f x y [] ws e s t = let e' : x ≡ y = omega arith in rw e' t
Spells-append f x y (v ∷ vs) ws e s t = (s.0, Spells-append f (suc x) y vs ws (omega arith) s.1 t)

-- Where two functions agree, so do their values.
pub Spells-map :
    (f g : ℕ → Option ℕ) (x y : ℕ) (vs : List ℕ)
    → x + length vs ≡ y
    → ((z : ℕ) → x ≤ z → z < y → f z ≡ g z)
    → Spells f x vs
    → Spells g x vs
Spells-map f g x y [] e h s = tt
Spells-map f g x y (v ∷ vs) e h s = (
  sym (h x (omega arith) (omega arith)) ∙ s.0,
  Spells-map f g (suc x) y vs (omega arith) (λ z p q. h z (omega arith) q) s.1,
)

pub drop-cons :
    (k : ℕ) (xs : List ℕ)
    → k < length xs
    → (v : ℕ) × (get_elem? xs k ≡ some v) × (drop k xs ≡ v ∷ drop (suc k) xs)
drop-cons k [] h = absurd (omega arith)
drop-cons zero (x ∷ xs) h = (x, refl, refl)
drop-cons (suc k) (x ∷ xs) h = drop-cons k xs (omega arith)

-- A part of an array whose first element stands for the offset `base`.
pub Spells-take :
    (base k n x : ℕ) (xs : List ℕ)
    → x ≡ base + k
    → k + n ≤ length xs
    → Spells (λ y. get_elem? xs (y - base)) x (take n (drop k xs))
Spells-take base k zero x xs e h = tt
Spells-take base k (suc n) x xs e h =
    let (v, here, split) = drop-cons k xs (omega arith) in
    let at : x - base ≡ k = omega arith in
    rw split (rw at here, Spells-take base (suc k) n (suc x) xs (omega arith) (omega arith))

pub Spells-replicate :
    (f : ℕ → Option ℕ) (n x : ℕ) → ((y : ℕ) → f y ≡ some 0) → Spells f x (replicate n 0)
Spells-replicate f zero x h = tt
Spells-replicate f (suc n) x h = (h x, Spells-replicate f n (suc x) h)

abbrev pub concat : List (List ℕ) → List ℕ
concat [] = []
concat (c ∷ cs) = c ++ concat cs

pub concat-append : (cs : List (List ℕ)) (c : List ℕ) → concat (cs ++ c ∷ []) ≡ concat cs ++ c
concat-append [] c = append-nil c
concat-append (d ∷ cs) c = ap (◌++◌ d) (concat-append cs c) ∙ sym (append_assoc d (concat cs) c)

replicate-add : (z m n : ℕ) → replicate m z ++ replicate n z ≡ replicate (m + n) z
replicate-add z zero n = rw zero-add
replicate-add z (suc m) n = rw suc-add (ap (◌∷◌ z) (replicate-add z m n))

zero_buf_len-pos : 0 < zero_buf_len
unfolding zero_buf_len
zero_buf_len-pos = omega arith

-- The zero chunks are zeroes as many as were asked for.
pub concat-append_zero_from :
    (fuel n : ℕ) (cs : List (List ℕ))
    → n ≤ fuel
    → n < word
    → concat (append_zero_from fuel cs n) ≡ concat cs ++ replicate n 0
unfolding append_zero_from
concat-append_zero_from zero n cs h k = let e : n ≡ 0 = omega arith in rw (e, append-nil)
concat-append_zero_from (suc fuel) n cs h k = elim (Bool-cases (ltb zero_buf_len n)) [
  | inl more ↦
      let big = ltb→lt zero_buf_len n more in
      let pos = zero_buf_len-pos in
      let chunk : List ℕ = replicate zero_buf_len 0 in
      let size : zero_buf_len + (n - zero_buf_len) ≡ n = omega arith in
      let ih =
        concat-append_zero_from fuel (n - zero_buf_len) (cs ++ chunk ∷ []) (omega arith)
          (omega arith) in
      rw
        (
          append_zero_from,
          more,
          sub64-eq n zero_buf_len (omega arith) k,
          ih,
          concat-append cs chunk,
        )
        (append_assoc (concat cs) chunk (replicate (n - zero_buf_len) 0)
          ∙ ap (◌++◌ (concat cs)) (
              replicate-add 0 zero_buf_len (n - zero_buf_len)
              ∙ ap (λ m. replicate {A = ℕ} m 0) size))
  | inr last ↦ elim (Bool-cases (ltb 0 n)) [
    | inl some_left ↦ rw (append_zero_from, last, some_left) (concat-append cs (replicate n 0))
    | inr done ↦
        let e : n ≡ 0 = omega (arith, ltb→le 0 n done) in
        rw (append_zero_from, last, done, e, append-nil)
  ]
]
