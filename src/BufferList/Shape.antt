-- ===== src/BufferList/Shape.antt =====
-- core/buffer_list.go: well-formed buffer lists, and the buffer that covers an offset.
use akavefs.Prelude.{
  ℕ, ◌+◌, ◌-◌, ◌≤◌, ◌<◌, ◌≡◌, refl, false, Option, none, some, List, [], ◌∷◌, arith, word, ltb, leb,
  if◌then◌else◌, length, get_elem?, Bool-cases, inl, inr,
}
use akavefs.BTree.{BTree, from}
use akavefs.BufferList.{Slice, FileBuffer, BufferList}
use akavefs.BufferList.Edit.{buf_end, slice_or_nil}

-- A buffer has data exactly if it has a pointer; then it has a byte for each offset, and it is
-- neither zero nor loading.
abbrev pub HasData : FileBuffer → Option Slice → Option ℕ → Type 0
HasData b none none = Unit {0}
HasData b none (some p) = ⊥
HasData b (some s) none = ⊥
HasData b (some s) (some p) =
    (length s.bytes ≡ b.length)
    × (b.length ≤ s.cap)
    × (b.zero ≡ false)
    × (b.loading ≡ false)
    × (s.cap < word)

-- A buffer under the key of its end.
pub record IsBuffer (key : ℕ) (b : FileBuffer) : Type 0 where
  pub nonempty : 0 < b.length
  pub ends : b.offset + b.length ≡ key
  pub fits : key < word
  pub has_data : HasData b b.slice b.ptr

-- The entries in the order of their offsets, none overlapping another, from `lo` on.
abbrev pub Chain : ℕ → List (ℕ × FileBuffer) → Type 0
Chain lo [] = Unit {0}
Chain lo ((key, b) ∷ es) = IsBuffer key b × (lo ≤ b.offset) × Chain key es

abbrev pub IsWellFormed : ⦃bt : BTree⦄ → BufferList → Type 0
IsWellFormed ⦃bt⦄ l = Chain 0 (bt.ascend l.at 0)

pub buf_end-eq : (key : ℕ) (b : FileBuffer) → IsBuffer key b → buf_end b ≡ key
buf_end-eq key b v = omega arith

-- The buffer at an offset.
abbrev pub covering : ℕ → List (ℕ × FileBuffer) → Option FileBuffer
covering x [] = none
covering x ((key, b) ∷ es) =
    if ltb x key then if leb b.offset x then some b else none else covering x es

-- The byte of a buffer at an offset that it covers, if it is in memory.
abbrev pub value_of : FileBuffer → ℕ → Option ℕ
value_of b x = if b.zero then some 0 else get_elem? (slice_or_nil b.slice).bytes (x - b.offset)

pub Chain-mono : (lo lo' : ℕ) (es : List (ℕ × FileBuffer)) → lo ≤ lo' → Chain lo' es → Chain lo es
Chain-mono lo lo' [] le c = tt
Chain-mono lo lo' ((key, b) ∷ es) le c = (c.0, omega arith, c.2)

pub covering-from :
    (x pivot : ℕ) (es : List (ℕ × FileBuffer))
    → pivot ≤ x + 1
    → covering x (from pivot es) ≡ covering x es
covering-from x pivot [] h = refl
covering-from x pivot ((key, b) ∷ es) h = ground (arith, covering-from x pivot es)

pub Chain-from :
    (lo pivot : ℕ) (es : List (ℕ × FileBuffer)) → Chain lo es → Chain lo (from pivot es)
Chain-from lo pivot [] c = tt
Chain-from lo pivot ((key, b) ∷ es) c = elim (Bool-cases (leb pivot key)) [
  | inl stay ↦ rw (stay, Chain) c
  | inr drop ↦
      let v = c.0 in
      rw (drop, Chain) (Chain-from lo pivot es (Chain-mono lo key es (omega arith) c.2))
]

-- Nothing is covered before the first buffer.
pub covering-before :
    (x lo : ℕ) (es : List (ℕ × FileBuffer)) → Chain lo es → x < lo → covering x es ≡ none
covering-before x lo [] c h = refl
covering-before x lo ((key, b) ∷ es) c h = let v = c.0 in ground (arith, v.nonempty, v.ends)

HasData-slice :
    (b : FileBuffer) (sl : Option Slice) (p : Option ℕ) (s : Slice)
    → HasData b sl p
    → sl ≡ some s
    → (length s.bytes ≡ b.length) × (b.zero ≡ false) × (b.loading ≡ false)
HasData-slice b none p s h e = cc
HasData-slice b (some t) none s h e = absurd h
HasData-slice b (some t) (some p) s h e = ground arith

-- What a buffer with data is like.
pub IsBuffer-slice :
    (key : ℕ) (b : FileBuffer) (s : Slice)
    → IsBuffer key b
    → b.slice ≡ some s
    → (length s.bytes ≡ b.length) × (b.zero ≡ false) × (b.loading ≡ false)
IsBuffer-slice key b s v e = HasData-slice b b.slice b.ptr s v.has_data e
