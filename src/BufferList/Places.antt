-- ===== src/BufferList/Places.antt =====
-- core/buffer_list.go: the buffers before and after a place in the order of the map, and what a buffer
-- list has at an offset.
use akavefs.Prelude.{
  ℕ, ◌+◌, ◌≤◌, ◌<◌, ◌≡◌, refl, ap, Bool, true, false, inl, inr, Option, none, some, List, [], ◌∷◌,
  ◌++◌, length, arith, Bool-cases, ltb, leb, ◌==◌, if◌then◌else◌,
}
use akavefs.BTree.{from, insert, remove}
use akavefs.BufferList.{BufferState, FileBuffer}
use akavefs.BufferList.Shape.{IsBuffer, Chain, covering, value_of}
use akavefs.BufferList.Spans.{part_refs}

-- Buffers in order from one offset to another, with room between them.
abbrev pub ChainTo : ℕ → List (ℕ × FileBuffer) → ℕ → Type 0
ChainTo lo [] hi = lo ≤ hi
ChainTo lo ((key, b) ∷ es) hi = IsBuffer key b × (lo ≤ b.offset) × ChainTo key es hi

pub ChainTo-Chain : (lo hi : ℕ) (es : List (ℕ × FileBuffer)) → ChainTo lo es hi → Chain lo es
ChainTo-Chain lo hi [] c = tt
ChainTo-Chain lo hi ((key, b) ∷ es) c = (c.0, c.1, ChainTo-Chain key hi es (c.2))

pub ChainTo-le : (lo hi : ℕ) (es : List (ℕ × FileBuffer)) → ChainTo lo es hi → lo ≤ hi
ChainTo-le lo hi [] c = c
ChainTo-le lo hi ((key, b) ∷ es) c =
    let rest = ChainTo-le key hi es (c.2) in
    let v = c.0 in let e = v.ends in omega (arith, rest, e, c.1)

pub ChainTo-append :
    (lo mid hi : ℕ) (pre bs : List (ℕ × FileBuffer))
    → ChainTo lo pre mid
    → ChainTo mid bs hi
    → ChainTo lo (pre ++ bs) hi
ChainTo-append lo mid hi [] [] c d = omega arith
ChainTo-append lo mid hi [] ((key, b) ∷ bs) c d = (d.0, omega (arith, c, d.1), d.2)
ChainTo-append lo mid hi ((key, b) ∷ pre) bs c d =
    (c.0, c.1, ChainTo-append key mid hi pre bs (c.2) d)

-- A later end, or an earlier start.
pub ChainTo-wider :
    (lo lo' hi hi' : ℕ) (es : List (ℕ × FileBuffer))
    → lo' ≤ lo
    → hi ≤ hi'
    → ChainTo lo es hi
    → ChainTo lo' es hi'
ChainTo-wider lo lo' hi hi' [] h k c = omega arith
ChainTo-wider lo lo' hi hi' ((key, b) ∷ es) h k c =
    (c.0, omega (arith, c.1, h), ChainTo-wider key key hi hi' es (omega arith) k (c.2))

-- The buffers take at least a byte each.
pub ChainTo-length :
    (lo hi : ℕ) (es : List (ℕ × FileBuffer)) → ChainTo lo es hi → lo + length es ≤ hi
ChainTo-length lo hi [] c = omega arith
ChainTo-length lo hi ((key, b) ∷ es) c =
    let rest = ChainTo-length key hi es (c.2) in
    let v = c.0 in let e = v.ends in let p = v.nonempty in omega (arith, rest, e, p, c.1)

pub insert-append :
    (lo mid k : ℕ) (v : FileBuffer) (pre bs : List (ℕ × FileBuffer))
    → ChainTo lo pre mid
    → mid < k
    → insert k v (pre ++ bs) ≡ pre ++ insert k v bs
insert-append lo mid k v [] bs c lt = refl
insert-append lo mid k v ((j, w) ∷ pre) bs c lt =
    let le = ChainTo-le j mid pre (c.2) in
    let below : ltb k j ≡ false = ground (arith, le, lt) in
    let other : (j == k) ≡ false = ground (arith, le, lt) in
    let rest = insert-append j mid k v pre bs (c.2) lt in
    rw (below, other) (ap (λ es. (j, w) ∷ es) rest)

pub remove-append :
    (lo mid k : ℕ) (pre bs : List (ℕ × FileBuffer))
    → ChainTo lo pre mid
    → mid < k
    → remove k (pre ++ bs) ≡ pre ++ remove k bs
remove-append lo mid k [] bs c lt = refl
remove-append lo mid k ((j, w) ∷ pre) bs c lt =
    let le = ChainTo-le j mid pre (c.2) in
    let other : (j == k) ≡ false = ground (arith, le, lt) in
    let rest = remove-append j mid k pre bs (c.2) lt in rw other (ap (λ es. (j, w) ∷ es) rest)

pub from-append :
    (lo mid p : ℕ) (pre bs : List (ℕ × FileBuffer))
    → ChainTo lo pre mid
    → mid < p
    → from p (pre ++ bs) ≡ from p bs
from-append lo mid p [] bs c lt = refl
from-append lo mid p ((j, w) ∷ pre) bs c lt =
    let le = ChainTo-le j mid pre (c.2) in
    let below : leb p j ≡ false = ground (arith, le, lt) in
    rw below (from-append j mid p pre bs (c.2) lt)

-- Every entry of a list that begins at the pivot is visited from it.
pub from-all :
    (lo hi p : ℕ) (es : List (ℕ × FileBuffer)) → ChainTo lo es hi → p ≤ lo + 1 → from p es ≡ es
from-all lo hi p [] c le = refl
from-all lo hi p ((j, w) ∷ es) c le =
    let v = c.0 in
    let e = v.ends in
    let q = v.nonempty in let here : leb p j ≡ true = ground (arith, e, q, c.1, le) in rw here refl

-- The entries below a key and those from it on.
pub record Parted (lo hi p : ℕ) (es : List (ℕ × FileBuffer)) : Type 0 where
  pub before : List (ℕ × FileBuffer)
  pub later : List (ℕ × FileBuffer)
  pub visited : from p es ≡ later
  pub shape : es ≡ before ++ later
  pub until : ℕ
  pub below : until < p
  pub first : ChainTo lo before until
  pub second : ChainTo until later hi

pub parted :
    (lo hi p : ℕ) (es : List (ℕ × FileBuffer)) → ChainTo lo es hi → lo < p → Parted lo hi p es
parted lo hi p [] c lt = record {
  before = [];
  later = [];
  visited = refl;
  shape = refl;
  until = lo;
  below = lt;
  first = omega arith;
  second = c;
}
parted lo hi p ((j, w) ∷ es) c lt = elim (Bool-cases (leb p j)) [
  | inl here ↦ record {
    before = [];
    later = (j, w) ∷ es;
    visited = rw here refl;
    shape = refl;
    until = lo;
    below = lt;
    first = omega arith;
    second = c;
  }
  | inr later ↦
      let q = parted j hi p es (c.2) (ground (arith, later)) in
      record {
        before = (j, w) ∷ q.before;
        later = q.later;
        visited = rw later q.visited;
        shape = ap (λ k. (j, w) ∷ k) q.shape;
        until = q.until;
        below = q.below;
        first = (c.0, c.1, q.first);
        second = q.second;
      }
]

-- What there is at an offset: a byte if it is in memory, and the state of its buffer.
pub record Cell : Type 0 where
  pub byte : Option ℕ
  pub cell_state : BufferState
  pub cell_loading : Bool
  pub cell_on_disk : Bool

abbrev pub cell_of : ℕ → FileBuffer → Cell
cell_of x b = record {
  byte = value_of b x;
  cell_state = b.state;
  cell_loading = b.loading;
  cell_on_disk = b.on_disk;
}

abbrev pub cell_from : ℕ → Option FileBuffer → Option Cell
cell_from x none = none
cell_from x (some b) = some (cell_of x b)

abbrev pub cell_at : List (ℕ × FileBuffer) → ℕ → Option Cell
cell_at es x = cell_from x (covering x es)

pub covering-none :
    (lo hi x : ℕ) (es : List (ℕ × FileBuffer)) → ChainTo lo es hi → x < lo → covering x es ≡ none
covering-none lo hi x [] c lt = refl
covering-none lo hi x ((key, b) ∷ es) c lt =
    let v = c.0 in
    let e = v.ends in
    let before : ltb x key ≡ true = ground (arith, e, c.1, lt) in
    let apart : leb b.offset x ≡ false = ground (arith, c.1, lt) in rw (before, apart) refl

pub covering-append :
    (lo mid hi x : ℕ) (pre bs : List (ℕ × FileBuffer))
    → ChainTo lo pre mid
    → ChainTo mid bs hi
    → covering x (pre ++ bs) ≡ (if ltb x mid then covering x pre else covering x bs)
covering-append lo mid hi x [] bs c d = elim (Bool-cases (ltb x mid)) [
  | inl before ↦ rw before (covering-none mid hi x bs d (ground (arith, before)))
  | inr from_there ↦ rw from_there refl
]
covering-append lo mid hi x ((j, w) ∷ pre) bs c d =
    let le = ChainTo-le j mid pre (c.2) in
    let rest = covering-append j mid hi x pre bs (c.2) d in
    elim (Bool-cases (ltb x j)) [
      | inl here ↦
          let inside : ltb x mid ≡ true = ground (arith, here, le) in rw (here, inside) refl
      | inr later ↦ rw later rest
    ]

-- The references of a part by all the buffers.
unfoldable pub refs_sum : (ℕ → Option ℕ) → List (ℕ × FileBuffer) → ℕ → ℕ
refs_sum part_num [] j = 0
refs_sum part_num ((key, b) ∷ es) j = part_refs part_num b j + refs_sum part_num es j

pub refs_sum-append :
    (part_num : ℕ → Option ℕ) (pre bs : List (ℕ × FileBuffer)) (j : ℕ)
    → refs_sum part_num (pre ++ bs) j ≡ refs_sum part_num pre j + refs_sum part_num bs j
unfolding refs_sum
refs_sum-append part_num [] bs j = omega arith
refs_sum-append part_num ((key, b) ∷ pre) bs j =
    let rest = refs_sum-append part_num pre bs j in omega arith

part_refs-le : (part_num : ℕ → Option ℕ) (b : FileBuffer) (j : ℕ) → part_refs part_num b j ≤ 1
part_refs-le part_num b j = ground arith

pub refs_sum-le :
    (part_num : ℕ → Option ℕ) (es : List (ℕ × FileBuffer)) (j : ℕ)
    → refs_sum part_num es j ≤ length es
unfolding refs_sum
refs_sum-le part_num [] j = omega arith
refs_sum-le part_num ((key, b) ∷ es) j =
    let rest = refs_sum-le part_num es j in let one = part_refs-le part_num b j in omega arith
