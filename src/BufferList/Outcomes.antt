-- ===== src/BufferList/Outcomes.antt =====
-- core/buffer_list.go: how `GetData` ends.
use mathlib.Core.List.{append_assoc}
use akavefs.Prelude.{
  ℕ, ◌+◌, ◌≤◌, ◌<◌, ◌≡◌, ◌∙◌, true, false, Option, none, some, List, ◌∷◌, ◌++◌, arith, length,
  length-append,
}
use akavefs.BufferList.{FileBuffer}
use akavefs.BufferList.Read.{ReadData, ReadResult, ok, err, ReadError}
use akavefs.BufferList.Shape.{covering, value_of}
use akavefs.BufferList.Contents.{byte_at, Spells, Spells-append, Spells-map, concat}
use akavefs.BufferList.Chunks.{Chunk}

-- How `GetData` ends. A panic is a buffer in the range without its bytes in memory.
abbrev pub Outcome : ℕ → ℕ → List (ℕ × FileBuffer) → List (List ℕ) → Option ReadResult → Type 0
Outcome cur end es before none =
    (x : ℕ) × (cur ≤ x)
    × (x < end)
    × (b : FileBuffer) × (covering x es ≡ some b)
    × (b.loading ≡ false)
    × (value_of b x ≡ none)
Outcome cur end es before (some (err ReadError.buffer_is_missing)) =
    (x : ℕ) × (cur ≤ x) × (x < end) × (covering x es ≡ none)
Outcome cur end es before (some (err ReadError.buffer_is_loading)) =
    (x : ℕ) × (cur ≤ x)
    × (x < end)
    × (b : FileBuffer) × (covering x es ≡ some b)
    × (b.loading ≡ true)
Outcome cur end es before (some (ok d)) =
    (bytes : List ℕ) × (concat d.chunks ≡ concat before ++ bytes)
    × (cur + length bytes ≡ end)
    × Spells (λ x. byte_at x es) cur bytes

pub covering-head :
    (key x : ℕ) (b : FileBuffer) (es : List (ℕ × FileBuffer))
    → b.offset ≤ x
    → x < key
    → covering x ((key, b) ∷ es) ≡ some b
covering-head key x b es lo hi = ground arith

pub covering-tail :
    (key x : ℕ) (b : FileBuffer) (es : List (ℕ × FileBuffer))
    → key ≤ x
    → covering x ((key, b) ∷ es) ≡ covering x es
covering-tail key x b es h = ground arith

-- A chunk and how the rest ends.
pub Outcome-cons :
    (cur end key : ℕ) (b : FileBuffer) (es : List (ℕ × FileBuffer)) (before after : List (List ℕ))
    (r : Option ReadResult)
    → b.offset ≤ cur
    → cur ≤ key
    → b.loading ≡ false
    → Chunk b cur key before after
    → Outcome key end es after r
    → Outcome cur end ((key, b) ∷ es) before r
Outcome-cons cur end key b es before after none lo le ld c (x, p, q, d, e, f, g) =
    (x, omega arith, q, d, covering-tail key x b es p ∙ e, f, g)
Outcome-cons cur end key b es before after (some (err ReadError.buffer_is_missing)) lo le ld c
      (x, p, q, e) =
    (x, omega arith, q, covering-tail key x b es p ∙ e)
Outcome-cons cur end key b es before after (some (err ReadError.buffer_is_loading)) lo le ld c
      (x, p, q, d, e, f) =
    (x, omega arith, q, d, covering-tail key x b es p ∙ e, f)
Outcome-cons cur end key b es before after (some (ok d)) lo le ld c (bytes, joined, size, spelled) =
    let size' = c.size in
    (
      c.bytes ++ bytes,
      joined ∙ rw c.joined (append_assoc (concat before) c.bytes bytes),
      omega (arith, length-append c.bytes bytes),
      Spells-append (λ x. byte_at x ((key, b) ∷ es)) cur key c.bytes bytes c.size
          (Spells-map (value_of b) (λ x. byte_at x ((key, b) ∷ es)) cur key c.bytes c.size
            (λ z p q. rw (covering-head key z b es (omega arith) q, ld)) c.spelled)
          (Spells-map (λ x. byte_at x es) (λ x. byte_at x ((key, b) ∷ es)) key end bytes size
            (λ z p q. rw (covering-tail key z b es p)) spelled),
    )

-- The last chunk ends the range.
pub Outcome-last :
    (cur end key : ℕ) (b : FileBuffer) (es : List (ℕ × FileBuffer)) (before : List (List ℕ))
    (d : ReadData)
    → b.offset ≤ cur
    → end ≤ key
    → b.loading ≡ false
    → Chunk b cur end before d.chunks
    → Outcome cur end ((key, b) ∷ es) before (some (ok d))
Outcome-last cur end key b es before d lo hi ld c = (
  c.bytes,
  c.joined,
  c.size,
  Spells-map (value_of b) (λ x. byte_at x ((key, b) ∷ es)) cur end c.bytes c.size
      (λ z p q. rw (covering-head key z b es (omega arith) (omega arith), ld)) c.spelled,
)
