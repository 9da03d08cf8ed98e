-- ===== src/BufferList/Spans.antt =====
-- core/buffer_list.go: the parts where a dirty buffer has a byte.
use akavefs.Prelude.{
  ℕ, ◌+◌, ◌-◌, ◌≤◌, ◌<◌, ◌≡◌, ◌∙◌, ap, true, false, Option, none, some, ◌&&◌, arith, word, leb,
  ◌==◌, if◌then◌else◌, sub64, add64,
}
use akavefs.PartNumbering.{IsPartNumbering, part_num_mono}
use akavefs.BufferList.{FileBuffer}
use akavefs.BufferList.Track.{rounds, is_dirty}
use akavefs.BufferList.Counting.{among}

-- 1 for the parts from one to another.
abbrev pub within : Option ℕ → Option ℕ → ℕ → ℕ
within none ep j = 0
within (some sp) none j = 0
within (some sp) (some ep) j = if leb sp j && leb j ep then 1 else 0

-- 1 if a dirty buffer has a byte in the part, else 0.
abbrev pub part_refs : (part_num : ℕ → Option ℕ) → FileBuffer → ℕ → ℕ
part_refs part_num b j =
    if is_dirty b.state
    then within (part_num b.offset) (part_num (b.offset + b.length - 1)) j
    else 0

-- A buffer that is not empty and ends by the limit of the part numbering.
pub record IsPlaced (limit : ℕ) (b : FileBuffer) : Type 0 where
  pub nonempty : 0 < b.length
  pub below : b.offset + b.length < limit

pub among-one : (n first j : ℕ) → first ≤ j → j < first + n → among n first j ≡ 1
among-one n first j lo hi = ground arith

-- The part where two runs of parts meet is in both, if they share one.
pub among-split :
    (sp ep mid next j : ℕ)
    → sp ≤ mid
    → next ≤ ep
    → mid ≤ next
    → next ≤ mid + 1
    → among (rounds sp ep) sp j + (if mid == next then (if j == mid then 1 else 0) else 0)
      ≡ among (rounds sp mid) sp j + among (rounds next ep) next j
among-split sp ep mid next j p q r u = ground arith

-- The parts of the first and the last byte of a buffer.
pub record Spans (part_num : ℕ → Option ℕ) (b : FileBuffer) : Type 0 where
  pub sp : ℕ
  pub ep : ℕ
  pub some_bytes : (b.length == 0) ≡ false
  pub first : part_num b.offset ≡ some sp
  pub last : part_num (b.offset + b.length - 1) ≡ some ep
  pub last64 : part_num (sub64 (add64 b.offset b.length) 1) ≡ some ep
  pub ordered : sp ≤ ep

module _ (part_num : ℕ → Option ℕ) (limit : ℕ) (small : limit < word)
    (num : IsPartNumbering part_num limit) where
  pub spans : (b : FileBuffer) → IsPlaced limit b → Spans part_num b
  spans b v =
      let pos = v.nonempty in
      let below = v.below in
      let last_lem : sub64 (add64 b.offset b.length) 1 ≡ b.offset + b.length - 1 = omega arith in
      let end : b.offset + (b.length - 1) ≡ b.offset + b.length - 1 = omega arith in
      let (sp, e) = num.total b.offset (omega arith) in
      let (ep, f) = num.total (b.offset + b.length - 1) (omega arith) in
      let g = ap part_num end ∙ f in
      record {
        sp = sp;
        ep = ep;
        some_bytes = ground arith;
        first = e;
        last = f;
        last64 = ap part_num last_lem ∙ f;
        ordered = part_num_mono part_num limit num (b.length - 1) b.offset sp ep (omega arith) e g;
      }

-- The references of a buffer, by the parts of its first and last byte.
pub part_refs-dirty :
    (part_num : ℕ → Option ℕ) (b : FileBuffer) (sp ep j : ℕ)
    → is_dirty b.state ≡ true
    → part_num b.offset ≡ some sp
    → part_num (b.offset + b.length - 1) ≡ some ep
    → sp ≤ ep
    → part_refs part_num b j ≡ among (rounds sp ep) sp j
part_refs-dirty part_num b sp ep j d e f le = rw (d, e, f) (ground arith)

pub part_refs-other :
    (part_num : ℕ → Option ℕ) (b : FileBuffer) (j : ℕ)
    → is_dirty b.state ≡ false
    → part_refs part_num b j ≡ 0
part_refs-other part_num b j d = rw d
