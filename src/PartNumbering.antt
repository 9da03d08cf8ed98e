-- ===== src/PartNumbering.antt =====
-- core/buffer_list.go, core/handles.go: what a buffer list relies on in its helper `PartNum`, the
-- interface between the buffer list and the table of part sizes (core/file.go).
use akavefs.Prelude.{ℕ, zero, suc, ◌+◌, ◌≤◌, ◌<◌, ◌≡◌, some_unique, Option, some, arith}

-- Below the limit every byte has a part, and the next byte is in the same part or the next one.
pub record IsPartNumbering (part_num : ℕ → Option ℕ) (limit : ℕ) : Type 0 where
  pub total : (x : ℕ) → x < limit → (p : ℕ) × (part_num x ≡ some p)
  pub next :
      (x p q : ℕ)
      → x + 1 < limit
      → part_num x ≡ some p
      → part_num (x + 1) ≡ some q
      → (p ≤ q) × (q ≤ p + 1)

module _ (part_num : ℕ → Option ℕ) (limit : ℕ) (num : IsPartNumbering part_num limit) where
  -- Later bytes are in later parts.
  pub part_num_mono :
      (d x p q : ℕ) → x + d < limit → part_num x ≡ some p → part_num (x + d) ≡ some q → p ≤ q
  part_num_mono zero x p q h e f =
      let same : x + 0 ≡ x = omega arith in
      let f' : part_num x ≡ some q = rw same at f in
      let eq : p ≡ q = some_unique e f' in omega arith
  part_num_mono (suc d) x p q h e f =
      let (r, g) = num.total (x + d) (omega arith) in
      let before = part_num_mono d x p r (omega arith) e g in
      let end : x + suc d ≡ x + d + 1 = omega arith in
      let step = num.next (x + d) r q (omega arith) g (rw end at f) in omega arith
