-- ===== src/ReadAhead/Tracked.antt =====
-- core/file.go: the total and the count that `trackRead` keeps are those of the ring.
use akavefs.Prelude.{
  ℕ, zero, suc, ◌+◌, ◌%◌, ◌≤◌, ◌<◌, ◌≡◌, ◌∙◌, refl, ap, sym, false, inl, inr, Bool-cases, some,
  List, [], ◌∷◌, ◌==◌, if◌then◌else◌, add64, sub64, length, get_elem?, All, word, arith,
}
use native.Mathlib.Nat.{mod-lt}
use akavefs.ReadAhead.{FileHandle, set_elem, pushed, push_size, count_read, track_read}

abbrev pub sum : List ℕ → ℕ
sum [] = 0
sum (x ∷ xs) = x + sum xs

-- How many are not 0.
abbrev pub used : List ℕ → ℕ
used [] = 0
used (x ∷ xs) = (if x == 0 then 0 else 1) + used xs

abbrev pub IsSize : ℕ → Type 0
IsSize x = x < word

-- The ring is empty or its index is in range, and the total and the count are those of its sizes that
-- are not 0.
pub record IsTracked (fh : FileHandle) : Type 0 where
  pub index : (0 < length fh.last_read_sizes) → fh.last_read_idx < length fh.last_read_sizes
  pub sizes : All IsSize fh.last_read_sizes
  pub total : fh.last_read_total ≡ sum fh.last_read_sizes % word
  pub count : fh.last_read_count ≡ used fh.last_read_sizes
  pub few : length fh.last_read_sizes < word

used-le : (xs : List ℕ) → used xs ≤ length xs
used-le [] = omega arith
used-le (x ∷ xs) = let ih = used-le xs in ground arith

-- One size replaced.
record Replaced (xs : List ℕ) (i v : ℕ) : Type 0 where
  old : ℕ
  found : get_elem? xs i ≡ some old
  small : old < word
  room : old ≤ sum xs
  new_sum : sum (set_elem xs i v) + old ≡ sum xs + v
  new_used :
      used (set_elem xs i v) + (if old == 0 then 0 else 1) ≡ used xs + (if v == 0 then 0 else 1)
  new_length : length (set_elem xs i v) ≡ length xs
  new_sizes : All IsSize (set_elem xs i v)

replaced : (xs : List ℕ) (i v : ℕ) → i < length xs → v < word → All IsSize xs → Replaced xs i v
replaced [] i v h w a = absurd (omega arith)
replaced (x ∷ xs) zero v h w a = record {
  old = x;
  found = refl;
  small = a.0;
  room = omega arith;
  new_sum = omega arith;
  new_used = omega arith;
  new_length = refl;
  new_sizes = (w, a.1);
}
replaced (x ∷ xs) (suc i) v h w a =
    let r = replaced xs i v (omega arith) w a.1 in
    let b = r.room in
    let c = r.new_sum in
    let d = r.new_used in
    let e = r.new_length in
    record {
      old = r.old;
      found = r.found;
      small = r.small;
      room = omega arith;
      new_sum = omega arith;
      new_used = omega arith;
      new_length = omega arith;
      new_sizes = (a.0, r.new_sizes);
    }

total_lem :
    (total s s' v old : ℕ)
    → total ≡ s % word
    → s' + old ≡ s + v
    → old ≤ s
    → old < word
    → v < word
    → add64 (if old == 0 then total else sub64 total old) v ≡ s' % word
total_lem total s s' v old e f le a b = elim (Bool-cases (old == 0)) [
  | inl z ↦ let z' : old ≡ 0 = ground arith in rw z (omega arith)
  | inr z ↦ rw z (omega arith)
]

count_lem :
    (n n' old v : ℕ)
    → n' + (if old == 0 then 0 else 1) ≡ n + (if v == 0 then 0 else 1)
    → 0 < v
    → n < word
    → n' < word
    → add64 (if old == 0 then n else sub64 n 1) 1 ≡ n'
count_lem n n' old v e pos a b =
    let v' : (v == 0) ≡ false = ground arith in
    let e' : n' + (if old == 0 then 0 else 1) ≡ n + 1 = rw v' at e in
    elim (Bool-cases (old == 0)) [
      | inl z ↦ let e'' : n' + 0 ≡ n + 1 = rw z at e' in rw z (omega arith)
      | inr z ↦ let e'' : n' + 1 ≡ n + 1 = rw z at e' in rw z (omega arith)
    ]

-- A ring with a size of 0 replaced or added counts it as well, so that the size must not be 0.
push_size-IsTracked :
    (fh : FileHandle)
    → IsTracked fh
    → 0 < fh.seq_read_size
    → fh.seq_read_size < word
    → 0 < length fh.last_read_sizes
    → (next : FileHandle) × (push_size fh ≡ some next)
      × IsTracked next
      × (next.seq_read_size ≡ fh.seq_read_size)
unfolding push_size
push_size-IsTracked fh t pos w ring =
    let r =
      replaced fh.last_read_sizes fh.last_read_idx fh.seq_read_size (t.index ring) w t.sizes in
    let len = r.new_length in
    let few = t.few in
    let n = used-le fh.last_read_sizes in
    let n' = used-le (set_elem fh.last_read_sizes fh.last_read_idx fh.seq_read_size) in
    let same = t.count in
    (
      pushed fh r.old,
      rw (push_size, r.found),
      record {
        index = λ h. let m = mod-lt (fh.last_read_idx + 1) ring in omega arith;
        sizes = r.new_sizes;
        total =
            total_lem fh.last_read_total (sum fh.last_read_sizes) _ fh.seq_read_size r.old t.total
              r.new_sum r.room r.small w;
        count =
            count_lem fh.last_read_count _ r.old fh.seq_read_size
              (r.new_used ∙ ap (λ x. x + (if fh.seq_read_size == 0 then 0 else 1)) (sym same)) pos
              (omega arith) (omega arith);
        few = omega arith;
      },
      refl,
    )

IsTracked-end :
    (fh : FileHandle) (e q : ℕ)
    → IsTracked fh
    → IsTracked (record fh { last_read_end = e; seq_read_size = q })
IsTracked-end fh e q t = record {
  index = t.index;
  sizes = t.sizes;
  total = t.total;
  count = t.count;
  few = t.few;
}

-- A read of at least one byte, after another, keeps the total and the count those of the ring, so that
-- the average of `getReadAhead` is that of the reads that it stands for; there is no panic. The
-- sequence of reads has fewer than 2 ^ 64 bytes.
pub track_read-IsTracked :
    (fh : FileHandle) (offset size : ℕ)
    → IsTracked fh
    → 0 < fh.seq_read_size
    → 0 < size
    → fh.seq_read_size + size < word
    → (next : FileHandle) × (track_read fh offset size ≡ some next)
      × IsTracked next
      × (0 < next.seq_read_size)
unfolding track_read count_read
track_read-IsTracked fh offset size t pos nonempty small =
    let some_bytes : (size == 0) ≡ false = ground arith in
    elim (Bool-cases (offset == fh.last_read_end)) [
      | inl next ↦ (
        record fh {
          last_read_end = add64 offset size;
          seq_read_size = add64 fh.seq_read_size size;
        },
        rw (some_bytes, next),
        IsTracked-end fh (add64 offset size) (add64 fh.seq_read_size size) t,
        omega arith,
      )
      | inr far ↦ elim (Bool-cases (length fh.last_read_sizes == 0)) [
        | inl no_ring ↦ (
          record fh { last_read_end = add64 offset size; seq_read_size = size },
          rw (some_bytes, far, no_ring),
          IsTracked-end fh (add64 offset size) size t,
          nonempty,
        )
        | inr ring ↦
            let (p, run, q, same) = push_size-IsTracked fh t pos (omega arith) (ground arith) in
            (
              record p { last_read_end = add64 offset size; seq_read_size = size },
              rw (some_bytes, far, ring, run),
              IsTracked-end p (add64 offset size) size q,
              nonempty,
            )
      ]
    ]
