-- ===== src/BufferList/Counting.antt =====
-- core/buffer_list.go: the reference counts of the dirty parts.
use akavefs.Prelude.{
  ℕ, zero, suc, ◌+◌, ◌≤◌, ◌<◌, ◌≡◌, ◌∙◌, ◌≢◌, refl, false, inl, inr, Option, none, some, ◌&&◌,
  arith, word, ltb, leb, ◌==◌, if◌then◌else◌, Bool-cases, Option-cases, sub64, sub64-eq,
}
use akavefs.BTree.{BTree}
use akavefs.BufferList.{DirtyPart, Tracker}
use akavefs.BufferList.Track.{
  update, reference_dirty_part, reference_parts, release_dirty_part, release_parts,
}

abbrev pub count_of : Option DirtyPart → ℕ
count_of none = 0
count_of (some p) = p.refcnt

-- 1 for each part from `first` to before `first + n`.
abbrev pub among : ℕ → ℕ → ℕ → ℕ
among n first j = if leb first j && ltb j (first + n) then 1 else 0

module _ ⦃bt : BTree⦄ where
  -- The references of a part.
  abbrev pub refs : Tracker → ℕ → ℕ
  refs t j = count_of (t.dirty_parts j)

  pub reference_dirty_part-refs :
      (t : Tracker) (part j : ℕ)
      → refs t part + 1 < word
      → refs (reference_dirty_part t part) j ≡ refs t j + (if j == part then 1 else 0)
  unfolding reference_dirty_part
  reference_dirty_part-refs t part j h = ground arith

  pub reference_parts-refs :
      (n first : ℕ) (t : Tracker) (j : ℕ)
      → ((k : ℕ) → first ≤ k → refs t k + 1 < word)
      → refs (reference_parts n first t) j ≡ refs t j + among n first j
  unfolding reference_parts
  reference_parts-refs zero first t j h = ground arith
  reference_parts-refs (suc n) first t j h =
      let one = reference_dirty_part-refs t first j (h first (omega arith)) in
      let rest = reference_parts-refs n (first + 1) (reference_dirty_part t first) j (λ k p.
        let same = reference_dirty_part-refs t first k (h first (omega arith)) in
        let b = h k (omega arith) in ground arith) in
      rest ∙ ground (arith, one)

  -- Every part in the table has a reference.
  abbrev pub IsCounted : Tracker → Type 0
  IsCounted t =
      (j : ℕ) (p : DirtyPart) → t.dirty_parts j ≡ some p → (0 < p.refcnt) × (p.refcnt < word)

  release_dirty_part-refs :
      (t : Tracker) (part : ℕ)
      → IsCounted t
      → 0 < refs t part
      → (u : Tracker) × (release_dirty_part t part ≡ some u)
        × IsCounted u
        × ((j : ℕ) → refs u j + (if j == part then 1 else 0) ≡ refs t j)
  unfolding release_dirty_part
  release_dirty_part-refs t part c h = elim (Option-cases (t.dirty_parts part)) [
    | inl e ↦ let h' : 0 < count_of none = rw e at h in absurd (omega arith)
    | inr (p, e) ↦
        let bound = c part p e in
        let some_left : (p.refcnt == 0) ≡ false = ground arith in
        elim (Bool-cases (p.refcnt == 1)) [
          | inl last ↦
              let one : p.refcnt ≡ 1 = ground arith in
              (
                record t {
                  dirty_queue = bt.delete t.dirty_queue p.queue_id;
                  dirty_parts = update t.dirty_parts part none;
                },
                rw (release_dirty_part, e, some_left, last),
                (λ j q r. let known = c j q in ground arith),
                λ j. ground (arith, e, one),
              )
          | inr more ↦
              let two : p.refcnt ≢ 1 = λ r. ground arith in
              let less = sub64-eq p.refcnt 1 (omega arith) (omega arith) in
              (
                record t {
                  dirty_parts =
                      update t.dirty_parts part (some (record p { refcnt = sub64 p.refcnt 1 }));
                },
                rw (release_dirty_part, e, some_left, more),
                (λ j q r. let known = c j q in ground (arith, less)),
                λ j. ground (arith, e, less),
              )
        ]
  ]

  pub release_parts-refs :
      (n first : ℕ) (t : Tracker)
      → IsCounted t
      → ((k : ℕ) → first ≤ k → k < first + n → 0 < refs t k)
      → (u : Tracker) × (release_parts n first t ≡ some u)
        × IsCounted u
        × ((j : ℕ) → refs u j + among n first j ≡ refs t j)
  unfolding release_parts
  release_parts-refs zero first t c h = (t, refl, c, λ j. ground arith)
  release_parts-refs (suc n) first t c h =
      let (u, run, d, one) =
        release_dirty_part-refs t first c (h first (omega arith) (omega arith)) in
      let (w, run', e, rest) =
        release_parts-refs n (first + 1) u d
          (λ k p q. let a = one k in let b = h k (omega arith) (omega arith) in ground arith) in
      (w, rw (release_parts, run) run', e, λ j. let a = one j in let b = rest j in ground arith)
