-- ===== src/BufferList/Sound.antt =====
-- core/buffer_list.go: the invariant of a buffer list: its buffers are in order, end below the limit, and
-- the dirty parts are counted by the dirty buffers; and `delete` of a buffer.
use akavefs.Prelude.{
  ℕ, ◌+◌, ◌<◌, ◌≡◌, ◌∙◌, refl, ap, true, inl, inr, Option, some, List, [], ◌∷◌, ◌++◌, arith, word,
  Option-cases, ◌==◌,
}
use akavefs.BTree.{BTree, remove}
use akavefs.PartNumbering.{IsPartNumbering}
use akavefs.BufferList.{FileBuffer, BufferListHelpers, Tracker, BufferList}
use akavefs.BufferList.Track.{unqueue}
use akavefs.BufferList.Edit.{buf_end, release_ptr, free_data, delete_buf}
use akavefs.BufferList.Shape.{IsBuffer, HasData, buf_end-eq}
use akavefs.BufferList.Counting.{refs, IsCounted}
use akavefs.BufferList.Spans.{IsPlaced}
use akavefs.BufferList.Parts.{unqueue-refs}
use akavefs.BufferList.Places.{
  ChainTo, ChainTo-le, ChainTo-append, ChainTo-wider, ChainTo-length, remove-append, refs_sum,
  refs_sum-append, refs_sum-le,
}

abbrev pub entries : ⦃bt : BTree⦄ → BufferList → List (ℕ × FileBuffer)
entries ⦃bt⦄ l = bt.ascend l.at 0

-- The tracker counts the dirty buffers of a list of entries.
pub record IsTracked ⦃bt : BTree⦄ (part_num : ℕ → Option ℕ) (t : Tracker)
    (es : List (ℕ × FileBuffer)) : Type 0 where
  pub counted : IsCounted t
  pub counts : (j : ℕ) → refs t j ≡ refs_sum part_num es j

-- The entries of a list with a tracker, up to a place below the limit.
pub record Holds ⦃bt : BTree⦄ (part_num : ℕ → Option ℕ) (limit : ℕ) (l : BufferList)
    (es : List (ℕ × FileBuffer)) : Type 0 where
  pub shape : entries l ≡ es
  pub top : ℕ
  pub below : top < limit
  pub chain : ChainTo 0 es top
  pub tracked : IsTracked part_num l.track es

-- A buffer of the list, with those before and after it.
pub record Focus (pre : List (ℕ × FileBuffer)) (key : ℕ) (b : FileBuffer)
    (es : List (ℕ × FileBuffer)) (top : ℕ) : Type 0 where
  pub before : ChainTo 0 pre b.offset
  pub here : IsBuffer key b
  pub after : ChainTo key es top

pub ChainTo-Focus :
    (lo top key : ℕ) (pre : List (ℕ × FileBuffer)) (b : FileBuffer) (es : List (ℕ × FileBuffer))
    → ChainTo lo (pre ++ (key, b) ∷ es) top
    → ChainTo lo pre b.offset × IsBuffer key b × ChainTo key es top
ChainTo-Focus lo top key [] b es c = (c.1, c.0, c.2)
ChainTo-Focus lo top key ((j, w) ∷ pre) b es c =
    let rest = ChainTo-Focus j top key pre b es (c.2) in ((c.0, c.1, rest.0), rest.1, rest.2)

module _ ⦃bt : BTree⦄ (h : BufferListHelpers) (limit : ℕ) (small : limit < word)
    (num : IsPartNumbering h.part_num limit) where
  pub Holds-room :
      (l : BufferList) (es : List (ℕ × FileBuffer))
      → Holds h.part_num limit l es
      → (j : ℕ) → refs l.track j + 1 < word
  Holds-room l es s j =
      let n = ChainTo-length 0 s.top es s.chain in
      let m = refs_sum-le h.part_num es j in omega (arith, n, m, s.tracked.counts j, s.below)

  pub Focus-IsPlaced :
      (pre : List (ℕ × FileBuffer)) (key : ℕ) (b : FileBuffer) (es : List (ℕ × FileBuffer))
      (top : ℕ)
      → top < limit
      → Focus pre key b es top
      → IsPlaced limit b
  Focus-IsPlaced pre key b es top lt f =
      let v = f.here in
      let e = v.ends in
      let le = ChainTo-le key top es f.after in
      record { nonempty = v.nonempty; below = omega (arith, e, le, lt) }

  free_data-total :
      (l : BufferList) (b : FileBuffer)
      → HasData b b.slice b.ptr
      → (l' : BufferList) × (n : ℕ) × (free_data h l b ≡ some (l', n))
        × (l'.at ≡ l.at)
        × (l'.track ≡ l.track)
  unfolding free_data release_ptr
  free_data-total l b d = elim (Option-cases b.slice) [
    | inl e ↦ (l, 0, rw (free_data, e) refl, refl, refl)
    | inr (s, e) ↦ elim (Option-cases b.ptr) [
      | inl f ↦ absurd (rw (e, f) at d)
      | inr (p, f) ↦
          ((release_ptr l p).0, (release_ptr l p).1, rw (free_data, e, f) refl, refl, refl)
    ]
  ]

  delete_buf-run :
      (l : BufferList) (b : FileBuffer) (l1 : BufferList) (n : ℕ) (u : Tracker)
      → free_data h l b ≡ some (l1, n)
      → unqueue h l1.track b ≡ some u
      → delete_buf h l b ≡ some (record l1 { at = bt.delete l1.at (buf_end b); track = u }, n)
  unfolding delete_buf
  delete_buf-run l b l1 n u run unq = rw (delete_buf, run, unq) refl

  -- A buffer that is deleted goes from the entries, and the rest stays tracked.
  pub delete_buf-Holds :
      (l : BufferList) (pre : List (ℕ × FileBuffer)) (key : ℕ) (b : FileBuffer)
      (es : List (ℕ × FileBuffer))
      → Holds h.part_num limit l (pre ++ (key, b) ∷ es)
      → (l' : BufferList) × (n : ℕ) × (delete_buf h l b ≡ some (l', n))
        × Holds h.part_num limit l' (pre ++ es)
  unfolding refs_sum
  delete_buf-Holds l pre key b es s =
      let c = ChainTo-Focus 0 s.top key pre b es s.chain in
      let v = c.1 in
      let ends = v.ends in
      let pos = v.nonempty in
      let f : Focus pre key b es s.top = record { before = c.0; here = v; after = c.2 } in
      let (l1, n, run, same_at, same_track) = free_data-total l b v.has_data in
      let k = s.tracked in
      let whole = refs_sum-append h.part_num pre ((key, b) ∷ es) in
      let (u, unq, cu, minus) =
        unqueue-refs h limit small num l.track b (Focus-IsPlaced pre key b es s.top s.below f)
          k.counted (λ j. omega (arith, k.counts j, whole j)) in
      let unq' : unqueue h l1.track b ≡ some u = rw same_track unq in
      let same_key : (key == key) ≡ true = ground arith in
      let gone : remove (buf_end b) (pre ++ (key, b) ∷ es) ≡ pre ++ es =
        ap (λ x. remove x (pre ++ (key, b) ∷ es)) (buf_end-eq key b v)
        ∙ remove-append 0 b.offset key pre ((key, b) ∷ es) (c.0) (omega arith)
        ∙ (rw same_key refl) in
      (
        record l1 { at = bt.delete l1.at (buf_end b); track = u },
        n,
        delete_buf-run l b l1 n u run unq',
        record {
          shape =
              bt.ascend-delete l1.at (buf_end b)
              ∙ ap (λ m. remove (buf_end b) (bt.ascend m 0)) same_at
              ∙ ap (remove (buf_end b)) s.shape
              ∙ gone;
          top = s.top;
          below = s.below;
          chain =
              ChainTo-append 0 b.offset s.top pre es (c.0)
                (ChainTo-wider key b.offset s.top s.top es (omega arith) (omega arith) (c.2));
          tracked = record {
            counted = cu;
            counts = λ j.
                omega (arith, k.counts j, whole j, minus j, refs_sum-append h.part_num pre es j);
          };
        },
      )
