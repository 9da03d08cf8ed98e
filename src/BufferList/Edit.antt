-- ===== src/BufferList/Edit.antt =====
-- core/buffer_list.go: the operations on one buffer. A run that panics is `none`; the bytes that
-- memory accounting gains are the bit pattern of an `int64`.
use akavefs.Prelude.{
  ℕ, suc, ◌+◌, ◌*◌, ◌/◌, Bool, true, false, ◌&&◌, ◌||◌, Option, none, some, List, [], ◌∷◌, ◌++◌,
  ltb, leb, ◌==◌, if◌then◌else◌, ◌>>=◌, add64, sub64, length, take, drop,
}
use akavefs.BTree.{BTree}
use akavefs.BufferList.{
  BufferState, same_state, Slice, FileBuffer, BufferPointer, BufferListHelpers, BufferList,
}
use akavefs.BufferList.Track.{update, unqueue, queue, requeue_split}

abbrev pub max_buf : ℕ
max_buf = 2 * 1024 * 1024

-- The key of a buffer in `at`.
abbrev pub buf_end : FileBuffer → ℕ
buf_end b = add64 b.offset b.length

abbrev pub is_some {ℓ} : {A : Type ℓ} → Option A → Bool
is_some none = false
is_some (some a) = true

abbrev pub first {ℓ} : {A : Type ℓ} → List (ℕ × A) → Option A
first [] = none
first ((k, a) ∷ es) = some a

-- A nil slice has no bytes and no capacity.
abbrev pub slice_or_nil : Option Slice → Slice
slice_or_nil none = record { bytes = []; cap = 0 }
slice_or_nil (some s) = s

-- `s[0:n]` and `s[n:]`, for `n` up to the length.
unfoldable pub slice_to : Slice → ℕ → Option Slice
slice_to s n = if leb n (length s.bytes) then some (record s { bytes = take n s.bytes }) else none

unfoldable pub slice_from : Slice → ℕ → Option Slice
slice_from s n =
    if leb n (length s.bytes)
    then some (record { bytes = drop n s.bytes; cap = sub64 s.cap n })
    else none

module _ ⦃bt : BTree⦄ where
  open bt use {set, delete, descend}

  unfoldable pub retain_ptr : BufferList → ℕ → BufferList
  retain_ptr l p =
      let c = l.ptrs p in record l { ptrs = update l.ptrs p (record c { refs = add64 c.refs 1 }) }

  -- `ptr.refs--`, and the memory that is freed with the last reference.
  unfoldable pub release_ptr : BufferList → ℕ → BufferList × ℕ
  release_ptr l p =
      let c = l.ptrs p in
      let refs = sub64 c.refs 1 in
      (
        record l { ptrs = update l.ptrs p (record c { refs = refs }) },
        (if refs == 0 then sub64 0 c.mem else 0),
      )

  -- `&BufferPointer{…}`
  unfoldable pub new_ptr : BufferList → BufferPointer → BufferList × ℕ
  new_ptr l c =
      (record l { ptrs = update l.ptrs l.next_ptr c; next_ptr = suc l.next_ptr }, l.next_ptr)

  unfoldable pub next_id : BufferList → BufferList × ℕ
  next_id l = let id = add64 l.cur_dirty_id 1 in (record l { cur_dirty_id = id }, id)

  abbrev pub put : BufferList → FileBuffer → BufferList
  put l b = record l { at = set l.at (buf_end b) b }

  -- `FileBuffer.Append`; the buffer has data.
  unfoldable pub append : BufferList → FileBuffer → Slice → ℕ → List ℕ → BufferList × FileBuffer × ℕ
  unfolding release_ptr new_ptr
  append l b s p bytes =
      let old_len = length s.bytes in
      let new_len = old_len + length bytes in
      if leb new_len s.cap
      then (
        l,
        record b { slice = some (record s { bytes = s.bytes ++ bytes }); length = new_len },
        0,
      )
      else (let new_cap = if ltb new_len (2 * old_len) then 2 * old_len else new_len in
          let (l', freed) = release_ptr l p in
          let (l'', p') = new_ptr l' (record { mem = new_cap; refs = 1 }) in
          (
            l'',
            record b {
              slice = some (record { bytes = s.bytes ++ bytes; cap = new_cap });
              length = new_len;
              ptr = some p';
            },
            add64 new_cap freed,
          ))

  abbrev is_alone : BufferList → Option ℕ → Bool
  is_alone l none = false
  is_alone l (some p) = (l.ptrs p).refs == 1

  module _ (h : BufferListHelpers) where
    -- The slices of the two halves, if the buffer has data.
    unfoldable pub split_data : Option Slice → ℕ → Option (Option Slice × Option Slice)
    unfolding slice_to slice_from
    split_data none n = some (none, none)
    split_data (some s) n = do
      left ← slice_to s n
      right ← slice_from s n
      some (some left, some right)

    -- The pointer gets a reference only if there is data; a nil pointer panics.
    unfoldable pub share_ptr : BufferList → FileBuffer → Option BufferList
    unfolding retain_ptr
    share_ptr l b = elim b.slice [
      | none ↦ some l
      | some s ↦ elim b.ptr [ none ↦ none | some p ↦ some (retain_ptr l p) ]
    ]

    -- The halves stand in the map: the left one under `offset`, the right one under the old key.
    unfoldable pub split :
        BufferList → FileBuffer → ℕ → Option (BufferList × FileBuffer × FileBuffer)
    unfolding split_data share_ptr next_id
    split l b offset = do
      (left_data, right_data) ← split_data b.slice (sub64 offset b.offset)
      l' ← share_ptr l b
      let start_buf = record b { length = sub64 offset b.offset; slice = left_data }
      let (l'', id) = if b.dirty_id == 0 then (l', 0) else next_id l'
      let right = record b {
        offset = offset;
        length = sub64 (add64 b.offset b.length) offset;
        slice = right_data;
        dirty_id = id;
      }
      (t, left) ← requeue_split h l''.track start_buf
      some (put (put (record l'' { track = t }) right) left, left, right)

    -- The memory of a buffer that goes.
    unfoldable pub free_data : BufferList → FileBuffer → Option (BufferList × ℕ)
    unfolding release_ptr
    free_data l b = elim b.slice [
      | none ↦ some (l, 0)
      | some s ↦ elim b.ptr [ none ↦ none | some p ↦ some (release_ptr l p) ]
    ]

    unfoldable pub delete_buf : BufferList → FileBuffer → Option (BufferList × ℕ)
    unfolding free_data
    delete_buf l b = do
      (l', allocated) ← free_data l b
      t ← unqueue h l'.track b
      some (record l' { at = delete l'.at (buf_end b); track = t }, allocated)

    -- Whether new data may be appended to the buffer before it.
    unfoldable pub can_append :
        BufferList → ℕ → ℕ → BufferState → Bool → Option FileBuffer → Option Bool
    can_append l offset len state copy_data none = some false
    can_append l offset len state copy_data (some prev) =
        if copy_data && buf_end prev == offset
        then (do
          before ← h.part_num prev.offset
          here ← h.part_num offset
          let old = slice_or_nil prev.slice
          let fits = leb (length old.bytes + len) old.cap || leb old.cap (max_buf / 2)
          let alone = is_alone l prev.ptr
          some (before == here && same_state prev.state state && alone && fits))
        else some false

    unfoldable pub append_to : BufferList → FileBuffer → List ℕ → ℕ → Option (BufferList × ℕ)
    unfolding append
    append_to l prev bytes dirty_id = elim prev.ptr [
      | none ↦ none
      | some p ↦ (do
        t ← unqueue h l.track prev
        let s = slice_or_nil prev.slice
        let cut = record l { at = delete l.at (buf_end prev); track = t }
        let (l', b, allocated) = append cut prev s p bytes
        (u, c) ← queue h l'.track (record b { on_disk = false; dirty_id = dirty_id })
        some (put (record l' { track = u }) c, allocated))
    ]

    -- The pointer of a new buffer: a copy's own, or that of the caller's array.
    unfoldable pub data_ptr : BufferList → Bool → Slice → ℕ → BufferList × ℕ × Slice
    unfolding new_ptr
    data_ptr l true s p =
        let len = length s.bytes in
        let (l', q) = new_ptr l (record { mem = len; refs = 0 }) in (l', q, record s { cap = len })
    data_ptr l false s p = (l, p, s)

    unfoldable pub insert_new :
        BufferList → ℕ → Slice → BufferState → ℕ → Bool → ℕ → Option (BufferList × ℕ)
    unfolding data_ptr retain_ptr
    insert_new l offset s state dirty_id copy_data p = do
      let (l', q, t) = data_ptr l copy_data s p
      let l'' = retain_ptr l' q
      (u, b) ← queue h l''.track (record {
        queue_id = 0;
        offset = offset;
        length = length t.bytes;
        state = state;
        loading = false;
        on_disk = false;
        zero = false;
        dirty_id = dirty_id;
        slice = some t;
        ptr = some q;
      })
      some (put (record l'' { track = u }) b, length s.bytes)

    abbrev ends_at : ℕ → Option FileBuffer → Bool
    ends_at end none = false
    ends_at end (some prev) = buf_end prev == end

    unfoldable pub insert_or_append :
        BufferList → ℕ → Slice → BufferState → Bool → ℕ → Option (BufferList × ℕ)
    unfolding next_id can_append append_to insert_new
    insert_or_append l offset s state copy_data p =
        let len = length s.bytes in
        let (l', dirty_id) = if same_state state BufferState.dirty then next_id l else (l, 0) in
        let end = add64 offset len in
        let prev = first (descend l'.at end) in
        if len == 0 then some (l, 0) else if ends_at end prev then none else (do
          joins ← can_append l' offset len state copy_data prev
          elim prev [
            | none ↦ insert_new l' offset s state dirty_id copy_data p
            | some b ↦
                if joins
                then append_to l' b s.bytes dirty_id
                else insert_new l' offset s state dirty_id copy_data p
          ])
