-- ===== src/BufferList/Track.antt =====
-- core/buffer_list.go and core/buffer_queue.go: how a buffer list counts its dirty parts and unclean
-- buffers, and queues its clean buffers for eviction.
use akavefs.Prelude.{
  ℕ, zero, suc, ◌+◌, ◌-◌, Bool, ◌||◌, Option, none, some, List, map, ◌==◌, if◌then◌else◌, ◌>>=◌,
  add64, sub64,
}
use akavefs.BTree.{BTree}
use akavefs.BufferList.{
  BufferState, same_state, FileBuffer, BufferListHelpers, BufferQueue, Tracker,
}

abbrev pub update {ℓ} : {A : Type ℓ} → (ℕ → A) → ℕ → A → ℕ → A
update f k v j = if j == k then v else f j

-- The number of rounds of `for i := sp; i <= ep; i++`.
abbrev pub rounds : ℕ → ℕ → ℕ
rounds sp ep = ep + 1 - sp

abbrev pub is_queued : BufferState → Bool
is_queued s = same_state s BufferState.clean || same_state s BufferState.flushed_full

-- The buffers that do not count as unclean.
abbrev pub is_clean : BufferState → Bool
is_clean s = same_state s BufferState.clean

abbrev pub is_dirty : BufferState → Bool
is_dirty s = same_state s BufferState.dirty

module _ ⦃bt : BTree⦄ where
  open bt use {Map, set, delete, ascend}

  -- `BufferQueue.Add`, with the buffer that it changes.
  unfoldable pub queue_add : BufferQueue → ℕ → FileBuffer → BufferQueue × FileBuffer
  queue_add q inode b =
      let id = add64 q.cur_queue_id 1 in
      (
        record {
          clean_queue =
              set q.clean_queue id (record { inode = inode; end = add64 b.offset b.length });
          cur_queue_id = id;
        },
        record b { queue_id = id },
      )

  -- `BufferQueue.Delete`.
  unfoldable pub queue_delete : BufferQueue → FileBuffer → BufferQueue
  queue_delete q b = record q { clean_queue = delete q.clean_queue b.queue_id }

  unfoldable pub reference_dirty_part : Tracker → ℕ → Tracker
  reference_dirty_part t part =
      let qid = add64 t.dirty_qid 1 in
      elim (t.dirty_parts part) [
        | none ↦ record t {
          dirty_qid = qid;
          dirty_parts = update t.dirty_parts part (some (record { queue_id = qid; refcnt = 1 }));
          dirty_queue = set t.dirty_queue qid part;
        }
        | some p ↦ record t {
          dirty_qid = qid;
          dirty_parts =
              update t.dirty_parts part
                (some (record { queue_id = qid; refcnt = add64 p.refcnt 1 }));
          dirty_queue = set (delete t.dirty_queue p.queue_id) qid part;
        }
      ]

  unfoldable pub reference_parts : ℕ → ℕ → Tracker → Tracker
  reference_parts zero i t = t
  reference_parts (suc n) i t = reference_parts n (i + 1) (reference_dirty_part t i)

  -- One round of the loop of `unqueue`.
  unfoldable pub release_dirty_part : Tracker → ℕ → Option Tracker
  release_dirty_part t part = elim (t.dirty_parts part) [
    | none ↦ none
    | some p ↦
        if p.refcnt == 0
        then none
        else if p.refcnt == 1
        then some (record t {
          dirty_queue = delete t.dirty_queue p.queue_id;
          dirty_parts = update t.dirty_parts part none;
        })
        else some (record t {
          dirty_parts = update t.dirty_parts part (some (record p { refcnt = sub64 p.refcnt 1 }));
        })
  ]

  unfoldable pub release_parts : ℕ → ℕ → Tracker → Option Tracker
  release_parts zero i t = some t
  release_parts (suc n) i t = elim (release_dirty_part t i) [
    | none ↦ none
    | some u ↦ release_parts n (i + 1) u
  ]

  -- `uncleanCount` with one more or one less, unless the buffer is clean.
  unfoldable pub add_unclean : Tracker → FileBuffer → Tracker
  add_unclean t b =
      if is_clean b.state then t else record t { unclean_count = add64 t.unclean_count 1 }

  unfoldable pub sub_unclean : Tracker → FileBuffer → Tracker
  sub_unclean t b =
      if is_clean b.state then t else record t { unclean_count = sub64 t.unclean_count 1 }

  module _ (h : BufferListHelpers) where
    unfoldable pub unqueue : Tracker → FileBuffer → Option Tracker
    unfolding sub_unclean release_parts release_dirty_part queue_delete
    unqueue t b =
        let u = sub_unclean t b in
        if is_dirty b.state
        then (do
          sp ← h.part_num b.offset
          ep ← h.part_num (sub64 (add64 b.offset b.length) 1)
          release_parts (rounds sp ep) sp u)
        else if is_queued b.state
        then some (record u { queue = queue_delete u.queue b })
        else some u

    -- The buffer comes back with its number in the clean queue.
    unfoldable pub queue : Tracker → FileBuffer → Option (Tracker × FileBuffer)
    unfolding add_unclean reference_parts reference_dirty_part queue_add
    queue t b =
        let u = add_unclean t b in
        if b.length == 0
        then none
        else if is_dirty b.state
        then (do
          sp ← h.part_num b.offset
          ep ← h.part_num (sub64 (add64 b.offset b.length) 1)
          some (reference_parts (rounds sp ep) sp u, b))
        else if is_queued b.state
        then (let (q, c) = queue_add u.queue h.inode b in some (record u { queue = q }, c))
        else some (u, b)

    unfoldable pub requeue_split : Tracker → FileBuffer → Option (Tracker × FileBuffer)
    unfolding add_unclean reference_dirty_part queue_add
    requeue_split t left =
        let u = add_unclean t left in
        if left.length == 0
        then none
        else if is_dirty left.state
        then (do
          lbound ← h.part_num (sub64 (add64 left.offset left.length) 1)
          rbound ← h.part_num (add64 left.offset left.length)
          some ((if lbound == rbound then reference_dirty_part u lbound else u), left))
        else if is_queued left.state
        then (let (q, c) = queue_add u.queue h.inode left in some (record u { queue = q }, c))
        else some (u, left)

  -- The parts that `IterateDirtyParts` visits, while the callback returns true.
  unfoldable pub iterate_dirty_parts : Tracker → List ℕ
  iterate_dirty_parts t = map (λ e. e.1) (ascend t.dirty_queue 0)
