-- ===== src/Queues.antt =====
-- core/buffer_queue.go: `InodeQueue`, and `NextClean` of `BufferQueue`, with the loops of
-- core/goofys.go that go through them.
pub mod Order
use akavefs.Prelude.{
  ℕ, zero, suc, Bool, true, false, Option, none, some, List, [], ◌∷◌, ◌==◌, if◌then◌else◌, add64,
  length,
}
use akavefs.BTree.{BTree}
use akavefs.BufferList.{QueuedBuffer, BufferQueue}

module _ ⦃bt : BTree⦄ where
  open bt use {Map, set, delete, ascend}

  pub record InodeQueue : Type 0 where
    pub dirty_queue : Map ℕ
    pub cur_queue_id : ℕ

  unfoldable pub inode_queue_add : InodeQueue → ℕ → InodeQueue × ℕ
  inode_queue_add q inode =
      let id = add64 q.cur_queue_id 1 in
      (record { dirty_queue = set q.dirty_queue id inode; cur_queue_id = id }, id)

  unfoldable pub inode_queue_delete : InodeQueue → ℕ → InodeQueue
  inode_queue_delete q id = record q { dirty_queue = delete q.dirty_queue id }

  unfoldable pub inode_queue_size : InodeQueue → ℕ
  inode_queue_size q = length (ascend q.dirty_queue 0)

  -- The inode and the number to go on from, 0 if there is none.
  unfoldable pub inode_queue_next : InodeQueue → ℕ → ℕ × ℕ
  inode_queue_next q min = elim (ascend q.dirty_queue min) [
    | [] ↦ (0, 0)
    | (id, inode) ∷ es ↦ (inode, add64 id 1)
  ]

  unfoldable pub next_clean : BufferQueue → ℕ → Option QueuedBuffer × ℕ
  next_clean q min = elim (ascend q.clean_queue min) [
    | [] ↦ (none, 0)
    | (id, b) ∷ es ↦ (some b, add64 id 1)
  ]

  -- The inodes that the flusher's loop gets, up to the end of the queue; the fuel is the number of
  -- rounds.
  unfoldable pub flusher_visits : ℕ → InodeQueue → ℕ → List ℕ
  unfolding inode_queue_next
  flusher_visits zero q min = []
  flusher_visits (suc fuel) q min =
      let rest = flusher_visits fuel q (inode_queue_next q min).1 in
      if (inode_queue_next q min).0 == 0 then [] else (inode_queue_next q min).0 ∷ rest

  -- The buffers that the eviction loop gets.
  unfoldable pub eviction_visits : ℕ → BufferQueue → ℕ → List (Option QueuedBuffer)
  unfolding next_clean
  eviction_visits zero q min = []
  eviction_visits (suc fuel) q min =
      let rest = eviction_visits fuel q (next_clean q min).1 in
      if (next_clean q min).1 == 0 then [] else (next_clean q min).0 ∷ rest
