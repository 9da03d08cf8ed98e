-- ===== src/Tests/Queued.antt =====
-- core/buffer_queue.go: queues with two entries.
use akavefs.Prelude.{◌+◌, ◌≡◌, some, [], ◌∷◌, map, length, arith}
use akavefs.BTree.{from}
use akavefs.BTree.Assoc.{assoc_tree}
use akavefs.BufferList.{BufferQueue}
use akavefs.Queues.{InodeQueue, flusher_visits, eviction_visits}
use akavefs.Queues.Order.{flusher_visits-order, eviction_visits-order}

abbrev inodes : InodeQueue
inodes = record { dirty_queue = ((3, 10) ∷ (5, 12) ∷ [], (omega arith, tt)); cur_queue_id = 5 }

abbrev buffers : BufferQueue
buffers = record {
  clean_queue = (
    (2, record { inode = 10; end = 4 }) ∷ (7, record { inode = 12; end = 9 }) ∷ [],
    (omega arith, tt),
  );
  cur_queue_id = 7;
}

flusher_visits-order_example :
    flusher_visits (length (from 3 inodes.dirty_queue.0) + 1) inodes 3
    ≡ map (λ e. e.1) (from 3 inodes.dirty_queue.0)
flusher_visits-order_example =
    flusher_visits-order inodes 3 (omega arith, (omega arith, tt)) (omega arith, (omega arith, tt))

eviction_visits-order_example :
    eviction_visits (length (from 1 buffers.clean_queue.0) + 1) buffers 1
    ≡ map (λ e. some e.1) (from 1 buffers.clean_queue.0)
eviction_visits-order_example = eviction_visits-order buffers 1 (omega arith, (omega arith, tt))
