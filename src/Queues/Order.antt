-- ===== src/Queues/Order.antt =====
-- core/buffer_queue.go: the loops over the queues see every entry once, in the order of the queue.
use akavefs.Prelude.{
  ℕ, zero, suc, ◌+◌, ◌≤◌, ◌<◌, ◌≡◌, ◌∙◌, refl, ap, sym, inl, inr, false, Bool-cases, Option, none,
  some, List, [], ◌∷◌, map, All, leb, ◌==◌, if◌then◌else◌, add64, add64-eq, length, word, arith,
}
use akavefs.BTree.{BTree, from, IsAbove, IsSorted}
use akavefs.BufferList.{QueuedBuffer, BufferQueue}
use akavefs.Queues.{InodeQueue, inode_queue_next, next_clean, flusher_visits, eviction_visits}

-- The next number of each entry is below 2 ^ 64.
abbrev pub HasNext : {V : Type 0} → ℕ × V → Type 0
HasNext (k, v) = k + 1 < word

module _ {V : Type 0} where
  from-above : (k pivot : ℕ) (es : List (ℕ × V)) → pivot ≤ k + 1 → IsAbove k es → from pivot es ≡ es
  from-above k pivot [] h a = refl
  from-above k pivot ((j, v) ∷ es) h a = ground arith

  IsAbove-IsSorted : (k : ℕ) (es : List (ℕ × V)) → IsAbove k es → IsSorted es
  IsAbove-IsSorted k [] a = tt
  IsAbove-IsSorted k ((j, w) ∷ es) a = a.1

  from-first :
      (lo pivot k : ℕ) (v : V) (es rest : List (ℕ × V))
      → IsAbove lo es
      → from pivot es ≡ (k, v) ∷ rest
      → lo < k
  from-first lo pivot k v [] rest a e = absurd (ground (arith, e))
  from-first lo pivot k v ((j, w) ∷ es) rest a e = elim (Bool-cases (leb pivot j)) [
    | inl here ↦
        let e' : (j, w) ∷ es ≡ (k, v) ∷ rest = rw here at e in
        let same : j ≡ k = cc in omega (arith, a.0)
    | inr there ↦
        let e' : from pivot es ≡ (k, v) ∷ rest = rw there at e in
        omega (arith, a.0, from-first j pivot k v es rest a.1 e')
  ]

  -- What follows the first entry from a pivot on.
  from-next :
      (pivot k : ℕ) (v : V) (es rest : List (ℕ × V))
      → IsSorted es
      → from pivot es ≡ (k, v) ∷ rest
      → from (k + 1) es ≡ rest
  from-next pivot k v [] rest s e = absurd (ground (arith, e))
  from-next pivot k v ((j, w) ∷ es) rest s e = elim (Bool-cases (leb pivot j)) [
    | inl here ↦
        let e' : (j, w) ∷ es ≡ (k, v) ∷ rest = rw here at e in
        let same : j ≡ k = cc in
        let tail : es ≡ rest = cc in
        let past : leb (k + 1) j ≡ false = ground arith in
        rw past (from-above j (k + 1) es (omega arith) s ∙ tail)
    | inr there ↦
        let e' : from pivot es ≡ (k, v) ∷ rest = rw there at e in
        let lt = from-first j pivot k v es rest s e' in
        let past : leb (k + 1) j ≡ false = ground arith in
        rw past (from-next pivot k v es rest (IsAbove-IsSorted j es s) e')
  ]

module _ ⦃bt : BTree⦄ where
  ascend-next :
      {V : Type 0} (m : bt.Map V) (min k : ℕ) (v : V) (rest : List (ℕ × V))
      → bt.ascend m min ≡ (k, v) ∷ rest
      → bt.ascend m (k + 1) ≡ rest
  ascend-next m min k v rest e =
      bt.ascend-from m (k + 1)
      ∙ from-next min k v (bt.ascend m 0) rest (bt.ascend-IsSorted m)
          (sym (bt.ascend-from m min) ∙ e)

  -- A queued inode is not 0.
  abbrev pub IsInode : ℕ × ℕ → Type 0
  IsInode (k, inode) = 0 < inode

  flusher_round :
      (fuel : ℕ) (q : InodeQueue) (min : ℕ) (n : ℕ × ℕ)
      → inode_queue_next q min ≡ n
      → flusher_visits (suc fuel) q min ≡ (if n.0 == 0 then [] else n.0 ∷ flusher_visits fuel q n.1)
  unfolding flusher_visits
  flusher_round fuel q min n e =
      ap (λ m. if m.0 == 0 then [] else m.0 ∷ flusher_visits fuel q m.1) e

  inode_queue_next-none :
      (q : InodeQueue) (min : ℕ)
      → bt.ascend q.dirty_queue min ≡ []
      → inode_queue_next q min ≡ (0, 0)
  unfolding inode_queue_next
  inode_queue_next-none q min e = rw (inode_queue_next, e)

  inode_queue_next-some :
      (q : InodeQueue) (min k inode : ℕ) (es : List (ℕ × ℕ))
      → bt.ascend q.dirty_queue min ≡ (k, inode) ∷ es
      → inode_queue_next q min ≡ (inode, add64 k 1)
  unfolding inode_queue_next
  inode_queue_next-some q min k inode es e = rw (inode_queue_next, e)

  flusher_visits-eq :
      (fuel : ℕ) (q : InodeQueue) (min : ℕ) (es : List (ℕ × ℕ))
      → bt.ascend q.dirty_queue min ≡ es
      → All HasNext es
      → All IsInode es
      → length es < fuel
      → flusher_visits fuel q min ≡ map (λ e. e.1) es
  flusher_visits-eq zero q min es e n i h = absurd (omega arith)
  flusher_visits-eq (suc fuel) q min [] e n i h =
      flusher_round fuel q min (0, 0) (inode_queue_next-none q min e)
  flusher_visits-eq (suc fuel) q min ((k, inode) ∷ es) e n i h =
      let there : (inode == 0) ≡ false = ground arith in
      let next = add64-eq k 1 n.0 in
      let rest =
        flusher_visits-eq fuel q (k + 1) es (ascend-next q.dirty_queue min k inode es e) n.1 i.1
          (omega arith) in
      flusher_round fuel q min (inode, add64 k 1) (inode_queue_next-some q min k inode es e)
      ∙ rw (there, next) (ap (λ zs. inode ∷ zs) rest)

  eviction_round :
      (fuel : ℕ) (q : BufferQueue) (min : ℕ) (n : Option QueuedBuffer × ℕ)
      → next_clean q min ≡ n
      → eviction_visits (suc fuel) q min
        ≡ (if n.1 == 0 then [] else n.0 ∷ eviction_visits fuel q n.1)
  unfolding eviction_visits
  eviction_round fuel q min n e =
      ap (λ m. if m.1 == 0 then [] else m.0 ∷ eviction_visits fuel q m.1) e

  next_clean-none :
      (q : BufferQueue) (min : ℕ) → bt.ascend q.clean_queue min ≡ [] → next_clean q min ≡ (none, 0)
  unfolding next_clean
  next_clean-none q min e = rw (next_clean, e)

  next_clean-some :
      (q : BufferQueue) (min k : ℕ) (b : QueuedBuffer) (es : List (ℕ × QueuedBuffer))
      → bt.ascend q.clean_queue min ≡ (k, b) ∷ es
      → next_clean q min ≡ (some b, add64 k 1)
  unfolding next_clean
  next_clean-some q min k b es e = rw (next_clean, e)

  eviction_visits-eq :
      (fuel : ℕ) (q : BufferQueue) (min : ℕ) (es : List (ℕ × QueuedBuffer))
      → bt.ascend q.clean_queue min ≡ es
      → All HasNext es
      → length es < fuel
      → eviction_visits fuel q min ≡ map (λ e. some e.1) es
  eviction_visits-eq zero q min es e n h = absurd (omega arith)
  eviction_visits-eq (suc fuel) q min [] e n h =
      eviction_round fuel q min (none, 0) (next_clean-none q min e)
  eviction_visits-eq (suc fuel) q min ((k, b) ∷ es) e n h =
      let next = add64-eq k 1 n.0 in
      let there : (k + 1 == 0) ≡ false = ground arith in
      let rest =
        eviction_visits-eq fuel q (k + 1) es (ascend-next q.clean_queue min k b es e) n.1
          (omega arith) in
      eviction_round fuel q min (some b, add64 k 1) (next_clean-some q min k b es e)
      ∙ rw (next, there) (ap (λ zs. some b ∷ zs) rest)

  -- With a round for each entry and one more, the flusher's loop gets the inodes that are queued from
  -- a number on, in the order of the queue and each entry once, if no inode is 0 and the numbers do
  -- not wrap around.
  pub flusher_visits-order :
      (q : InodeQueue) (min : ℕ)
      → All HasNext (bt.ascend q.dirty_queue min)
      → All IsInode (bt.ascend q.dirty_queue min)
      → flusher_visits (length (bt.ascend q.dirty_queue min) + 1) q min
        ≡ map (λ e. e.1) (bt.ascend q.dirty_queue min)
  flusher_visits-order q min n i =
      flusher_visits-eq (length (bt.ascend q.dirty_queue min) + 1) q min
        (bt.ascend q.dirty_queue min) refl n i (omega arith)

  -- With a round for each entry and one more, the eviction loop gets the clean buffers that are queued
  -- from a number on, in the order of the queue and each entry once, if the numbers do not wrap
  -- around.
  pub eviction_visits-order :
      (q : BufferQueue) (min : ℕ)
      → All HasNext (bt.ascend q.clean_queue min)
      → eviction_visits (length (bt.ascend q.clean_queue min) + 1) q min
        ≡ map (λ e. some e.1) (bt.ascend q.clean_queue min)
  eviction_visits-order q min n =
      eviction_visits-eq (length (bt.ascend q.clean_queue min) + 1) q min
        (bt.ascend q.clean_queue min) refl n (omega arith)
