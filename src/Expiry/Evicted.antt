-- ===== src/Expiry/Evicted.antt =====
-- core/goofys.go, core/handles.go: which inodes `EvictEntry` and `DeRef` drop.
use akavefs.Prelude.{ℕ, ◌≤◌, ◌≡◌, ◌≢◌, refl, true, false, ◌⊎◌, inl, inr, Bool-cases, ◌==◌, arith}
use akavefs.Expiry.{InodeStore, Look, Looks, is_busy, may_evict, evict_entry}

-- No open file, nothing modified.
abbrev pub IsIdle : Look → Type 0
IsIdle l = (l.file_handles ≡ 0) × (l.clean ≡ true) × (l.is_dir ≡ true → l.modified_children ≡ 0)

is_busy-IsIdle : (l : Look) → is_busy l ≡ false → IsIdle l
is_busy-IsIdle l h = (ground (arith, h), ground (arith, h), λ d. ground (arith, h, d))

may_evict-IsIdle :
    (found locked : InodeStore) (id now : ℕ) (l : Looks)
    → may_evict found locked id now l ≡ true
    → (id ≢ 1)
      × (found.is_known id ≡ true)
      × ((locked.inode id).expire_time ≤ now)
      × IsIdle l.with_locks
      × (l.parent_handles ≡ 0)
      × (l.same_parent ≡ true)
may_evict-IsIdle found locked id now l h =
    let idle : is_busy l.with_locks ≡ false = ground (arith, h) in
    (
      λ e. absurd (ground (arith, h, e)),
      ground (arith, h),
      ground (arith, h),
      is_busy-IsIdle l.with_locks idle,
      ground (arith, h),
      ground (arith, h),
    )

-- Whatever the inodes are when it looks an inode up, when it first locks it and when it has the second
-- locks, `EvictEntry` changes nothing or drops the inode; then it was known, is not the root, had
-- expired under the first lock, and under the second locks has no open file and no change, with no open
-- handle of its parent, and the same parent. Then it is no more in the map of inodes, from which no
-- other one is removed, and it has the zero time.
pub evict_entry-drops :
    (found locked s : InodeStore) (id now : ℕ) (l : Looks)
    → (evict_entry found locked s id now l ≡ s)
      ⊎ ((id ≢ 1)
          × (found.is_known id ≡ true)
          × ((locked.inode id).expire_time ≤ now)
          × IsIdle l.with_locks
          × (l.parent_handles ≡ 0)
          × (l.same_parent ≡ true)
          × ((evict_entry found locked s id now l).is_known id ≡ false)
          × (((evict_entry found locked s id now l).inode id).expire_time ≡ 0)
          × ((other : ℕ)
              → other ≢ id
              → (evict_entry found locked s id now l).is_known other ≡ s.is_known other))
unfolding evict_entry
evict_entry-drops found locked s id now l = elim (Bool-cases (may_evict found locked id now l)) [
  | inr stay ↦ inl (rw stay refl)
  | inl go ↦
      let m = may_evict-IsIdle found locked id now l go in
      let self : (id == id) ≡ true = ground arith in
      inr (
        m.0,
        m.1,
        m.2,
        m.3,
        m.4,
        m.5,
        rw (go, self) refl,
        rw (go, self) refl,
        λ other h.
            (let off : (other == id) ≡ false = (elim (Bool-cases (other == id)) [
              | inl same ↦ absurd (h (ground (arith, same)))
              | inr apart ↦ apart
            ]) in
              rw (go, off) refl),
      )
]
