-- ===== src/Tests/Expiring.antt =====
-- core/handles.go, core/goofys.go: an inode that expires and is evicted.
use akavefs.Prelude.{
  ℕ, ◌≤◌, ◌<◌, ◌≡◌, ◌≢◌, ◌⊎◌, refl, Bool, true, false, ◌==◌, List, [], ◌∷◌, length, inl, inr,
  Bool-cases, arith,
}
use akavefs.Expiry.{
  InodeTimes, InodeStore, put_entry, unix, has_id, Look, Looks, InodeOp, run_op, run_ops,
  set_attr_time, evict_entry, scan_entry, scan_times,
}
use akavefs.Expiry.Indexed.{IsIndexed, run_ops-IsIndexed}
use akavefs.Expiry.Evicted.{IsIdle, evict_entry-drops}
use akavefs.Expiry.Scan.{scan_times-expired}

abbrev no_times : InodeTimes
no_times = record { refcnt = 0; is_clean = true; attr_time = 0; expire_time = 0 }

abbrev no_inodes : InodeStore
no_inodes = record {
  inode = λ _. no_times;
  is_known = λ _. false;
  inodes_by_time = λ _. [];
  forgot_cnt = 0;
}

no_inodes-IsIndexed : IsIndexed no_inodes
no_inodes-IsIndexed second id = refl

-- An inode that expires 60 seconds after 5.
abbrev some_ops : List InodeOp
some_ops = InodeOp.insert 2 ∷ InodeOp.ref_inode 2 ∷ InodeOp.attr_time_now 2 5000000000 ∷ []

run_ops-IsIndexed_example : IsIndexed (run_ops 60000000000 no_inodes some_ops)
run_ops-IsIndexed_example = run_ops-IsIndexed 60000000000 no_inodes some_ops no_inodes-IsIndexed

some_ops-index : (run_ops 60000000000 no_inodes some_ops).inodes_by_time 65 ≡ 2 ∷ []
unfolding run_ops run_op
some_ops-index = refl

abbrev one_inode : InodeStore
one_inode = record {
  inode = put_entry (λ _. no_times) 2 (record no_times { expire_time = 65000000000 });
  is_known = put_entry (λ _. false) 2 true;
  inodes_by_time = put_entry (λ _. []) 65 (2 ∷ []);
  forgot_cnt = 0;
}

one_inode-IsIndexed : IsIndexed one_inode
one_inode-IsIndexed second id = elim (Bool-cases (second == 65)) [
  | inl at ↦ elim (Bool-cases (id == 2)) [
    | inl it ↦ rw (at, it) (ground (arith, at, it))
    | inr other ↦ rw (at, other) (ground (arith, other))
  ]
  | inr off ↦ elim (Bool-cases (id == 2)) [
    | inl it ↦ rw (off, it) (ground (arith, off))
    | inr other ↦ rw (off, other) refl
  ]
]

one_inode-order :
    (second id : ℕ)
    → has_id id (one_inode.inodes_by_time second) ≡ true
    → has_id second (65 ∷ []) ≡ true
one_inode-order second id h = elim (Bool-cases (second == 65)) [
  | inl at ↦ ground (arith, at)
  | inr off ↦ absurd (let k = rw off at h in cc)
]

abbrev nothing_seen : ℕ → Bool
nothing_seen _ = false

scan_times-expired_example :
    (has_id 2 (scan_times 10 nothing_seen 70 one_inode.inodes_by_time (65 ∷ []) []) ≡ true
      → (nothing_seen 2 ≡ false)
        × ((one_inode.inode 2).expire_time ≢ 0)
        × (unix (one_inode.inode 2).expire_time < 70))
    × (length (scan_times 10 nothing_seen 70 one_inode.inodes_by_time (65 ∷ []) []) < 10
        → nothing_seen 2 ≡ false
        → (one_inode.inode 2).expire_time ≢ 0
        → unix (one_inode.inode 2).expire_time < 70
        → has_id 2 (scan_times 10 nothing_seen 70 one_inode.inodes_by_time (65 ∷ []) []) ≡ true)
scan_times-expired_example =
    scan_times-expired one_inode 10 nothing_seen 70 (65 ∷ []) 2 one_inode-IsIndexed one_inode-order

one_inode-scan : scan_times 10 nothing_seen 70 one_inode.inodes_by_time (65 ∷ []) [] ≡ 2 ∷ []
unfolding scan_times scan_entry
one_inode-scan = refl

abbrev idle_look : Look
idle_look = record { file_handles = 0; clean = true; is_dir = false; modified_children = 0 }

abbrev idle_looks : Looks
idle_looks = record {
  without_locks = idle_look;
  child_locked = true;
  parent_locked = true;
  child_locked_again = true;
  same_parent = true;
  parent_handles = 0;
  with_locks = idle_look;
}

abbrev second_inode : ℕ
second_inode = 2

-- Between the two locks SetAttrTime renews the inode.
abbrev renewed : InodeStore
renewed = set_attr_time 60000000000 one_inode 2 70000000000

evict_entry-drops_example :
    (evict_entry one_inode one_inode renewed 2 70000000000 idle_looks ≡ renewed)
    ⊎ ((second_inode ≢ 1)
        × (one_inode.is_known 2 ≡ true)
        × ((one_inode.inode 2).expire_time ≤ 70000000000)
        × IsIdle idle_looks.with_locks
        × (idle_looks.parent_handles ≡ 0)
        × (idle_looks.same_parent ≡ true)
        × ((evict_entry one_inode one_inode renewed 2 70000000000 idle_looks).is_known 2 ≡ false)
        × (((evict_entry one_inode one_inode renewed 2 70000000000 idle_looks).inode 2).expire_time
            ≡ 0)
        × ((other : ℕ)
            → other ≢ 2
            → (evict_entry one_inode one_inode renewed 2 70000000000 idle_looks).is_known other
              ≡ renewed.is_known other))
evict_entry-drops_example = evict_entry-drops one_inode one_inode renewed 2 70000000000 idle_looks

-- The inode expires at 130 seconds, and is dropped at 70.
renewed-expires : (renewed.inode 2).expire_time ≡ 130000000000
renewed-expires = refl

renewed-evicted : (evict_entry one_inode one_inode renewed 2 70000000000 idle_looks).forgot_cnt ≡ 1
unfolding evict_entry
renewed-evicted = refl
