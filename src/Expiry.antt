-- ===== src/Expiry.antt =====
-- core/handles.go and core/goofys.go: references to inodes and the index `inodesByTime` of the times at
-- which they expire, `Ref`, `DeRef`, `SetAttrTime`, `SetExpireTime`, `resetExpireTime`,
-- `EvictEntry` and the scan of `MetaEvictor`. A time is in nanoseconds from the zero time, so that its second is counted from there;
-- the time to live of the flags is an argument, and so are the looks at an inode that is evicted.
pub mod Indexed
pub mod Evicted
pub mod Scan
use akavefs.Prelude.{
  ℕ, ◌+◌, ◌-◌, ◌*◌, ◌/◌, max, Option, none, some, length, ◌++◌, Bool, true, false, not, ◌&&◌, ◌||◌,
  List, [], ◌∷◌, ltb, leb, ◌==◌, if◌then◌else◌,
}

-- `is_clean` is a state up to ST_DEAD.
pub record InodeTimes : Type 0 where
  pub refcnt : ℕ
  pub is_clean : Bool
  pub attr_time : ℕ
  pub expire_time : ℕ

-- The inodes by their ids, which of them `fs.inodes` has, and the ids by the second in which they
-- expire; an entry that is not there is empty, as an entry that gets empty is deleted.
pub record InodeStore : Type 0 where
  pub inode : ℕ → InodeTimes
  pub is_known : ℕ → Bool
  pub inodes_by_time : ℕ → List ℕ
  pub forgot_cnt : ℕ

abbrev pub unix : ℕ → ℕ
unix tm = tm / 1000000000

abbrev pub put_entry {ℓ} : {A : Type ℓ} → (ℕ → A) → ℕ → A → ℕ → A
put_entry f k v i = if i == k then v else f i

abbrev pub has_id : ℕ → List ℕ → Bool
has_id id [] = false
has_id id (x ∷ xs) = x == id || has_id id xs

abbrev pub delete_id : ℕ → List ℕ → List ℕ
delete_id id [] = []
delete_id id (x ∷ xs) = let rest = delete_id id xs in if x == id then rest else x ∷ rest

abbrev pub add_id : ℕ → List ℕ → List ℕ
add_id id xs = if has_id id xs then xs else id ∷ xs

abbrev pub forget_time : ℕ → ℕ → (ℕ → List ℕ) → ℕ → List ℕ
forget_time id second by_time = put_entry by_time second (delete_id id (by_time second))

abbrev pub note_time : ℕ → ℕ → (ℕ → List ℕ) → ℕ → List ℕ
note_time id second by_time = put_entry by_time second (add_id id (by_time second))

abbrev pub set_inode : InodeStore → ℕ → InodeTimes → InodeStore
set_inode s id x = record s { inode = put_entry s.inode id x }

abbrev pub set_expire_time : InodeStore → ℕ → ℕ → InodeStore
set_expire_time s id tm =
    let forgotten = forget_time id (unix (s.inode id).expire_time) s.inodes_by_time in
    if ltb tm (s.inode id).expire_time
    then s
    else record (set_inode s id (record (s.inode id) { expire_time = tm })) {
      inodes_by_time = if not (tm == 0) then note_time id (unix tm) forgotten else forgotten;
    }

abbrev pub set_attr_time : ℕ → InodeStore → ℕ → ℕ → InodeStore
set_attr_time ttl s id tm =
    set_expire_time (set_inode s id (record (s.inode id) { attr_time = tm })) id (tm + ttl)

abbrev pub reset_expire_time : InodeStore → ℕ → InodeStore
reset_expire_time s id = record (set_inode s id (record (s.inode id) { expire_time = 0 })) {
  inodes_by_time = forget_time id (unix (s.inode id).expire_time) s.inodes_by_time;
}

abbrev pub drop_inode : InodeStore → ℕ → InodeStore
drop_inode s id =
    let t = reset_expire_time s id in
    record t { is_known = put_entry t.is_known id false; forgot_cnt = t.forgot_cnt + 1 }

abbrev pub ref : InodeStore → ℕ → InodeStore
ref s id = set_inode s id (record (s.inode id) { refcnt = (s.inode id).refcnt + 1 })

pub record DeRef : Type 0 where
  pub stale : Bool
  pub store : InodeStore

-- A count that would be below 0 is set to 0.
abbrev pub de_ref : InodeStore → ℕ → ℕ → DeRef
de_ref s id n =
    let t = set_inode s id (record (s.inode id) { refcnt = (s.inode id).refcnt - n }) in
    record {
      stale = leb (s.inode id).refcnt n;
      store = if leb (s.inode id).refcnt n && (s.inode id).is_clean then drop_inode t id else t;
    }

-- What a look at an inode shows.
pub record Look : Type 0 where
  pub file_handles : ℕ
  pub clean : Bool
  pub is_dir : Bool
  pub modified_children : ℕ

abbrev pub is_busy : Look → Bool
is_busy l = ltb 0 l.file_handles || not l.clean || l.is_dir && ltb 0 l.modified_children

-- The looks without and with the locks, which of the locks are got, and the parent at the second.
pub record Looks : Type 0 where
  pub without_locks : Look
  pub child_locked : Bool
  pub parent_locked : Bool
  pub child_locked_again : Bool
  pub same_parent : Bool
  pub parent_handles : ℕ
  pub with_locks : Look

abbrev pub root_inode : ℕ
root_inode = 1

-- The inode is looked up in the first store, and its expiry time is read in the second one, under the
-- first lock of the inode, which is then released. Neither is read again.
abbrev pub may_evict : InodeStore → InodeStore → ℕ → ℕ → Looks → Bool
may_evict found locked id now l =
    if not (found.is_known id) || id == root_inode || is_busy l.without_locks
    then false
    else if not l.child_locked
    then false
    else if ltb now (locked.inode id).expire_time
    then false
    else if not l.parent_locked
    then false
    else if not l.child_locked_again
    then false
    else not (not l.same_parent || ltb 0 l.parent_handles || is_busy l.with_locks)

-- The inode is dropped from the store as it is under the second locks. The children of the parent and
-- the state of the inode are not part of the store.
unfoldable pub evict_entry : InodeStore → InodeStore → InodeStore → ℕ → ℕ → Looks → InodeStore
evict_entry found locked s id now l = if may_evict found locked id now l then drop_inode s id else s

-- How many inodes `MetaEvictor` looks for, `none` if there are fewer than the limit.
abbrev pub to_evict : ℕ → ℕ → Option ℕ
to_evict total_inodes entry_limit =
    if ltb total_inodes entry_limit
    then none
    else some (max (max ((total_inodes - entry_limit) * 2) (entry_limit / 100)) 10)

unfoldable pub scan_entry : ℕ → (ℕ → Bool) → List ℕ → List ℕ → List ℕ
scan_entry limit seen [] scan = scan
scan_entry limit seen (id ∷ ids) scan =
    let scan' = if not (seen id) then scan ++ id ∷ [] else scan in
    let rest = scan_entry limit seen ids scan' in if leb limit (length scan') then scan' else rest

-- The seconds come in the order in which the map is gone through.
unfoldable pub scan_times : ℕ → (ℕ → Bool) → ℕ → (ℕ → List ℕ) → List ℕ → List ℕ → List ℕ
unfolding scan_entry
scan_times limit seen expire_unix by_time [] scan = scan
scan_times limit seen expire_unix by_time (tm ∷ tms) scan =
    let scan' = if ltb tm expire_unix then scan_entry limit seen (by_time tm) scan else scan in
    let rest = scan_times limit seen expire_unix by_time tms scan' in
    if leb limit (length scan') then scan' else rest

pub data InodeOp : Type 0 where
  insert : ℕ → InodeOp
  ref_inode : ℕ → InodeOp
  de_ref_inode : ℕ → ℕ → InodeOp
  set_clean : ℕ → Bool → InodeOp
  attr_time_now : ℕ → ℕ → InodeOp
  expire_time_now : ℕ → ℕ → InodeOp
  evict : InodeStore → InodeStore → ℕ → ℕ → Looks → InodeOp

-- Calls in order; the states of inodes change between them. `EvictEntry` stands where it has the second
-- locks, with the stores that it found the inode in and first locked it in, which may be any.
unfoldable pub run_op : ℕ → InodeStore → InodeOp → InodeStore
unfolding evict_entry
run_op ttl s (InodeOp.insert id) = record s { is_known = put_entry s.is_known id true }
run_op ttl s (InodeOp.ref_inode id) = ref s id
run_op ttl s (InodeOp.de_ref_inode id n) = (de_ref s id n).store
run_op ttl s (InodeOp.set_clean id c) = set_inode s id (record (s.inode id) { is_clean = c })
run_op ttl s (InodeOp.attr_time_now id tm) = set_attr_time ttl s id tm
run_op ttl s (InodeOp.expire_time_now id tm) = set_expire_time s id tm
run_op ttl s (InodeOp.evict found locked id now l) = evict_entry found locked s id now l

unfoldable pub run_ops : ℕ → InodeStore → List InodeOp → InodeStore
unfolding run_op
run_ops ttl s [] = s
run_ops ttl s (o ∷ os) = run_ops ttl (run_op ttl s o) os
