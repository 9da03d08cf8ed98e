-- ===== src/Expiry/Indexed.antt =====
-- core/handles.go: `inodesByTime` has each inode at the second in which it expires, and nowhere else.
use akavefs.Prelude.{
  ℕ, ◌+◌, ◌-◌, ◌≡◌, ◌∙◌, refl, sym, ap, subst, Bool, true, false, not, ◌&&◌, ◌||◌, inl, inr,
  Bool-cases, List, [], ◌∷◌, ltb, leb, ◌==◌, arith,
}
use akavefs.Expiry.{
  InodeTimes, InodeStore, unix, put_entry, has_id, delete_id, add_id, forget_time, note_time,
  set_inode, set_expire_time, reset_expire_time, drop_inode, may_evict, evict_entry, InodeOp,
  run_op, run_ops,
}

has_id-delete_id :
    (id j : ℕ) (xs : List ℕ) → has_id id (delete_id j xs) ≡ (has_id id xs && not (j == id))
has_id-delete_id id j [] = refl
has_id-delete_id id j (x ∷ xs) = let rest = has_id-delete_id id j xs in ground (arith, rest)

has_id-add_id : (id j : ℕ) (xs : List ℕ) → has_id id (add_id j xs) ≡ (j == id || has_id id xs)
has_id-add_id id j xs = elim (Bool-cases (has_id j xs)) [
  | inl there ↦ rw there (elim (Bool-cases (j == id)) [
    | inl same ↦
        let e : j ≡ id = ground (arith, same) in rw same (subst (λ i. has_id i xs ≡ true) e there)
    | inr other ↦ rw other refl
  ])
  | inr gone ↦ rw gone refl
]

-- The second of the expiry time, unless it is zero.
abbrev pub expires_at : ℕ → ℕ → Bool
expires_at tm second = not (tm == 0) && unix tm == second

abbrev IsIndex : (ℕ → ℕ) → (ℕ → List ℕ) → Type 0
IsIndex e m = (second id : ℕ) → has_id id (m second) ≡ expires_at (e id) second

forget_time-others :
    (e : ℕ → ℕ) (m : ℕ → List ℕ) (j second id : ℕ)
    → IsIndex e m
    → has_id id (forget_time j (unix (e j)) m second) ≡ (not (j == id) && expires_at (e id) second)
forget_time-others e m j second id h = elim (Bool-cases (second == unix (e j))) [
  | inl here ↦
      let at : second ≡ unix (e j) = ground (arith, here) in
      let d = has_id-delete_id id j (m (unix (e j))) in
      let i = subst (λ k. has_id id (m k) ≡ expires_at (e id) second) at (h second id) in
      rw here (ground (arith, d, i))
  | inr there ↦ elim (Bool-cases (j == id)) [
    | inl same ↦
        let eq : j ≡ id = ground (arith, same) in
        let i = h second j in
        let none : expires_at (e j) second ≡ false = ground (arith, there) in
        rw (there, same) (subst (λ k. has_id k (m second) ≡ false) eq (i ∙ none))
    | inr other ↦ rw (there, other) (h second id)
  ]
]

-- With no new time.
forget_time-IsIndex :
    (e : ℕ → ℕ) (m : ℕ → List ℕ) (j : ℕ)
    → IsIndex e m
    → IsIndex (put_entry e j 0) (forget_time j (unix (e j)) m)
forget_time-IsIndex e m j h second id =
    forget_time-others e m j second id h ∙ (elim (Bool-cases (id == j)) [
      | inl same ↦ let k : (j == id) ≡ true = ground (arith, same) in rw (same, k) refl
      | inr other ↦ let k : (j == id) ≡ false = ground (arith, other) in rw (other, k) refl
    ])

has_id-note_time :
    (m : ℕ → List ℕ) (j second k id : ℕ)
    → has_id id (note_time j second m k) ≡ (((k == second) && j == id) || has_id id (m k))
has_id-note_time m j second k id = elim (Bool-cases (k == second)) [
  | inl here ↦
      let at : second ≡ k = ground (arith, here) in
      rw here (
        subst (λ s. has_id id (add_id j (m s)) ≡ (j == id || has_id id (m k))) (sym at)
          (has_id-add_id id j (m k)))
  | inr there ↦ rw there refl
]

and_true : (b : Bool) → (b && true || false) ≡ b
and_true true = refl
and_true false = refl

and_false : (b c : Bool) → (b && false || c) ≡ c
and_false true c = refl
and_false false c = refl

put_entry-expire_time :
    (f : ℕ → InodeTimes) (j id : ℕ) (x : InodeTimes)
    → put_entry (λ i. (f i).expire_time) j x.expire_time id ≡ (put_entry f j x id).expire_time
put_entry-expire_time f j id x = elim (Bool-cases (id == j)) [
  | inl here ↦ rw here refl
  | inr there ↦ rw there refl
]

-- With a new time.
note_time-IsIndex :
    (e : ℕ → ℕ) (m : ℕ → List ℕ) (j tm : ℕ)
    → (tm == 0) ≡ false
    → IsIndex e m
    → IsIndex (put_entry e j tm) (note_time j (unix tm) (forget_time j (unix (e j)) m))
note_time-IsIndex e m j tm some_time h second id =
    let f = forget_time-others e m j second id h in
    has_id-note_time (forget_time j (unix (e j)) m) j (unix tm) second id
    ∙ ap (λ b. ((second == unix tm) && j == id) || b) f
    ∙ (elim (Bool-cases (id == j)) [
      | inl same ↦
          let k : (j == id) ≡ true = ground (arith, same) in
          let flip : (second == unix tm) ≡ (unix tm == second) = ground arith in
          rw (same, k, some_time, flip) (and_true (unix tm == second))
      | inr other ↦
          let k : (j == id) ≡ false = ground (arith, other) in
          rw (other, k) (and_false (second == unix tm) (expires_at (e id) second))
    ])

-- The index of a store.
abbrev pub IsIndexed : InodeStore → Type 0
IsIndexed s =
    (second id : ℕ)
    → has_id id (s.inodes_by_time second) ≡ expires_at (s.inode id).expire_time second

-- A change of an inode that keeps its expiry time.
keep-IsIndexed :
    (s : InodeStore) (j : ℕ) (x : InodeTimes)
    → x.expire_time ≡ (s.inode j).expire_time
    → IsIndexed s
    → IsIndexed (set_inode s j x)
keep-IsIndexed s j x same h second id = h second id ∙ (elim (Bool-cases (id == j)) [
  | inl here ↦
      let e : id ≡ j = ground (arith, here) in
      rw here (ap (λ t. expires_at t second) (ap (λ i. (s.inode i).expire_time) e ∙ sym same))
  | inr there ↦ rw there refl
])

reset-IsIndexed : (s : InodeStore) (j : ℕ) → IsIndexed s → IsIndexed (reset_expire_time s j)
reset-IsIndexed s j h second id =
    forget_time-IsIndex (λ i. (s.inode i).expire_time) s.inodes_by_time j h second id
    ∙ ap (λ t. expires_at t second)
        (put_entry-expire_time s.inode j id (record (s.inode j) { expire_time = 0 }))

set_expire_time-IsIndexed :
    (s : InodeStore) (j tm : ℕ) → IsIndexed s → IsIndexed (set_expire_time s j tm)
set_expire_time-IsIndexed s j tm h = elim (Bool-cases (ltb tm (s.inode j).expire_time)) [
  | inl later ↦ rw later h
  | inr now ↦ rw now (elim (Bool-cases (tm == 0)) [
    | inl zero_time ↦
        let z : tm ≡ 0 = ground (arith, zero_time) in
        rw zero_time (
          subst
            (λ t. IsIndexed (record (set_inode s j (record (s.inode j) { expire_time = t })) {
              inodes_by_time = forget_time j (unix (s.inode j).expire_time) s.inodes_by_time;
            }))
            (sym z) (reset-IsIndexed s j h))
    | inr some_time ↦ rw some_time (λ second id.
        note_time-IsIndex (λ i. (s.inode i).expire_time) s.inodes_by_time j tm some_time h second id
        ∙ ap (λ t. expires_at t second)
            (put_entry-expire_time s.inode j id (record (s.inode j) { expire_time = tm })))
  ])
]

drop-IsIndexed : (s : InodeStore) (j : ℕ) → IsIndexed s → IsIndexed (drop_inode s j)
drop-IsIndexed s j h = reset-IsIndexed s j h

run_op-IsIndexed :
    (ttl : ℕ) (s : InodeStore) (o : InodeOp) → IsIndexed s → IsIndexed (run_op ttl s o)
unfolding run_op evict_entry
run_op-IsIndexed ttl s (InodeOp.insert id) h = h
run_op-IsIndexed ttl s (InodeOp.ref_inode id) h =
    keep-IsIndexed s id (record (s.inode id) { refcnt = (s.inode id).refcnt + 1 }) refl h
run_op-IsIndexed ttl s (InodeOp.de_ref_inode id n) h =
    let t = record (s.inode id) { refcnt = (s.inode id).refcnt - n } in
    let k = keep-IsIndexed s id t refl h in
    elim (Bool-cases (leb (s.inode id).refcnt n && (s.inode id).is_clean)) [
      | inl drop ↦ rw drop (drop-IsIndexed (set_inode s id t) id k)
      | inr stay ↦ rw stay k
    ]
run_op-IsIndexed ttl s (InodeOp.set_clean id c) h =
    keep-IsIndexed s id (record (s.inode id) { is_clean = c }) refl h
run_op-IsIndexed ttl s (InodeOp.attr_time_now id tm) h =
    set_expire_time-IsIndexed (set_inode s id (record (s.inode id) { attr_time = tm })) id
      (tm + ttl) (keep-IsIndexed s id (record (s.inode id) { attr_time = tm }) refl h)
run_op-IsIndexed ttl s (InodeOp.expire_time_now id tm) h = set_expire_time-IsIndexed s id tm h
run_op-IsIndexed ttl s (InodeOp.evict found locked id now l) h =
    elim (Bool-cases (may_evict found locked id now l)) [
      | inl go ↦ rw go (drop-IsIndexed s id h)
      | inr stay ↦ rw stay h
    ]

-- After calls in any order on a store whose index is right, an inode is in the index at the second of
-- its expiry time, unless that is the zero time, and at no other second.
pub run_ops-IsIndexed :
    (ttl : ℕ) (s : InodeStore) (ops : List InodeOp) → IsIndexed s → IsIndexed (run_ops ttl s ops)
unfolding run_ops
run_ops-IsIndexed ttl s [] h = h
run_ops-IsIndexed ttl s (o ∷ ops) h =
    run_ops-IsIndexed ttl (run_op ttl s o) ops (run_op-IsIndexed ttl s o h)
