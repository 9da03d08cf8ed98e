-- ===== src/Expiry/Scan.antt =====
-- core/goofys.go: the scan of `MetaEvictor` finds inodes that have expired and that it has not tried
-- before, all of them unless it finds as many as it looks for.
use akavefs.Prelude.{
  ℕ, ◌<◌, ◌≡◌, ◌≢◌, ◌∙◌, refl, sym, subst, Bool, true, false, not, ◌&&◌, ◌||◌, ◌⊎◌, inl, inr,
  Bool-cases, List, [], ◌∷◌, ◌++◌, length, ltb, leb, ◌==◌, if◌then◌else◌, arith,
}
use akavefs.Expiry.{InodeStore, unix, has_id, scan_entry, scan_times}
use akavefs.Expiry.Indexed.{expires_at, IsIndexed}

has_id-append : (id j : ℕ) (xs : List ℕ) → has_id id (xs ++ j ∷ []) ≡ (has_id id xs || j == id)
has_id-append id j [] = ground arith
has_id-append id j (x ∷ xs) = let rest = has_id-append id j xs in ground (arith, rest)

module _ (limit : ℕ) (seen : ℕ → Bool) where
  abbrev with_entry : ℕ → List ℕ → List ℕ
  with_entry x scan = if not (seen x) then scan ++ x ∷ [] else scan

  has_id-with_entry :
      (id x : ℕ) (scan : List ℕ)
      → has_id id (with_entry x scan) ≡ (has_id id scan || (not (seen x) && x == id))
  has_id-with_entry id x scan = elim (Bool-cases (seen x)) [
    | inl old ↦ rw old (ground arith)
    | inr new ↦ rw new (has_id-append id x scan)
  ]

  -- What the entry gives.
  with_entry-found :
      (id x : ℕ) (scan : List ℕ)
      → has_id id (with_entry x scan) ≡ true
      → (has_id id scan ≡ true) ⊎ ((seen id ≡ false) × ((x == id) ≡ true))
  with_entry-found id x scan h =
      let k = sym (has_id-with_entry id x scan) ∙ h in
      elim (Bool-cases (has_id id scan)) [
        | inl before ↦ inl before
        | inr not_before ↦
            let same : (x == id) ≡ true = ground (arith, k, not_before) in
            let new : seen x ≡ false = ground (arith, k, not_before) in
            let e : x ≡ id = ground (arith, same) in inr (subst (λ j. seen j ≡ false) e new, same)
      ]

  with_entry-all :
      (id x : ℕ) (ids scan : List ℕ)
      → (has_id id scan ≡ true) ⊎ ((seen id ≡ false) × (has_id id (x ∷ ids) ≡ true))
      → (has_id id (with_entry x scan) ≡ true) ⊎ ((seen id ≡ false) × (has_id id ids ≡ true))
  with_entry-all id x ids scan (inl h) =
      inl (let k = has_id-with_entry id x scan in ground (arith, k, h))
  with_entry-all id x ids scan (inr (n, h)) = elim (Bool-cases (x == id)) [
    | inl same ↦
        let e : id ≡ x = ground (arith, same) in
        let new : seen x ≡ false = subst (λ j. seen j ≡ false) e n in
        inl (let k = has_id-with_entry id x scan in ground (arith, k, new, same))
    | inr other ↦ inr (n, ground (arith, h, other))
  ]

  -- What is found is there and was not seen, or was found before.
  entry-found :
      (ids scan : List ℕ) (id : ℕ)
      → has_id id (scan_entry limit seen ids scan) ≡ true
      → (has_id id scan ≡ true) ⊎ ((seen id ≡ false) × (has_id id ids ≡ true))
  unfolding scan_entry
  entry-found [] scan id h = inl h
  entry-found (x ∷ ids) scan id h =
      elim (elim (Bool-cases (leb limit (length (with_entry x scan))))
        as (λ _.
          (has_id id (with_entry x scan) ≡ true) ⊎ ((seen id ≡ false) × (has_id id ids ≡ true))) [
            | inl full ↦ inl (rw (scan_entry, full) at h)
            | inr more ↦ entry-found ids (with_entry x scan) id (rw (scan_entry, more) at h)
          ]) [
            | inl here ↦ elim (with_entry-found id x scan here) [
              | inl before ↦ inl before
              | inr (n, same) ↦ inr (n, ground (arith, same))
            ]
            | inr (n, later) ↦ inr (n, ground (arith, later))
          ]

  -- Unless as many are found as are looked for, what was found stays, and all that was not seen is.
  entry-all :
      (ids scan : List ℕ) (id : ℕ)
      → length (scan_entry limit seen ids scan) < limit
      → ((has_id id scan ≡ true) ⊎ ((seen id ≡ false) × (has_id id ids ≡ true)))
      → has_id id (scan_entry limit seen ids scan) ≡ true
  unfolding scan_entry
  entry-all [] scan id lt h = elim h [ inl k ↦ k | inr (n, k) ↦ absurd cc ]
  entry-all (x ∷ ids) scan id lt h =
      let next = with_entry-all id x ids scan h in
      elim (Bool-cases (leb limit (length (with_entry x scan)))) [
        | inl full ↦ absurd (let lt' = rw (scan_entry, full) at lt in ground (arith, full, lt'))
        | inr more ↦
            rw (scan_entry, more)
              (entry-all ids (with_entry x scan) id (rw (scan_entry, more) at lt) next)
      ]

  module _ (expire_unix : ℕ) (by_time : ℕ → List ℕ) where
    -- The inode is in an entry of a second before the limit.
    abbrev IsBefore : ℕ → ℕ → Type 0
    IsBefore id second = (second < expire_unix) × (has_id id (by_time second) ≡ true)

    abbrev with_second : ℕ → List ℕ → List ℕ
    with_second tm scan =
        if ltb tm expire_unix then scan_entry limit seen (by_time tm) scan else scan

    times-found :
        (order scan : List ℕ) (id : ℕ)
        → has_id id (scan_times limit seen expire_unix by_time order scan) ≡ true
        → (has_id id scan ≡ true) ⊎ ((seen id ≡ false) × ((second : ℕ) × IsBefore id second))
    unfolding scan_times
    times-found [] scan id h = inl h
    times-found (tm ∷ order) scan id h =
        elim (elim (Bool-cases (leb limit (length (with_second tm scan))))
          as (λ _.
            (has_id id (with_second tm scan) ≡ true)
            ⊎ ((seen id ≡ false) × ((second : ℕ) × IsBefore id second))) [
              | inl full ↦ inl (rw (scan_times, full) at h)
              | inr more ↦ times-found order (with_second tm scan) id (rw (scan_times, more) at h)
            ]) [
              | inr later ↦ inr later
              | inl here ↦ elim (Bool-cases (ltb tm expire_unix)) [
                | inr late ↦ inl (rw late at here)
                | inl early ↦ elim (entry-found (by_time tm) scan id (rw early at here)) [
                  | inl before ↦ inl before
                  | inr (n, k) ↦ inr (n, (tm, (ground (arith, early), k)))
                ]
              ]
            ]

    with_second-all :
        (tm : ℕ) (order scan : List ℕ) (id second : ℕ)
        → length (with_second tm scan) < limit
        → IsBefore id second
        → seen id ≡ false
        → (has_id id scan ≡ true) ⊎ (has_id second (tm ∷ order) ≡ true)
        → (has_id id (with_second tm scan) ≡ true) ⊎ (has_id second order ≡ true)
    with_second-all tm order scan id second room b n h = elim (Bool-cases (ltb tm expire_unix)) [
      | inr late ↦
          rw late
            (elim h [ inl k ↦ inl k | inr k ↦ inr (let lt = b.0 in ground (arith, k, late, lt)) ])
      | inl early ↦
          let room' = rw early at room in
          rw early (elim h [
            | inl k ↦ inl (entry-all (by_time tm) scan id room' (inl k))
            | inr k ↦ elim (Bool-cases (tm == second)) [
              | inl here ↦
                  let e : second ≡ tm = ground (arith, here) in
                  inl (
                    entry-all (by_time tm) scan id room'
                      (inr (n, subst (λ j. has_id id (by_time j) ≡ true) e (b.1))))
              | inr other ↦ inr (ground (arith, k, other))
            ]
          ])
    ]

    times-all :
        (order scan : List ℕ) (id second : ℕ)
        → length (scan_times limit seen expire_unix by_time order scan) < limit
        → IsBefore id second
        → seen id ≡ false
        → (has_id id scan ≡ true) ⊎ (has_id second order ≡ true)
        → has_id id (scan_times limit seen expire_unix by_time order scan) ≡ true
    unfolding scan_times
    times-all [] scan id second lt b n h = elim h [ inl k ↦ k | inr k ↦ absurd cc ]
    times-all (tm ∷ order) scan id second lt b n h =
        elim (Bool-cases (leb limit (length (with_second tm scan)))) [
          | inl full ↦ absurd (let lt' = rw (scan_times, full) at lt in ground (arith, full, lt'))
          | inr more ↦
              let room : length (with_second tm scan) < limit = ground (arith, more) in
              rw (scan_times, more)
                (times-all order (with_second tm scan) id second (rw (scan_times, more) at lt) b n
                  (with_second-all tm order scan id second room b n h))
        ]

expires_itself : (t : ℕ) → t ≢ 0 → expires_at t (unix t) ≡ true
expires_itself t h = elim (Bool-cases (t == 0)) [
  | inl z ↦ absurd (h (ground (arith, z)))
  | inr some_time ↦ let e : (unix t == unix t) ≡ true = ground arith in rw (some_time, e) refl
]

-- With a right index and an order that has each second of which the index has an entry, an inode that
-- the scan finds has expired before the time and was not seen; unless as many are found as are looked
-- for, each such inode is found.
pub scan_times-expired :
    (s : InodeStore) (limit : ℕ) (seen : ℕ → Bool) (expire_unix : ℕ) (order : List ℕ) (id : ℕ)
    → IsIndexed s
    → ((second id : ℕ) → has_id id (s.inodes_by_time second) ≡ true → has_id second order ≡ true)
    → (has_id id (scan_times limit seen expire_unix s.inodes_by_time order []) ≡ true
        → (seen id ≡ false)
          × ((s.inode id).expire_time ≢ 0)
          × (unix (s.inode id).expire_time < expire_unix))
      × (length (scan_times limit seen expire_unix s.inodes_by_time order []) < limit
          → seen id ≡ false
          → (s.inode id).expire_time ≢ 0
          → unix (s.inode id).expire_time < expire_unix
          → has_id id (scan_times limit seen expire_unix s.inodes_by_time order []) ≡ true)
scan_times-expired s limit seen expire_unix order id index every = (
  λ h. elim (times-found limit seen expire_unix s.inodes_by_time order [] id h) [
    | inl k ↦ absurd cc
    | inr (n, (second, (lt, there))) ↦
        let at : expires_at (s.inode id).expire_time second ≡ true =
          sym (index second id) ∙ there in
        (n, λ z. absurd (ground (arith, at, z)), ground (arith, at, lt))
  ],
  λ lt n some_time early.
      let at : expires_at (s.inode id).expire_time (unix (s.inode id).expire_time) ≡ true =
        expires_itself (s.inode id).expire_time some_time in
      let there = index (unix (s.inode id).expire_time) id ∙ at in
      times-all limit seen expire_unix s.inodes_by_time order [] id (unix (s.inode id).expire_time)
        lt (early, there) n (inr (every (unix (s.inode id).expire_time) id there)),
)
