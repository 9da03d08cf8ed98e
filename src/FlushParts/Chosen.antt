-- ===== src/FlushParts/Chosen.antt =====
-- core/file.go: the parts that `sendUploadParts` starts, and when an upload may complete.
use akavefs.Prelude.{
  ℕ, ◌≡◌, ◌⊎◌, refl, inl, inr, Bool, true, false, Bool-cases, some, List, [], ◌∷◌, ◌++◌, All, arith,
  add64,
}
use akavefs.BTree.{BTree}
use akavefs.PartSizes.{PartSizeConfig, part_num, part_range}
use akavefs.RangeLocks.{ReadRange, is_range_locked}
use akavefs.RangeLocks.Locked.{is_range_locked-lock_range}
use akavefs.BufferList.{BufferList}
use akavefs.FlushParts.{
  PartScan, FlushView, Choice, choose, Upload, go_flush_part, busy, carry_out, scan_of,
  is_last_written, visit_part,
}

pub All-snoc : (P : ℕ → Type 0) (ps : List ℕ) (p : ℕ) → All P ps → P p → All P (ps ++ p ∷ [])
All-snoc P [] p a h = (h, tt)
All-snoc P (q ∷ ps) p a h = (a.0, All-snoc P ps p a.1 h)

-- What may be chosen for a part: it is started, now or later, only if it is dirty and nothing of it is
-- evicted, and passed over only otherwise.
choose-cases :
    (v : FlushView) (end : ℕ) (s : PartScan)
    → ((choose v end s ≡ Choice.skip) × ((s.dirty ≡ false) ⊎ (s.evicted ≡ true)))
      ⊎ ((s.dirty ≡ true)
          × (s.evicted ≡ false)
          × ((choose v end s ≡ Choice.flush)
              ⊎ ((choose v end s ≡ Choice.partly_zero)
                  ⊎ ((choose v end s ≡ Choice.fully_zero) ⊎ (choose v end s ≡ Choice.postpone)))))
choose-cases v end s = ground arith

module _ ⦃bt : BTree⦄ (sizes : List PartSizeConfig) (v : FlushView) (l : BufferList)
    (locks : List ReadRange) where
  -- The part has a range.
  abbrev pub HasRange : ℕ → Type 0
  HasRange p = (o : ℕ) × (n : ℕ) × (part_range sizes p ≡ some (o, n))

  -- A part that may start: the flusher had not locked it, it is dirty and nothing of it is evicted.
  abbrev pub IsStartable : ℕ → Type 0
  IsStartable p =
      (o : ℕ) × (n : ℕ) × (part_range sizes p ≡ some (o, n))
      × (is_range_locked locks o n true ≡ false)
      × ((scan_of sizes v l o n).dirty ≡ true)
      × ((scan_of sizes v l o n).evicted ≡ false)

  -- A part with nothing to start: it is not locked, and it is not dirty or some of it is evicted.
  abbrev pub IsSettled : ℕ → Type 0
  IsSettled p =
      (o : ℕ) × (n : ℕ) × (part_range sizes p ≡ some (o, n))
      × (is_range_locked locks o n true ≡ false)
      × (((scan_of sizes v l o n).dirty ≡ false) ⊎ ((scan_of sizes v l o n).evicted ≡ true))

  -- The variables of the loop.
  pub record IsSound (u : Upload) : Type 0 where
    pub locked :
        (o n : ℕ)
        → is_range_locked u.locks o n true ≡ false
        → is_range_locked locks o n true ≡ false
    pub started : All IsStartable u.started
    pub partly : All IsStartable u.partly
    pub untouched : u.should_complete ≡ true → (u.started ≡ []) × (u.partly ≡ []) × (u.fully ≡ [])

  IsSound-busy : (u : Upload) → IsSound u → IsSound (busy u)
  IsSound-busy u s = record {
    locked = s.locked;
    started = s.started;
    partly = s.partly;
    untouched = λ h. absurd (ground (arith, h));
  }

  -- A part that is started.
  IsSound-go_flush_part :
      (u : Upload) (p o n : ℕ)
      → IsSound u
      → u.should_complete ≡ false
      → IsStartable p
      → IsSound (go_flush_part u p o n)
  IsSound-go_flush_part u p o n s gone start = record {
    locked = λ o' n' h. s.locked o' n' (is_range_locked-lock_range u.locks o' n' o n h);
    started = All-snoc IsStartable u.started p s.started start;
    partly = s.partly;
    untouched = λ h. absurd (ground (arith, h, gone));
  }

  -- A round of the loop.
  abbrev pub Visited : ℕ → Upload → Upload × Bool → Type 0
  Visited p u r =
      IsSound r.0
      × (r.0.should_complete ≡ true → (u.should_complete ≡ true) × IsSettled p × (r.1 ≡ true))

  Visited-busy : (p : ℕ) (u : Upload) → IsSound u → Visited p u (busy u, true)
  Visited-busy p u s = (IsSound-busy u s, λ h. absurd (ground (arith, h)))

  carry_out-Visited :
      (p o n : ℕ) (u : Upload) (scan : PartScan) (c : Choice)
      → IsSound u
      → ((c ≡ Choice.skip) × IsSettled p)
        ⊎ (IsStartable p
            × ((c ≡ Choice.flush)
                ⊎ ((c ≡ Choice.partly_zero) ⊎ ((c ≡ Choice.fully_zero) ⊎ (c ≡ Choice.postpone)))))
      → Visited p u (carry_out v p o n scan c u)
  carry_out-Visited p o n u scan c s (inl (e, settled)) = rw e (
    record { locked = s.locked; started = s.started; partly = s.partly; untouched = s.untouched },
    λ h. (h, settled, refl),
  )
  carry_out-Visited p o n u scan c s (inr (start, inl e)) = rw e (
    IsSound-go_flush_part (busy u) p o n (IsSound-busy u s) refl start,
    λ h. absurd (ground (arith, h)),
  )
  carry_out-Visited p o n u scan c s (inr (start, inr (inl e))) = rw e (
    record {
      locked = s.locked;
      started = s.started;
      partly = All-snoc IsStartable u.partly p s.partly start;
      untouched = λ h. absurd (ground (arith, h));
    },
    λ h. absurd (ground (arith, h)),
  )
  carry_out-Visited p o n u scan c s (inr (start, inr (inr (inl e)))) = rw e (
    record {
      locked = s.locked;
      started = s.started;
      partly = s.partly;
      untouched = λ h. absurd (ground (arith, h));
    },
    λ h. absurd (ground (arith, h)),
  )
  carry_out-Visited p o n u scan c s (inr (start, inr (inr (inr e)))) =
      rw e (IsSound-busy u s, λ h. absurd (ground (arith, h)))

  chosen :
      (p o n : ℕ) (u : Upload)
      → IsSound u
      → part_range sizes p ≡ some (o, n)
      → is_range_locked u.locks o n true ≡ false
      → Visited p u (
          carry_out v p o n
            (scan_of sizes v l o n)
            (choose v (add64 o n) (scan_of sizes v l o n))
            u)
  chosen p o n u s range free =
      carry_out-Visited p o n u (scan_of sizes v l o n)
        (choose v (add64 o n) (scan_of sizes v l o n)) s
        (elim (choose-cases v (add64 o n) (scan_of sizes v l o n)) [
          | inl (e, done) ↦ inl (e, (o, n, range, s.locked o n free, done))
          | inr (dirty, whole, which) ↦ inr ((o, n, range, s.locked o n free, dirty, whole), which)
        ])

  pub visit_part-Visited :
      (p last : ℕ) (u : Upload)
      → IsSound u
      → HasRange p
      → part_num sizes v.last_write_end ≡ some last
      → (r : Upload × Bool) × (visit_part sizes v l p u ≡ some r) × Visited p u r
  unfolding visit_part
  visit_part-Visited p last u s (o, n, range) written =
      elim (Bool-cases (is_range_locked u.locks o n true)) [
        | inl taken ↦ ((busy u, true), rw (visit_part, range, taken), Visited-busy p u s)
        | inr free ↦ elim (Bool-cases (is_last_written sizes v l p last)) [
          | inl here ↦
              ((busy u, true), rw (visit_part, range, free, written, here), Visited-busy p u s)
          | inr other ↦ (
            carry_out v p o n (scan_of sizes v l o n) (choose v (add64 o n) (scan_of sizes v l o n))
                u,
            rw (visit_part, range, free, written, other),
            chosen p o n u s range free,
          )
        ]
      ]
