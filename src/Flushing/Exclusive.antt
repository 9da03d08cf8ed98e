-- ===== src/Flushing/Exclusive.antt =====
-- core/file.go: `TryFlush` starts no request beside one that must be alone.
use akavefs.Prelude.{ℕ, suc, ◌≡◌, ◌<◌, ◌⊎◌, refl, inl, inr, true, false, Bool-cases, ltb, arith}
use akavefs.Flushing.{
  View, Action, Flight, flushing, started, Reached, upload_or_complete, send_data, send_upload,
  try_flush,
}

-- What an action needs.
abbrev pub Allowed : View → Action → Type 0
Allowed v Action.nothing = Unit
Allowed v Action.schedule_retry = Unit
Allowed v Action.patch = v.use_patch ≡ true
Allowed v (Action.upload_parts n) = v.is_flushing < v.max_parallel_parts
Allowed v Action.complete = (v.is_flushing < v.max_parallel_parts) × (v.range_locked ≡ false)
Allowed v _ = v.is_flushing ≡ 0

upload_or_complete-Allowed :
    (v : View) → v.is_flushing < v.max_parallel_parts → Allowed v (upload_or_complete v)
upload_or_complete-Allowed v lt = ground arith

send_data-Allowed : (v : View) → Allowed v (send_data v)
send_data-Allowed v = ground arith

send_upload-Allowed : (v : View) → Allowed v (send_upload v)
unfolding send_upload
send_upload-Allowed v = ground (arith, send_data-Allowed v)

pub try_flush-Allowed : (v : View) → Allowed v (try_flush v)
unfolding try_flush
try_flush-Allowed v = ground (arith, send_upload-Allowed v)

-- Either only parts are in flight, or one other request alone.
abbrev pub IsExclusive : Flight → Type 0
IsExclusive s = (s.others ≡ 0) ⊎ ((s.others ≡ 1) × (s.parts ≡ 0))

module _ (max_parts : ℕ) (pos : 0 < max_parts) where
  -- What `IsFlushing` counts.
  flushing-IsExclusive :
      (s : Flight)
      → IsExclusive s
      → ((s.others ≡ 0) × (flushing max_parts s ≡ s.parts))
        ⊎ ((s.others ≡ 1) × (s.parts ≡ 0) × (flushing max_parts s ≡ max_parts))
  flushing-IsExclusive s (inl e) = inl (e, rw e (omega arith))
  flushing-IsExclusive s (inr (e, p)) = inr (e, p, rw (e, p) (omega arith))

  module _ (s : Flight) (v : View) (x : IsExclusive s) (same : v.is_flushing ≡ flushing max_parts s)
      (limit : v.max_parallel_parts ≡ max_parts) (no_patch : v.use_patch ≡ false)
      (locked : 0 < s.parts → v.range_locked ≡ true) where
    -- Nothing in flight, so that one request may start.
    alone : v.is_flushing ≡ 0 → (suc s.others ≡ 1) × (s.parts ≡ 0)
    alone e = elim (flushing-IsExclusive s x) [
      | inl (o, f) ↦ (omega arith, omega arith)
      | inr (o, p, f) ↦ absurd (omega arith)
    ]

    -- Only parts are in flight, so that other parts may start.
    parts_only : v.is_flushing < v.max_parallel_parts → s.others ≡ 0
    parts_only lt = elim (flushing-IsExclusive s x) [
      | inl (o, f) ↦ o
      | inr (o, p, f) ↦ absurd (omega arith)
    ]

    completes :
        v.is_flushing < v.max_parallel_parts
        → v.range_locked ≡ false
        → (suc s.others ≡ 1) × (s.parts ≡ 0)
    completes lt free =
        let o = parts_only lt in
        (
          omega arith,
          elim (Bool-cases (ltb 0 s.parts)) [
            | inl some_part ↦ let h = locked (ground arith) in absurd (ground (arith, h, free))
            | inr no_part ↦ ground arith
          ],
        )

    started-IsExclusive : (a : Action) → Allowed v a → IsExclusive (started a s)
    started-IsExclusive Action.nothing h = x
    started-IsExclusive Action.schedule_retry h = x
    started-IsExclusive Action.patch h = x
    started-IsExclusive (Action.upload_parts n) h = inl (parts_only h)
    started-IsExclusive Action.complete h = inr (completes h.0 h.1)
    started-IsExclusive Action.delete_object h = inr (alone h)
    started-IsExclusive Action.make_dir h = inr (alone h)
    started-IsExclusive Action.rename h = inr (alone h)
    started-IsExclusive Action.update_meta h = inr (alone h)
    started-IsExclusive Action.small_object h = inr (alone h)
    started-IsExclusive Action.min_multipart h = inr (alone h)
    started-IsExclusive Action.start_multipart h = inr (alone h)

  -- In each flight that is reached without PATCH, with a limit of at least one part: either only parts
  -- are in flight, or one other request, such as a rename, a deletion or the completion of an upload,
  -- alone. So `TryFlush` never starts such a request beside another one.
  pub Reached-IsExclusive : (s : Flight) → Reached max_parts s → IsExclusive s
  Reached-IsExclusive _ Reached.idle = inl refl
  Reached-IsExclusive _ (Reached.flushes s v r same limit no_patch locked) =
      started-IsExclusive s v (Reached-IsExclusive s r) same limit no_patch locked (try_flush v)
        (try_flush-Allowed v)
  Reached-IsExclusive _ (Reached.part_ends n m r) =
      elim (Reached-IsExclusive (record { parts = suc n; others = m }) r) [
        | inl e ↦ inl e
        | inr (e, p) ↦ absurd (omega arith)
      ]
  Reached-IsExclusive _ (Reached.other_ends n m r) =
      elim (Reached-IsExclusive (record { parts = n; others = suc m }) r) [
        | inl e ↦ absurd (omega arith)
        | inr (e, p) ↦ inl (omega arith)
      ]
