-- ===== src/FlushParts/Started.antt =====
-- core/file.go: what `sendUploadParts` has started, and when it lets the upload complete.
use akavefs.Prelude.{
  ℕ, ◌≡◌, ◌∙◌, refl, sym, ap, inl, inr, Bool, true, false, not, ◌&&◌, Bool-cases, some, List, [],
  ◌∷◌, ◌++◌, All, arith, subst, ◌>>=◌, length,
}
use akavefs.BTree.{BTree}
use akavefs.PartSizes.{PartSizeConfig, part_num}
use akavefs.RangeLocks.{ReadRange}
use akavefs.BufferList.{BufferList}
use akavefs.BufferList.Track.{iterate_dirty_parts}
use akavefs.FlushParts.{
  FlushView, Upload, go_flush_part, visit_parts, flush_rest, is_empty, flush_partly, flush_fully,
  send_upload_parts,
}
use akavefs.FlushParts.Chosen.{
  All-snoc, HasRange, IsStartable, IsSettled, IsSound, visit_part-Visited,
}

module _ ⦃bt : BTree⦄ (sizes : List PartSizeConfig) (v : FlushView) (l : BufferList)
    (locks : List ReadRange) where
  visit_parts-IsSound :
      (ps : List ℕ) (last : ℕ) (u : Upload)
      → IsSound sizes v l locks u
      → All (HasRange sizes v l locks) ps
      → part_num sizes v.last_write_end ≡ some last
      → (w : Upload) × (visit_parts sizes v l ps u ≡ some w)
        × IsSound sizes v l locks w
        × (w.should_complete ≡ true
            → (u.should_complete ≡ true) × All (IsSettled sizes v l locks) ps)
  unfolding visit_parts
  visit_parts-IsSound [] last u s ranges written = (u, refl, s, λ h. (h, tt))
  visit_parts-IsSound (p ∷ ps) last u s ranges written =
      let ((u1, c), run, (ok, settled)) =
        visit_part-Visited sizes v l locks p last u s ranges.0 written in
      elim (Bool-cases c) [
        | inl more ↦
            let (w, rest, sound, done) = visit_parts-IsSound ps last u1 ok ranges.1 written in
            (
              w,
              rw (visit_parts, run, more) rest,
              sound,
              λ h. ((settled (done h).0).0, ((settled (done h).0).1, (done h).1)),
            )
        | inr stop ↦
            (u1, rw (visit_parts, run, stop), ok, λ h. absurd (ground (arith, (settled h).2, stop)))
      ]

  flush_rest-started :
      (ps : List ℕ) (initiated : Bool) (u : Upload)
      → All (IsStartable sizes v l locks) ps
      → All (IsStartable sizes v l locks) u.started
      → (w : Upload) × (flush_rest sizes v l ps initiated u ≡ some w)
        × All (IsStartable sizes v l locks) w.started
        × (w.should_complete ≡ u.should_complete)
        × (w.partly ≡ u.partly)
  unfolding flush_rest
  flush_rest-started [] initiated u a s = (u, refl, s, refl, refl)
  flush_rest-started (p ∷ ps) true u a s =
      let (o, n, range, free, dirty, whole) = a.0 in
      elim (Bool-cases (v.exceeded (length u.started))) [
        | inl over ↦ (u, rw (flush_rest, range, over), s, refl, refl)
        | inr under ↦
            let (w, run, started, same, kept) = flush_rest-started ps true u a.1 s in
            (w, rw (flush_rest, range, under) run, started, same, kept)
      ]
  flush_rest-started (p ∷ ps) false u a s =
      let (o, n, range, free, dirty, whole) = a.0 in
      let u1 : Upload = go_flush_part u p o n in
      let s1 = All-snoc (IsStartable sizes v l locks) u.started p s a.0 in
      elim (Bool-cases (v.exceeded (length (u.started ++ p ∷ [])))) [
        | inl over ↦ (u1, rw (flush_rest, range, over), s1, refl, refl)
        | inr under ↦
            let (w, run, started, same, kept) = flush_rest-started ps true u1 a.1 s1 in
            (w, rw (flush_rest, range, under) run, started, same, kept)
      ]

  -- The loops over the parts with zeroes.
  flush_partly-started :
      (u : Upload)
      → All (IsStartable sizes v l locks) u.partly
      → All (IsStartable sizes v l locks) u.started
      → (w : Upload) × (flush_partly sizes v l u ≡ some w)
        × All (IsStartable sizes v l locks) w.started
        × (w.should_complete ≡ u.should_complete)
        × (w.partly ≡ u.partly)
  unfolding flush_rest
  flush_partly-started u a s =
      elim (Bool-cases (is_empty sizes v l u.started && not (is_empty sizes v l u.partly))) [
        | inl first ↦
            let (w, run, started, same, kept) = flush_rest-started u.partly false u a s in
            (w, rw first run, started, same, kept)
        | inr skipped ↦ (u, rw skipped, s, refl, refl)
      ]

  flush_fully-started :
      (u : Upload)
      → All (IsStartable sizes v l locks) u.partly
      → All (IsStartable sizes v l locks) u.started
      → (w : Upload) × (flush_fully sizes v l u ≡ some w)
        × All (IsStartable sizes v l locks) w.started
        × (w.should_complete ≡ u.should_complete)
  unfolding flush_rest
  flush_fully-started u a s =
      elim (Bool-cases
        ((is_empty sizes v l u.started && u.any_evicted) && not (is_empty sizes v l u.fully))) [
          | inl first ↦
              let (w, run, started, same, kept) = flush_rest-started u.partly false u a s in
              (w, rw first run, started, same)
          | inr skipped ↦ (u, rw skipped, s, refl)
        ]

  -- Where the upload should complete, no part was left over for these loops.
  flush-none :
      (u : Upload)
      → u.started ≡ []
      → u.partly ≡ []
      → u.fully ≡ []
      → (flush_partly sizes v l u ≡ some u) × (flush_fully sizes v l u ≡ some u)
  unfolding flush_rest
  flush-none u e f g = (rw (e, f), ground (arith, e, g))

  abbrev start_state : Upload
  start_state = record {
    locks = locks;
    started = [];
    should_complete = true;
    partly = [];
    fully = [];
    any_evicted = false;
  }

  start_state-IsSound : IsSound sizes v l locks start_state
  start_state-IsSound = record {
    locked = λ o n h. h;
    started = tt;
    partly = tt;
    untouched = λ h. (refl, refl, refl);
  }

  send_upload_parts_run :
      (u w x : Upload)
      → visit_parts sizes v l (iterate_dirty_parts l.track) start_state ≡ some u
      → flush_partly sizes v l u ≡ some w
      → flush_fully sizes v l w ≡ some x
      → send_upload_parts sizes v l locks ≡ some x
  unfolding send_upload_parts
  send_upload_parts_run u w x a b c =
      ap (λ o. o >>= λ y. (flush_partly sizes v l y >>= flush_fully sizes v l)) a
      ∙ ap (λ o. o >>= flush_fully sizes v l) b
      ∙ c

  -- If the dirty parts and the end of the last write have parts in the table, `sendUploadParts` does
  -- not panic and ends. Each part that it starts was not locked by the flusher before, has a dirty
  -- buffer and none that is evicted. If it lets the upload complete then it starts no part, and no
  -- dirty part is locked or could be started.
  pub send_upload_parts-started :
      (last : ℕ)
      → All (HasRange sizes v l locks) (iterate_dirty_parts l.track)
      → part_num sizes v.last_write_end ≡ some last
      → (w : Upload) × (send_upload_parts sizes v l locks ≡ some w)
        × All (IsStartable sizes v l locks) w.started
        × (w.should_complete ≡ true
            → (w.started ≡ []) × All (IsSettled sizes v l locks) (iterate_dirty_parts l.track))
  send_upload_parts-started last ranges written =
      let (u, run, sound, done) =
        visit_parts-IsSound (iterate_dirty_parts l.track) last start_state start_state-IsSound
          ranges written in
      elim (Bool-cases u.should_complete) [
        | inl complete ↦
            let free = sound.untouched complete in
            let rest = flush-none u free.0 free.1 free.2 in
            (
              u,
              send_upload_parts_run u u u run rest.0 rest.1,
              sound.started,
              λ h. (free.0, (done complete).1),
            )
        | inr busy ↦
            let (w, first, started, same, kept) =
              flush_partly-started u sound.partly sound.started in
            let (x, second, started', same') =
              flush_fully-started w
                (subst (All (IsStartable sizes v l locks)) (sym kept) sound.partly) started in
            (
              x,
              send_upload_parts_run u w x run first second,
              started',
              λ h. absurd (ground (arith, same, same', busy, h)),
            )
      ]
