-- ===== src/MultipartCopy/Rounds.antt =====
-- core/backend_s3.go: the inner loop of `mpuCopyParts`, for one configured size.
use native.Mathlib.Nat.{suc-mul, div-eq_of_lt-le}
use akavefs.Prelude.{
  ℕ, zero, suc, ◌+◌, ◌-◌, ◌*◌, ◌/◌, ◌^◌, ◌≤◌, ◌<◌, ◌≡◌, ◌∙◌, refl, sym, ap, inl, inr, true, false,
  Bool-cases, List, [], ◌∷◌, ◌++◌, length, add64, add64-eq, sub64, sub64-eq, slt64, slt64-ltb, ltb,
  is_negative, arith, subst,
}
use akavefs.MultipartCopy.{CopyRange, Copies, smin64, copy_rounds, quot64}

-- Ranges that are not empty and follow each other from an offset to another.
abbrev pub IsTiling : ℕ → ℕ → List CopyRange → Type 0
IsTiling s e [] = s ≡ e
IsTiling s e (r ∷ rs) = (r.start ≡ s) × (s < r.end) × IsTiling r.end e rs

pub IsTiling-append :
    (s m e : ℕ) (rs ts : List CopyRange)
    → IsTiling s m rs
    → IsTiling m e ts
    → IsTiling s e (rs ++ ts)
IsTiling-append s m e [] ts h k = subst (λ x. IsTiling x e ts) (sym h) k
IsTiling-append s m e (r ∷ rs) ts h k = (h.0, h.1, IsTiling-append r.end m e rs ts h.2 k)

pub copy_rounds-done :
    (k ps size start : ℕ)
    → slt64 start size ≡ false
    → copy_rounds k ps size start ≡ record { ranges = []; start_offset = start }
unfolding copy_rounds
copy_rounds-done zero ps size start h = refl
copy_rounds-done (suc k) ps size start h = rw (copy_rounds, h)

module _ (ps size : ℕ) (pos : 0 < ps) (ps_small : ps < 2 ^ 62) (small : size < 2 ^ 62) where
  -- Where all rounds are used.
  pub record IsFull (k start : ℕ) (c : Copies) : Type 0 where
    pub count : length c.ranges ≡ k
    pub reached : c.start_offset ≡ start + k * ps
    pub tiles : IsTiling start (start + k * ps) c.ranges

  -- Where the object ends before.
  pub record IsLast (start : ℕ) (c : Copies) : Type 0 where
    pub finished : size ≤ start + length c.ranges * ps
    pub needed : start + length c.ranges * ps < size + ps
    pub reached : c.start_offset ≡ start + length c.ranges * ps
    pub tiles : IsTiling start size c.ranges

  step-eq : (start : ℕ) → start < size → add64 start ps ≡ start + ps
  step-eq start h = add64-eq start ps (omega arith)

  more : (start : ℕ) → start < size → slt64 start size ≡ true
  more start h = slt64-ltb start size (omega arith) (omega arith) ∙ ground arith

  done : (start : ℕ) → size ≤ start → start < 2 ^ 63 → slt64 start size ≡ false
  done start h k = slt64-ltb start size k (omega arith) ∙ ground arith

  end_inside : (start : ℕ) → start + ps < size → smin64 (start + ps) size ≡ start + ps
  end_inside start h = rw (more (start + ps) h)

  end_last : (start : ℕ) → start < size → size ≤ start + ps → smin64 (start + ps) size ≡ size
  end_last start h k = rw (done (start + ps) k (omega arith))

  copy_rounds-suc :
      (k start : ℕ)
      → start < size
      → copy_rounds (suc k) ps size start ≡ record {
        ranges =
            record { start = start; end = smin64 (start + ps) size }
            ∷ (copy_rounds k ps size (start + ps)).ranges;
        start_offset = (copy_rounds k ps size (start + ps)).start_offset;
      }
  unfolding copy_rounds
  copy_rounds-suc k start h = rw (copy_rounds, more start h, step-eq start h)

  pub copy_rounds-IsFull :
      (k start : ℕ) → start + k * ps < size → IsFull k start (copy_rounds k ps size start)
  unfolding copy_rounds
  copy_rounds-IsFull zero start h = record {
    count = refl;
    reached = omega arith;
    tiles = omega arith;
  }
  copy_rounds-IsFull (suc k) start h =
      let e = suc-mul k ps in
      let ih = copy_rounds-IsFull k (start + ps) (omega arith) in
      let to : start + ps + k * ps ≡ start + suc k * ps = omega arith in
      subst (IsFull (suc k) start) (sym (copy_rounds-suc k start (omega arith))) (record {
        count = ap suc ih.count;
        reached = ih.reached ∙ to;
        tiles = (
          refl,
          rw (end_inside start (omega arith)) (omega arith),
          rw (end_inside start (omega arith)) (
              subst (λ x. IsTiling (start + ps) x (copy_rounds k ps size (start + ps)).ranges) to
                ih.tiles),
        );
      })

  pub copy_rounds-IsLast :
      (k start : ℕ)
      → start < size
      → size ≤ start + k * ps
      → IsLast start (copy_rounds k ps size start)
  copy_rounds-IsLast zero start h e = absurd (omega arith)
  copy_rounds-IsLast (suc k) start h e = elim (Bool-cases (ltb (start + ps) size)) [
    | inl inside ↦
        let m = suc-mul k ps in
        let lt : start + ps < size = ground arith in
        let ih = copy_rounds-IsLast k (start + ps) lt (omega arith) in
        let m' = suc-mul (length (copy_rounds k ps size (start + ps)).ranges) ps in
        subst (IsLast start) (sym (copy_rounds-suc k start h)) (record {
          finished = omega (arith, ih.finished);
          needed = omega (arith, ih.needed);
          reached = ih.reached ∙ omega arith;
          tiles = (refl, rw (end_inside start lt) (omega arith), rw (end_inside start lt) ih.tiles);
        })
    | inr last ↦
        let ge : size ≤ start + ps = ground arith in
        let stop = copy_rounds-done k ps size (start + ps) (done (start + ps) ge (omega arith)) in
        subst (IsLast start) (sym (copy_rounds-suc k start h)) (
          rw (stop, end_last start h ge)
            (record {
              finished = omega arith;
              needed = omega arith;
              reached = omega arith;
              tiles = (refl, h, refl);
            }))
  ]

  -- The number of parts that `partsRequired` computes for what is left.
  pub quot64-IsLast :
      (start n : ℕ)
      → start < size
      → size ≤ start + n * ps
      → start + n * ps < size + ps
      → quot64 (sub64 (add64 (size - start) ps) 1) ps ≡ n
  quot64-IsLast start n h lo hi =
      let e = add64-eq (size - start) ps (omega arith) in
      let f = sub64-eq (size - start + ps) 1 (omega arith) (omega arith) in
      let p : is_negative (size - start + ps - 1) ≡ false = ground arith in
      let q : is_negative ps ≡ false = ground arith in
      let m = suc-mul n ps in
      let d : (size - start + ps - 1) / ps ≡ n = div-eq_of_lt-le ps (omega arith) (grind arith) in
      rw (e, f, p, q) d
