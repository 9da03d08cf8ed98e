-- ===== src/CopyParts/Rounds.antt =====
-- core/file.go: the ranges that a round of `copyUnmodifiedParts` leaves hold the bytes of the parts up
-- to its own that have not been uploaded, each byte once.
use akavefs.Prelude.{
  ℕ, ◌+◌, ◌≤◌, ◌<◌, ◌≡◌, refl, subst, Bool, true, false, ◌&&◌, inl, inr, Bool-cases, Option, none,
  some, List, [], ◌∷◌, ◌++◌, ltb, leb, ◌==◌, if◌then◌else◌, add64, sub64, add64-eq, sub64-eq, word,
  arith,
}
use akavefs.CopyParts.{
  MergedRange, Collected, nothing_collected, add_range, extend_range, cut_merged, close,
  collect_part,
}

abbrev pub once : Bool → ℕ
once b = if b then 1 else 0

abbrev pub inside : ℕ → ℕ → ℕ → Bool
inside first last x = leb first x && ltb x last

abbrev pub lacks_id : Option ℕ → Bool
lacks_id none = true
lacks_id (some _) = false

-- How many ranges hold a byte.
pub times : List MergedRange → ℕ → ℕ
times [] x = 0
times (r ∷ rs) x = once (inside r.offset (r.offset + r.size) x) + times rs x

times-append :
    (rs : List MergedRange) (r : MergedRange) (x : ℕ)
    → times (rs ++ r ∷ []) x ≡ times rs x + once (inside r.offset (r.offset + r.size) x)
unfolding times
times-append [] r x = omega arith
times-append (q ∷ rs) r x = let rest = times-append rs r x in omega arith

-- The range that is open, if there is one.
abbrev pub opened : Collected → ℕ → ℕ
opened c x = if c.end_part == 0 then 0 else once (inside c.start_offset c.end_offset x)

-- The bytes before a place that are missing are held once, and the open range ends there.
pub record IsCollected (missing : ℕ → Bool) (at : ℕ) (c : Collected) : Type 0 where
  pub counts : (x : ℕ) → times c.ranges x + opened c x ≡ once (ltb x at && missing x)
  pub ends : (c.end_part == 0) ≡ false → c.end_offset ≡ at
  pub starts : (c.end_part == 0) ≡ false → c.start_offset ≤ at

times-add_range :
    (c : Collected) (x : ℕ)
    → c.start_offset ≤ c.end_offset
    → c.end_offset < word
    → times (add_range c).ranges x ≡ times c.ranges x + once (inside c.start_offset c.end_offset x)
times-add_range c x le lt =
    let size = sub64-eq c.end_offset c.start_offset le lt in
    let last : c.start_offset + sub64 c.end_offset c.start_offset ≡ c.end_offset = omega arith in
    subst (λ k. times (add_range c).ranges x ≡ times c.ranges x + once (inside c.start_offset k x))
      last
      (times-append c.ranges
        record {
          part_number = c.start_part;
          offset = c.start_offset;
          size = sub64 c.end_offset c.start_offset;
        }
        x)

pub nothing-IsCollected : (missing : ℕ → Bool) → IsCollected missing 0 nothing_collected
unfolding times
nothing-IsCollected missing = record {
  counts = λ x. ground arith;
  ends = λ o. absurd cc;
  starts = λ o. omega arith;
}

module _ (missing : ℕ → Bool) where
  -- A range that gets longer by bytes that are missing.
  longer :
      (start first last x t : ℕ)
      → start ≤ first
      → first < last
      → (first ≤ x → x < last → missing x ≡ true)
      → t + once (inside start first x) ≡ once (ltb x first && missing x)
      → t + once (inside start last x) ≡ once (ltb x last && missing x)
  longer start first last x t le lt all k = elim (Bool-cases (ltb x first)) [
    | inl before ↦ ground (arith, k, before)
    | inr after ↦ elim (Bool-cases (ltb x last)) [
      | inl here ↦ let m = all (ground arith) (ground arith) in ground (arith, k, m, after, here)
      | inr beyond ↦ ground (arith, k, after, beyond)
    ]
  ]

  extend_range-IsCollected :
      (i first last : ℕ) (c : Collected)
      → first < last
      → i + 1 < word
      → ((x : ℕ) → first ≤ x → x < last → missing x ≡ true)
      → IsCollected missing first c
      → IsCollected missing last (extend_range i first last c)
  extend_range-IsCollected i first last c lt small all h =
      let shown : (add64 i 1 == 0) ≡ false = (let e = add64-eq i 1 small in ground (arith, e)) in
      elim (Bool-cases (c.end_part == 0)) [
        | inl shut ↦ rw shut record {
          counts = λ x.
              let k = rw shut at (h.counts x) in
              let empty : inside first first x ≡ false = ground arith in
              rw shown (
                longer first first last x (times c.ranges x) (omega arith) lt (all x) (rw empty k));
          ends = λ o. refl;
          starts = λ o. omega arith;
        }
        | inr going ↦ rw going record {
          counts = λ x.
              let k = rw going at (h.counts x) in
              let ends = h.ends going in
              rw shown (
                longer c.start_offset first last x (times c.ranges x) (h.starts going) lt (all x) (
                  subst
                    (λ e.
                      times c.ranges x + once (inside c.start_offset e x)
                      ≡ once (ltb x first && missing x))
                    ends k));
          ends = λ o. refl;
          starts = λ o. omega (arith, h.starts going);
        }
      ]

  cut_merged-IsCollected :
      (max_merge at : ℕ) (c : Collected)
      → at < word
      → (c.end_part == 0) ≡ false
      → IsCollected missing at c
      → IsCollected missing at (cut_merged max_merge c)
  cut_merged-IsCollected max_merge at c lt going h =
      elim (Bool-cases (leb max_merge (sub64 c.end_offset c.start_offset))) [
        | inr more ↦ rw more h
        | inl cut ↦ rw cut record {
          counts = λ x.
              let t =
                times-add_range c x (omega (arith, h.starts going, h.ends going))
                  (omega (arith, h.ends going)) in
              let k = rw going at (h.counts x) in omega (arith, t, k);
          ends = λ o. absurd cc;
          starts = λ o. absurd cc;
        }
      ]

  pub close-IsCollected :
      (at : ℕ) (c : Collected)
      → at < word
      → IsCollected missing at c
      → IsCollected missing at (close c)
  close-IsCollected at c lt h = elim (Bool-cases (c.end_part == 0)) [
    | inl shut ↦ rw shut h
    | inr going ↦ rw going record {
      counts = λ x.
          let t =
            times-add_range c x (omega (arith, h.starts going, h.ends going))
              (omega (arith, h.ends going)) in
          let k = rw going at (h.counts x) in omega (arith, t, k);
      ends = λ o. absurd cc;
      starts = λ o. absurd cc;
    }
  ]

  extend_range-opened :
      (i first last : ℕ) (c : Collected)
      → i + 1 < word
      → ((extend_range i first last c).end_part == 0) ≡ false
  extend_range-opened i first last c small =
      let e = add64-eq i 1 small in
      elim (Bool-cases (c.end_part == 0)) [
        | inl shut ↦ rw shut (ground (arith, e))
        | inr going ↦ rw going (ground (arith, e))
      ]

  pub close-shut : (c : Collected) → ((close c).end_part == 0) ≡ true
  close-shut c = elim (Bool-cases (c.end_part == 0)) [
    | inl shut ↦ rw shut shut
    | inr going ↦ rw going refl
  ]

  -- Bytes that are not missing.
  skip-IsCollected :
      (first last : ℕ) (c : Collected)
      → first < last
      → (c.end_part == 0) ≡ true
      → ((x : ℕ) → first ≤ x → x < last → missing x ≡ false)
      → IsCollected missing first c
      → IsCollected missing last c
  skip-IsCollected first last c lt shut all h = record {
    counts = λ x.
        let k = rw shut at (h.counts x) in
        elim (Bool-cases (ltb x first)) [
          | inl before ↦ rw shut (ground (arith, k, before))
          | inr after ↦ elim (Bool-cases (ltb x last)) [
            | inl here ↦
                let m = all x (ground arith) (ground arith) in
                rw shut (ground (arith, k, m, after, here))
            | inr beyond ↦ rw shut (ground (arith, k, after, beyond))
          ]
        ];
    ends = λ o. absurd (let e = shut in cc);
    starts = λ o. absurd (let e = shut in cc);
  }

  pub collect_part-IsCollected :
      (max_merge i first last : ℕ) (id : Option ℕ) (c : Collected)
      → first < last
      → last < word
      → i + 1 < word
      → ((x : ℕ) → first ≤ x → x < last → missing x ≡ lacks_id id)
      → IsCollected missing first c
      → IsCollected missing last (collect_part max_merge i first last id c)
  collect_part-IsCollected max_merge i first last none c lt fits small all h =
      let e = extend_range-IsCollected i first last c lt small all h in
      cut_merged-IsCollected max_merge last (extend_range i first last c) fits
        (extend_range-opened i first last c small) e
  collect_part-IsCollected max_merge i first last (some _) c lt fits small all h =
      skip-IsCollected first last (close c) lt (close-shut c) all
        (close-IsCollected first c (omega arith) h)
