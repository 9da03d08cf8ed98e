-- ===== src/Inflight/Exclusion.antt =====
-- core/goofys.go: which keys `completeInflightListing` returns.
use akavefs.Prelude.{
  ℕ, ◌+◌, ◌≤◌, ◌<◌, ◌≡◌, ◌≢◌, ap, Bool, true, false, ◌||◌, some, List, [], ◌∷◌, ltb, if◌then◌else◌,
  add64-eq, length, word, arith,
}
use akavefs.Inflight.{
  Inflight, Call, mark, add_inflight_change, complete_inflight_change, add_inflight_listing,
  complete_inflight_listing, call, calls,
}

module _ {K : Type 0} (same : K → K → Bool) where
  -- A change of the key starts in one of the calls.
  abbrev pub starts_in : K → List (Call K) → Bool
  starts_in k [] = false
  starts_in k (Call.change_starts key ∷ cs) = same key k || starts_in k cs
  starts_in k (Call.change_ends key ∷ cs) = starts_in k cs
  starts_in k (Call.listing_starts ∷ cs) = starts_in k cs
  starts_in k (Call.listing_ends id ∷ cs) = starts_in k cs

  -- The calls do not complete the listing.
  abbrev pub IsOpen : ℕ → List (Call K) → Type 0
  IsOpen id [] = Unit {0}
  IsOpen id (Call.change_starts key ∷ cs) = IsOpen id cs
  IsOpen id (Call.change_ends key ∷ cs) = IsOpen id cs
  IsOpen id (Call.listing_starts ∷ cs) = IsOpen id cs
  IsOpen id (Call.listing_ends other ∷ cs) = (id ≢ other) × IsOpen id cs

  -- The keys that an open listing has collected after some calls.
  collected :
      (cs : List (Call K)) (s : Inflight K) (id : ℕ) (m : K → Bool)
      → IsOpen id cs
      → id ≤ s.listing_id
      → s.listing_id + length cs < word
      → s.listings id ≡ some m
      → (m' : K → Bool) × ((calls same s cs).listings id ≡ some m')
        × ((k : K) → m' k ≡ (m k || starts_in k cs))
  unfolding call calls mark add_inflight_change complete_inflight_change add_inflight_listing
      complete_inflight_listing
  collected [] s id m o lo hi e = (m, e, λ k. ground arith)
  collected (Call.change_starts key ∷ cs) s id m o lo hi e =
      let (m', e', r) =
        collected cs (add_inflight_change same s key) id (λ k. if same key k then true else m k) o
          lo (omega arith) (ap (mark same key) e) in
      (m', e', λ k. let q = r k in ground (arith, q))
  collected (Call.change_ends key ∷ cs) s id m o lo hi e =
      collected cs (complete_inflight_change same s key) id m o lo (omega arith) e
  collected (Call.listing_starts ∷ cs) s id m o lo hi e =
      let next = add64-eq s.listing_id 1 (omega arith) in
      collected cs (add_inflight_listing same s).0 id m o (omega arith) (omega arith)
        (ground (arith, e))
  collected (Call.listing_ends other ∷ cs) s id m o lo hi e =
      collected cs (complete_inflight_listing same s other).0 id m o.1 lo (omega arith)
        (let d = o.0 in ground (arith, e))

  -- A listing that is completed excludes exactly the keys with a change that was in flight when it
  -- began or that started before it was completed, whatever else was called in between, other
  -- listings included. Listing numbers do not wrap around.
  pub complete_inflight_listing-keys :
      (s : Inflight K) (cs : List (Call K))
      → IsOpen (add_inflight_listing same s).1 cs
      → s.listing_id + 1 + length cs < word
      → (m : K → Bool) × ((complete_inflight_listing same
            (calls same (add_inflight_listing same s).0 cs)
            (add_inflight_listing same s).1).1
          ≡ some m)
        × ((k : K) → m k ≡ (ltb 0 (s.changes k) || starts_in k cs))
  unfolding add_inflight_listing complete_inflight_listing
  complete_inflight_listing-keys s cs o hi =
      let next = add64-eq s.listing_id 1 (omega arith) in
      collected cs (add_inflight_listing same s).0 (add_inflight_listing same s).1
        (λ k. ltb 0 (s.changes k)) o (omega arith) (omega arith) (ground arith)
