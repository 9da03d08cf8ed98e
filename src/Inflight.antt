-- ===== src/Inflight.antt =====
-- core/goofys.go: which keys change while a listing is in flight. Keys are compared by `same`. A count
-- of `inflightChanges` is never negative, so 0 stands for a missing entry.
pub mod Exclusion
use akavefs.Prelude.{
  ℕ, ◌+◌, ◌-◌, Bool, true, false, ◌||◌, Option, none, some, List, [], ◌∷◌, ltb, ◌==◌, if◌then◌else◌,
  add64,
}

pub record Inflight (K : Type 0) : Type 0 where
  pub changes : K → ℕ
  pub listings : ℕ → Option (K → Bool)
  pub listing_id : ℕ

-- The calls that change it.
pub data Call (K : Type 0) : Type 0 where
  change_starts change_ends : K → Call K
  listing_starts : Call K
  listing_ends : ℕ → Call K

module _ {K : Type 0} (same : K → K → Bool) where
  mark : K → Option (K → Bool) → Option (K → Bool)
  mark key none = none
  mark key (some m) = some λ k. if same key k then true else m k

  pub add_inflight_change : Inflight K → K → Inflight K
  unfolding mark
  add_inflight_change s key = record s {
    changes = λ k. if same key k then s.changes k + 1 else s.changes k;
    listings = λ i. mark key (s.listings i);
  }

  pub complete_inflight_change : Inflight K → K → Inflight K
  complete_inflight_change s key = record s {
    changes = λ k. if same key k then s.changes k - 1 else s.changes k;
  }

  pub add_inflight_listing : Inflight K → Inflight K × ℕ
  add_inflight_listing s =
      let id = add64 s.listing_id 1 in
      (
        record s {
          listing_id = id;
          listings = λ i. if i == id then some (λ k. ltb 0 (s.changes k)) else s.listings i;
        },
        id,
      )

  pub complete_inflight_listing : Inflight K → ℕ → Inflight K × Option (K → Bool)
  complete_inflight_listing s id =
      (record s { listings = λ i. if i == id then none else s.listings i }, s.listings id)

  pub call : Inflight K → Call K → Inflight K
  unfolding add_inflight_change complete_inflight_change add_inflight_listing
      complete_inflight_listing
  call s (Call.change_starts k) = add_inflight_change s k
  call s (Call.change_ends k) = complete_inflight_change s k
  call s Call.listing_starts = (add_inflight_listing s).0
  call s (Call.listing_ends id) = (complete_inflight_listing s id).0

  pub calls : Inflight K → List (Call K) → Inflight K
  unfolding call
  calls s [] = s
  calls s (c ∷ cs) = calls (call s c) cs
