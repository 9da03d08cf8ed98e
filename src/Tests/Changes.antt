-- ===== src/Tests/Changes.antt =====
-- core/goofys.go: listings in flight, with numbers for keys.
use akavefs.Prelude.{ℕ, ◌≡◌, Bool, ◌||◌, none, some, List, [], ◌∷◌, ltb, ◌==◌, if◌then◌else◌, arith}
use akavefs.Inflight.{Inflight, Call, add_inflight_listing, complete_inflight_listing, calls}
use akavefs.Inflight.Exclusion.{starts_in, complete_inflight_listing-keys}

abbrev same_number : ℕ → ℕ → Bool
same_number a b = a == b

-- A change of key 3 is in flight.
abbrev changing : Inflight ℕ
changing = record { changes = λ k. if k == 3 then 1 else 0; listings = λ i. none; listing_id = 4 }

abbrev between : List (Call ℕ)
between = Call.change_starts 7 ∷ Call.change_ends 3 ∷ Call.change_ends 7 ∷ []

complete_inflight_listing-keys_example :
    (m : ℕ → Bool) × ((complete_inflight_listing same_number
        (calls same_number (add_inflight_listing same_number changing).0 between)
        (add_inflight_listing same_number changing).1).1
      ≡ some m)
    × ((k : ℕ) → m k ≡ (ltb 0 (changing.changes k) || starts_in same_number k between))
complete_inflight_listing-keys_example =
    complete_inflight_listing-keys same_number changing between tt (omega arith)
