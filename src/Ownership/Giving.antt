-- ===== src/Ownership/Giving.antt =====
-- core/cluster_fs.go: there is still one holder when a node gives the inode away.
use akavefs.Prelude.{
  ℕ, ◌+◌, ◌≤◌, ◌≡◌, ◌≢◌, ◌∙◌, refl, sym, ap, subst, Bool, true, false, inl, inr, Bool-cases, ◌==◌,
  arith,
}
use akavefs.Ownership.{Answered, Request, handle}
use akavefs.Ownership.System.{Pending, Slot, System, set_slot, exchange}
use akavefs.Ownership.Known.{
  is_given, is_idle, holds, known, knows, IsGood, IsKnown, set_slot-all, set_slot-at,
  set_slot-other, set_slot_mono, known-top, known-own,
}
use akavefs.Ownership.Moves.{not_owner}
use akavefs.Ownership.Served.{IsGiving, idle-free, waits_m, unchanged-IsKnown, handle-IsHandled}

module _ (s : System) (g : IsKnown s) (m n : ℕ) (r : Request)
    (p : (s m).pending ≡ Pending.asking n r) (a : Answered) (x : IsGiving n (s n).node m a) where
  abbrev left : Slot
  left = record { node = a.kept; pending = (s n).pending }

  abbrev got : Slot
  got = record { node = (s m).node; pending = Pending.answered a.answer }

  abbrev given_away : System
  given_away = set_slot (set_slot s n left) m got

  apart : n ≢ m
  apart = (g.good m).asks n r p

  own : ((s n).node.owner == n) ≡ true
  own = ground (arith, x.owned)

  held : n ≡ g.holder
  held = (g.good n).only (ground (arith, own))

  free : is_given (s n).pending ≡ false
  free = idle-free (s n).pending (elim (Bool-cases (is_idle (s n).pending)) [
    | inl e ↦ e
    | inr e ↦ absurd (let c = (g.good n).waits e in let o = own in cc)
  ])

  at_n : known (s n) ≡ (s n).node.owner_term
  at_n = known-own (s n) free

  at_m : known (s m) ≡ (s m).node.owner_term
  at_m = known-own (s m) (rw p refl)

  at_left : known left ≡ (s n).node.owner_term + 1
  at_left = known-own left free ∙ x.kept_term

  at_got : known got ≡ (s n).node.owner_term + 1
  at_got = rw x.sent x.next_term

  -- The owner has the largest term.
  top : (j : ℕ) → knows s j ≤ (s n).node.owner_term
  top j =
      subst (λ h. knows s j ≤ h) at_n
        (subst (λ h. knows s j ≤ knows s h) (sym held) (known-top s g j))

  mono : (j : ℕ) → knows s j ≤ knows given_away j
  mono j =
      let s1_m = ap known (set_slot-other s n m left (λ e. apart (sym e))) in
      omega (
        arith,
        set_slot_mono s n left (omega (arith, at_n, at_left)) j,
        set_slot_mono (set_slot s n left) m got (omega (arith, s1_m, at_m, at_got, top m)) j,
      )

  now : knows given_away m ≡ (s n).node.owner_term + 1
  now = ap known (set_slot-at (set_slot s n left) m got) ∙ at_got

  away : (a.kept.owner == n) ≡ false
  away = not_owner n a.kept.owner (λ e. apart (sym e ∙ x.kept_owner))

  away_m : ((s m).node.owner == m) ≡ false
  away_m = not_owner m (s m).node.owner (waits_m s g m n r p)

  got-IsGood : IsGood m (knows given_away) m got
  got-IsGood = record {
    only = λ h. refl;
    top = omega (arith, top m, at_m, now);
    owner_known = omega (arith, (g.good m).owner_known, mono (s m).node.owner);
    message = λ o e. absurd (let c = x.sent in cc);
    waits = λ h. away_m;
    asks = λ k q e. absurd cc;
    ready = λ h. absurd (let c = away_m in cc);
  }

  left-IsGood : IsGood m (knows given_away) n left
  left-IsGood = record {
    only = λ h. absurd (let c = rw (away, free) at h in cc);
    top = omega (arith, x.kept_term, now);
    owner_known =
        subst (λ o. a.kept.owner_term ≤ knows given_away o) (sym x.kept_owner)
          (omega (arith, x.kept_term, now));
    message = λ o e. omega (arith, (g.good n).message o e, mono o.node_id);
    waits = λ h. away;
    asks = (g.good n).asks;
    ready = λ h. absurd (let c = away in cc);
  }

  others-IsGood : (j : ℕ) → j ≢ n → IsGood m (knows given_away) j (s j)
  others-IsGood j off = record {
    only = λ h. absurd (off ((g.good j).only h ∙ sym held));
    top = omega (
      arith,
      subst (λ h. (s j).node.owner_term ≤ knows s h) (sym held) (g.good j).top,
      at_n,
      now,
    );
    owner_known = omega (arith, (g.good j).owner_known, mono (s j).node.owner);
    message = λ o e. omega (arith, (g.good j).message o e, mono o.node_id);
    waits = (g.good j).waits;
    asks = (g.good j).asks;
    ready = (g.good j).ready;
  }

  giving-IsKnown : IsKnown given_away
  giving-IsKnown = record {
    holder = m;
    held =
        ap (holds m) (set_slot-at (set_slot s n left) m got)
        ∙ (let given : is_given got.pending ≡ true = rw x.sent refl in ground (arith, given));
    good =
        set_slot-all (IsGood m (knows given_away)) (set_slot s n left) m got got-IsGood
          (λ i _. set_slot-all (IsGood m (knows given_away)) s n left left-IsGood others-IsGood i);
  }

pub exchange-IsKnown :
    (is_dir : Bool) (s : System) (g : IsKnown s) (m n : ℕ) (r : Request)
    → (s m).pending ≡ Pending.asking n r
    → IsKnown (exchange is_dir s m n r)
exchange-IsKnown is_dir s g m n r p = elim (handle-IsHandled is_dir n (s n).node m r) [
  | inl x ↦ giving-IsKnown s g m n r p (handle is_dir n (s n).node m r) x
  | inr u ↦ unchanged-IsKnown s g m n r p (handle is_dir n (s n).node m r) u
]
