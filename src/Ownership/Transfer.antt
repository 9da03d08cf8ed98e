-- ===== src/Ownership/Transfer.antt =====
-- core/cluster_fs.go: what the transfers of an inode between the nodes do to its contents.
use akavefs.Prelude.{
  ℕ, ◌≡◌, ◌≢◌, ◌∙◌, refl, sym, ap, subst, Bool, true, false, inl, inr, Bool-cases, [], ◌==◌, arith,
}
use akavefs.Ownership.{StolenInode, Answer, Answered, Request, worked, handle}
use akavefs.Ownership.System.{
  Pending, Slot, System, set_slot, exchange, ClusterStep, IsStart, Reached,
}
use akavefs.Ownership.Known.{IsKnown, set_slot-all}
use akavefs.Ownership.Moves.{not_owner}
use akavefs.Ownership.Served.{IsGiving, IsUnchanged, handle-IsHandled}
use akavefs.Ownership.Exclusive.{Reached-IsKnown}
use akavefs.Ownership.Carried.{
  Contents, contents_of, contents_in, IsCarrying, IsHeld, Carries, handle-Carries, pend-IsHeld,
  work-IsHeld, receive-IsHeld,
}

module _ (is_dir : Bool) (c : Contents) (s : System) (g : IsKnown s) (m n : ℕ) (r : Request)
    (p : (s m).pending ≡ Pending.asking n r) (h : IsHeld is_dir c s) (a : Answered)
    (carries : Carries (s n).node a) where
  abbrev kept_slot : Slot
  kept_slot = record { node = a.kept; pending = (s n).pending }

  abbrev answered_slot : Slot
  answered_slot = record { node = (s m).node; pending = Pending.answered a.answer }

  abbrev after : System
  after = set_slot (set_slot s n kept_slot) m answered_slot

  exchange-slots :
      IsCarrying is_dir c n kept_slot → IsCarrying is_dir c m answered_slot → IsHeld is_dir c after
  exchange-slots k l = record {
    slots =
        set_slot-all (IsCarrying is_dir c) (set_slot s n kept_slot) m answered_slot l
          (λ i _. set_slot-all (IsCarrying is_dir c) s n kept_slot k (λ j _. h.slots j) i);
    no_listing = h.no_listing;
  }

  answered-IsCarrying :
      ((st : StolenInode) → a.answer ≡ Answer.given st → contents_in st ≡ c)
      → IsCarrying is_dir c m answered_slot
  answered-IsCarrying sent = record {
    owned = (h.slots m).owned;
    inside = λ st e. sent st cc;
    bare = (h.slots m).bare;
    file = (h.slots m).file;
  }

  giving-IsHeld : IsGiving n (s n).node m a → IsHeld is_dir c after
  giving-IsHeld x =
      let got = carries x.inside x.sent in
      let own : ((s n).node.owner == n) ≡ true = ground (arith, x.owned) in
      let away : (a.kept.owner == n) ≡ false =
        not_owner n a.kept.owner (λ e. (g.good m).asks n r p (sym e ∙ x.kept_owner)) in
      exchange-slots
        record {
          owned = λ o. absurd (let b = away in cc);
          inside = (h.slots n).inside;
          bare = λ _. got.1;
          file = λ _. got.1;
        }
        (answered-IsCarrying (λ st e. (carries st e).0 ∙ (h.slots n).owned own))

  unchanged-IsHeld : IsUnchanged (s n).node a → IsHeld is_dir c after
  unchanged-IsHeld u =
      exchange-slots
        (subst (λ k. IsCarrying is_dir c n record { node = k; pending = (s n).pending })
          (sym u.same) (h.slots n))
        (answered-IsCarrying (λ st e. absurd (let f = rw e at u.not_given in cc)))

exchange-IsHeld :
    (is_dir : Bool) (c : Contents) (s : System) (g : IsKnown s) (m n : ℕ) (r : Request)
    → (s m).pending ≡ Pending.asking n r
    → IsHeld is_dir c s
    → IsHeld is_dir c (exchange is_dir s m n r)
exchange-IsHeld is_dir c s g m n r p h =
    let a = handle is_dir n (s n).node m r in
    let carries = handle-Carries is_dir n (s n).node m r (h.slots n).file in
    elim (handle-IsHandled is_dir n (s n).node m r) [
      | inl x ↦ giving-IsHeld is_dir c s g m n r p h a carries x
      | inr u ↦ unchanged-IsHeld is_dir c s g m n r p h a carries u
    ]

start-IsHeld :
    (is_dir : Bool) (s : System) (b : IsStart is_dir s)
    → IsHeld is_dir (contents_of (s b.root).node) s
start-IsHeld is_dir s b = record {
  slots = λ i. record {
    owned = λ o. ap (λ j. contents_of (s j).node) (let e = b.names i in ground (arith, o, e));
    inside = λ st e. absurd (let f = b.no_request i in cc);
    bare = λ o. b.empty i (λ same. let e = b.names i in absurd (ground (arith, o, e, same)));
    file = λ d. elim (Bool-cases (i == b.root)) [
      | inl here ↦ subst (λ j. (s j).node.children ≡ []) (ground (arith, here)) (b.no_children d)
      | inr there ↦ b.empty i (λ same. absurd (ground (arith, there, same)))
    ];
  };
  no_listing = b.no_children;
}

-- What the last operation left in the inode, or what it had at the start.
unfoldable pub last_contents : {is_dir : Bool} → {s : System} → Reached is_dir s → Contents
last_contents (Reached.start {s = s} b) = contents_of (s b.root).node
last_contents (Reached.next before (ClusterStep.ask m request e other)) = last_contents before
last_contents (Reached.next before (ClusterStep.serve m n request e)) = last_contents before
last_contents (Reached.next before (ClusterStep.take_answer m answer e)) = last_contents before
last_contents (Reached.next before (ClusterStep.fail m n request e)) = last_contents before
last_contents {is_dir = is_dir} (Reached.next before (ClusterStep.work {s = s} n w e ready)) =
    contents_of (worked is_dir (s n).node w)

Reached-IsHeld :
    {is_dir : Bool} → {s : System} → (r : Reached is_dir s) → IsHeld is_dir (last_contents r) s
unfolding last_contents
Reached-IsHeld {is_dir = is_dir} (Reached.start {s = s} b) = start-IsHeld is_dir s b
Reached-IsHeld {is_dir = is_dir} (Reached.next before (ClusterStep.ask {s = s} m request e other)) =
    pend-IsHeld is_dir (last_contents before) s m (Pending.asking (s m).node.owner request) refl
      (Reached-IsHeld before)
Reached-IsHeld {is_dir = is_dir} (Reached.next before (ClusterStep.serve {s = s} m n request e)) =
    exchange-IsHeld is_dir (last_contents before) s (Reached-IsKnown is_dir s before) m n request e
      (Reached-IsHeld before)
Reached-IsHeld {is_dir = is_dir}
      (Reached.next before (ClusterStep.take_answer {s = s} m answer e)) =
    receive-IsHeld is_dir (last_contents before) s (Reached-IsKnown is_dir s before) m answer e
      (Reached-IsHeld before)
Reached-IsHeld {is_dir = is_dir} (Reached.next before (ClusterStep.fail {s = s} m n request e)) =
    pend-IsHeld is_dir (last_contents before) s m Pending.idle refl (Reached-IsHeld before)
Reached-IsHeld {is_dir = is_dir} (Reached.next before (ClusterStep.work {s = s} n w e ready)) =
    work-IsHeld is_dir (last_contents before) s (Reached-IsKnown is_dir s before) n w e
      (Reached-IsHeld before)

-- When each node has one request about an inode outstanding at a time and an answer that was made
-- arrives, the owner of an inode has the children, references and size that the last operation left, or
-- those at the start, and so has the inode on its way to a node; a node that is not the owner has no
-- child.
pub last_contents-held :
    {is_dir : Bool}
    → {s : System} → (r : Reached is_dir s) → (i : ℕ)
    → ((s i).node.owner ≡ i → contents_of (s i).node ≡ last_contents r)
      × ((st : StolenInode)
          → (s i).pending ≡ Pending.answered (Answer.given st)
          → contents_in st ≡ last_contents r)
      × ((s i).node.owner ≢ i → (s i).node.children ≡ [])
last_contents-held {s = s} r i =
    let x = (Reached-IsHeld r).slots i in
    (λ e. x.owned (ground (arith, e)), x.inside, λ e. x.bare (not_owner i (s i).node.owner e))
