-- ===== src/Ownership/Served.antt =====
-- core/cluster_fs_grpc.go, core/cluster_fs.go: what the node that is asked does, and that there is still
-- one holder when it keeps the inode.
use akavefs.Prelude.{
  ℕ, ◌+◌, ◌≤◌, ◌≡◌, ◌≢◌, ◌∙◌, refl, sym, ap, subst, Bool, true, false, ◌&&◌, ◌⊎◌, inl, inr,
  Bool-cases, ◌==◌, arith,
}
use akavefs.Ownership.{
  Node, StolenInode, Owner, Answer, Answered, Request, is_cached, is_none, try_yield, yielded,
  pb_owner, handle,
}
use akavefs.Ownership.System.{Pending, System, set_slot}
use akavefs.Ownership.Known.{is_given, is_idle, knows, IsKnown}
use akavefs.Ownership.Moves.{pend-IsKnown}

-- The node gives the inode away with the next term, keeping nothing of it.
pub record IsGiving (self : ℕ) (inode : Node) (requester : ℕ) (a : Answered) : Type 0 where
  pub owned : inode.owner ≡ self
  pub inside : StolenInode
  pub sent : a.answer ≡ Answer.given inside
  pub next_term : inside.term ≡ inode.owner_term + 1
  pub kept_term : a.kept.owner_term ≡ inode.owner_term + 1
  pub kept_owner : a.kept.owner ≡ requester

-- Or it changes nothing, and names the owner that it knows if it is not the owner.
pub record IsUnchanged (inode : Node) (a : Answered) : Type 0 where
  pub same : a.kept ≡ inode
  pub not_given : is_given (Pending.answered a.answer) ≡ false
  pub names : (o : Owner) → a.answer ≡ Answer.another o → o ≡ pb_owner inode

abbrev pub IsHandled : ℕ → Node → ℕ → Answered → Type 0
IsHandled self inode requester a = IsGiving self inode requester a ⊎ IsUnchanged inode a

IsUnchanged-another :
    (inode : Node)
    → IsUnchanged inode record { kept = inode; answer = Answer.another (pb_owner inode) }
IsUnchanged-another inode = record { same = refl; not_given = refl; names = λ o e. cc }

IsUnchanged-refused :
    (inode : Node) → IsUnchanged inode record { kept = inode; answer = Answer.refused }
IsUnchanged-refused inode = record { same = refl; not_given = refl; names = λ o e. cc }

IsUnchanged-done : (inode : Node) → IsUnchanged inode record { kept = inode; answer = Answer.done }
IsUnchanged-done inode = record { same = refl; not_given = refl; names = λ o e. cc }

try_yield-IsHandled :
    (is_dir : Bool) (self : ℕ) (inode : Node) (requester : ℕ)
    → inode.owner ≡ self
    → IsHandled self inode requester (yielded (try_yield is_dir inode requester))
unfolding try_yield
try_yield-IsHandled is_dir self inode requester own =
    elim (Bool-cases (is_cached inode.cache_state && inode.file_handles == 0)) [
      | inr busy ↦ rw busy (inr (IsUnchanged-refused inode))
      | inl free ↦ rw free (elim (Bool-cases is_dir) [
        | inr file ↦ rw file (
            inl record {
              owned = own;
              inside = _;
              sent = refl;
              next_term = refl;
              kept_term = refl;
              kept_owner = refl;
            })
        | inl dir ↦ rw dir (elim (Bool-cases (is_none inode.deleted_children)) [
          | inl clean ↦ rw clean (
              inl record {
                owned = own;
                inside = _;
                sent = refl;
                next_term = refl;
                kept_term = refl;
                kept_owner = refl;
              })
          | inr deleted ↦ rw deleted (inr (IsUnchanged-refused inode))
        ])
      ])
    ]

pub handle-IsHandled :
    (is_dir : Bool) (self : ℕ) (inode : Node) (requester : ℕ) (request : Request)
    → IsHandled self inode requester (handle is_dir self inode requester request)
unfolding handle
handle-IsHandled is_dir self inode requester Request.try_steal =
    elim (Bool-cases (inode.owner == self)) [
      | inl own ↦ rw own (try_yield-IsHandled is_dir self inode requester (ground (arith, own)))
      | inr other ↦ rw other (inr (IsUnchanged-another inode))
    ]
handle-IsHandled is_dir self inode requester Request.execute =
    elim (Bool-cases (inode.owner == self)) [
      | inl own ↦ rw own (inr (IsUnchanged-done inode))
      | inr other ↦ rw other (inr (IsUnchanged-another inode))
    ]

pub idle-free : (p : Pending) → is_idle p ≡ true → is_given p ≡ false
idle-free Pending.idle h = refl
idle-free (Pending.asking n r) h = refl
idle-free (Pending.answered a) h = cc

set_slot-same : (s : System) (n : ℕ) → set_slot s n (s n) ≡ s
set_slot-same s n = λ k i. at i k
  where
    at : (i : ℕ) → set_slot s n (s n) i ≡ s i
    at i = elim (Bool-cases (i == n)) [
      | inl here ↦ let e : n ≡ i = ground arith in rw here (ap s e)
      | inr there ↦ rw there refl
    ]

module _ (s : System) (g : IsKnown s) (m n : ℕ) (r : Request)
    (p : (s m).pending ≡ Pending.asking n r) where
  pub waits_m : (s m).node.owner ≢ m
  waits_m e =
      let w = (g.good m).waits (rw p refl) in
      let e' : ((s m).node.owner == m) ≡ true = ground (arith, e) in cc

  -- The node that is asked keeps the inode.
  pub unchanged-IsKnown :
      (a : Answered)
      → IsUnchanged (s n).node a
      → IsKnown (
          set_slot
            (set_slot s n record { node = a.kept; pending = (s n).pending })
            m
            record { node = (s m).node; pending = Pending.answered a.answer })
  unchanged-IsKnown a u =
      let free : is_given (s m).pending ≡ false = rw p refl in
      let back : s ≡ set_slot s n record { node = a.kept; pending = (s n).pending } = sym (
        ap (λ k. set_slot s n record { node = k; pending = (s n).pending }) u.same
        ∙ set_slot-same s n) in
      subst
        (λ t.
          IsKnown (set_slot t m record { node = (s m).node; pending = Pending.answered a.answer }))
        back
        (pend-IsKnown s g m (Pending.answered a.answer) free u.not_given (λ h. waits_m)
          (λ o e.
            let own = u.names o cc in
            subst (λ w. w.owner_node_term ≤ knows s w.node_id) (sym own) (g.good n).owner_known)
          (λ n r h. cc))
