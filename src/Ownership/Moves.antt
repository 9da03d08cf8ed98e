-- ===== src/Ownership/Moves.antt =====
-- core/cluster_fs.go: a request, its failure, its answer and an operation keep one holder.
use akavefs.Prelude.{
  ℕ, ◌≤◌, ◌<◌, ◌≡◌, ◌≢◌, refl, sym, subst, Bool, true, false, inl, inr, Bool-cases, ◌==◌, ltb,
  arith,
}
use akavefs.Ownership.{
  StolenInode, Owner, Answer, Request, apply_owner, apply_stolen_inode, apply_answer, Work, worked,
}
use akavefs.Ownership.System.{Pending, Slot, System, set_slot, receive}
use akavefs.Ownership.Known.{
  is_given, is_idle, holds, known, knows, IsKnown, IsGood-mono, IsKnown-set, known-top, known-own,
}

pub not_owner : (i o : ℕ) → o ≢ i → (o == i) ≡ false
not_owner i o h = elim (Bool-cases (o == i)) [ inl e ↦ absurd (h (ground arith)) | inr e ↦ e ]

-- The slot waits for nothing, or starts to wait at a node that is not the owner.
pub pend-IsKnown :
    (s : System) (g : IsKnown s) (m : ℕ) (p : Pending)
    → is_given (s m).pending ≡ false
    → is_given p ≡ false
    → (is_idle p ≡ false → (s m).node.owner ≢ m)
    → ((o : Owner)
        → p ≡ Pending.answered (Answer.another o)
        → o.owner_node_term ≤ knows s o.node_id)
    → ((n : ℕ) (r : Request) → p ≡ Pending.asking n r → n ≢ m)
    → IsKnown (set_slot s m record { node = (s m).node; pending = p })
pend-IsKnown s g m p free free' waits message asks =
    let v : Slot = record { node = (s m).node; pending = p } in
    let before = known-own (s m) free in
    let after = known-own v free' in
    IsKnown-set s g m v (ground (arith, before, after)) (rw (free, free') refl) (λ l mono at.
      let old = IsGood-mono g.holder (knows s) l m (s m) mono (g.good m) in
      record {
        only = λ h. old.only (rw free (rw free' at h));
        top = old.top;
        owner_known = old.owner_known;
        message = λ o e. omega (arith, message o e, mono o.node_id);
        waits = λ h. not_owner m (s m).node.owner (waits h);
        asks = asks;
        ready = old.ready;
      })

-- An operation at the owner.
pub work-IsKnown :
    (is_dir : Bool) (s : System) (g : IsKnown s) (n : ℕ) (w : Work)
    → IsKnown (set_slot s n record { node = worked is_dir (s n).node w; pending = (s n).pending })
work-IsKnown is_dir s g n w =
    IsKnown-set s g n record { node = worked is_dir (s n).node w; pending = (s n).pending }
      (omega arith) refl
      (λ l mono at.
        let old = IsGood-mono g.holder (knows s) l n (s n) mono (g.good n) in
        record {
          only = old.only;
          top = old.top;
          owner_known = old.owner_known;
          message = old.message;
          waits = old.waits;
          asks = old.asks;
          ready = old.ready;
        })

-- A later term is never that of the node itself.
pub another-not_self :
    (s : System) (g : IsKnown s) (m : ℕ) (o : Owner)
    → (s m).pending ≡ Pending.answered (Answer.another o)
    → ltb (s m).node.owner_term o.owner_node_term ≡ true
    → (o.node_id == m) ≡ false
another-not_self s g m o e new =
    let here = (g.good m).message o e in
    let before = known-own (s m) (rw e refl) in
    not_owner m o.node_id (λ same.
      let k = subst (λ j. o.owner_node_term ≤ knows s j) same here in
      ground (arith, k, before, new))

-- The name of another owner arrives.
pub another-IsKnown :
    (s : System) (g : IsKnown s) (m : ℕ) (o : Owner)
    → (s m).pending ≡ Pending.answered (Answer.another o)
    → IsKnown (set_slot s m record { node = apply_owner (s m).node o; pending = Pending.idle })
another-IsKnown s g m o e =
    let here = (g.good m).message o e in
    let free : is_given (s m).pending ≡ false = rw e refl in
    let idle : is_idle (s m).pending ≡ false = rw e refl in
    let before = known-own (s m) free in
    let away = (g.good m).waits idle in
    let v : Slot = record {
      node = record (s m).node { owner_term = o.owner_node_term; owner = o.node_id };
      pending = Pending.idle;
    } in
    elim (Bool-cases (ltb (s m).node.owner_term o.owner_node_term)) [
      | inr old ↦
          rw old (pend-IsKnown s g m Pending.idle free refl (λ h. cc) (λ o h. cc) (λ n r h. cc))
      | inl new ↦
          let lt : (s m).node.owner_term < o.owner_node_term = ground (arith, new) in
          let other = another-not_self s g m o e new in
          rw new (
            IsKnown-set s g m v (omega (arith, before, lt)) (rw (other, away, free) refl)
              (λ l mono at. record {
                only = λ h. absurd (let c = rw other at h in cc);
                top = omega (arith, here, known-top s g o.node_id, mono g.holder);
                owner_known = omega (arith, here, mono o.node_id);
                message = λ o e. cc;
                waits = λ h. cc;
                asks = λ n r e. cc;
                ready = λ h. absurd (let c = other in cc);
              }))
    ]

-- The inode arrives.
pub given-IsKnown :
    (is_dir : Bool) (s : System) (g : IsKnown s) (m : ℕ) (st : StolenInode)
    → (s m).pending ≡ Pending.answered (Answer.given st)
    → IsKnown (
        set_slot s m
          record { node = apply_stolen_inode is_dir m (s m).node st; pending = Pending.idle })
given-IsKnown is_dir s g m st e =
    let v : Slot = record {
      node = apply_stolen_inode is_dir m (s m).node st;
      pending = Pending.idle;
    } in
    let self : (m == m) ≡ true = ground arith in
    let given : is_given (s m).pending ≡ true = rw e refl in
    let here : holds m (s m) ≡ true = ground (arith, given) in
    let now : known (s m) ≡ st.term = rw e refl in
    let m_holds : m ≡ g.holder = (g.good m).only here in
    IsKnown-set s g m v (omega (arith, now)) (rw self (sym here)) (λ l mono at. record {
      only = λ h. m_holds;
      top = subst (λ j. st.term ≤ l j) m_holds (omega (arith, at));
      owner_known = omega (arith, at);
      message = λ o e. cc;
      waits = λ h. cc;
      asks = λ n r e. cc;
      ready = λ h. refl;
    })

-- Any answer arrives.
pub receive-IsKnown :
    (is_dir : Bool) (s : System) (g : IsKnown s) (m : ℕ) (a : Answer)
    → (s m).pending ≡ Pending.answered a
    → IsKnown (receive is_dir s m a)
unfolding apply_answer
receive-IsKnown is_dir s g m (Answer.another o) e = another-IsKnown s g m o e
receive-IsKnown is_dir s g m (Answer.given st) e = given-IsKnown is_dir s g m st e
receive-IsKnown is_dir s g m Answer.refused e =
    pend-IsKnown s g m Pending.idle (rw e refl) refl (λ h. cc) (λ o h. cc) (λ n r h. cc)
receive-IsKnown is_dir s g m Answer.done e =
    pend-IsKnown s g m Pending.idle (rw e refl) refl (λ h. cc) (λ o h. cc) (λ n r h. cc)
