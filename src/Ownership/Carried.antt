-- ===== src/Ownership/Carried.antt =====
-- core/cluster_fs.go: the children, the references and the size of an inode go with its owner.
use akavefs.Prelude.{
  ℕ, ◌≡◌, ◌∙◌, refl, sym, ap, Bool, true, false, ◌&&◌, inl, inr, Bool-cases, List, [], ◌==◌, ltb,
  arith,
}
use akavefs.Ownership.{
  Node, StolenInode, Owner, Answer, Answered, Request, Work, worked, apply_owner,
  apply_stolen_inode, apply_answer, is_cached, is_none, give, try_yield, yielded, handle,
}
use akavefs.Ownership.System.{Pending, Slot, System, set_slot, receive}
use akavefs.Ownership.Known.{is_given, IsKnown, set_slot-all}
use akavefs.Ownership.Moves.{another-not_self}

pub record Contents : Type 0 where
  pub listing : List ℕ
  pub references : ℕ
  pub bytes : ℕ

abbrev pub contents_of : Node → Contents
contents_of x = record { listing = x.children; references = x.refcnt; bytes = x.size }

abbrev pub contents_in : StolenInode → Contents
contents_in st = record {
  listing = st.stolen_children;
  references = st.stolen_refcnt;
  bytes = st.stolen_size;
}

-- A slot has the contents if its node is the owner or the inode is on its way to it, and no child else.
pub record IsCarrying (is_dir : Bool) (c : Contents) (i : ℕ) (x : Slot) : Type 0 where
  pub owned : (x.node.owner == i) ≡ true → contents_of x.node ≡ c
  pub inside :
      (st : StolenInode) → x.pending ≡ Pending.answered (Answer.given st) → contents_in st ≡ c
  pub bare : (x.node.owner == i) ≡ false → x.node.children ≡ []
  pub file : is_dir ≡ false → x.node.children ≡ []

pub record IsHeld (is_dir : Bool) (c : Contents) (s : System) : Type 0 where
  pub slots : (i : ℕ) → IsCarrying is_dir c i (s i)
  pub no_listing : is_dir ≡ false → c.listing ≡ []

-- An inode that is given away has the contents, and no child is left.
abbrev pub Carries : Node → Answered → Type 0
Carries inode a =
    (st : StolenInode)
    → a.answer ≡ Answer.given st
    → (contents_in st ≡ contents_of inode) × (a.kept.children ≡ [])

given-Carries :
    (inode left : Node) (inside : StolenInode)
    → contents_in inside ≡ contents_of inode
    → left.children ≡ []
    → Carries inode record { kept = left; answer = Answer.given inside }
given-Carries inode left inside c l st e =
    let same : inside ≡ st = cc in (ap contents_in (sym same) ∙ c, l)

try_yield-Carries :
    (is_dir : Bool) (inode : Node) (requester : ℕ)
    → (is_dir ≡ false → inode.children ≡ [])
    → Carries inode (yielded (try_yield is_dir inode requester))
unfolding try_yield
try_yield-Carries is_dir inode requester file =
    elim (Bool-cases (is_cached inode.cache_state && inode.file_handles == 0)) [
      | inr busy ↦ rw busy (λ st e. absurd cc)
      | inl free ↦ rw free (elim (Bool-cases is_dir) [
        | inr other ↦
            let none_left = file other in
            rw other
              (given-Carries inode (give inode requester []).left _ (rw none_left refl) none_left)
        | inl dir ↦ rw dir (elim (Bool-cases (is_none inode.deleted_children)) [
          | inl clean ↦ rw clean (
              given-Carries inode
                (give (record inode { children = []; deleted_children = [] }) requester
                  inode.children).left
                _ refl refl)
          | inr deleted ↦ rw deleted (λ st e. absurd cc)
        ])
      ])
    ]

pub handle-Carries :
    (is_dir : Bool) (self : ℕ) (inode : Node) (requester : ℕ) (r : Request)
    → (is_dir ≡ false → inode.children ≡ [])
    → Carries inode (handle is_dir self inode requester r)
unfolding handle
handle-Carries is_dir self inode requester Request.try_steal file =
    elim (Bool-cases (inode.owner == self)) [
      | inr other ↦ rw other (λ st e. absurd cc)
      | inl own ↦ rw own (try_yield-Carries is_dir inode requester file)
    ]
handle-Carries is_dir self inode requester Request.execute file =
    elim (Bool-cases (inode.owner == self)) [
      | inr other ↦ rw other (λ st e. absurd cc)
      | inl own ↦ rw own (λ st e. absurd cc)
    ]

-- Another pending state, with nothing on its way.
pub pend-IsHeld :
    (is_dir : Bool) (c : Contents) (s : System) (m : ℕ) (p : Pending)
    → is_given p ≡ false
    → IsHeld is_dir c s
    → IsHeld is_dir c (set_slot s m record { node = (s m).node; pending = p })
pend-IsHeld is_dir c s m p free h = record {
  slots =
      set_slot-all (IsCarrying is_dir c) s m record { node = (s m).node; pending = p }
        record {
          owned = (h.slots m).owned;
          inside = λ st e. absurd (let b = rw e at free in cc);
          bare = (h.slots m).bare;
          file = (h.slots m).file;
        }
        (λ i _. h.slots i);
  no_listing = h.no_listing;
}

pub work-IsHeld :
    (is_dir : Bool) (c : Contents) (s : System) (g : IsKnown s) (n : ℕ) (w : Work)
    → (s n).node.owner ≡ n
    → IsHeld is_dir c s
    → IsHeld is_dir
        (contents_of (worked is_dir (s n).node w))
        (set_slot s n record { node = worked is_dir (s n).node w; pending = (s n).pending })
work-IsHeld is_dir c s g n w own h =
    let at : ((s n).node.owner == n) ≡ true = ground (arith, own) in
    let here : n ≡ g.holder = (g.good n).only (ground (arith, at)) in
    record {
      slots =
          set_slot-all (IsCarrying is_dir (contents_of (worked is_dir (s n).node w))) s n
            record { node = worked is_dir (s n).node w; pending = (s n).pending }
            record {
              owned = λ _. refl;
              inside = λ st e. absurd (let b = (g.good n).waits (rw e refl) in cc);
              bare = λ b. absurd (let a = at in cc);
              file = λ d. rw d refl;
            }
            (λ i off. record {
              owned = λ o. absurd (off ((g.good i).only (ground (arith, o)) ∙ sym here));
              inside = λ st e. absurd (
                  off (
                    (g.good i).only
                      (let b : is_given (s i).pending ≡ true = rw e refl in ground (arith, b))
                    ∙ sym here));
              bare = (h.slots i).bare;
              file = (h.slots i).file;
            });
      no_listing = λ d. rw d refl;
    }

another-IsHeld :
    (is_dir : Bool) (c : Contents) (s : System) (g : IsKnown s) (m : ℕ) (o : Owner)
    → (s m).pending ≡ Pending.answered (Answer.another o)
    → IsHeld is_dir c s
    → IsHeld is_dir c
        (set_slot s m record { node = apply_owner (s m).node o; pending = Pending.idle })
another-IsHeld is_dir c s g m o e h =
    elim (Bool-cases (ltb (s m).node.owner_term o.owner_node_term)) [
      | inr old ↦ rw old (pend-IsHeld is_dir c s m Pending.idle refl h)
      | inl new ↦
          let away = another-not_self s g m o e new in
          let before = (g.good m).waits (rw e refl) in
          rw new record {
            slots =
                set_slot-all (IsCarrying is_dir c) s m
                  record {
                    node = record (s m).node { owner_term = o.owner_node_term; owner = o.node_id };
                    pending = Pending.idle;
                  }
                  record {
                    owned = λ a. absurd (let b = away in cc);
                    inside = λ st p. absurd cc;
                    bare = λ _. (h.slots m).bare before;
                    file = (h.slots m).file;
                  }
                  (λ i _. h.slots i);
            no_listing = h.no_listing;
          }
    ]

given-IsHeld :
    (is_dir : Bool) (c : Contents) (s : System) (g : IsKnown s) (m : ℕ) (st : StolenInode)
    → (s m).pending ≡ Pending.answered (Answer.given st)
    → IsHeld is_dir c s
    → IsHeld is_dir c (
        set_slot s m
          record { node = apply_stolen_inode is_dir m (s m).node st; pending = Pending.idle })
given-IsHeld is_dir c s g m st e h =
    let nothing : (s m).node.children ≡ [] = (h.slots m).bare ((g.good m).waits (rw e refl)) in
    let same = (h.slots m).inside st e in
    let self : (m == m) ≡ true = ground arith in
    record {
      slots =
          set_slot-all (IsCarrying is_dir c) s m
            record { node = apply_stolen_inode is_dir m (s m).node st; pending = Pending.idle }
            record {
              owned = λ _. elim (Bool-cases is_dir) [
                | inl dir ↦ rw (dir, nothing) same
                | inr other ↦
                    let empty : st.stolen_children ≡ [] =
                      ap (λ k. k.listing) same ∙ h.no_listing other in
                    rw (other, nothing) (sym (rw empty at (sym same)))
              ];
              inside = λ p q. absurd cc;
              bare = λ b. absurd (let a = self in cc);
              file = λ d. rw d ((h.slots m).file d);
            }
            (λ i _. h.slots i);
      no_listing = h.no_listing;
    }

pub receive-IsHeld :
    (is_dir : Bool) (c : Contents) (s : System) (g : IsKnown s) (m : ℕ) (a : Answer)
    → (s m).pending ≡ Pending.answered a
    → IsHeld is_dir c s
    → IsHeld is_dir c (receive is_dir s m a)
unfolding apply_answer
receive-IsHeld is_dir c s g m (Answer.another o) e h = another-IsHeld is_dir c s g m o e h
receive-IsHeld is_dir c s g m (Answer.given st) e h = given-IsHeld is_dir c s g m st e h
receive-IsHeld is_dir c s g m Answer.refused e h = pend-IsHeld is_dir c s m Pending.idle refl h
receive-IsHeld is_dir c s g m Answer.done e h = pend-IsHeld is_dir c s m Pending.idle refl h
