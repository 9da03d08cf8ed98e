-- ===== src/Ownership/Exclusive.antt =====
-- core/cluster_fs.go: an inode has one owner at a time, or is on its way to one node.
use akavefs.Prelude.{ℕ, ◌≤◌, ◌≡◌, ◌≢◌, ◌∙◌, refl, subst, Bool, true, false, ◌==◌, arith}
use akavefs.Ownership.System.{Pending, System, ClusterStep, IsStart, Reached}
use akavefs.Ownership.Known.{is_given, is_idle, holds, known, knows, IsKnown, known-own}
use akavefs.Ownership.Moves.{pend-IsKnown, work-IsKnown, receive-IsKnown}
use akavefs.Ownership.Giving.{exchange-IsKnown}

start-IsKnown : (is_dir : Bool) (s : System) → IsStart is_dir s → IsKnown s
start-IsKnown is_dir s b =
    let level : (j : ℕ) → knows s j ≡ b.owner_term =
      λ j. known-own (s j) (rw (b.no_request j) refl) ∙ b.terms j in
    record {
      holder = b.root;
      held =
          let e : ((s b.root).node.owner == b.root) ≡ true = ground (arith, b.names b.root) in
          ground (arith, e);
      good = λ i. record {
        only = λ h. let h' = rw (b.no_request i) at h in let n = b.names i in ground (arith, h', n);
        top = omega (arith, b.terms i, level b.root);
        owner_known = omega (arith, b.terms i, level (s i).node.owner);
        message = λ o e. absurd (let c = b.no_request i in cc);
        waits = λ h. absurd (let c = rw (b.no_request i) at h in cc);
        asks = λ n r e. absurd (let c = b.no_request i in cc);
        ready = λ h.
            subst (λ j. (s j).node.ready_owner ≡ true) (let n = b.names i in ground (arith, h, n))
              b.ready;
      };
    }

step-IsKnown : (is_dir : Bool) (s t : System) → IsKnown s → ClusterStep is_dir s t → IsKnown t
step-IsKnown is_dir s _ g (ClusterStep.ask m request e other) =
    pend-IsKnown s g m (Pending.asking (s m).node.owner request) (rw e refl) refl (λ _. other)
      (λ o h. absurd cc) (λ n r h. let same : (s m).node.owner ≡ n = cc in λ eq. other (same ∙ eq))
step-IsKnown is_dir s _ g (ClusterStep.serve m n request e) =
    exchange-IsKnown is_dir s g m n request e
step-IsKnown is_dir s _ g (ClusterStep.take_answer m answer e) =
    receive-IsKnown is_dir s g m answer e
step-IsKnown is_dir s _ g (ClusterStep.fail m n request e) =
    pend-IsKnown s g m Pending.idle (rw e refl) refl (λ h. absurd cc) (λ o h. absurd cc)
      (λ n r h. absurd cc)
step-IsKnown is_dir s _ g (ClusterStep.work n w e r) = work-IsKnown is_dir s g n w

-- One node is the owner and is ready, or the inode is on its way to one node, and no other node is the
-- owner or waits for it; no node knows a later term.
pub record IsExclusive (s : System) : Type 0 where
  pub holder : ℕ
  pub held : holds holder (s holder) ≡ true
  pub unique : (i : ℕ) → holds i (s i) ≡ true → i ≡ holder
  pub ready : (s holder).node.owner ≡ holder → (s holder).node.ready_owner ≡ true
  pub not_both : is_given (s holder).pending ≡ true → (s holder).node.owner ≢ holder
  pub latest : (i : ℕ) → (s i).node.owner_term ≤ known (s holder)

pub Reached-IsKnown : (is_dir : Bool) (s : System) → Reached is_dir s → IsKnown s
Reached-IsKnown is_dir s (Reached.start b) = start-IsKnown is_dir s b
Reached-IsKnown is_dir t (Reached.next {s = s} before step) =
    step-IsKnown is_dir s t (Reached-IsKnown is_dir s before) step

given-waits : (p : Pending) → is_given p ≡ true → is_idle p ≡ false
given-waits Pending.idle h = cc
given-waits (Pending.asking n r) h = cc
given-waits (Pending.answered a) h = refl

-- At any time a node that is the owner is ready, or the inode is on its way, and there is one such
-- node; its term is the latest that a node knows.
pub Reached-IsExclusive_owner : (is_dir : Bool) (s : System) → Reached is_dir s → IsExclusive s
Reached-IsExclusive_owner is_dir s reached =
    let g = Reached-IsKnown is_dir s reached in
    record {
      holder = g.holder;
      held = g.held;
      unique = λ i h. (g.good i).only h;
      ready = λ e. (g.good g.holder).ready (ground (arith, e));
      not_both = λ given e.
          let w = (g.good g.holder).waits (given-waits (s g.holder).pending given) in
          absurd (ground (arith, e, w));
      latest = λ i. (g.good i).top;
    }
