-- ===== src/Ownership/Known.antt =====
-- core/cluster_fs.go: what the nodes know of the owner of an inode, and that a node's step keeps it.
use akavefs.Prelude.{
  ℕ, ◌≤◌, ◌≡◌, ◌≢◌, ◌∙◌, refl, sym, ap, subst, Bool, true, false, ◌||◌, inl, inr, Bool-cases, ◌==◌,
  arith,
}
use akavefs.Ownership.{Owner, Answer, Request}
use akavefs.Ownership.System.{Pending, Slot, System, set_slot}

-- The inode is on its way to the node.
abbrev pub is_given : Pending → Bool
is_given (Pending.answered (Answer.given _)) = true
is_given _ = false

abbrev pub is_idle : Pending → Bool
is_idle Pending.idle = true
is_idle _ = false

-- The node is the owner, or the inode is on its way to it.
abbrev pub holds : ℕ → Slot → Bool
holds i x = x.node.owner == i || is_given x.pending

abbrev term_of : Pending → ℕ → ℕ
term_of (Pending.answered (Answer.given s)) _ = s.term
term_of _ k = k

-- The term that the node has, or will have when the inode arrives.
abbrev pub known : Slot → ℕ
known x = term_of x.pending x.node.owner_term

abbrev pub knows : System → ℕ → ℕ
knows s j = known (s j)

pub record IsGood (h : ℕ) (k : ℕ → ℕ) (i : ℕ) (x : Slot) : Type 0 where
  pub only : holds i x ≡ true → i ≡ h
  pub top : x.node.owner_term ≤ k h
  pub owner_known : x.node.owner_term ≤ k x.node.owner
  pub message :
      (o : Owner)
      → x.pending ≡ Pending.answered (Answer.another o)
      → o.owner_node_term ≤ k o.node_id
  pub waits : is_idle x.pending ≡ false → (x.node.owner == i) ≡ false
  pub asks : (n : ℕ) (r : Request) → x.pending ≡ Pending.asking n r → n ≢ i
  pub ready : (x.node.owner == i) ≡ true → x.node.ready_owner ≡ true

-- One holder, and the bounds of the terms.
pub record IsKnown (s : System) : Type 0 where
  pub holder : ℕ
  pub held : holds holder (s holder) ≡ true
  pub good : (i : ℕ) → IsGood holder (knows s) i (s i)

-- A fact about every slot, from the slot that is set and the others.
pub set_slot-all :
    (P : ℕ → Slot → Type 0) (s : System) (n : ℕ) (v : Slot)
    → P n v
    → ((i : ℕ) → i ≢ n → P i (s i))
    → (i : ℕ) → P i (set_slot s n v i)
set_slot-all P s n v p others i = elim (Bool-cases (i == n)) [
  | inl here ↦ let e : n ≡ i = ground arith in rw here (subst (λ j. P j v) e p)
  | inr there ↦ rw there (others i (λ e. absurd (ground arith)))
]

pub set_slot-at : (s : System) (n : ℕ) (v : Slot) → set_slot s n v n ≡ v
set_slot-at s n v = let e : (n == n) ≡ true = ground arith in rw e refl

pub set_slot-other : (s : System) (n i : ℕ) (v : Slot) → i ≢ n → set_slot s n v i ≡ s i
set_slot-other s n i v h = let e : (i == n) ≡ false = ground arith in rw e refl

-- A slot stays good when no node knows less.
pub IsGood-mono :
    (h : ℕ) (k l : ℕ → ℕ) (i : ℕ) (x : Slot)
    → ((j : ℕ) → k j ≤ l j)
    → IsGood h k i x
    → IsGood h l i x
IsGood-mono h k l i x le g = record {
  only = g.only;
  top = omega (arith, g.top, le h);
  owner_known = omega (arith, g.owner_known, le x.node.owner);
  message = λ o e. omega (arith, g.message o e, le o.node_id);
  waits = g.waits;
  asks = g.asks;
  ready = g.ready;
}

pub set_slot_mono :
    (s : System) (n : ℕ) (v : Slot)
    → known (s n) ≤ known v
    → (j : ℕ) → knows s j ≤ knows (set_slot s n v) j
set_slot_mono s n v le j = elim (Bool-cases (j == n)) [
  | inl here ↦
      let e : j ≡ n = ground arith in rw here (subst (λ i. known (s i) ≤ known v) (sym e) le)
  | inr there ↦ rw there (omega arith)
]

-- A node's slot changes, and it knows no less.
pub IsKnown-set :
    (s : System) (g : IsKnown s) (n : ℕ) (v : Slot)
    → known (s n) ≤ known v
    → holds n v ≡ holds n (s n)
    → ((l : ℕ → ℕ) → ((j : ℕ) → knows s j ≤ l j) → l n ≡ known v → IsGood g.holder l n v)
    → IsKnown (set_slot s n v)
IsKnown-set s g n v le same good =
    let mono = set_slot_mono s n v le in
    record {
      holder = g.holder;
      held = elim (Bool-cases (g.holder == n)) [
        | inl here ↦
            let e : g.holder ≡ n = ground arith in
            rw here (
              subst (λ i. holds i v ≡ true) (sym e)
                (same ∙ subst (λ i. holds i (s i) ≡ true) e g.held))
        | inr there ↦ rw there g.held
      ];
      good =
          set_slot-all (IsGood g.holder (knows (set_slot s n v))) s n v
            (good (knows (set_slot s n v)) mono (ap known (set_slot-at s n v)))
            (λ i _.
              IsGood-mono g.holder (knows s) (knows (set_slot s n v)) i (s i) mono (g.good i));
    }

term_of-own : (p : Pending) (k : ℕ) → is_given p ≡ false → term_of p k ≡ k
term_of-own Pending.idle k h = refl
term_of-own (Pending.asking n r) k h = refl
term_of-own (Pending.answered (Answer.another o)) k h = refl
term_of-own (Pending.answered (Answer.given s)) k h = cc
term_of-own (Pending.answered Answer.refused) k h = refl
term_of-own (Pending.answered Answer.done) k h = refl

pub known-own : (x : Slot) → is_given x.pending ≡ false → known x ≡ x.node.owner_term
known-own x h = term_of-own x.pending x.node.owner_term h

-- No node knows more than the holder.
pub known-top : (s : System) (g : IsKnown s) (j : ℕ) → known (s j) ≤ known (s g.holder)
known-top s g j = elim (Bool-cases (is_given (s j).pending)) [
  | inl given ↦
      let e : j ≡ g.holder = (g.good j).only (ground (arith, given)) in
      subst (λ i. known (s j) ≤ known (s i)) e (omega arith)
  | inr own ↦ subst (λ k. k ≤ known (s g.holder)) (sym (known-own (s j) own)) (g.good j).top
]
