-- ===== src/BufferList/Removing.antt =====
-- core/buffer_list.go: the iteration of `RemoveRange` over the buffers of a list.
use akavefs.Prelude.{
  ℕ, zero, suc, ◌≤◌, ◌<◌, ◌≡◌, ◌∙◌, refl, ap, sym, subst, Bool, true, false, inl, inr, Option, some,
  List, [], ◌∷◌, ◌++◌, length, arith, word, Bool-cases, leb,
}
use mathlib.Core.List.{append_assoc, append-nil}
use akavefs.BTree.{BTree, from, IsAbove}
use akavefs.PartNumbering.{IsPartNumbering}
use akavefs.BufferList.{BufferState, FileBuffer, BufferListHelpers}
use akavefs.BufferList.Walk.{skips, walk}
use akavefs.BufferList.Ops.{Counted}
use akavefs.BufferList.Shape.{buf_end-eq}
use akavefs.BufferList.Places.{ChainTo, ChainTo-append, cell_at}
use akavefs.BufferList.Sound.{Holds, ChainTo-Focus, delete_buf-Holds}
use akavefs.BufferList.Cells.{
  or_else, or_else-none, or_else_assoc, cell_at-append, cut, cut-after, cut-cons, cut-other,
}
use akavefs.BufferList.Cuts.{rest_of}
use akavefs.BufferList.Cutting.{whole_or_cut-Cutting}
use akavefs.BufferList.Cuts.{Pieces}
use akavefs.BufferList.Visits.{
  ChainTo-IsAbove, regroup, restarted, visit, removal, visit-stop, visit-skip, visit-cut,
  removal-stop, removal-next, removal-restart, removal-rest,
}

-- What the iteration leaves of the entries that it has still to visit.
pub record Walked ⦃bt : BTree⦄ (part_num : ℕ → Option ℕ) (limit : ℕ) (pick : BufferState → Bool)
    (lo hi : ℕ) (pre es : List (ℕ × FileBuffer)) (outcome : Option Counted) : Type 0 where
  pub state : Counted
  pub run : outcome ≡ some state
  pub left : List (ℕ × FileBuffer)
  pub holds : Holds part_num limit state.list left
  pub cells : (x : ℕ) → cell_at left x ≡ or_else (cell_at pre x) (cut pick lo hi x (cell_at es x))

-- A visit that removes a part of a buffer, and the pieces that stay.
record Visited ⦃bt : BTree⦄ (h : BufferListHelpers) (limit : ℕ) (pick : BufferState → Bool)
    (lo hi : ℕ) (s : Counted) (pre : List (ℕ × FileBuffer)) (key : ℕ) (b : FileBuffer)
    (es : List (ℕ × FileBuffer)) : Type 0 where
  state : Counted
  left : List (ℕ × FileBuffer)
  right : Option FileBuffer
  visited :
      visit h pick lo hi s key b ≡ some (record { state = state; cont = true; changed = true })
  again : bt.ascend state.list.at key ≡ rest_of key right es
  holds : Holds h.part_num limit state.list ((pre ++ (left ++ rest_of key right [])) ++ es)
  pieces : Pieces pick lo hi key b left right

module _ ⦃bt : BTree⦄ (h : BufferListHelpers) (pick : BufferState → Bool) (lo hi : ℕ) where
  module _ (limit : ℕ) (small : limit < word) (num : IsPartNumbering h.part_num limit)
      (ordered : lo < hi) where
    abbrev Result : List (ℕ × FileBuffer) → List (ℕ × FileBuffer) → Option Counted → Type 0
    Result pre es o = Walked h.part_num limit pick lo hi pre es o

    visit-Visited :
        (s : Counted) (pre : List (ℕ × FileBuffer)) (key : ℕ) (b : FileBuffer)
        (es : List (ℕ × FileBuffer))
        → Holds h.part_num limit s.list (pre ++ (key, b) ∷ es)
        → b.offset < hi
        → lo < key
        → pick b.state ≡ true
        → Visited h limit pick lo hi s pre key b es
    visit-Visited s pre key b es t before after chosen =
        let f = ChainTo-Focus 0 t.top key pre b es t.chain in
        let c =
          whole_or_cut-Cutting h limit small num pick s.list pre key b es lo hi t chosen ordered
            after before in
        let w = c.pieces in
        let (l', m, run, holds) =
          delete_buf-Holds h limit small num c.list (pre ++ c.left) c.rm_key c.rm
            (rest_of key c.right es) c.holds in
        let (u, same, visited) =
          visit-cut h pick lo hi s key b c.list l' c.rm m before chosen
            (omega (arith, buf_end-eq key b (f.1))) c.run run in
        record {
          state = u;
          left = c.left;
          right = c.right;
          visited = visited;
          again =
              ap (λ k. bt.ascend k.at key) same
              ∙ bt.ascend-from l'.at key
              ∙ ap (from key) holds.shape
              ∙ restarted 0 w.until key t.top (pre ++ c.left) es c.right
                  (ChainTo-append 0 b.offset w.until pre c.left (f.0) w.left_chain) w.below (f.2);
          holds =
              subst
                (λ k. Holds h.part_num limit k ((pre ++ (c.left ++ rest_of key c.right [])) ++ es))
                (sym same)
                (subst (λ k. Holds h.part_num limit l' k) (regroup pre c.left es key c.right)
                  holds);
          pieces = w;
        }

    -- An entry is done: what it leaves is before those that are still to visit.
    done :
        (pre pre' es : List (ℕ × FileBuffer)) (key top : ℕ) (b : FileBuffer) (o o' : Option Counted)
        → ChainTo key es top
        → o ≡ o'
        → ((x : ℕ)
            → cell_at pre' x
              ≡ or_else (cell_at pre x) (cut pick lo hi x (cell_at ((key, b) ∷ []) x)))
        → Result pre' es o'
        → Result pre ((key, b) ∷ es) o
    done pre pre' es key top b o o' c same pieces r = record {
      state = r.state;
      run = same ∙ r.run;
      left = r.left;
      holds = r.holds;
      cells = λ x.
          r.cells x
          ∙ ap (λ k. or_else k (cut pick lo hi x (cell_at es x))) (pieces x)
          ∙ or_else_assoc (cell_at pre x) _ _
          ∙ ap (or_else (cell_at pre x)) (sym (cut-cons pick lo hi key top x b es c));
    }

    pub removal-Walked :
        (es pre : List (ℕ × FileBuffer)) (n : ℕ) (last : Option ℕ) (low : ℕ) (s : Counted)
        → Holds h.part_num limit s.list (pre ++ es)
        → length es ≤ n
        → lo ≤ low
        → IsAbove low es
        → ((k : ℕ) → low < k → skips last k ≡ false)
        → Result pre es (removal h pick lo hi n last es s)
    unfolding walk
    removal-Walked [] pre n last low s t enough le above new = record {
      state = s;
      run = refl;
      left = pre ++ [];
      holds = t;
      cells = λ x. ap (λ k. cell_at k x) (append-nil pre) ∙ sym (or_else-none (cell_at pre x));
    }
    removal-Walked ((key, b) ∷ es) pre zero last low s t enough le above new = absurd (omega arith)
    removal-Walked ((key, b) ∷ es) pre (suc n) last low s t enough le above new =
        let f = ChainTo-Focus 0 t.top key pre b es t.chain in
        let v = f.1 in
        let e = v.ends in
        let p = v.nonempty in
        let first = new key (above.0) in
        let keys = above.0 in
        let rest = ChainTo-IsAbove key t.top es (f.2) in
        elim (Bool-cases (leb hi b.offset)) [
          | inl out ↦
              let after : hi ≤ b.offset = ground (arith, out) in
              record {
                state = s;
                run =
                    removal-stop h pick lo hi n last key b es s s first
                      (visit-stop h pick lo hi s key b after);
                left = pre ++ (key, b) ∷ es;
                holds = t;
                cells = λ x.
                    cell_at-append 0 b.offset t.top x pre ((key, b) ∷ es) (f.0)
                      (v, omega arith, f.2)
                    ∙ ap (or_else (cell_at pre x)) (
                        sym (
                          cut-after pick lo hi b.offset t.top x ((key, b) ∷ es)
                            (v, omega arith, f.2) after));
              }
          | inr out ↦
              let before : b.offset < hi = ground (arith, out) in
              elim (Bool-cases (pick b.state)) [
                | inr other ↦
                    done pre (pre ++ (key, b) ∷ []) es key t.top b _ _ (f.2)
                      (removal-next h pick lo hi n last key b es s s first
                        (visit-skip h pick lo hi s key b before other))
                      (λ x.
                        cell_at-append 0 b.offset key x pre ((key, b) ∷ []) (f.0)
                          (v, omega arith, omega arith)
                        ∙ ap (or_else (cell_at pre x)) (sym (cut-other pick lo hi key x b other)))
                      (removal-Walked es (pre ++ (key, b) ∷ []) (suc n) last key s
                        (subst (λ k. Holds h.part_num limit s.list k)
                          (sym (append_assoc pre ((key, b) ∷ []) es)) t)
                        (omega arith) (omega arith) rest (λ k lt. new k (omega arith)))
                | inl chosen ↦
                    let r = visit-Visited s pre key b es t before (omega arith) chosen in
                    done pre (pre ++ (r.left ++ rest_of key r.right [])) es key t.top b _ _ (f.2)
                      (removal-restart h pick lo hi n last key b es s r.state first r.visited
                        ∙ ap (λ k. removal h pick lo hi n (some key) k r.state) r.again
                        ∙ removal-rest h pick lo hi n key r.right es r.state)
                      (λ x.
                        cell_at-append 0 b.offset key x pre (r.left ++ rest_of key r.right []) (f.0)
                          r.pieces.chain
                        ∙ ap (or_else (cell_at pre x)) (r.pieces.cells x))
                      (removal-Walked es (pre ++ (r.left ++ rest_of key r.right [])) n (some key)
                        key r.state r.holds (omega arith) (omega arith) rest
                        (λ k lt. ground (arith, lt)))
              ]
        ]
