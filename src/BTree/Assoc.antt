-- ===== src/BTree/Assoc.antt =====
-- The laws of the ordered map can be met: sorted association lists meet them.
use mathlib.Core.List.{reverse}
use akavefs.Prelude.{ℕ, ◌<◌, ◌≡◌, refl, List, [], ◌∷◌, arith, sym, subst, ap, ◌∙◌}
use akavefs.BTree.{BTree, from, upto, lookup, insert, remove, IsAbove, IsSorted}

module _ {V : Type 0} where
  IsAbove-mono : (lo lo' : ℕ) (es : List (ℕ × V)) → lo < lo' → IsAbove lo' es → IsAbove lo es
  IsAbove-mono lo lo' [] h a = tt
  IsAbove-mono lo lo' ((k, v) ∷ es) h a = (omega arith, a.1)

  IsAbove-insert :
      (lo k : ℕ) (v : V) (es : List (ℕ × V)) → lo < k → IsAbove lo es → IsAbove lo (insert k v es)
  IsAbove-insert lo k v [] h a = (h, tt)
  IsAbove-insert lo k v ((j, w) ∷ es) h a = ground (arith, IsAbove-insert j k v es)

  pub IsSorted-insert : (k : ℕ) (v : V) (es : List (ℕ × V)) → IsSorted es → IsSorted (insert k v es)
  IsSorted-insert k v [] s = tt
  IsSorted-insert k v ((j, w) ∷ es) s = ground (arith, IsAbove-insert j k v es)

  IsAbove-remove : (lo k : ℕ) (es : List (ℕ × V)) → IsAbove lo es → IsAbove lo (remove k es)
  IsAbove-remove lo k [] a = tt
  IsAbove-remove lo k ((j, w) ∷ es) a = ground (arith, IsAbove-remove j k es, IsAbove-mono lo j es)

  IsSorted-above : (lo : ℕ) (es : List (ℕ × V)) → IsAbove lo es → IsSorted es
  IsSorted-above lo [] a = tt
  IsSorted-above lo ((k, v) ∷ es) a = a.1

  pub IsSorted-remove : (k : ℕ) (es : List (ℕ × V)) → IsSorted es → IsSorted (remove k es)
  IsSorted-remove k [] s = tt
  IsSorted-remove k ((j, w) ∷ es) s = ground (arith, IsAbove-remove j k es, IsSorted-above j es)

  pub from-zero : (es : List (ℕ × V)) → from 0 es ≡ es
  from-zero [] = refl
  from-zero ((k, v) ∷ es) = ground arith

abbrev AssocMap : Type 0 → Type 0
AssocMap V = (es : List (ℕ × V)) × IsSorted es

-- Keys above the pivot are visited in order.
instance abbrev pub assoc_tree : BTree
assoc_tree = record {
  Map = AssocMap;
  empty = ([], tt);
  get = λ m k. lookup k m.0;
  set = λ m k v. (insert k v m.0, IsSorted-insert k v m.0 m.1);
  delete = λ m k. (remove k m.0, IsSorted-remove k m.0 m.1);
  ascend = λ m pivot. from pivot m.0;
  descend = λ m pivot. reverse (upto pivot m.0);
  ascend-IsSorted = λ m. subst IsSorted (sym (from-zero m.0)) m.1;
  ascend-from = λ m pivot. ap (from pivot) (sym (from-zero m.0));
  descend-upto = λ m pivot. ap (λ es. reverse (upto pivot es)) (sym (from-zero m.0));
  get-lookup = λ m k. ap (lookup k) (sym (from-zero m.0));
  ascend-empty = refl;
  ascend-set = λ m k v. from-zero (insert k v m.0) ∙ ap (insert k v) (sym (from-zero m.0));
  ascend-delete = λ m k. from-zero (remove k m.0) ∙ ap (remove k) (sym (from-zero m.0));
}
