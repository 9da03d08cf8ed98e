-- ===== src/BufferList/Visits.antt =====
-- core/buffer_list.go: how `RemoveRange` acts on one buffer, and how its iteration goes on.
use akavefs.Prelude.{
  ℕ, zero, suc, ◌≤◌, ◌<◌, ◌≡◌, ◌∙◌, refl, ap, sym, Bool, true, false, Option, none, some, List, [],
  ◌∷◌, ◌++◌, arith, ltb, leb, ◌==◌, add64,
}
use mathlib.Core.List.{append_assoc, append-nil}
use akavefs.BTree.{BTree, from, IsAbove}
use akavefs.BufferList.{BufferState, FileBuffer, BufferListHelpers, BufferList}
use akavefs.BufferList.Edit.{buf_end, delete_buf}
use akavefs.BufferList.Walk.{Step, skips, walk}
use akavefs.BufferList.Ops.{Counted, whole_or_cut, remove_one}
use akavefs.BufferList.Places.{ChainTo, from-append, from-all}
use akavefs.BufferList.Cuts.{rest_of}

pub ChainTo-IsAbove : (lo hi : ℕ) (es : List (ℕ × FileBuffer)) → ChainTo lo es hi → IsAbove lo es
ChainTo-IsAbove lo hi [] c = tt
ChainTo-IsAbove lo hi ((key, b) ∷ es) c =
    let v = c.0 in
    let e = v.ends in
    let p = v.nonempty in let at = c.1 in (omega arith, ChainTo-IsAbove key hi es (c.2))

pub regroup :
    (pre left es : List (ℕ × FileBuffer)) (key : ℕ) (right : Option FileBuffer)
    → (pre ++ left) ++ rest_of key right es ≡ (pre ++ (left ++ rest_of key right [])) ++ es
regroup pre left es key none = ap (λ k. (pre ++ k) ++ es) (sym (append-nil left))
regroup pre left es key (some r) =
    append_assoc pre left ((key, r) ∷ es)
    ∙ ap (λ k. pre ++ k) (sym (append_assoc left ((key, r) ∷ []) es))
    ∙ sym (append_assoc pre (left ++ (key, r) ∷ []) es)

-- The iteration starts again after the pieces that stay on the left.
pub restarted :
    (lo until key top : ℕ) (pre es : List (ℕ × FileBuffer)) (right : Option FileBuffer)
    → ChainTo lo pre until
    → until < key
    → ChainTo key es top
    → from key (pre ++ rest_of key right es) ≡ rest_of key right es
restarted lo until key top pre es none c lt d =
    from-append lo until key pre es c lt ∙ from-all key top key es d (omega arith)
restarted lo until key top pre es (some r) c lt d =
    let here : from key ((key, r) ∷ es) ≡ (key, r) ∷ es = ground arith in
    from-append lo until key pre ((key, r) ∷ es) c lt ∙ here

module _ ⦃bt : BTree⦄ (h : BufferListHelpers) (pick : BufferState → Bool) (lo hi : ℕ) where
  abbrev pub visit : Counted → ℕ → FileBuffer → Option (Step Counted)
  visit s key b = remove_one h lo hi (λ c. pick c.state) s key b

  abbrev pub removal : ℕ → Option ℕ → List (ℕ × FileBuffer) → Counted → Option Counted
  removal n last es s = walk (λ s. s.list) visit n last es s

  pub visit-stop :
      (s : Counted) (key : ℕ) (b : FileBuffer)
      → hi ≤ b.offset
      → visit s key b ≡ some (record { state = s; cont = false; changed = false })
  unfolding remove_one
  visit-stop s key b le =
      let out : leb hi b.offset ≡ true = ground (arith, le) in rw (remove_one, out) refl

  pub visit-skip :
      (s : Counted) (key : ℕ) (b : FileBuffer)
      → b.offset < hi
      → pick b.state ≡ false
      → visit s key b ≡ some (record { state = s; cont = true; changed = false })
  unfolding remove_one
  visit-skip s key b lt e =
      let out : leb hi b.offset ≡ false = ground (arith, lt) in rw (remove_one, out, e) refl

  pub visit-cut :
      (s : Counted) (key : ℕ) (b : FileBuffer) (l l' : BufferList) (rm : FileBuffer) (n : ℕ)
      → b.offset < hi
      → pick b.state ≡ true
      → lo < buf_end b
      → whole_or_cut h s.list b lo hi ≡ some (l, rm)
      → delete_buf h l rm ≡ some (l', n)
      → (t : Counted) × (t.list ≡ l')
        × (visit s key b ≡ some (record { state = t; cont = true; changed = true }))
  unfolding remove_one
  visit-cut s key b l l' rm n lt e after taken run =
      let out : leb hi b.offset ≡ false = ground (arith, lt) in
      let inside : ltb lo (buf_end b) ≡ true = ground (arith, after) in
      let before : ltb b.offset hi ≡ true = ground (arith, lt) in
      (
        record { list = l'; allocated = add64 s.allocated n },
        refl,
        rw (remove_one, out, e, inside, before, taken, run) refl,
      )

  pub removal-stop :
      (n : ℕ) (last : Option ℕ) (key : ℕ) (b : FileBuffer) (es : List (ℕ × FileBuffer))
      (s t : Counted)
      → skips last key ≡ false
      → visit s key b ≡ some (record { state = t; cont = false; changed = false })
      → removal (suc n) last ((key, b) ∷ es) s ≡ some t
  unfolding walk
  removal-stop n last key b es s t new run = rw (walk, new, run) refl

  pub removal-next :
      (n : ℕ) (last : Option ℕ) (key : ℕ) (b : FileBuffer) (es : List (ℕ × FileBuffer))
      (s t : Counted)
      → skips last key ≡ false
      → visit s key b ≡ some (record { state = t; cont = true; changed = false })
      → removal (suc n) last ((key, b) ∷ es) s ≡ removal (suc n) last es t
  unfolding walk
  removal-next n last key b es s t new run = rw (walk, new, run) refl

  pub removal-restart :
      (n : ℕ) (last : Option ℕ) (key : ℕ) (b : FileBuffer) (es : List (ℕ × FileBuffer))
      (s t : Counted)
      → skips last key ≡ false
      → visit s key b ≡ some (record { state = t; cont = true; changed = true })
      → removal (suc n) last ((key, b) ∷ es) s ≡ removal n (some key) (bt.ascend t.list.at key) t
  unfolding walk
  removal-restart n last key b es s t new run = rw (walk, new, run) refl

  -- The entry of the last key is skipped.
  pub removal-rest :
      (n key : ℕ) (right : Option FileBuffer) (es : List (ℕ × FileBuffer)) (s : Counted)
      → removal n (some key) (rest_of key right es) s ≡ removal n (some key) es s
  unfolding walk
  removal-rest n key none es s = refl
  removal-rest zero key (some r) es s =
      let same : (key == key) ≡ true = ground arith in rw (walk, same) refl
  removal-rest (suc n) key (some r) es s =
      let same : (key == key) ≡ true = ground arith in rw (walk, same) refl
