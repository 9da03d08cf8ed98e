-- ===== src/BufferList/Walk.antt =====
-- core/buffer_list.go: `ascendChange`, the iteration that survives changes of the map.
use akavefs.Prelude.{
  ℕ, zero, suc, Bool, true, false, Option, none, some, List, [], ◌∷◌, ◌==◌, length,
}
use akavefs.BTree.{BTree}
use akavefs.BufferList.{FileBuffer, BufferList}

-- What a callback returns: the new state, whether to go on, and whether the map changed. `S` is the
-- buffer list with what the callback's closure collects; `none` is a panic.
pub record Step (S : Type 0) : Type 0 where
  pub state : S
  pub cont : Bool
  pub changed : Bool

abbrev pub Callback : Type 0 → Type 0
Callback S = S → ℕ → FileBuffer → Option (Step S)

abbrev pub skips : Option ℕ → ℕ → Bool
skips none key = false
skips (some last) key = key == last

module _ ⦃bt : BTree⦄ {S : Type 0} (list_of : S → BufferList) (iter : Callback S) where
  open bt use {ascend}

  -- `wrappedIter` on the entries still to visit. The fuel is the number of restarts: after a change
  -- the iteration starts again from the key, and skips its entry.
  unfoldable pub walk : ℕ → Option ℕ → List (ℕ × FileBuffer) → S → Option S
  walk fuel last [] s = some s
  walk zero last ((key, b) ∷ es) s = elim (skips last key) [
    | true ↦ walk zero last es s
    | false ↦ elim (iter s key b) [
      | none ↦ none
      | some r ↦ elim r.cont [
        | false ↦ some r.state
        | true ↦ elim r.changed [ true ↦ none | false ↦ walk zero last es r.state ]
      ]
    ]
  ]
  walk (suc fuel) last ((key, b) ∷ es) s = elim (skips last key) [
    | true ↦ walk (suc fuel) last es s
    | false ↦ elim (iter s key b) [
      | none ↦ none
      | some r ↦ elim r.cont [
        | false ↦ some r.state
        | true ↦ elim r.changed [
          | true ↦ walk fuel (some key) (ascend (list_of r.state).at key) r.state
          | false ↦ walk (suc fuel) last es r.state
        ]
      ]
    ]
  ]

  -- Each restart is at another of the keys that were there from the start.
  unfoldable pub ascend_change : ℕ → S → Option S
  unfolding walk
  ascend_change start s = let es = ascend (list_of s).at start in walk (length es) none es s
