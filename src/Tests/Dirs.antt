-- ===== src/Tests/Dirs.antt =====
-- core/dir.go: a directory of two children.
use akavefs.Prelude.{
  ℕ, ◌≡◌, ◌⊎◌, refl, none, some, [], ◌∷◌, ◌++◌, All, take, drop, if◌then◌else◌, get_elem?, ◌>>=◌,
  add64, arith,
}
use akavefs.Names.{Name, name_eq}
use akavefs.Directory.{
  Child, Dir, DirHandle, find_child_unlocked, find_child_idx_unlocked, insert_child_unlocked,
  remove_child_unlocked, check_dir_position, next,
}
use akavefs.Directory.Rank.{Before, IsOrdered}
use akavefs.Directory.Children.{child_named}
use akavefs.Directory.Finding.{find_child_unlocked-child_named}
use akavefs.Directory.Mutators.{
  insert_child_unlocked-child_named, remove_child_unlocked-child_named,
}
use akavefs.Directory.Position.{
  passed, IsUpTo, IsPlaced, check_dir_position-IsPlaced, next-IsPlaced,
}

abbrev child : ℕ → Name → Child
child i n = record { id = i; name = n }

abbrev two_children : Dir
two_children = record {
  children = child 5 (b'a' ∷ []) ∷ child 6 (b'c' ∷ []) ∷ [];
  last_open_dir_idx = 1;
  generation = 7;
}

two_children-IsOrdered : IsOrdered two_children.children
two_children-IsOrdered = ((refl, tt), (tt, tt))

find_child_unlocked-child_named_example :
    (find_child_unlocked two_children (b'c' ∷ []) ≡ child_named (b'c' ∷ []) two_children.children)
    × ((find_child_idx_unlocked two_children (b'c' ∷ []) >>= get_elem? two_children.children)
        ≡ child_named (b'c' ∷ []) two_children.children)
find_child_unlocked-child_named_example =
    find_child_unlocked-child_named two_children (b'c' ∷ []) two_children-IsOrdered

insert_child_unlocked-child_named_example :
    (after : Dir) × (insert_child_unlocked two_children (child 8 (b'b' ∷ [])) ≡ some after)
    × IsOrdered after.children
    × ((key : Name)
        → child_named key after.children ≡ (
            if name_eq (b'b' ∷ []) key
            then some (child 8 (b'b' ∷ []))
            else child_named key two_children.children))
    × ((after.generation ≡ add64 7 1)
        ⊎ ((after.generation ≡ 7)
            × (after.children ≡ two_children.children ++ child 8 (b'b' ∷ []) ∷ [])))
insert_child_unlocked-child_named_example =
    insert_child_unlocked-child_named two_children (child 8 (b'b' ∷ [])) two_children-IsOrdered refl

remove_child_unlocked-child_named_example :
    (after : Dir) × (remove_child_unlocked two_children (child 5 (b'a' ∷ [])) ≡ some after)
    × IsOrdered after.children
    × ((key : Name)
        → child_named key after.children
          ≡ (if name_eq (b'a' ∷ []) key then none else child_named key two_children.children))
    × (after.generation ≡ add64 7 1)
remove_child_unlocked-child_named_example =
    remove_child_unlocked-child_named two_children (child 5 (b'a' ∷ [])) (child 5 (b'a' ∷ []))
      two_children-IsOrdered refl

-- It returned "b", which is no longer there.
abbrev stale_handle : DirHandle
stale_handle = record {
  last_external_offset = 4;
  last_internal_offset = 4;
  generation = 6;
  last_name = b'b' ∷ [];
}

check_dir_position-IsPlaced_example :
    IsPlaced two_children (check_dir_position two_children stale_handle)
    × ((check_dir_position two_children stale_handle).generation ≡ 7)
    × ((check_dir_position two_children stale_handle).last_name ≡ b'b' ∷ [])
    × All
        (IsUpTo (b'b' ∷ []))
        (take (passed (b'b' ∷ []) two_children.children) two_children.children)
    × All
        (Before (b'b' ∷ []))
        (drop (passed (b'b' ∷ []) two_children.children) two_children.children)
check_dir_position-IsPlaced_example =
    check_dir_position-IsPlaced two_children stale_handle two_children-IsOrdered (omega arith)
      (omega arith) refl refl

abbrev placed_handle : DirHandle
placed_handle = record {
  last_external_offset = 3;
  last_internal_offset = 3;
  generation = 7;
  last_name = b'a' ∷ [];
}

next-IsPlaced_example :
    IsPlaced two_children (next placed_handle (b'c' ∷ []))
    × ((next placed_handle (b'c' ∷ [])).last_internal_offset ≡ 4)
next-IsPlaced_example =
    next-IsPlaced two_children placed_handle 1 (child 6 (b'c' ∷ [])) two_children-IsOrdered refl
      (omega arith) refl refl
