-- ===== src/Directory.antt =====
-- core/dir.go: the children of a directory, in the order of their names, and the positions of the
-- handles that list them. Only the fields that these operations read or write are kept: an inode's
-- name and number, and the list, `lastOpenDirIdx` and `generation` of a directory. `Ref` and `DeRef`
-- of the inode that is inserted or removed are not part of the model.
pub mod Rank
pub mod Children
pub mod Finding
pub mod Mutators
pub mod Position
use akavefs.Prelude.{
  ℕ, suc, ◌+◌, ◌-◌, Bool, true, false, not, ◌&&◌, ◌||◌, Option, none, some, List, [], ◌∷◌, ◌++◌,
  leb, ltb, ◌==◌, if◌then◌else◌, ◌^◌, add64, sub64, sle64, slt64, is_negative, length, get_elem?,
  take, drop, ◌>>=◌,
}
use akavefs.Names.{Name, name_eq, name_ge}
use akavefs.Search.{search}

pub record Child : Type 0 where
  pub id : ℕ
  pub name : Name

pub record Dir : Type 0 where
  pub children : List Child
  pub last_open_dir_idx : ℕ
  pub generation : ℕ

-- `findInodeFunc`; `sort.Search` gives it indices of children only.
abbrev pub find_inode_func : List Child → Name → ℕ → Bool
find_inode_func cs name i =
    if name_eq name []
    then true
    else elim (get_elem? cs i) [ none ↦ false | some c ↦ name_ge c.name name ]

abbrev pub is_named : Name → Option Child → Bool
is_named name none = false
is_named name (some c) = name_eq c.name name

unfoldable pub find_child_unlocked : Dir → Name → Option Child
unfolding search
find_child_unlocked dir name =
    let l = length dir.children in
    let i = search l (find_inode_func dir.children name) in
    if l == 0
    then none
    else if ltb i l && is_named name (get_elem? dir.children i)
    then get_elem? dir.children i
    else none

-- `none` is -1.
unfoldable pub find_child_idx_unlocked : Dir → Name → Option ℕ
unfolding search
find_child_idx_unlocked dir name =
    let l = length dir.children in
    let i = search l (find_inode_func dir.children name) in
    if l == 0
    then none
    else if ltb i l && is_named name (get_elem? dir.children i)
    then some i
    else none

-- The child at an index goes.
abbrev pub without : ℕ → List Child → List Child
without i cs = take i cs ++ drop (suc i) cs

-- A child that is not there is a panic.
unfoldable pub remove_child_unlocked : Dir → Child → Option Dir
unfolding search
remove_child_unlocked dir inode =
    let l = length dir.children in
    let i = search l (find_inode_func dir.children inode.name) in
    if l == 0
    then some dir
    else if leb l i || not (is_named inode.name (get_elem? dir.children i))
    then none
    else some (record dir {
      generation = add64 dir.generation 1;
      last_open_dir_idx =
          if sle64 i dir.last_open_dir_idx
          then sub64 dir.last_open_dir_idx 1
          else dir.last_open_dir_idx;
      children = without i dir.children;
    })

abbrev pub is_inode : Child → Option Child → Bool
is_inode inode none = false
is_inode inode (some c) = c.id == inode.id

-- Pointers are equal if the inodes' numbers are.
unfoldable pub remove_child : Dir → Child → Option Dir
unfolding search remove_child_unlocked
remove_child dir inode =
    let l = length dir.children in
    let i = search l (find_inode_func dir.children inode.name) in
    if leb l i || not (is_inode inode (get_elem? dir.children i))
    then some dir
    else remove_child_unlocked dir inode

abbrev pub inserted : ℕ → Child → List Child → List Child
inserted i c cs = take i cs ++ c ∷ drop i cs

-- A name that is there is a panic.
unfoldable pub insert_child_unlocked : Dir → Child → Option Dir
unfolding search
insert_child_unlocked dir inode =
    let l = length dir.children in
    let i = search l (find_inode_func dir.children inode.name) in
    if l == 0
    then some (record dir { children = inode ∷ [] })
    else if i == l
    then some (record dir { children = dir.children ++ inode ∷ [] })
    else if is_named inode.name (get_elem? dir.children i)
    then none
    else some (record dir {
      generation = add64 dir.generation 1;
      last_open_dir_idx =
          if sle64 i dir.last_open_dir_idx
          then add64 dir.last_open_dir_idx 1
          else dir.last_open_dir_idx;
      children = inserted i inode dir.children;
    })

-- A handle that lists a directory; the internal offset is an `int`.
pub record DirHandle : Type 0 where
  pub last_external_offset : ℕ
  pub last_internal_offset : ℕ
  pub generation : ℕ
  pub last_name : Name

abbrev pub new_dir_handle : DirHandle
new_dir_handle = record {
  last_external_offset = 0;
  last_internal_offset = 0;
  generation = 0;
  last_name = [];
}

abbrev pub dot : Name
dot = b'.' ∷ []

abbrev pub dot_dot : Name
dot_dot = b'.' ∷ b'.' ∷ []

-- The search for the place of the last name, past the two dot entries.
unfoldable pub find_position : Dir → Name → ℕ
unfolding search
find_position dir name =
    let i = search (length dir.children) (find_inode_func dir.children name) in
    if ltb i (length dir.children) && is_named name (get_elem? dir.children i)
    then i + 1 + 2
    else i + 2

abbrev pub restored : Dir → DirHandle → ℕ
restored dir dh =
    if dh.last_external_offset == 0
    then 0
    else if name_eq dh.last_name dot
    then 1
    else if name_eq dh.last_name dot_dot
    then 2
    else find_position dir dh.last_name

-- The handle that has noticed the generation of its directory.
abbrev pub noticed : Dir → DirHandle → DirHandle
noticed dir dh =
    if dh.generation == dir.generation
    then dh
    else record dh { last_internal_offset = 2 ^ 64 - 1; generation = dir.generation }

unfoldable pub check_dir_position : Dir → DirHandle → DirHandle
unfolding find_position
check_dir_position dir dh =
    let seen = noticed dir dh in
    if is_negative seen.last_internal_offset
    then record seen { last_internal_offset = restored dir seen }
    else seen

unfoldable pub next : DirHandle → Name → DirHandle
next dh name = record dh {
  last_internal_offset =
      if is_negative dh.last_internal_offset
      then dh.last_internal_offset
      else add64 dh.last_internal_offset 1;
  last_external_offset = add64 dh.last_external_offset 1;
  last_name = name;
}

-- The name at an internal offset from 1 on; an index out of range panics.
abbrev pub name_at : Dir → ℕ → Option Name
name_at dir i =
    if i == 1
    then some dot
    else if i == 2
    then some dot_dot
    else if is_negative (sub64 i 3)
    then none
    else (do c ← get_elem? dir.children (sub64 i 3); some c.name)

-- `Seek`.
unfoldable pub seek : Dir → DirHandle → ℕ → Option DirHandle
seek dir dh offset =
    if not (offset == 0) && not (offset == dh.last_external_offset)
    then (let end = 2 + length dir.children in
        let i = if slt64 end offset then end else offset in
        do
          name ← name_at dir i
          some (record dh {
            last_external_offset = offset;
            last_internal_offset = i;
            last_name = name;
          }))
    else if offset == 0
    then some (record dh { last_external_offset = 0; last_internal_offset = 0; last_name = [] })
    else some dh
