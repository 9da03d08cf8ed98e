-- ===== src/Directory/Mutators.antt =====
-- core/dir.go: `insertChildUnlocked` and `removeChildUnlocked` against the map from names to children.
use akavefs.Prelude.{
  ◌<◌, ◌≡◌, ◌⊎◌, ◌∙◌, refl, ap, sym, true, false, inl, inr, Bool-cases, Option-cases, none, some,
  List, [], ◌∷◌, ◌++◌, if◌then◌else◌, length, get_elem?, arith, subst, add64, leb, leb→le, leb→lt,
  sle64, sub64, ◌==◌,
}
use akavefs.Names.{Name, name_eq}
use akavefs.Directory.{
  Child, Dir, is_named, without, inserted, insert_child_unlocked, remove_child_unlocked,
}
use akavefs.Directory.Rank.{IsOrdered, rank, search-rank}
use akavefs.Directory.Children.{
  child_named, child_named-rank, inserted-IsOrdered, child_named-inserted, without-IsOrdered,
  child_named-without,
}
use akavefs.Directory.Finding.{get_elem?-none, empty_or}

-- What `insertChildUnlocked` does where the name is not there.
record Inserted (dir : Dir) (c : Child) : Type 0 where
  next : Dir
  run : insert_child_unlocked dir c ≡ some next
  placed : next.children ≡ inserted (rank c.name dir.children) c dir.children
  noticed :
      (next.generation ≡ add64 dir.generation 1)
      ⊎ ((next.generation ≡ dir.generation) × (next.children ≡ dir.children ++ c ∷ []))

inserted_last : (c : Child) (cs : List Child) → inserted (length cs) c cs ≡ cs ++ c ∷ []
inserted_last c [] = refl
inserted_last c (d ∷ cs) = ap (λ ds. d ∷ ds) (inserted_last c cs)

absent_rank :
    (name : Name) (cs : List Child)
    → IsOrdered cs
    → child_named name cs ≡ none
    → is_named name (get_elem? cs (rank name cs)) ≡ false
absent_rank name cs o h = elim (Bool-cases (is_named name (get_elem? cs (rank name cs)))) [
  | inr other ↦ other
  | inl same ↦ elim (Option-cases (get_elem? cs (rank name cs))) [
    | inl gone ↦ rw gone
    | inr (e, there) ↦
        let f = child_named-rank name cs o in absurd (ground (arith, f, same, there, h))
  ]
]

insert_child_unlocked_run :
    (dir : Dir) (c : Child)
    → IsOrdered dir.children
    → child_named c.name dir.children ≡ none
    → Inserted dir c
unfolding insert_child_unlocked
insert_child_unlocked_run dir c o h =
    let at = search-rank c.name dir.children o in
    let new = absent_rank c.name dir.children o h in
    elim (empty_or dir.children) [
      | inl nil ↦ record {
        next = record dir { children = c ∷ [] };
        run = rw (insert_child_unlocked, nil);
        placed = rw nil;
        noticed = inr (refl, rw nil);
      }
      | inr more ↦ elim (Bool-cases (rank c.name dir.children == length dir.children)) [
        | inl last ↦
            let e : rank c.name dir.children ≡ length dir.children = ground arith in
            record {
              next = record dir { children = dir.children ++ c ∷ [] };
              run = rw (insert_child_unlocked, at, more, last);
              placed = sym (ap (λ i. inserted i c dir.children) e ∙ inserted_last c dir.children);
              noticed = inr (refl, refl);
            }
        | inr inside ↦ record {
          next = record dir {
            generation = add64 dir.generation 1;
            last_open_dir_idx =
                if sle64 (rank c.name dir.children) dir.last_open_dir_idx
                then add64 dir.last_open_dir_idx 1
                else dir.last_open_dir_idx;
            children = inserted (rank c.name dir.children) c dir.children;
          };
          run = rw (insert_child_unlocked, at, more, inside, new);
          placed = refl;
          noticed = inl refl;
        }
      ]
    ]

-- A name that is not there is inserted: the names still rise, the name finds the new child and each
-- other name what it found before. Open handles are told by a new generation, unless the child comes
-- last, where no position moves. It does not panic.
pub insert_child_unlocked-child_named :
    (dir : Dir) (c : Child)
    → IsOrdered dir.children
    → child_named c.name dir.children ≡ none
    → (next : Dir) × (insert_child_unlocked dir c ≡ some next)
      × IsOrdered next.children
      × ((key : Name)
          → child_named key next.children
            ≡ (if name_eq c.name key then some c else child_named key dir.children))
      × ((next.generation ≡ add64 dir.generation 1)
          ⊎ ((next.generation ≡ dir.generation) × (next.children ≡ dir.children ++ c ∷ [])))
insert_child_unlocked-child_named dir c o h =
    let r = insert_child_unlocked_run dir c o h in
    (
      r.next,
      r.run,
      subst IsOrdered (sym r.placed) (inserted-IsOrdered c dir.children o h),
      λ key. ap (child_named key) r.placed ∙ child_named-inserted key c dir.children o h,
      r.noticed,
    )

present_rank :
    (name : Name) (e : Child) (cs : List Child)
    → IsOrdered cs
    → child_named name cs ≡ some e
    → (is_named name (get_elem? cs (rank name cs)) ≡ true) × (rank name cs < length cs)
present_rank name e cs o h =
    let f = child_named-rank name cs o in
    elim (Bool-cases (is_named name (get_elem? cs (rank name cs)))) [
      | inr other ↦ absurd (ground (arith, f, other, h))
      | inl same ↦ elim (Bool-cases (leb (length cs) (rank name cs))) [
        | inl outside ↦
            let gone =
              get_elem?-none cs (rank name cs) (leb→le (length cs) (rank name cs) outside) in
            absurd (ground (arith, gone, same))
        | inr inside ↦ (same, leb→lt (length cs) (rank name cs) inside)
      ]
    ]

-- A child that is there is removed: the names still rise, its name finds nothing and each other name
-- what it found before, and open handles are told by a new generation. It does not panic.
pub remove_child_unlocked-child_named :
    (dir : Dir) (inode e : Child)
    → IsOrdered dir.children
    → child_named inode.name dir.children ≡ some e
    → (next : Dir) × (remove_child_unlocked dir inode ≡ some next)
      × IsOrdered next.children
      × ((key : Name)
          → child_named key next.children
            ≡ (if name_eq inode.name key then none else child_named key dir.children))
      × (next.generation ≡ add64 dir.generation 1)
unfolding remove_child_unlocked
remove_child_unlocked-child_named dir inode e o h =
    let at = search-rank inode.name dir.children o in
    let here = present_rank inode.name e dir.children o h in
    let i = rank inode.name dir.children in
    let more : (length dir.children == 0) ≡ false = ground (arith, here.1) in
    let inside : leb (length dir.children) (rank inode.name dir.children) ≡ false =
      ground (arith, here.1) in
    (
      record dir {
        generation = add64 dir.generation 1;
        last_open_dir_idx =
            if sle64 (rank inode.name dir.children) dir.last_open_dir_idx
            then sub64 dir.last_open_dir_idx 1
            else dir.last_open_dir_idx;
        children = without (rank inode.name dir.children) dir.children;
      },
      rw (remove_child_unlocked, at, more, inside, here.0),
      without-IsOrdered (rank inode.name dir.children) dir.children o,
      λ key. child_named-without key inode.name e dir.children o h,
      refl,
    )

-- Where the name is there already, an insertion panics; where it is not, so does a removal from a
-- directory that has children.
pub insert_remove_panics :
    (dir : Dir) (c : Child)
    → IsOrdered dir.children
    → ((e : Child) × (child_named c.name dir.children ≡ some e)
        × (insert_child_unlocked dir c ≡ none))
      ⊎ ((child_named c.name dir.children ≡ none)
          × ((dir.children ≡ []) ⊎ (remove_child_unlocked dir c ≡ none)))
unfolding insert_child_unlocked remove_child_unlocked
insert_remove_panics dir c o =
    let at = search-rank c.name dir.children o in
    elim (Option-cases (child_named c.name dir.children)) [
      | inr (e, there) ↦
          let here = present_rank c.name e dir.children o there in
          let more : (length dir.children == 0) ≡ false = ground (arith, here.1) in
          let inside : (rank c.name dir.children == length dir.children) ≡ false =
            ground (arith, here.1) in
          inl (e, there, rw (insert_child_unlocked, at, more, inside, here.0))
      | inl gone ↦ inr (
        gone,
        elim (empty_or dir.children) [
          | inl nil ↦ inl nil
          | inr more ↦
              let new = absent_rank c.name dir.children o gone in
              elim (Bool-cases (leb (length dir.children) (rank c.name dir.children))) [
                | inl outside ↦ inr (rw (remove_child_unlocked, at, more, outside))
                | inr inside ↦ inr (rw (remove_child_unlocked, at, more, inside, new))
              ]
        ],
      )
    ]
