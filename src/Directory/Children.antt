-- ===== src/Directory/Children.antt =====
-- core/dir.go: the ordered children as a map from names.
use akavefs.Prelude.{
  ℕ, zero, suc, ◌≡◌, refl, true, false, inl, inr, Bool-cases, Option, none, some, List, [], ◌∷◌,
  All, if◌then◌else◌, get_elem?, arith, subst, ◌⊎◌,
}
use akavefs.Names.{Name, name_lt, name_eq}
use akavefs.Names.Order.{name_lt_irrefl, name_lt_trans, name_lt_total, name_eq_refl, name_eq-eq}
use akavefs.Directory.{Child, is_named, without, inserted}
use akavefs.Directory.Rank.{Before, IsOrdered, rank}

-- The child of a name.
abbrev pub child_named : Name → List Child → Option Child
child_named name [] = none
child_named name (c ∷ cs) = if name_eq c.name name then some c else child_named name cs

-- A name that stands before all children is none of theirs.
child_named-Before :
    (name : Name) (cs : List Child) → All (Before name) cs → child_named name cs ≡ none
child_named-Before name [] a = refl
child_named-Before name (c ∷ cs) a = elim (Bool-cases (name_eq c.name name)) [
  | inl same ↦
      let e = name_eq-eq c.name name same in absurd (ground (arith, name_lt_irrefl name, a.0, e))
  | inr other ↦ rw other (child_named-Before name cs a.1)
]

pub All-Before_trans :
    (a b : Name) (cs : List Child) → name_lt a b ≡ true → All (Before b) cs → All (Before a) cs
All-Before_trans a b [] h v = tt
All-Before_trans a b (c ∷ cs) h v = (name_lt_trans a b c.name h v.0, All-Before_trans a b cs h v.1)

-- The child at the rank of a name is the child of the name, if there is one.
pub child_named-rank :
    (name : Name) (cs : List Child)
    → IsOrdered cs
    → child_named name cs
      ≡ (if is_named name (get_elem? cs (rank name cs)) then get_elem? cs (rank name cs) else none)
child_named-rank name [] o = refl
child_named-rank name (c ∷ cs) o = elim (Bool-cases (name_lt c.name name)) [
  | inl less ↦ elim (Bool-cases (name_eq c.name name)) [
    | inl same ↦
        let e = name_eq-eq c.name name same in absurd (ground (arith, name_lt_irrefl name, less, e))
    | inr other ↦ rw (less, other) (child_named-rank name cs o.1)
  ]
  | inr ge ↦ elim (Bool-cases (name_eq c.name name)) [
    | inl same ↦ rw (ge, same)
    | inr other ↦ elim (Bool-cases (name_lt name c.name)) [
      | inl less ↦
          rw (ge, other) (child_named-Before name cs (All-Before_trans name c.name cs less o.0))
      | inr ge' ↦
          let e = name_lt_total c.name name ge ge' in
          absurd (ground (arith, name_eq_refl name, other, e))
    ]
  ]
]

All-inserted :
    (P : Child → Type 0) (i : ℕ) (c : Child) (cs : List Child)
    → P c
    → All P cs
    → All P (inserted i c cs)
All-inserted P zero c cs p a = (p, a)
All-inserted P (suc i) c [] p a = (p, tt)
All-inserted P (suc i) c (d ∷ cs) p a = (a.0, All-inserted P i c cs p a.1)

All-without : (P : Child → Type 0) (i : ℕ) (cs : List Child) → All P cs → All P (without i cs)
All-without P zero [] a = tt
All-without P zero (d ∷ cs) a = a.1
All-without P (suc i) [] a = tt
All-without P (suc i) (d ∷ cs) a = (a.0, All-without P i cs a.1)

-- A name that is not there differs from the first and is not among the rest.
absent-cons :
    (name : Name) (d : Child) (cs : List Child)
    → child_named name (d ∷ cs) ≡ none
    → (name_eq d.name name ≡ false) × (child_named name cs ≡ none)
absent-cons name d cs h = elim (Bool-cases (name_eq d.name name)) [
  | inl same ↦ let h' : some d ≡ none = rw same at h in absurd (ground (arith, h'))
  | inr other ↦ (other, rw other at h)
]

-- The first child is the one, or it is before the name.
present-cons :
    (name : Name) (d e : Child) (cs : List Child)
    → IsOrdered (d ∷ cs)
    → child_named name (d ∷ cs) ≡ some e
    → ((name_lt d.name name ≡ true) × (child_named name cs ≡ some e))
      ⊎ ((name_lt d.name name ≡ false) × (d.name ≡ name))
present-cons name d e cs o h = elim (Bool-cases (name_eq d.name name)) [
  | inl same ↦
      let eq = name_eq-eq d.name name same in
      inr (subst (λ n. name_lt d.name n ≡ false) eq (name_lt_irrefl d.name), eq)
  | inr other ↦
      let h' : child_named name cs ≡ some e = rw other at h in
      elim (Bool-cases (name_lt d.name name)) [
        | inl less ↦ inl (less, h')
        | inr ge ↦ elim (Bool-cases (name_lt name d.name)) [
          | inl above ↦
              let gone = child_named-Before name cs (All-Before_trans name d.name cs above o.0) in
              absurd (ground (arith, gone, h'))
          | inr ge' ↦ inr (ge, name_lt_total d.name name ge ge')
        ]
      ]
]

pub inserted-IsOrdered :
    (c : Child) (cs : List Child)
    → IsOrdered cs
    → child_named c.name cs ≡ none
    → IsOrdered (inserted (rank c.name cs) c cs)
inserted-IsOrdered c [] o h = (tt, tt)
inserted-IsOrdered c (d ∷ cs) o h =
    let a = absent-cons c.name d cs h in
    elim (Bool-cases (name_lt d.name c.name)) [
      | inl less ↦
          rw (less, IsOrdered)
            (
              All-inserted (Before d.name) (rank c.name cs) c cs less o.0,
              inserted-IsOrdered c cs o.1 a.1,
            )
      | inr ge ↦ elim (Bool-cases (name_lt c.name d.name)) [
        | inl above ↦ rw (ge, IsOrdered) ((above, All-Before_trans c.name d.name cs above o.0), o)
        | inr ge' ↦
            let e = name_lt_total d.name c.name ge ge' in
            absurd (ground (arith, e, name_eq_refl c.name, a.0))
      ]
    ]

pub child_named-inserted :
    (key : Name) (c : Child) (cs : List Child)
    → IsOrdered cs
    → child_named c.name cs ≡ none
    → child_named key (inserted (rank c.name cs) c cs)
      ≡ (if name_eq c.name key then some c else child_named key cs)
child_named-inserted key c [] o h = refl
child_named-inserted key c (d ∷ cs) o h =
    let a = absent-cons c.name d cs h in
    elim (Bool-cases (name_lt d.name c.name)) [
      | inr ge ↦ rw ge
      | inl less ↦ elim (Bool-cases (name_eq d.name key)) [
        | inr other ↦ rw (less, other) (child_named-inserted key c cs o.1 a.1)
        | inl same ↦
            let e = name_eq-eq d.name key same in
            let ne : name_eq c.name key ≡ false = elim (Bool-cases (name_eq c.name key)) [
              | inl same' ↦
                  let e' = name_eq-eq c.name key same' in
                  absurd (ground (arith, e, e', a.0, name_eq_refl c.name))
              | inr other ↦ other
            ] in
            rw (less, same, ne)
      ]
    ]

pub without-IsOrdered : (i : ℕ) (cs : List Child) → IsOrdered cs → IsOrdered (without i cs)
without-IsOrdered zero [] o = tt
without-IsOrdered zero (d ∷ cs) o = o.1
without-IsOrdered (suc i) [] o = tt
without-IsOrdered (suc i) (d ∷ cs) o =
    (All-without (Before d.name) i cs o.0, without-IsOrdered i cs o.1)

pub child_named-without :
    (key name : Name) (e : Child) (cs : List Child)
    → IsOrdered cs
    → child_named name cs ≡ some e
    → child_named key (without (rank name cs) cs)
      ≡ (if name_eq name key then none else child_named key cs)
child_named-without key name e [] o h = absurd (ground (arith, h))
child_named-without key name e (d ∷ cs) o h = elim (present-cons name d e cs o h) [
  | inl (less, h') ↦ elim (Bool-cases (name_eq d.name key)) [
    | inr other ↦ rw (less, other) (child_named-without key name e cs o.1 h')
    | inl same ↦
        let eq = name_eq-eq d.name key same in
        let ne : name_eq name key ≡ false = elim (Bool-cases (name_eq name key)) [
          | inl same' ↦
              let eq' = name_eq-eq name key same' in
              absurd (ground (arith, eq, eq', less, name_lt_irrefl key))
          | inr other ↦ other
        ] in
        rw (less, same, ne)
  ]
  | inr (ge, eq) ↦ rw ge (
      subst (λ n. child_named key cs ≡ (if name_eq n key then none else child_named key (d ∷ cs)))
        eq
        (elim (Bool-cases (name_eq d.name key)) [
          | inl same ↦
              let eq' = name_eq-eq d.name key same in
              rw same (subst (λ n. child_named n cs ≡ none) eq' (child_named-Before d.name cs o.0))
          | inr other ↦ rw other
        ]))
]
