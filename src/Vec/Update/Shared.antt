-- ===== src/Vec/Update/Shared.antt =====
-- What a node keeps of a vector, by its role.
use getassoc.Common.{
  ℕ, ◌+◌, ◌≡◌, refl, ap, ◌∙◌, Bool, true, false, some, none, List, [], ◌∷◌, arith, ◌==◌,
  if◌then◌else◌, ◌⊎◌, inl, inr, Bool-cases,
}
use getassoc.Corpus.{XrElem}
use getassoc.Vec.{XrVec, Role, Dir, Distconf, minep, reduce, reduce_vec}
use getassoc.Vec.Merge.Union.{freq_in}
use getassoc.Vec.Uniq.{IsOver, IsVector}
use getassoc.Vec.Update.{share}

IsOver-reduce :
    (dc : Distconf) (id : ℕ) (xs : List XrElem) → IsOver id xs → IsOver id (reduce dc xs)
unfolding reduce
IsOver-reduce dc id [] h = tt
IsOver-reduce dc id (a ∷ xs) (lt, h) = elim (Bool-cases (minep a.id dc)) [
  | inl own ↦ rw own (lt, IsOver-reduce dc id xs h)
  | inr other ↦ rw other (IsOver-reduce dc id xs h)
]

IsVector-reduce : (dc : Distconf) (xs : List XrElem) → IsVector xs → IsVector (reduce dc xs)
unfolding reduce
IsVector-reduce dc [] h = tt
IsVector-reduce dc (a ∷ xs) (over, some_, v) = elim (Bool-cases (minep a.id dc)) [
  | inl own ↦ rw own (IsOver-reduce dc a.id xs over, some_, IsVector-reduce dc xs v)
  | inr other ↦ rw other (IsVector-reduce dc xs v)
]

freq_in-reduce :
    (dc : Distconf) (x : ℕ) (xs : List XrElem)
    → freq_in x (reduce dc xs) ≡ (if minep x dc then freq_in x xs else 0)
unfolding reduce
freq_in-reduce dc x [] = ground arith
freq_in-reduce dc x (a ∷ xs) =
    let rest = freq_in-reduce dc x xs in
    elim (Bool-cases (a.id == x)) [
      | inl same ↦
          let is : a.id ≡ x = ground arith in
          elim (Bool-cases (minep x dc)) [
            | inl own ↦
                let own' : minep a.id dc ≡ true = ap (λ i. minep i dc) is ∙ own in
                let rest' = rw own at rest in rw (own', same, own) (omega (arith, rest'))
            | inr other ↦
                let other' : minep a.id dc ≡ false = ap (λ i. minep i dc) is ∙ other in
                rw other' (rest ∙ (rw other refl))
          ]
      | inr differs ↦ elim (Bool-cases (minep a.id dc)) [
        | inl own ↦ rw (own, differs) (with_none (minep x dc) _ _ rest)
        | inr other ↦ rw (other, differs) (rest ∙ without (minep x dc) _)
      ]
    ]
  where
    with_none : (c : Bool) (f g : ℕ) → f ≡ (if c then g else 0) → 0 + f ≡ (if c then 0 + g else 0)
    with_none true f g e = omega arith
    with_none false f g e = omega arith

    without : (c : Bool) (g : ℕ) → (if c then g else 0) ≡ (if c then 0 + g else 0)
    without true g = omega arith
    without false g = refl

-- Whether the node keeps a document in the vectors that it stores
abbrev pub keeps : Distconf → ℕ → Bool
keeps dc x = elim dc.role [
  | Role.inherit ↦ true
  | Role.monolithic ↦ true
  | Role.parent ↦ true
  | Role.child ↦ elim dc.dir [ Dir.wam_row ↦ minep x dc | Dir.wam_col ↦ true ]
]

-- Whether the node stores the vector of a word
abbrev pub stores : Distconf → ℕ → Bool
stores dc id = elim dc.role [
  | Role.inherit ↦ false
  | Role.monolithic ↦ true
  | Role.parent ↦ false
  | Role.child ↦ elim dc.dir [ Dir.wam_row ↦ true | Dir.wam_col ↦ minep id dc ]
]

-- What is stored of a vector, and whether the table is written
abbrev pub IsShared : ℕ → XrVec → Distconf → Type 0
IsShared id v dc =
    ((dc.role ≡ Role.inherit) × (share id v dc ≡ none))
    ⊎ ((r : XrVec × Bool) × (share id v dc ≡ some r)
        × (r.1 ≡ stores dc id)
        × IsVector r.0.elems
        × ((x : ℕ) → freq_in x r.0.elems ≡ (if keeps dc x then freq_in x v.elems else 0)))

pub share-IsShared : (id : ℕ) (v : XrVec) (dc : Distconf) → IsVector v.elems → IsShared id v dc
unfolding share reduce_vec
share-IsShared id v dc is = of_role dc.role dc.dir
  where
    of_role : (role : Role) (dir : Dir) → IsShared id v (record dc { role = role; dir = dir })
    of_role Role.inherit dir = inl (refl, refl)
    of_role Role.monolithic dir = inr ((v, true), refl, refl, is, λ x. refl)
    of_role Role.parent dir = inr ((v, false), refl, refl, is, λ x. refl)
    of_role Role.child Dir.wam_row =
        let own = record dc { role = Role.child; dir = Dir.wam_row } in
        inr (
          (reduce_vec v own, true),
          refl,
          refl,
          IsVector-reduce own v.elems is,
          λ x. freq_in-reduce own x v.elems,
        )
    of_role Role.child Dir.wam_col = inr (
      (v, minep id (record dc { role = Role.child; dir = Dir.wam_col })),
      refl,
      refl,
      is,
      λ x. refl,
    )
