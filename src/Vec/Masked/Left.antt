-- ===== src/Vec/Masked/Left.antt =====
-- What is left of a mask allows what the mask allows, and wam_setmask puts both in order.
use mathlib.Core.Bool.{Bool-set}
use mathlib.Core.List.{Permᴰ}
use mathlib.Core.Logic.{∥∥₁_elim}
use getassoc.Common.{
  ℕ, ◌+◌, ◌*◌, ◌≤◌, ◌<◌, ◌≡◌, refl, ap, ◌∙◌, Bool, true, false, not, ◌||◌, Option, none, some, List,
  [], ◌∷◌, Perm, arith, ltb, leb, ◌==◌, if◌then◌else◌, length, All, All-mono, inl, inr, Bool-cases,
}
use getassoc.Assv.Masks.Filter.{member, IsSorted}
use getassoc.Vec.Masked.{
  MaskT, MaskPair, in_order, setmask0, wam_setmask, skip_below, skip_mask, heads, passes,
}

-- What both masks allow, if there are any
abbrev pub allowed : Option (List ℕ) → Option (List ℕ) → ℕ → Bool
allowed pmask nmask x =
    elim pmask [ none ↦ false | some p ↦ member x p ]
    || elim nmask [ none ↦ false | some n ↦ not (member x n) ]

abbrev pub visible : Option (List ℕ) → Option (List ℕ) → ℕ → Bool
visible none none x = true
visible none (some n) x = allowed none (some n) x
visible (some p) nmask x = allowed (some p) nmask x

member-permᴰ : (d : ℕ) {xs ys : List ℕ} → Permᴰ xs ys → member d xs ≡ member d ys
member-permᴰ d Permᴰ.nil = refl
member-permᴰ d (Permᴰ.cons {a = a} e p) = rw⁻¹ e (ap (λ r. a == d || r) (member-permᴰ d p))
member-permᴰ d (Permᴰ.swap {a = a} {b = b} {l = l} e f) =
    rw⁻¹ (e, f) (swapped (a == d) (b == d) (member d l))
  where
    swapped : (x y z : Bool) → (x || (y || z)) ≡ (y || (x || z))
    swapped true true z = refl
    swapped true false z = refl
    swapped false y z = refl
member-permᴰ d (Permᴰ.trans p q) = member-permᴰ d p ∙ member-permᴰ d q

member-perm : (d : ℕ) {xs ys : List ℕ} → Perm xs ys → member d xs ≡ member d ys
member-perm d p = ∥∥₁_elim p (Bool-set _ _) (member-permᴰ d)

abbrev pub IsSort : (List ℕ → List ℕ) → Type 0
IsSort qsort = (xs : List ℕ) → Perm (qsort xs) xs × IsSorted (qsort xs)

in_order-IsSorted : (mask : List ℕ) → in_order mask ≡ true → IsSorted mask
unfolding in_order
in_order-IsSorted [] e = tt
in_order-IsSorted (x ∷ []) e = (tt, tt)
in_order-IsSorted (x ∷ y ∷ mask) e = elim (Bool-cases (leb x y)) [
  | inl le ↦
      let (up, sorted) = in_order-IsSorted (y ∷ mask) (rw le at e) in
      let le' : x ≤ y = ground arith in ((le', All-mono mask (λ z k. omega arith) up), (up, sorted))
  | inr gt ↦ let wrong : false ≡ true = rw gt at e in cc
]

-- What is left of a mask, for identifiers from `b` on
abbrev pub IsLeft : ℕ → Option (List ℕ) → Option (List ℕ) → Type 0
IsLeft b none none = Unit
IsLeft b none (some m) = ⊥
IsLeft b (some l) none = ⊥
IsLeft b (some l) (some m) = IsSorted l × ((x : ℕ) → b ≤ x → member x l ≡ member x m)

member-over : (d : ℕ) (xs : List ℕ) → All (λ y. d < y) xs → member d xs ≡ false
member-over d [] h = refl
member-over d (x ∷ xs) (lt, h) =
    let other : (x == d) ≡ false = ground arith in rw other (member-over d xs h)

skip_below-left :
    (id : ℕ) (l : List ℕ)
    → IsSorted l
    → IsSorted (skip_below id l)
      × ((x : ℕ) → id ≤ x → member x (skip_below id l) ≡ member x l)
      × (heads id (skip_below id l) ≡ member id l)
unfolding skip_below heads
skip_below-left id [] s = (tt, λ x le. refl, refl)
skip_below-left id (y ∷ l) (up, s) = elim (Bool-cases (ltb y id)) [
  | inl lt ↦
      let (s', same, head) = skip_below-left id l s in
      let passed : (x : ℕ) → id ≤ x → (y == x) ≡ false = λ x le. ground arith in
      rw lt (
        s',
        λ x le. same x le ∙ (rw (passed x le) refl),
        head ∙ (rw (passed id (omega arith)) refl),
      )
  | inr ge ↦ let le : id ≤ y = ground arith in rw ge ((up, s), λ x k. refl, at_head le)
]
  where
    at_head : id ≤ y → (y == id) ≡ (y == id || member id l)
    at_head le = elim (Bool-cases (y == id)) [
      | inl e ↦ rw e refl
      | inr e ↦
          let gone = member-over id l (All-mono l (λ z k. ground arith) up) in rw (e, gone) refl
    ]

pub skip_mask-left :
    (b id : ℕ) (l m : Option (List ℕ)) → b ≤ id → IsLeft b l m → IsLeft id (skip_mask id l) m
unfolding skip_mask
skip_mask-left b id none none le h = tt
skip_mask-left b id none (some m) le h = elim h [ ]
skip_mask-left b id (some l) none le h = elim h [ ]
skip_mask-left b id (some l) (some m) le (s, same) =
    let (s', same', head) = skip_below-left id l s in (s', λ x k. same' x k ∙ same x (omega arith))

pub passes-allowed :
    (b id : ℕ) (l m k n : Option (List ℕ))
    → b ≤ id
    → IsLeft b l m
    → IsLeft b k n
    → passes id (skip_mask id l) (skip_mask id k) ≡ allowed m n id
unfolding passes skip_mask
passes-allowed b id none none none (some n) le h h' = elim h' [ ]
passes-allowed b id none none (some k) none le h h' = elim h' [ ]
passes-allowed b id none (some m) k n le h h' = elim h [ ]
passes-allowed b id (some l) none k n le h h' = elim h [ ]
passes-allowed b id (some l) (some m) none (some n) le h h' = elim h' [ ]
passes-allowed b id (some l) (some m) (some k) none le h h' = elim h' [ ]
passes-allowed b id none none none none le h h' = refl
passes-allowed b id (some l) (some m) none none le (s, same) h' =
    let (s', same', head) = skip_below-left id l s in ap (λ c. c || false) (head ∙ same id le)
passes-allowed b id none none (some k) (some n) le h (t, same) =
    let (t', same', head) = skip_below-left id k t in ap not (head ∙ same id le)
passes-allowed b id (some l) (some m) (some k) (some n) le (s, same) (t, same_n) =
    let (s', same', head) = skip_below-left id l s in
    let (t', same_n', head_n) = skip_below-left id k t in
    let first : heads id (skip_below id l) ≡ member id m = head ∙ same id le in
    let second : heads id (skip_below id k) ≡ member id n = head_n ∙ same_n id le in
    rw (first, second) refl

abbrev pub is_there : Option (List ℕ) → Bool
is_there none = false
is_there (some mask) = true

-- The masks are set, in order, as far as `d` says.
pub record HasMasks (d : MaskPair) (pmask nmask : Option (List ℕ)) : Type 0 where
  pub positive : IsLeft 0 d.pmask.mask pmask
  pub negative : IsLeft 0 d.nmask.mask nmask
  pub either : d.mask_set ≡ (is_there d.pmask.mask || is_there d.nmask.mask)

module _ (qsort : List ℕ → List ℕ) (sorts : IsSort qsort) where
  ordered :
      (mask : List ℕ) → IsLeft 0 (some (if in_order mask then mask else qsort mask)) (some mask)
  ordered mask = elim (Bool-cases (in_order mask)) [
    | inl already ↦ rw already (in_order-IsSorted mask already, λ x le. refl)
    | inr other ↦ let (perm, sorted) = sorts mask in rw other (sorted, λ x le. member-perm x perm)
  ]

  setmask0-IsLeft :
      (granted : Bool) (m : MaskT) (mask : Option (List ℕ))
      → (setmask0 qsort granted m mask).0 ≡ true
      → IsLeft 0 (setmask0 qsort granted m mask).1.mask mask
  unfolding setmask0
  setmask0-IsLeft granted m none e = tt
  setmask0-IsLeft granted m (some mask) e = elim (Bool-cases (ltb m.size ((length mask + 1) * 4))) [
    | inl grow ↦ elim (Bool-cases granted) [
      | inl g ↦ rw (grow, g) (ordered mask)
      | inr n ↦ let wrong : false ≡ true = rw (grow, n) at e in cc
    ]
    | inr fits ↦ rw fits (ordered mask)
  ]

  pub wam_setmask-HasMasks :
      (granted granted' : Bool) (d : MaskPair) (pmask nmask : Option (List ℕ))
      → (wam_setmask qsort granted granted' d pmask nmask).0 ≡ true
      → HasMasks (wam_setmask qsort granted granted' d pmask nmask).1 pmask nmask
  unfolding wam_setmask
  wam_setmask-HasMasks granted granted' d pmask nmask e =
      elim (Bool-cases (setmask0 qsort granted d.pmask pmask).0) [
        | inr no_p ↦ let wrong : false ≡ true = rw no_p at e in cc
        | inl p ↦ elim (Bool-cases (setmask0 qsort granted' d.nmask nmask).0) [
          | inr no_n ↦ let wrong : false ≡ true = rw (p, no_n) at e in cc
          | inl n ↦
              rw (p, n)
                (record {
                  positive = setmask0-IsLeft granted d.pmask pmask p;
                  negative = setmask0-IsLeft granted' d.nmask nmask n;
                  either = there _ _;
                })
        ]
      ]
    where
      there :
          (p n : Option (List ℕ))
          → ((elim p as (λ o. Bool) [ none ↦ false | some mask ↦ true ])
              || (elim n as (λ o. Bool) [ none ↦ false | some mask ↦ true ]))
            ≡ (is_there p || is_there n)
      there none none = refl
      there none (some n) = refl
      there (some p) n = refl

pub visible-allowed :
    (x : ℕ) (l m k n : Option (List ℕ))
    → IsLeft 0 l m
    → IsLeft 0 k n
    → (is_there l || is_there k) ≡ true
    → visible m n x ≡ allowed m n x
visible-allowed x none none none none h h' e = cc
visible-allowed x none none none (some n) h h' e = elim h' [ ]
visible-allowed x none none (some k) none h h' e = elim h' [ ]
visible-allowed x none none (some k) (some n) h h' e = refl
visible-allowed x none (some m) k n h h' e = elim h [ ]
visible-allowed x (some l) none k n h h' e = elim h [ ]
visible-allowed x (some l) (some m) k n h h' e = refl

pub visible-true :
    (x : ℕ) (l m k n : Option (List ℕ))
    → IsLeft 0 l m
    → IsLeft 0 k n
    → (is_there l || is_there k) ≡ false
    → visible m n x ≡ true
visible-true x none none none none h h' e = refl
visible-true x none none none (some n) h h' e = elim h' [ ]
visible-true x none none (some k) n h h' e = cc
visible-true x none (some m) k n h h' e = elim h [ ]
visible-true x (some l) m k n h h' e = cc
