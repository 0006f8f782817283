-- ===== src/Fss/Order.antt =====
-- acompar is a total order on the elements of an array.
use getassoc.Common.{
  ◌<◌, ◌≤◌, ◌≡◌, ◌≢◌, ◌⊎◌, refl, compare, Ordering, true, false, arith, ltb, inl, inr, Bool-cases,
}
use getassoc.Fss.{Art, acompar}

-- The order of acompar, in words
abbrev pub IsBefore : Art → Art → Type 0
IsBefore a b =
    (a.id < b.id)
    ⊎ ((a.id ≡ b.id) × ((a.segid < b.segid) ⊎ ((a.segid ≡ b.segid) × (a.disp ≤ b.disp))))

pub acompar-IsBefore : (a b : Art) → acompar a b ≢ Ordering.gt → IsBefore a b
unfolding acompar
acompar-IsBefore a b h = elim (Bool-cases (ltb a.id b.id)) [
  | inl lt ↦ ground arith
  | inr ge ↦ elim (Bool-cases (ltb b.id a.id)) [
    | inl gt ↦ absurd (h (rw (ge, gt) refl))
    | inr le ↦ elim (Bool-cases (ltb a.segid b.segid)) [
      | inl lt' ↦ ground arith
      | inr ge' ↦ elim (Bool-cases (ltb b.segid a.segid)) [
        | inl gt' ↦ absurd (h (rw (ge, le, ge', gt') refl))
        | inr le' ↦
            let last : compare a.disp b.disp ≢ Ordering.gt = λ e. h (rw (ge, le, ge', le') e) in
            ground arith
      ]
    ]
  ]
]

pub IsBefore-acompar : (a b : Art) → IsBefore a b → acompar a b ≢ Ordering.gt
unfolding acompar
IsBefore-acompar a b (inl lt) =
    let first : ltb a.id b.id ≡ true = ground arith in rw first (ground arith)
IsBefore-acompar a b (inr (same, inl lt)) =
    let first : ltb a.id b.id ≡ false = ground arith in
    let second : ltb b.id a.id ≡ false = ground arith in
    let third : ltb a.segid b.segid ≡ true = ground arith in
    rw (first, second, third) (ground arith)
IsBefore-acompar a b (inr (same, inr (same', le))) =
    let first : ltb a.id b.id ≡ false = ground arith in
    let second : ltb b.id a.id ≡ false = ground arith in
    let third : ltb a.segid b.segid ≡ false = ground arith in
    let fourth : ltb b.segid a.segid ≡ false = ground arith in
    rw (first, second, third, fourth) (ground arith)

pub IsBefore-trans : (a b c : Art) → IsBefore a b → IsBefore b c → IsBefore a c
IsBefore-trans a b c h k = ground arith

pub IsBefore-total : (a b : Art) → IsBefore a b ⊎ IsBefore b a
IsBefore-total a b = ground arith
