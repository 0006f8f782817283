-- ===== src/Vec/Merge/Union.antt =====
-- What merge_vec leaves: the elements of both vectors, in order.
use getassoc.Common.{
  ℕ, zero, suc, ◌+◌, ◌≤◌, ◌<◌, ◌≡◌, refl, sym, ap, ◌∙◌, Bool, true, false, Option, some, none, List,
  [], ◌∷◌, ◌++◌, arith, append_assoc, append-nil, ltb, ◌==◌, if◌then◌else◌, length, All, All-mono,
  inl, inr, Bool-cases, done, Returns, returned, Returns-if, Returns-value, le-round_up,
}
use getassoc.Corpus.{XrElem}
use getassoc.Vec.{XrVec, Rvst, int_limit, add_int, ecompar_gt, merge_vec_loop, cells, merge_vec}
use getassoc.Vec.Merge.{onto, merge_last, length-onto, merge_vec_loop-merges}

-- A sum over the elements
abbrev pub weigh : (XrElem → ℕ) → List XrElem → ℕ
weigh f [] = 0
weigh f (a ∷ xs) = f a + weigh f xs

-- How often an identifier occurs
abbrev pub freq_in : ℕ → List XrElem → ℕ
freq_in id = weigh (λ a. if a.id == id then a.freq else 0)

abbrev pub total : List XrElem → ℕ
total = weigh (λ a. a.freq)

abbrev pub IsFrom : ℕ → List XrElem → Type 0
IsFrom id xs = All (λ b. id ≤ b.id) xs

-- Identifiers in order, of which one can stand there more than once
abbrev pub IsRising : List XrElem → Type 0
IsRising [] = Unit
IsRising (a ∷ xs) = IsFrom a.id xs × IsRising xs

abbrev IsUpTo : ℕ → List XrElem → Type 0
IsUpTo id xs = All (λ b. b.id ≤ id) xs

abbrev IsFalling : List XrElem → Type 0
IsFalling [] = Unit
IsFalling (a ∷ xs) = IsUpTo a.id xs × IsFalling xs

-- Each element of the first array is at most each of the second.
abbrev IsUnder : List XrElem → List XrElem → Type 0
IsUnder xs rest = All (λ a. IsFrom a.id rest) xs

weigh-onto :
    (f : XrElem → ℕ) (xs rest : List XrElem) → weigh f (onto xs rest) ≡ weigh f xs + weigh f rest
weigh-onto f [] rest = omega arith
weigh-onto f (a ∷ xs) rest = omega (arith, weigh-onto f xs (a ∷ rest))

weigh-merge_last :
    (f : XrElem → ℕ) (as_ bs rest : List XrElem)
    → weigh f (merge_last as_ bs rest) ≡ weigh f as_ + weigh f bs + weigh f rest
weigh-merge_last f [] bs rest = omega (arith, weigh-onto f bs rest)
weigh-merge_last f (a ∷ as_) [] rest = omega (arith, weigh-onto f (a ∷ as_) rest)
weigh-merge_last f (a ∷ as_) (b ∷ bs) rest = elim (Bool-cases (ecompar_gt a b)) [
  | inl gt ↦ rw gt (omega (arith, weigh-merge_last f as_ (b ∷ bs) (a ∷ rest)))
  | inr le ↦ rw le (omega (arith, weigh-merge_last f (a ∷ as_) bs (b ∷ rest)))
]

-- One more element in front of `rest`
IsUnder-more :
    (a : XrElem) (xs rest : List XrElem) → IsUpTo a.id xs → IsUnder xs rest → IsUnder xs (a ∷ rest)
IsUnder-more a [] rest h u = tt
IsUnder-more a (x ∷ xs) rest (le, h) (u, us) = ((le, u), IsUnder-more a xs rest h us)

onto-IsRising :
    (xs rest : List XrElem)
    → IsFalling xs
    → IsRising rest
    → IsUnder xs rest
    → IsRising (onto xs rest)
onto-IsRising [] rest down up u = up
onto-IsRising (a ∷ xs) rest (h, down) up (u, us) =
    onto-IsRising xs (a ∷ rest) down (u, up) (IsUnder-more a xs rest h us)

onto-IsFalling :
    (xs rest : List XrElem)
    → IsRising xs
    → IsFalling rest
    → All (λ a. IsUpTo a.id rest) xs
    → IsFalling (onto xs rest)
onto-IsFalling [] rest up down u = down
onto-IsFalling (a ∷ xs) rest (h, up) down (u, us) =
    onto-IsFalling xs (a ∷ rest) up (u, down) (IsUpTo-more xs h us)
  where
    IsUpTo-more :
        (xs : List XrElem)
        → IsFrom a.id xs
        → All (λ x. IsUpTo x.id rest) xs
        → All (λ x. IsUpTo x.id (a ∷ rest)) xs
    IsUpTo-more [] h us = tt
    IsUpTo-more (x ∷ xs) (le, h) (u, us) = ((le, u), IsUpTo-more xs h us)

merge_last-IsRising :
    (as_ bs rest : List XrElem)
    → IsFalling as_
    → IsFalling bs
    → IsRising rest
    → IsUnder as_ rest
    → IsUnder bs rest
    → IsRising (merge_last as_ bs rest)
unfolding ecompar_gt
merge_last-IsRising [] bs rest down down' up u u' = onto-IsRising bs rest down' up u'
merge_last-IsRising (a ∷ as_) [] rest down down' up u u' = onto-IsRising (a ∷ as_) rest down up u
merge_last-IsRising (a ∷ as_) (b ∷ bs) rest (h, down) (h', down') up (u, us) (u', us') =
    elim (Bool-cases (ltb b.id a.id)) [
      | inl gt ↦
          let lt : b.id ≤ a.id = ground arith in
          rw gt (
            merge_last-IsRising as_ (b ∷ bs) (a ∷ rest) down (h', down') (u, up)
              (IsUnder-more a as_ rest h us)
              (IsUnder-more a (b ∷ bs) rest (lt, All-mono bs (λ x k. omega arith) h') (u', us')))
      | inr le_ ↦
          let le : a.id ≤ b.id = ground arith in
          rw le_ (
            merge_last-IsRising (a ∷ as_) bs (b ∷ rest) (h, down) down' (u', up)
              (IsUnder-more b (a ∷ as_) rest (le, All-mono as_ (λ x k. omega arith) h) (u, us))
              (IsUnder-more b bs rest h' us'))
    ]

onto-onto : (xs ys zs : List XrElem) → onto (onto xs ys) zs ≡ onto ys (xs ++ zs)
onto-onto [] ys zs = refl
onto-onto (a ∷ xs) ys zs = onto-onto xs (a ∷ ys) zs

onto-append : (xs ys rest : List XrElem) → onto (xs ++ ys) rest ≡ onto ys (onto xs rest)
onto-append [] ys rest = refl
onto-append (a ∷ xs) ys rest = onto-append xs ys (a ∷ rest)

onto-front : (xs rest : List XrElem) → onto xs rest ≡ onto xs [] ++ rest
onto-front [] rest = refl
onto-front (a ∷ xs) rest =
    onto-front xs (a ∷ rest)
    ∙ sym (append_assoc (onto xs []) (a ∷ []) rest)
    ∙ ap (λ x. x ++ rest) (sym (onto-front xs (a ∷ [])))

-- An array from its last cell on, and back
onto-twice : (xs : List XrElem) → onto (onto xs []) [] ≡ xs
onto-twice xs = onto-onto xs [] [] ∙ append-nil xs

length-cells : (junk : ℕ → XrElem) (n : ℕ) → length (cells junk n) ≡ n
unfolding cells
length-cells junk zero = refl
length-cells junk (suc n) = ap suc (length-cells junk n)

-- The loop, from the arrays as they stand
merge_vec_loop-whole :
    (junk : ℕ → XrElem) (as_ bs : List XrElem)
    → 0 < length as_
    → 0 < length bs
    → merge_vec_loop
        (length as_ + length bs)
        (onto bs [])
        (onto as_ [] ++ cells junk (length bs))
        (length as_ + length bs)
        (length as_)
        (length bs)
      ≡ done (merge_last as_ bs [])
merge_vec_loop-whole junk [] bs some_a some_b = absurd (omega arith)
merge_vec_loop-whole junk (a ∷ as_) [] some_a some_b = absurd (omega arith)
merge_vec_loop-whole junk (a ∷ as_) (b ∷ bs) some_a some_b =
    let spare = cells junk (suc (length bs)) in
    let buffer : onto (a ∷ as_) [] ++ spare ≡ onto (onto spare [] ++ (a ∷ as_)) [] =
      sym (onto-front (a ∷ as_) spare)
      ∙ sym (onto-append (onto spare []) (a ∷ as_) [] ∙ ap (onto (a ∷ as_)) (onto-twice spare)) in
    let size = length-onto spare [] in
    let size' = length-cells junk (suc (length bs)) in
    rw buffer (
      merge_vec_loop-merges (suc (length as_) + suc (length bs)) a b as_ bs (onto spare []) [] []
        (suc (length as_) + suc (length bs)) (suc (length as_)) (suc (length bs))
        (omega (arith, size, size')) refl refl refl (omega arith))

-- The elements of two arrays, in order
pub record Union (p q r : List XrElem) : Type 0 where
  pub rising : IsRising r
  pub weighs : (f : XrElem → ℕ) → weigh f r ≡ weigh f p + weigh f q

-- What merge_vec makes of a vector
pub data Merged (granted : Bool) (rs : Rvst) (v : XrVec) : Option Rvst → Type 0 where
  refused :
      granted ≡ false → rs.v_size < length rs.v.elems + length v.elems → Merged granted rs v none
  merged :
      {r : Rvst}
      → Union rs.v.elems v.elems r.v.elems
      → r.v.freq_sum ≡ rs.v.freq_sum + v.freq_sum
      → length rs.v.elems + length v.elems ≤ r.v_size
      → Merged granted rs v (some r)

module _ (granted : Bool) (junk : ℕ → XrElem) (rs : Rvst) (v : XrVec) (up : IsRising rs.v.elems)
    (up' : IsRising v.elems) where
  -- The elements, on each branch
  elems-Union : Returns (Union rs.v.elems v.elems) (
      if length v.elems == 0
      then done rs.v.elems
      else if length rs.v.elems == 0
      then done v.elems
      else merge_vec_loop
          (length rs.v.elems + length v.elems)
          v.elems
          (rs.v.elems ++ cells junk (length v.elems))
          (length rs.v.elems + length v.elems)
          (length rs.v.elems)
          (length v.elems))
  elems-Union =
      Returns-if (length v.elems == 0)
        (λ none_. returned (record {
          rising = up;
          weighs = λ f. omega (arith, weigh-none f v.elems (ground arith));
        }))
        (λ some_.
          Returns-if (length rs.v.elems == 0)
            (λ none_. returned (record {
              rising = up';
              weighs = λ f. omega (arith, weigh-none f rs.v.elems (ground arith));
            }))
            (λ some_'. both (ground arith) (ground arith)))
    where
      weigh-none : (f : XrElem → ℕ) (xs : List XrElem) → length xs ≡ 0 → weigh f xs ≡ 0
      weigh-none f [] e = refl
      weigh-none f (x ∷ xs) e = absurd (omega arith)

      IsUnder-none : (xs : List XrElem) → IsUnder xs []
      IsUnder-none [] = tt
      IsUnder-none (x ∷ xs) = (tt, IsUnder-none xs)

      IsUpTo-none : (xs : List XrElem) → All (λ a. IsUpTo a.id []) xs
      IsUpTo-none [] = tt
      IsUpTo-none (x ∷ xs) = (tt, IsUpTo-none xs)

      both :
          0 < length rs.v.elems
          → 0 < length v.elems
          → Returns (Union rs.v.elems v.elems) (
              merge_vec_loop
                (length rs.v.elems + length v.elems)
                v.elems
                (rs.v.elems ++ cells junk (length v.elems))
                (length rs.v.elems + length v.elems)
                (length rs.v.elems)
                (length v.elems))
      both some_p some_q =
          let as_ = onto rs.v.elems [] in
          let bs = onto v.elems [] in
          let size_p : length as_ ≡ length rs.v.elems = omega (arith, length-onto rs.v.elems []) in
          let size_q : length bs ≡ length v.elems = omega (arith, length-onto v.elems []) in
          let ran = merge_vec_loop-whole junk as_ bs (omega arith) (omega arith) in
          let ran' = rw (size_p, size_q, onto-twice rs.v.elems, onto-twice v.elems) at ran in
          let down = onto-IsFalling rs.v.elems [] up tt (IsUpTo-none rs.v.elems) in
          let down' = onto-IsFalling v.elems [] up' tt (IsUpTo-none v.elems) in
          rw ran' (
            returned (record {
              rising =
                  merge_last-IsRising as_ bs [] down down' tt (IsUnder-none as_) (IsUnder-none bs);
              weighs = λ f.
                  let w = weigh-merge_last f as_ bs [] in
                  let p = weigh-onto f rs.v.elems [] in
                  let q = weigh-onto f v.elems [] in omega (arith, w, p, q);
            }))

  pub merge_vec-Merged :
      length rs.v.elems + length v.elems < int_limit
      → rs.v.freq_sum + v.freq_sum < int_limit
      → Returns (Merged granted rs v) (merge_vec granted junk rs v)
  unfolding merge_vec add_int
  merge_vec-Merged few small =
      let fits : ltb (length rs.v.elems + length v.elems) int_limit ≡ true = ground arith in
      let sum : ltb (rs.v.freq_sum + v.freq_sum) int_limit ≡ true = ground arith in
      let (elems, ran, u) = Returns-value elems-Union in
      rw (fits, ran, sum)
        (Returns-if (ltb rs.v_size (length rs.v.elems + length v.elems))
          (λ grow.
            Returns-if granted
              (λ g. returned (merged u refl (le-round_up (length rs.v.elems + length v.elems) 128)))
              (λ n. returned (refused n (ground arith))))
          (λ enough. returned (merged u refl (ground arith))))
