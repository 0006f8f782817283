-- ===== src/Assv/Masks/Cutoff.antt =====
-- assv_cutoff_test, against the limits of the entries hit.
use getassoc.Common.{
  ℕ, ◌<◌, ◌≡◌, refl, sym, ap, ◌∙◌, Bool, true, false, ◌||◌, Option, none, some, List, [], ◌∷◌, ltb,
  leb, ◌==◌, if◌then◌else◌, arith, length, get_elem?, All, Run, done, ◌>>=◌, Bool-cases, inl, inr,
}
use getassoc.Common.Arrays.{get_elem?-some}
use getassoc.Assv.{Hit}
use getassoc.Assv.Masks.{cutoff_limit, assv_cutoff_test}

-- Whether an entry hit has the limit 0 or one above `count`
abbrev pub exceeds : {D : Type 0} → List ℕ → ℕ → List (Hit D) → Bool
exceeds limits count [] = false
exceeds limits count (h ∷ hs) =
    elim (get_elem? limits h.qidx) [ none ↦ false | some lim ↦ lim == 0 || ltb count lim ]
    || exceeds limits count hs

abbrev verdict : ℕ → Option ℕ → Run Bool
verdict count r = elim r [
  | none ↦ done true
  | some limit ↦ done (if leb limit count then false else true)
]

absorb : (b : Bool) → (b || true) ≡ true
absorb true = refl
absorb false = refl

larger :
    (count limit lim : ℕ) (b : Bool)
    → (ltb count (if ltb limit lim then lim else limit) || b)
      ≡ (ltb count limit || (ltb count lim || b))
larger count limit lim true = ground arith
larger count limit lim false = ground arith

module _ {D : Type 0} (limits : List ℕ) (count : ℕ) where
  cutoff_limit-exceeds :
      (hs : List (Hit D)) (limit : ℕ)
      → All (λ h. h.qidx < length limits) hs
      → (cutoff_limit limits hs limit >>= verdict count)
        ≡ done (ltb count limit || exceeds limits count hs)
  unfolding cutoff_limit
  cutoff_limit-exceeds [] limit a =
      let same : (if leb limit count then false else true) ≡ ltb count limit || false =
        ground arith in
      rw same refl
  cutoff_limit-exceeds (h ∷ hs) limit (a, rest) =
      let (lim, e) = get_elem?-some limits h.qidx a in
      elim (Bool-cases (lim == 0)) [
        | inl is_zero ↦ rw (e, is_zero) (ap done (sym (absorb (ltb count limit))))
        | inr pos ↦
            rw (e, pos, cutoff_limit-exceeds hs (if ltb limit lim then lim else limit) rest)
              (ap done (larger count limit lim (exceeds limits count hs)))
      ]

  -- If each entry hit has a limit, the test reads only those and passes the document exactly when one
  -- of them is 0 or exceeds the document's number of elements.
  pub assv_cutoff_test-exceeds :
      (hs : List (Hit D))
      → All (λ h. h.qidx < length limits) hs
      → assv_cutoff_test limits count hs ≡ done (exceeds limits count hs)
  unfolding assv_cutoff_test
  assv_cutoff_test-exceeds hs a =
      cutoff_limit-exceeds hs 0 a
      ∙ (let none_yet : ltb count 0 ≡ false = ground arith in rw none_yet refl)
