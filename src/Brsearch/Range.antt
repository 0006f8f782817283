-- ===== src/Brsearch/Range.antt =====
-- What brsearch answers on a sorted array.
use getassoc.Common.{
  ℕ, zero, suc, ◌+◌, ◌-◌, ◌≤◌, ◌<◌, ◌≡◌, refl, Ordering, Bool, true, false, some, List, [], ◌∷◌,
  ◌++◌, ◌⊎◌, inl, inr, lt-cases, Returns->>=, ltb, ◌==◌, if◌then◌else◌, arith, length,
  length-append, get_elem?, All, ◌∙◌, Returns, returned, Returns-if, Returns-mono,
}
use getassoc.Brsearch.{half, is_after, is_from, lower, upper, answer, brsearch}

module _ {K A : Type 0} (compar : K → A → Ordering) (key : K) where
  -- How the key compares with the cell `m` of an array whose cells below `p` are less than the key,
  -- those below `q` are equal to it, and the others greater.
  abbrev side : ℕ → ℕ → ℕ → Ordering
  side p q m = if ltb m p then Ordering.gt else if ltb m q then Ordering.eq else Ordering.lt

  abbrev Cell : List A → ℕ → ℕ → ℕ → Type 0
  Cell base p q m = (x : A) × (get_elem? base m ≡ some x) × (compar key x ≡ side p q m)

  abbrev pub Compares : Ordering → A → Type 0
  Compares o x = compar key x ≡ o

  module _ (above : List A) (greater : All (Compares Ordering.lt) above) where
    cell_above :
        (xs : List A) → All (Compares Ordering.lt) xs → (m : ℕ) → m < length xs → Cell xs 0 0 m
    cell_above [] h m i = absurd (omega arith)
    cell_above (x ∷ xs) h zero i = (x, refl, h.0)
    cell_above (x ∷ xs) h (suc m) i =
        let (y, e, o) = cell_above xs h.1 m (omega arith) in (y, e, o ∙ (ground arith))

    cell_equal :
        (equal : List A)
        → All (Compares Ordering.eq) equal
        → (m : ℕ) → m < length (equal ++ above)
        → Cell (equal ++ above) 0 (length equal) m
    cell_equal [] h m i = cell_above above greater m i
    cell_equal (x ∷ xs) h zero i = (x, refl, h.0 ∙ (ground arith))
    cell_equal (x ∷ xs) h (suc m) i =
        let (y, e, o) = cell_equal xs h.1 m (omega arith) in (y, e, o ∙ (ground arith))

    pub cell :
        (below equal : List A)
        → All (Compares Ordering.gt) below
        → All (Compares Ordering.eq) equal
        → (m : ℕ) → m < length (below ++ equal ++ above)
        → Cell (below ++ equal ++ above) (length below) (length below + length equal) m
    cell [] equal h k m i = let (y, e, o) = cell_equal equal k m i in (y, e, o ∙ (ground arith))
    cell (x ∷ xs) equal h k zero i = (x, refl, h.0 ∙ (ground arith))
    cell (x ∷ xs) equal h k (suc m) i =
        let (y, e, o) = cell xs equal h.1 k m (omega arith) in (y, e, o ∙ (ground arith))

  module _ (base : List A) (p q : ℕ) (order : p ≤ q) (bound : q ≤ length base)
      (addressable : length base < 0x8000000000000000)
      (at : (m : ℕ) → m < length base → Cell base p q m) where
    -- A test of a loop, true below `b` and false from there on
    abbrev Tested : (A → Bool) → ℕ → ℕ → Type 0
    Tested test b m =
        (x : A) × (get_elem? base m ≡ some x)
        × (((m < b) × (test x ≡ true)) ⊎ ((b ≤ m) × (test x ≡ false)))

    is_after-Tested : (m : ℕ) → m < length base → Tested (is_after compar key base) p m
    unfolding is_after
    is_after-Tested m h =
        let (x, e, o) = at m h in
        elim (lt-cases m p) [
          | inl lt ↦
              let a : side p q m ≡ Ordering.gt = ground arith in
              (x, e, inl (lt, rw (o ∙ a, is_after) refl))
          | inr ge ↦ elim (lt-cases m q) [
            | inl lt ↦
                let a : side p q m ≡ Ordering.eq = ground arith in
                (x, e, inr (ge, rw (o ∙ a, is_after) refl))
            | inr over ↦
                let a : side p q m ≡ Ordering.lt = ground arith in
                (x, e, inr (ge, rw (o ∙ a, is_after) refl))
          ]
        ]

    is_from-Tested : (m : ℕ) → m < length base → Tested (is_from compar key base) q m
    unfolding is_from
    is_from-Tested m h =
        let (x, e, o) = at m h in
        elim (lt-cases m q) [
          | inr ge ↦
              let a : side p q m ≡ Ordering.lt = ground arith in
              (x, e, inr (ge, rw (o ∙ a, is_from) refl))
          | inl lt ↦ elim (lt-cases m p) [
            | inl under ↦
                let a : side p q m ≡ Ordering.gt = ground arith in
                (x, e, inl (lt, rw (o ∙ a, is_from) refl))
            | inr from ↦
                let a : side p q m ≡ Ordering.eq = ground arith in
                (x, e, inl (lt, rw (o ∙ a, is_from) refl))
          ]
        ]

    abbrev Lower : ℕ × ℕ → Type 0
    Lower s =
        (s.1 ≡ s.0 + 1)
        × (s.0 ≤ p)
        × (p ≤ s.1)
        × ((s.1 ≡ length base) ⊎ (p < s.1))
        × (s.1 ≤ length base)

    lower-Lower :
        (n l r : ℕ)
        → r < n + l
        → l < r
        → r ≤ length base
        → l ≤ p
        → p ≤ r
        → (r ≡ length base) ⊎ (p < r)
        → Returns Lower (lower compar key base n l r)
    unfolding lower half
    lower-Lower zero l r f a b c d k = absurd (omega arith)
    lower-Lower (suc n) l r f a b c d k =
        Returns-if (ltb l (r - 1))
          (λ more.
            let wide : l < r - 1 = ground arith in
            let m = half (l + r - 1) in
            let from : l ≤ m = omega arith in
            let to : m < r - 1 = omega arith in
            let (x, e, side) = is_after-Tested m (omega arith) in
            elim side [
              | inl (lt, t) ↦
                  rw (e, t)
                    (lower-Lower n (m + 1) r (omega arith) (omega arith) (omega arith) (omega arith)
                      (omega arith) k)
              | inr (ge, t) ↦
                  rw (e, t)
                    (lower-Lower n l (m + 1) (omega arith) (omega arith) (omega arith) (omega arith)
                      (omega arith) (inr (omega arith)))
            ])
          (λ over. let h : r - 1 ≤ l = ground arith in returned (omega arith, c, d, k, b))

    upper-right :
        (n l r : ℕ)
        → r < n + l
        → l < r
        → r ≤ length base
        → p ≤ l
        → l < q
        → q ≤ r
        → Returns (λ s. s.1 ≡ q) (upper compar key base n l r)
    unfolding upper half
    upper-right zero l r f a b c d e = absurd (omega arith)
    upper-right (suc n) l r f a b c d e =
        Returns-if (ltb l (r - 1))
          (λ more.
            let wide : l < r - 1 = ground arith in
            let m = half (l + r) in
            let from : l < m = omega arith in
            let to : m < r = omega arith in
            let (x, g, side) = is_from-Tested m (omega arith) in
            elim side [
              | inl (lt, t) ↦
                  rw (g, t)
                    (upper-right n m r (omega arith) (omega arith) (omega arith) (omega arith)
                      (omega arith) (omega arith))
              | inr (ge, t) ↦
                  rw (g, t)
                    (upper-right n l m (omega arith) (omega arith) (omega arith) (omega arith)
                      (omega arith) (omega arith))
            ])
          (λ over. returned (let h : r - 1 ≤ l = ground arith in omega arith))

    abbrev Right : Bool × ℕ × ℕ → Type 0
    Right s = (s.0 ≡ ltb p q) × (s.1 ≡ p) × (s.2 ≡ q)

    answer-Right :
        (s : ℕ × ℕ) (l : Lower s) (x : A)
        → get_elem? base s.0 ≡ some x
        → compar key x ≡ side p q s.0
        → Returns Right (answer compar key base s x)
    unfolding answer
    answer-Right s l x e o =
        let (next, low, high, k, b) = l in
        elim (lt-cases s.0 p) [
          | inl below ↦
              let gt : side p q s.0 ≡ Ordering.gt = ground arith in
              let all : p ≡ q = grind arith in
              rw (o ∙ gt, answer) (returned (ground arith, omega arith, omega arith))
          | inr from ↦ elim (lt-cases s.0 q) [
            | inl under ↦
                let eq : side p q s.0 ≡ Ordering.eq = ground arith in
                rw (o ∙ eq, answer)
                  (Returns->>=
                    (upper-right (suc (length base)) s.0 (length base) (omega arith) (omega arith)
                      (omega arith) from under bound)
                    λ t r. returned (ground arith, omega arith, r))
            | inr over ↦
                let lt : side p q s.0 ≡ Ordering.lt = ground arith in
                rw (o ∙ lt, answer) (returned (ground arith, omega arith, omega arith))
          ]
        ]

    -- On an array whose cells `at` describes, the search ends, without a fault, with the bounds of
    -- the cells equal to the key, and says whether there is one.
    range : Returns Right (brsearch compar key base)
    unfolding brsearch
    range =
        Returns-if (length base == 0)
          (λ vacant.
            let z : length base ≡ 0 = ground arith in
            let same : p ≡ q = omega arith in returned (ground arith, omega arith, omega arith))
          (λ vacant.
            let pos : 0 < length base = ground arith in
            Returns->>=
              (lower-Lower (suc (length base)) 0 (length base) (omega arith) pos (omega arith)
                (omega arith) (omega arith) (inl refl))
              λ s l. let (x, e, o) = at s.0 (omega (arith, l)) in rw e (answer-Right s l x e o))

  -- On an array of cells less than the key, cells equal to it and cells greater than it, in this
  -- order and fewer than 2^63, the search ends, without a fault: it says whether a cell is equal to
  -- the key, and its bounds are where the equal cells start and end, or where the key would go.
  pub brsearch-range :
      (below equal above : List A)
      → All (Compares Ordering.gt) below
      → All (Compares Ordering.eq) equal
      → All (Compares Ordering.lt) above
      → length (below ++ equal ++ above) < 0x8000000000000000
      → Returns
          (λ s.
            (s.0 ≡ ltb 0 (length equal))
            × (s.1 ≡ length below)
            × (s.2 ≡ length below + length equal))
          (brsearch compar key (below ++ equal ++ above))
  brsearch-range below equal above less same greater fits =
      let size = length-append (below ++ equal) above in
      let size' = length-append below equal in
      Returns-mono (λ s r. (r.0 ∙ (ground arith), r.1, r.2))
        (range (below ++ equal ++ above) (length below) (length below + length equal) (omega arith)
          (omega (arith, size, size')) fits (cell above greater below equal less same))
