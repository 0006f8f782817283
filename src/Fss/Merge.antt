-- ===== src/Fss/Merge.antt =====
-- The loops of fss.c that go through two arrays side by side, as operations on sets of documents.
use getassoc.Common.{
  ℕ, zero, suc, ◌+◌, ◌<◌, ◌≡◌, refl, sym, ◌∙◌, subst, Bool, true, false, not, ◌&&◌, ◌||◌, List, [],
  ◌∷◌, arith, ltb, ◌==◌, if◌then◌else◌, length, All, All-mono, inl, inr, Bool-cases, Returns,
  returned, Returns-if, Returns-mono, Returns->>=, done,
}
use getassoc.Fss.{Art, join_loop, join_pn_loop, union_loop}

-- Whether an array has an element for the document
abbrev pub has : ℕ → List Art → Bool
has id [] = false
has id (a ∷ arts) = if a.id == id then true else has id arts

abbrev pub IsAbove : ℕ → List Art → Type 0
IsAbove b arts = All (λ a. b < a.id) arts

-- Each document is below those behind it.
abbrev pub IsAscending : List Art → Type 0
IsAscending [] = Unit
IsAscending (a ∷ arts) = IsAbove a.id arts × IsAscending arts

pub has-absent : (id : ℕ) (arts : List Art) → IsAbove id arts → has id arts ≡ false
has-absent id [] h = refl
has-absent id (a ∷ arts) (lt, h) =
    let differs : (a.id == id) ≡ false = ground arith in rw differs (has-absent id arts h)

IsAbove-lt : {b c : ℕ} (arts : List Art) → b < c → IsAbove c arts → IsAbove b arts
IsAbove-lt arts lt h = All-mono arts (λ a k. omega arith) h

-- The array `r` answers `op` of what `q0` and `q1` answer.
pub record Merged (op : Bool → Bool → Bool) (q0 q1 r : List Art) : Type 0 where
  pub ascending : IsAscending r
  pub found : (id : ℕ) → has id r ≡ op (has id q0) (has id q1)
  pub above : (b : ℕ) → IsAbove b q0 → IsAbove b q1 → IsAbove b r

abbrev keep_if : Bool → Art → List Art → List Art
keep_if keep a r = if keep then a ∷ r else r

module _ (op : Bool → Bool → Bool) (quiet : op false false ≡ false) (a : Art) where
  has-keep_if :
      (keep : Bool) (id : ℕ) (r : List Art)
      → (a.id == id) ≡ false
      → has id (keep_if keep a r) ≡ has id r
  has-keep_if true id r e = rw e refl
  has-keep_if false id r e = refl

  own-keep_if :
      (keep : Bool) (r : List Art) → has a.id r ≡ false → has a.id (keep_if keep a r) ≡ keep
  own-keep_if true r e = let here : (a.id == a.id) ≡ true = ground arith in rw here refl
  own-keep_if false r e = e

  -- What a step adds, once the rest is merged: the step takes the document `a` off `q0`, off `q1` or off
  -- both, which leaves `p0` and `p1` behind.
  pub Merged-step :
      (keep : Bool) (q0 q1 p0 p1 r : List Art)
      → IsAbove a.id p0
      → IsAbove a.id p1
      → op (has a.id q0) (has a.id q1) ≡ keep
      → ((id : ℕ) → (a.id == id) ≡ false → (has id p0 ≡ has id q0) × (has id p1 ≡ has id q1))
      → ((b : ℕ) → IsAbove b q0 → IsAbove b q1 → (b < a.id) × IsAbove b p0 × IsAbove b p1)
      → Merged op p0 p1 r
      → Merged op q0 q1 (keep_if keep a r)
  Merged-step keep q0 q1 p0 p1 r up0 up1 kept others bounds m = record {
    ascending = ascends keep;
    found = λ id. elim (Bool-cases (a.id == id)) [
      | inl here ↦
          let is : a.id ≡ id = ground arith in
          let gone : has a.id r ≡ false =
            m.found a.id ∙ (rw (has-absent a.id p0 up0, has-absent a.id p1 up1) quiet) in
          rw⁻¹ is (own-keep_if keep r gone ∙ sym kept)
      | inr other ↦
          let (e0, e1) = others id other in
          has-keep_if keep id r other ∙ m.found id ∙ (rw (e0, e1) refl)
    ];
    above = λ b h0 h1. let (lt, k0, k1) = bounds b h0 h1 in lower keep b lt (m.above b k0 k1);
  }
    where
      ascends : (keep : Bool) → IsAscending (keep_if keep a r)
      ascends true = (m.above a.id up0 up1, m.ascending)
      ascends false = m.ascending

      lower : (keep : Bool) (b : ℕ) → b < a.id → IsAbove b r → IsAbove b (keep_if keep a r)
      lower true b lt h = (lt, h)
      lower false b lt h = h

module _ (op : Bool → Bool → Bool) (quiet : op false false ≡ false) (a b : Art) (q0 q1 r : List Art)
    (up0 : IsAscending (a ∷ q0)) (up1 : IsAscending (b ∷ q1)) where
  Merged-left :
      a.id < b.id
      → Merged op q0 (b ∷ q1) r
      → Merged op (a ∷ q0) (b ∷ q1) (keep_if (op true false) a r)
  Merged-left lt m =
      let over : IsAbove a.id (b ∷ q1) = (lt, IsAbove-lt q1 lt up1.0) in
      let here : (a.id == a.id) ≡ true = ground arith in
      Merged-step op quiet a (op true false) (a ∷ q0) (b ∷ q1) q0 (b ∷ q1) r up0.0 over
        (rw (here, has-absent a.id (b ∷ q1) over) refl) (λ id e. (rw e refl, refl))
        (λ c h0 h1. (h0.0, h0.1, h1)) m

  Merged-right :
      b.id < a.id
      → Merged op (a ∷ q0) q1 r
      → Merged op (a ∷ q0) (b ∷ q1) (keep_if (op false true) b r)
  Merged-right lt m =
      let over : IsAbove b.id (a ∷ q0) = (lt, IsAbove-lt q0 lt up0.0) in
      let here : (b.id == b.id) ≡ true = ground arith in
      Merged-step op quiet b (op false true) (a ∷ q0) (b ∷ q1) (a ∷ q0) q1 r over up1.0
        (rw (here, has-absent b.id (a ∷ q0) over) refl) (λ id e. (refl, rw e refl))
        (λ c h0 h1. (h1.0, h0, h1.1)) m

  Merged-both :
      a.id ≡ b.id → Merged op q0 q1 r → Merged op (a ∷ q0) (b ∷ q1) (keep_if (op true true) a r)
  Merged-both same m =
      let here : (a.id == a.id) ≡ true = ground arith in
      let there : (b.id == a.id) ≡ true = ground arith in
      Merged-step op quiet a (op true true) (a ∷ q0) (b ∷ q1) q0 q1 r up0.0
        (subst (λ i. IsAbove i q1) (sym same) up1.0) (rw (here, there) refl)
        (λ id e. let e' : (b.id == id) ≡ false = ground arith in (rw e refl, rw e' refl))
        (λ c h0 h1. (h0.0, h0.1, h1.1)) m

-- One array is empty: the other is kept, or nothing is.
Merged-rest :
    (op : Bool → Bool → Bool) (q0 q1 r : List Art)
    → IsAscending r
    → ((id : ℕ) → has id r ≡ op (has id q0) (has id q1))
    → ((b : ℕ) → IsAbove b q0 → IsAbove b q1 → IsAbove b r)
    → Returns (Merged op q0 q1) (done r)
Merged-rest op q0 q1 r up found above =
    returned (record { ascending = up; found = found; above = above })

abbrev pub and_not : Bool → Bool → Bool
and_not x y = x && not y

and_false : (x : Bool) → (x && false) ≡ false
and_false true = refl
and_false false = refl

and_not-false : (x : Bool) → x ≡ and_not x false
and_not-false true = refl
and_not-false false = refl

or_false : (x : Bool) → x ≡ (x || false)
or_false true = refl
or_false false = refl

pub join_loop-Merged :
    (n : ℕ) (q0 q1 : List Art)
    → IsAscending q0
    → IsAscending q1
    → length q0 + length q1 < n
    → Returns (Merged ◌&&◌ q0 q1) (join_loop n q0 q1)
unfolding join_loop
join_loop-Merged zero q0 q1 up0 up1 enough = absurd (omega arith)
join_loop-Merged (suc n) [] q1 up0 up1 enough =
    Merged-rest ◌&&◌ [] q1 [] tt (λ id. refl) (λ b h0 h1. tt)
join_loop-Merged (suc n) (a ∷ q0) [] up0 up1 enough =
    Merged-rest ◌&&◌ (a ∷ q0) [] [] tt (λ id. sym (and_false (has id (a ∷ q0)))) (λ b h0 h1. tt)
join_loop-Merged (suc n) (a ∷ q0) (b ∷ q1) up0 up1 enough =
    Returns-if (ltb a.id b.id)
      (λ e.
        Returns-mono (λ r m. Merged-left ◌&&◌ refl a b q0 q1 r up0 up1 (ground arith) m)
          (join_loop-Merged n q0 (b ∷ q1) up0.1 up1 (omega arith)))
      (λ e.
        Returns-if (ltb b.id a.id)
          (λ f.
            Returns-mono (λ r m. Merged-right ◌&&◌ refl a b q0 q1 r up0 up1 (ground arith) m)
              (join_loop-Merged n (a ∷ q0) q1 up0 up1.1 (omega arith)))
          (λ f.
            Returns->>= (join_loop-Merged n q0 q1 up0.1 up1.1 (omega arith))
              λ r m. returned (Merged-both ◌&&◌ refl a b q0 q1 r up0 up1 (ground arith) m)))

pub join_pn_loop-Merged :
    (n : ℕ) (q0 q1 : List Art)
    → IsAscending q0
    → IsAscending q1
    → length q0 + length q1 < n
    → Returns (Merged and_not q0 q1) (join_pn_loop n q0 q1)
unfolding join_pn_loop
join_pn_loop-Merged zero q0 q1 up0 up1 enough = absurd (omega arith)
join_pn_loop-Merged (suc n) [] q1 up0 up1 enough =
    Merged-rest and_not [] q1 [] tt (λ id. refl) (λ b h0 h1. tt)
join_pn_loop-Merged (suc n) (a ∷ q0) [] up0 up1 enough =
    Merged-rest and_not (a ∷ q0) [] (a ∷ q0) up0 (λ id. and_not-false (has id (a ∷ q0)))
      (λ b h0 h1. h0)
join_pn_loop-Merged (suc n) (a ∷ q0) (b ∷ q1) up0 up1 enough =
    Returns-if (ltb a.id b.id)
      (λ e.
        Returns->>= (join_pn_loop-Merged n q0 (b ∷ q1) up0.1 up1 (omega arith))
          λ r m. returned (Merged-left and_not refl a b q0 q1 r up0 up1 (ground arith) m))
      (λ e.
        Returns-if (ltb b.id a.id)
          (λ f.
            Returns-mono (λ r m. Merged-right and_not refl a b q0 q1 r up0 up1 (ground arith) m)
              (join_pn_loop-Merged n (a ∷ q0) q1 up0 up1.1 (omega arith)))
          (λ f.
            Returns-mono (λ r m. Merged-both and_not refl a b q0 q1 r up0 up1 (ground arith) m)
              (join_pn_loop-Merged n q0 q1 up0.1 up1.1 (omega arith))))

pub union_loop-Merged :
    (n : ℕ) (q0 q1 : List Art)
    → IsAscending q0
    → IsAscending q1
    → length q0 + length q1 < n
    → Returns (Merged ◌||◌ q0 q1) (union_loop n q0 q1)
unfolding union_loop
union_loop-Merged zero q0 q1 up0 up1 enough = absurd (omega arith)
union_loop-Merged (suc n) [] q1 up0 up1 enough =
    Merged-rest ◌||◌ [] q1 q1 up1 (λ id. refl) (λ b h0 h1. h1)
union_loop-Merged (suc n) (a ∷ q0) [] up0 up1 enough =
    Merged-rest ◌||◌ (a ∷ q0) [] (a ∷ q0) up0 (λ id. or_false (has id (a ∷ q0))) (λ b h0 h1. h0)
union_loop-Merged (suc n) (a ∷ q0) (b ∷ q1) up0 up1 enough =
    Returns-if (ltb a.id b.id)
      (λ e.
        Returns->>= (union_loop-Merged n q0 (b ∷ q1) up0.1 up1 (omega arith))
          λ r m. returned (Merged-left ◌||◌ refl a b q0 q1 r up0 up1 (ground arith) m))
      (λ e.
        Returns-if (ltb b.id a.id)
          (λ f.
            Returns->>= (union_loop-Merged n (a ∷ q0) q1 up0 up1.1 (omega arith))
              λ r m. returned (Merged-right ◌||◌ refl a b q0 q1 r up0 up1 (ground arith) m))
          (λ f.
            Returns->>= (union_loop-Merged n q0 q1 up0.1 up1.1 (omega arith))
              λ r m. returned (Merged-both ◌||◌ refl a b q0 q1 r up0 up1 (ground arith) m)))
