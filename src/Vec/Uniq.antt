-- ===== src/Vec/Uniq.antt =====
-- uniq_vec adds up the elements of each identifier.
use getassoc.Common.{
  ℕ, ◌+◌, ◌<◌, ◌≡◌, refl, ap, ◌∙◌, true, false, List, [], ◌∷◌, ◌++◌, arith, ltb, ◌==◌,
  if◌then◌else◌, All, inl, inr, Bool-cases, Run, done, fault, Returns, returned, Returns-mono,
  Returns->>=, ◌>>=◌,
}
use getassoc.Corpus.{XrElem}
use getassoc.Vec.{XrVec, int_limit, add_int, end_group, uniq_vec_loop, uniq_vec}
use getassoc.Vec.Merge.Union.{freq_in, total, IsFrom, IsRising}

abbrev pub IsOver : ℕ → List XrElem → Type 0
IsOver id xs = All (λ b. id < b.id) xs

-- A vector: each identifier is below those behind it, and occurs.
abbrev pub IsVector : List XrElem → Type 0
IsVector [] = Unit
IsVector (a ∷ xs) = IsOver a.id xs × (0 < a.freq) × IsVector xs

-- What the loop makes of the elements from `e` on, with the sum so far
record Grouped (e : XrElem) (elems : List XrElem) (s : ℕ) (r : ℕ × List XrElem) : Type 0 where
  sum : r.0 ≡ s + e.freq + total elems
  vector : IsVector r.1
  over : (id : ℕ) → id < e.id → IsOver id r.1
  freqs : (id : ℕ) → freq_in id r.1 ≡ freq_in id (e ∷ elems)

add_int-adds : (a b : ℕ) → a + b < int_limit → add_int a b ≡ done (a + b)
unfolding add_int
add_int-adds a b small = let fits : ltb (a + b) int_limit ≡ true = ground arith in rw fits refl

absent : (id : ℕ) (xs : List XrElem) → IsOver id xs → freq_in id xs ≡ 0
absent id [] h = refl
absent id (a ∷ xs) (lt, h) =
    let other : (a.id == id) ≡ false = ground arith in rw other (omega (arith, absent id xs h))

-- The group of `e` is complete; `r` is what is made of the elements behind it.
finished :
    (e b : XrElem) (elems : List XrElem) (s : ℕ)
    → e.id < b.id
    → s + e.freq < int_limit
    → ((s' : ℕ) → s' ≡ s + e.freq → Returns (Grouped b elems s') (uniq_vec_loop b elems s'))
    → Returns (Grouped e (b ∷ elems) s) (
        ◌>>=◌ {X = XrElem × ℕ × List XrElem}
          (end_group e s >>= λ t. done (b, t.0, t.1))
          (λ t. uniq_vec_loop t.0 elems t.1 >>= λ r. done (r.0, t.2 ++ r.1)))
unfolding end_group
finished e b elems s lt small again = elim (Bool-cases (e.freq == 0)) [
  | inl gone ↦
      let none_left : e.freq ≡ 0 = ground arith in
      rw gone (
        Returns->>= (again s (omega arith)) λ r g. returned (record {
          sum = let q = g.sum in omega arith;
          vector = g.vector;
          over = λ id l. g.over id (omega arith);
          freqs = λ id. g.freqs id ∙ (ground arith);
        }))
  | inr kept ↦
      rw (kept, add_int-adds s e.freq small)
        (Returns->>= (again (s + e.freq) refl) λ r g. returned (record {
          sum = let q = g.sum in omega arith;
          vector = (g.over e.id lt, ground arith, g.vector);
          over = λ id l. (l, g.over id (omega arith));
          freqs = λ id. ap (λ n. (if e.id == id then e.freq else 0) + n) (g.freqs id);
        }))
]

uniq_vec_loop-Grouped :
    (e : XrElem) (elems : List XrElem) (s : ℕ)
    → IsFrom e.id elems
    → IsRising elems
    → s + e.freq + total elems < int_limit
    → Returns (Grouped e elems s) (uniq_vec_loop e elems s)
unfolding uniq_vec_loop end_group
uniq_vec_loop-Grouped e [] s low up small = elim (Bool-cases (e.freq == 0)) [
  | inl gone ↦
      let none_left : e.freq ≡ 0 = ground arith in
      rw gone (
        returned (record {
          sum = omega arith;
          vector = tt;
          over = λ id l. tt;
          freqs = λ id. ground arith;
        }))
  | inr kept ↦
      rw (kept, add_int-adds s e.freq (omega arith))
        (returned (record {
          sum = omega arith;
          vector = (tt, ground arith, tt);
          over = λ id l. (l, tt);
          freqs = λ id. refl;
        }))
]
uniq_vec_loop-Grouped e (b ∷ elems) s (le, low) (low', up) small =
    elim (Bool-cases (e.id == b.id)) [
      | inl same ↦
          let is : e.id ≡ b.id = ground arith in
          let joined : (id : ℕ)
              → freq_in id (record e { freq = e.freq + b.freq } ∷ elems)
                ≡ freq_in id (e ∷ b ∷ elems) =
            λ id. rw⁻¹ is (elim (Bool-cases (e.id == id)) [
              | inl t ↦ rw t (omega arith)
              | inr f ↦ rw f (omega arith)
            ]) in
          rw (same, add_int-adds e.freq b.freq (omega arith))
            (Returns->>=
              (uniq_vec_loop-Grouped (record e { freq = e.freq + b.freq }) elems s low up
                (omega arith))
              λ r g. returned (record {
                sum = let q = g.sum in omega arith;
                vector = g.vector;
                over = g.over;
                freqs = λ id. g.freqs id ∙ joined id;
              }))
      | inr other ↦
          let lt : e.id < b.id = ground arith in
          let next : ltb e.id b.id ≡ true = ground arith in
          rw (other, next)
            (finished e b elems s lt (omega arith)
              (λ s' is. uniq_vec_loop-Grouped b elems s' low' up (omega arith)))
    ]

-- What uniq_vec leaves of a vector
pub record Uniq (v r : XrVec) : Type 0 where
  pub vector : IsVector r.elems
  pub freqs : (id : ℕ) → freq_in id r.elems ≡ freq_in id v.elems
  pub same_sum : r.freq_sum ≡ v.freq_sum

pub uniq_vec-Uniq :
    (v : XrVec)
    → IsRising v.elems
    → v.freq_sum ≡ total v.elems
    → v.freq_sum < int_limit
    → Returns (Uniq v) (uniq_vec v)
unfolding uniq_vec
uniq_vec-Uniq v up summed small =
    Returns-mono (λ r u. record { vector = u.0; freqs = u.1; same_sum = u.2 })
      (of_elems v.elems up summed)
  where
    of_elems :
        (elems : List XrElem)
        → IsRising elems
        → v.freq_sum ≡ total elems
        → Returns
            (λ r.
              IsVector r.elems
              × ((id : ℕ) → freq_in id r.elems ≡ freq_in id elems)
              × (r.freq_sum ≡ v.freq_sum))
            ((elim elems as (λ x. Run (ℕ × List XrElem)) [
              | [] ↦ done (0, [])
              | ◌∷◌ e rest ↦ uniq_vec_loop e rest 0
            ])
              >>= λ r. if v.freq_sum == r.0 then done (record v { elems = r.1 }) else fault)
    of_elems [] up e =
        let nothing : (v.freq_sum == 0) ≡ true = ground arith in
        rw nothing (returned (tt, λ id. refl, refl))
    of_elems (e ∷ elems) (h, up) summed =
        Returns->>= (uniq_vec_loop-Grouped e elems 0 h up (omega arith)) λ r g.
          let same : (v.freq_sum == r.0) ≡ true = let q = g.sum in ground arith in
          rw same (returned (g.vector, g.freqs, refl))
