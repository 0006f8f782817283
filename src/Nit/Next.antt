-- ===== src/Nit/Next.antt =====
-- nit_seq: each item in the order of the numbers.
use getassoc.Common.{
  ℕ, zero, suc, ◌+◌, ◌-◌, ◌≤◌, ◌<◌, ◌≡◌, refl, sym, ap, ◌∙◌, Option, none, some, List, [], ◌∷◌,
  arith, drop, lt-cases, inl, inr,
}
use getassoc.Nit.{Nit, it_seq_loop, nit_seq}
use getassoc.Nit.Items.{item}

-- The first item from the number `from` on, and where the search for the next one starts; `at` is what
-- each number holds.
pub data Next (at : ℕ → Option (List ℕ)) (from : ℕ) : Option (ℕ × List ℕ) × ℕ → Type 0 where
  found :
      {key : ℕ} {vv : List ℕ}
      → from ≤ key
      → at key ≡ some vv
      → ((j : ℕ) → from ≤ j → j < key → at j ≡ none)
      → Next at from (some (key, vv), key + 1)
  over : {i : ℕ} → ((j : ℕ) → from ≤ j → at j ≡ none) → Next at from (none, i)

Next-same :
    {at at' : ℕ → Option (List ℕ)} {from : ℕ} {r : Option (ℕ × List ℕ) × ℕ}
    → ((j : ℕ) → from ≤ j → at j ≡ at' j)
    → Next at from r
    → Next at' from r
Next-same same (found {key} {vv} le is clear) =
    found le (sym (same key le) ∙ is) (λ j l k. sym (same j l) ∙ clear j l k)
Next-same same (over clear) = over (λ j l. sym (same j l) ∙ clear j l)

Next-skip :
    {at : ℕ → Option (List ℕ)} {from : ℕ} {r : Option (ℕ × List ℕ) × ℕ}
    → at from ≡ none
    → Next at (from + 1) r
    → Next at from r
Next-skip {at} {from} free n = go n
  where
    clear_from : (j : ℕ) → from ≤ j → (from + 1 ≤ j → at j ≡ none) → at j ≡ none
    clear_from j l k = elim (lt-cases from j) [
      | inl lt ↦ k (omega arith)
      | inr ge ↦ let same : j ≡ from = omega arith in ap at same ∙ free
    ]

    go : {r : Option (ℕ × List ℕ) × ℕ} → Next at (from + 1) r → Next at from r
    go (found le is clear) = found (omega arith) is (λ j l k. clear_from j l (λ m. clear j m k))
    go (over clear) = over (λ j l. clear_from j l (λ m. clear j m))

it_seq_loop-Next :
    (ix : List (Option (List ℕ))) (i : ℕ) → Next (λ j. item ix (j - i)) i (it_seq_loop ix i)
unfolding it_seq_loop
it_seq_loop-Next [] i = over (λ j l. refl)
it_seq_loop-Next (none ∷ ix) i =
    let here : i - i ≡ 0 = omega arith in
    let later : (j : ℕ) → i + 1 ≤ j → item ix (j - (i + 1)) ≡ item (none ∷ ix) (j - i) =
      λ j l. let e : j - i ≡ suc (j - (i + 1)) = omega arith in rw e refl in
    Next-skip (rw here refl) (Next-same later (it_seq_loop-Next ix (i + 1)))
it_seq_loop-Next (some vv ∷ ix) i =
    let here : i - i ≡ 0 = omega arith in
    found (omega arith) (rw here refl) (λ j l k. absurd (omega arith))

item-nil : (ix : List (Option (List ℕ))) (i : ℕ) → ix ≡ [] → item ix i ≡ none
item-nil ix i e = rw e refl

item-drop : (ix : List (Option (List ℕ))) (n j : ℕ) → n ≤ j → item (drop n ix) (j - n) ≡ item ix j
item-drop ix zero j l = let e : j - 0 ≡ j = omega arith in rw e refl
item-drop [] (suc n) j l = refl
item-drop (x ∷ ix) (suc n) zero l = absurd (omega arith)
item-drop (x ∷ ix) (suc n) (suc j) l =
    let e : suc j - suc n ≡ j - n = omega arith in rw e (item-drop ix n j (omega arith))

-- From the table's position on, nit_seq gives the first number with an item, its item, and leaves the
-- position behind it; it gives nothing if no number from the position on has an item.
pub nit_seq-Next : (h : Nit) → Next (item h.ix) h.seq_ptr ((nit_seq h).0, (nit_seq h).1.seq_ptr)
unfolding nit_seq
nit_seq-Next h =
    Next-same (λ j l. item-drop h.ix h.seq_ptr j l)
      (it_seq_loop-Next (drop h.seq_ptr h.ix) h.seq_ptr)
