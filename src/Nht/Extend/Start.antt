-- ===== src/Nht/Extend/Start.antt =====
-- The index as ht_extend starts to go through it: all entries are to be moved, and the new cells are empty.
use getassoc.Common.{
  ℕ, zero, suc, ◌+◌, ◌≤◌, ◌<◌, ◌≡◌, ◌≢◌, ◌⊎◌, refl, sym, ap, ◌∙◌, some, List, [], ◌∷◌, ◌++◌, arith,
  length, length-append, map, get_elem?, inl, inr,
}
use getassoc.Nht.{Hte, Cell, empty, dirty1, held, moving, mark_cell, count_moving, fill_zero}
use getassoc.Nht.Cells.{used}
use getassoc.Nht.Extend.Exchange.{count_moving-cons}
use getassoc.Nht.Extend.State.{entry_at, IsDistinct, Underway}

abbrev pub start : List Cell → ℕ → List Cell
start ix n = map mark_cell ix ++ fill_zero n

-- The cells that there are at first
start-cell :
    (ix : List Cell) (n s : ℕ) (e : Cell)
    → get_elem? (start ix n) s ≡ some e
    → (e ≡ empty) ⊎ ((vv : Hte) × (e ≡ moving vv) × (s < length ix))
unfolding mark_cell fill_zero
start-cell [] zero s e at = cc
start-cell [] (suc n) zero e at = inl cc
start-cell [] (suc n) (suc s) e at = elim (start-cell [] n s e at) [
  | inl h ↦ inl h
  | inr (vv, h, l) ↦ absurd (omega arith)
]
start-cell (empty ∷ ix) n zero e at = inl cc
start-cell (dirty1 ∷ ix) n zero e at = inl cc
start-cell (held vv ∷ ix) n zero e at = inr (vv, cc, omega arith)
start-cell (moving vv ∷ ix) n zero e at = inr (vv, cc, omega arith)
start-cell (x ∷ ix) n (suc s) e at = elim (start-cell ix n s e at) [
  | inl h ↦ inl h
  | inr (vv, h, l) ↦ inr (vv, h, omega arith)
]

entry_at-start : (ix : List Cell) (n j : ℕ) → entry_at (start ix n) j ≡ entry_at ix j
unfolding mark_cell fill_zero
entry_at-start [] zero j = refl
entry_at-start [] (suc n) zero = refl
entry_at-start [] (suc n) (suc j) = entry_at-start [] n j
entry_at-start (empty ∷ ix) n zero = refl
entry_at-start (dirty1 ∷ ix) n zero = refl
entry_at-start (held vv ∷ ix) n zero = refl
entry_at-start (moving vv ∷ ix) n zero = refl
entry_at-start (x ∷ ix) n (suc j) = entry_at-start ix n j

length-fill_zero : (n : ℕ) → length (fill_zero n) ≡ n
unfolding fill_zero
length-fill_zero zero = refl
length-fill_zero (suc n) = ap suc (length-fill_zero n)

length-marked : (ix : List Cell) → length (map mark_cell ix) ≡ length ix
length-marked [] = refl
length-marked (x ∷ ix) = ap suc (length-marked ix)

pub length-start : (ix : List Cell) (n : ℕ) → length (start ix n) ≡ length ix + n
length-start ix n =
    omega
      (arith, length-append (map mark_cell ix) (fill_zero n), length-marked ix, length-fill_zero n)

pub count_moving-marked :
    (ix : List Cell)
    → ((s : ℕ) → get_elem? ix s ≢ some dirty1)
    → count_moving (map mark_cell ix) ≡ used ix
unfolding mark_cell count_moving
count_moving-marked [] h = refl
count_moving-marked (empty ∷ ix) h = omega (arith, count_moving-marked ix (λ s. h (suc s)))
count_moving-marked (dirty1 ∷ ix) h = absurd (h 0 refl)
count_moving-marked (held vv ∷ ix) h = omega (arith, count_moving-marked ix (λ s. h (suc s)))
count_moving-marked (moving vv ∷ ix) h = omega (arith, count_moving-marked ix (λ s. h (suc s)))

pub count_moving-le : (ix : List Cell) → count_moving (map mark_cell ix) ≤ length ix
unfolding mark_cell count_moving
count_moving-le [] = omega arith
count_moving-le (empty ∷ ix) = omega (arith, count_moving-le ix)
count_moving-le (dirty1 ∷ ix) = omega (arith, count_moving-le ix)
count_moving-le (held vv ∷ ix) = omega (arith, count_moving-le ix)
count_moving-le (moving vv ∷ ix) = omega (arith, count_moving-le ix)

pub count_moving-start :
    (ix : List Cell) (n : ℕ) → count_moving (start ix n) ≡ count_moving (map mark_cell ix)
unfolding fill_zero count_moving
count_moving-start [] zero = refl
count_moving-start [] (suc n) = count_moving-start [] n
count_moving-start (x ∷ ix) n = omega (
  arith,
  count_moving-start ix n,
  count_moving-cons (mark_cell x) (start ix n),
  count_moving-cons (mark_cell x) (map mark_cell ix),
)

pub used-start : (ix : List Cell) (n : ℕ) → used (start ix n) ≡ count_moving (map mark_cell ix)
unfolding mark_cell fill_zero count_moving
used-start [] zero = refl
used-start [] (suc n) = omega (arith, used-start [] n)
used-start (empty ∷ ix) n = omega (arith, used-start ix n)
used-start (dirty1 ∷ ix) n = omega (arith, used-start ix n)
used-start (held vv ∷ ix) n = omega (arith, used-start ix n)
used-start (moving vv ∷ ix) n = omega (arith, used-start ix n)

pub start-Underway :
    (tbls : ℕ → ℕ → ℕ) (nelems n : ℕ) (ix : List Cell)
    → IsDistinct ix
    → Underway tbls nelems (length ix + n) (length ix) ix 0 (start ix n)
start-Underway tbls nelems n ix d = record {
  wide = length-start ix n;
  left = λ s vv at. elim (start-cell ix n s (moving vv) at) [
    | inl e ↦ cc
    | inr (ww, e, lt) ↦ (omega arith, lt)
  ];
  clean = λ s at. elim (start-cell ix n s dirty1 at) [ inl e ↦ cc | inr (ww, e, lt) ↦ cc ];
  path = λ s vv at. elim (start-cell ix n s (held vv) at) [ inl e ↦ cc | inr (ww, e, lt) ↦ cc ];
  distinct = λ j k vv ww at_j at_k.
      d j k vv ww (sym (entry_at-start ix n j) ∙ at_j) (sym (entry_at-start ix n k) ∙ at_k);
  old = λ vv h. (h.0, sym (entry_at-start ix n h.0) ∙ h.1);
  kept = λ vv h. (h.0, entry_at-start ix n h.0 ∙ h.1);
}
