-- ===== src/Nht/Extend/Samples.antt =====
-- Tables that are extended, entered into and walked through.
use getassoc.Common.{
  ℕ, zero, suc, ◌<◌, ◌≡◌, ◌≢◌, refl, sym, ap, ◌∙◌, subst, true, false, some, List, [], ◌∷◌, ◌⊎◌,
  inl, inr, arith, get_elem?, length, Returns,
}
use getassoc.Sutil.{equal}
use getassoc.Sutil.Trim.{equal_refl, equal_sound}
use getassoc.Nht.{
  Hte, Cell, empty, dirty1, held, moving, Nht, crc_loop, cshash, nsxhash, ht_extend, nht_enter,
  seq_loop, nht_seq, nht_rewind,
}
use getassoc.Nht.Walk.{Walked, walk, nht_seq-Walked}
use getassoc.Nht.Extend.State.{entry_at, IsDistinct}
use getassoc.Nht.Extend.Fresh.{IsFresh, Extended, ht_extend-Extended}
use getassoc.Nht.Extend.Enter.{Kept, nht_enter-Kept}

abbrev tbls : ℕ → ℕ → ℕ
tbls = λ k x. 0

abbrev no_cells : Nht
no_cells = record { dsize = 1; nentries = 0; threshold = 0; ix = []; seq_ptr = 0; rdonly = false }

no_cells-IsFresh : IsFresh tbls 0 no_cells
no_cells-IsFresh = record {
  sound = record { reach = λ s vv at. cc; settled = λ s vv at. cc };
  clean = λ s at. cc;
  distinct = λ j k vv ww at_j at_k same. cc;
  count = refl;
  fixed = refl;
  below = omega arith;
}

-- Both keys start at the fourth cell.
abbrev front : Hte
front = record { payload = 9 ∷ []; name = 1 ∷ [] }

abbrev behind : Hte
behind = record { payload = 8 ∷ []; name = 2 ∷ [] }

abbrev seven_cells : List Cell
seven_cells = empty ∷ empty ∷ empty ∷ held front ∷ held behind ∷ empty ∷ empty ∷ []

abbrev two_entries : Nht
two_entries = record {
  dsize = 1;
  nentries = 2;
  threshold = 6;
  ix = seven_cells;
  seq_ptr = 0;
  rdonly = false;
}

in_order :
    (s : ℕ) (vv : Hte)
    → get_elem? seven_cells s ≡ some (held vv)
    → (c : ℕ) × (nsxhash tbls 0 7 vv.name c ≡ s)
      × ((i : ℕ) → i < c → get_elem? seven_cells (nsxhash tbls 0 7 vv.name i) ≢ some empty)
unfolding crc_loop cshash nsxhash
in_order (suc (suc (suc zero))) vv at =
    let same : front ≡ vv = cc in
    (0, ap (λ v. nsxhash tbls 0 7 v.name 0) (sym same), λ i l. omega arith)
in_order (suc (suc (suc (suc zero)))) vv at =
    let same : behind ≡ vv = cc in
    (
      1,
      ap (λ v. nsxhash tbls 0 7 v.name 1) (sym same),
      λ i l free.
          let first : i ≡ 0 = omega arith in
          let start : nsxhash tbls 0 7 vv.name i ≡ 3 = rw (first, sym same) refl in
          let wrong : some (held front) ≡ some empty =
            subst (λ s. get_elem? seven_cells s ≡ some empty) start free in
          cc,
    )
in_order zero vv at = cc
in_order (suc zero) vv at = cc
in_order (suc (suc zero)) vv at = cc
in_order (suc (suc (suc (suc (suc zero))))) vv at = cc
in_order (suc (suc (suc (suc (suc (suc zero)))))) vv at = cc
in_order (suc (suc (suc (suc (suc (suc (suc s))))))) vv at = cc

-- Where an entry of the table stands
where_is :
    (s : ℕ) (vv : Hte)
    → entry_at seven_cells s ≡ some vv
    → ((s ≡ 3) × (front ≡ vv)) ⊎ ((s ≡ 4) × (behind ≡ vv))
where_is zero vv at = cc
where_is (suc zero) vv at = cc
where_is (suc (suc zero)) vv at = cc
where_is (suc (suc (suc zero))) vv at = inl (refl, cc)
where_is (suc (suc (suc (suc zero)))) vv at = inr (refl, cc)
where_is (suc (suc (suc (suc (suc zero))))) vv at = cc
where_is (suc (suc (suc (suc (suc (suc zero)))))) vv at = cc
where_is (suc (suc (suc (suc (suc (suc (suc s))))))) vv at = cc

apart : (vv ww : Hte) → front ≡ vv → behind ≡ ww → equal vv.name ww.name ≡ true → ⊥
unfolding equal
apart vv ww is is' same =
    let names : equal front.name behind.name ≡ equal vv.name ww.name =
      ap (λ v. equal v.name behind.name) is ∙ ap (λ w. equal vv.name w.name) is' in
    let wrong : false ≡ true = names ∙ same in cc

seven_cells-IsDistinct : IsDistinct seven_cells
seven_cells-IsDistinct j k vv ww at_j at_k same = elim (where_is j vv at_j) [
  | inl (j3, f) ↦ elim (where_is k ww at_k) [
    | inl (k3, g) ↦ j3 ∙ sym k3
    | inr (k4, g) ↦ absurd (apart vv ww f g same)
  ]
  | inr (j4, g) ↦ elim (where_is k ww at_k) [
    | inl (k3, f) ↦ absurd (
        apart ww vv f g
          (ap (equal ww.name) (equal_sound vv.name ww.name same) ∙ equal_refl ww.name))
    | inr (k4, g') ↦ j4 ∙ sym k4
  ]
]

no_dirty1 : (s : ℕ) → get_elem? seven_cells s ≢ some dirty1
no_dirty1 zero at = cc
no_dirty1 (suc zero) at = cc
no_dirty1 (suc (suc zero)) at = cc
no_dirty1 (suc (suc (suc zero))) at = cc
no_dirty1 (suc (suc (suc (suc zero)))) at = cc
no_dirty1 (suc (suc (suc (suc (suc zero))))) at = cc
no_dirty1 (suc (suc (suc (suc (suc (suc zero)))))) at = cc
no_dirty1 (suc (suc (suc (suc (suc (suc (suc s))))))) at = cc

none_moving : (s : ℕ) (vv : Hte) → get_elem? seven_cells s ≢ some (moving vv)
none_moving zero vv at = cc
none_moving (suc zero) vv at = cc
none_moving (suc (suc zero)) vv at = cc
none_moving (suc (suc (suc zero))) vv at = cc
none_moving (suc (suc (suc (suc zero)))) vv at = cc
none_moving (suc (suc (suc (suc (suc zero))))) vv at = cc
none_moving (suc (suc (suc (suc (suc (suc zero)))))) vv at = cc
none_moving (suc (suc (suc (suc (suc (suc (suc s))))))) vv at = cc

two_entries-IsFresh : IsFresh tbls 0 two_entries
two_entries-IsFresh = record {
  sound = record { reach = in_order; settled = none_moving };
  clean = no_dirty1;
  distinct = seven_cells-IsDistinct;
  count = refl;
  fixed = refl;
  below = omega arith;
}

ht_extend-Extended_example :
    Returns
      (λ o. (h' : Nht) × (o ≡ some h') × Extended tbls 0 two_entries h')
      (ht_extend tbls 0 true two_entries)
ht_extend-Extended_example = ht_extend-Extended tbls 0 two_entries two_entries-IsFresh (omega arith)

-- The table has no cells: it is extended first.
nht_enter-Kept_example :
    Returns
      (Kept tbls 0 no_cells (1 ∷ []) (5 ∷ []))
      (nht_enter tbls 0 true true no_cells (1 ∷ []) (5 ∷ 7 ∷ []))
nht_enter-Kept_example =
    nht_enter-Kept tbls 0 no_cells no_cells-IsFresh refl (omega arith) (1 ∷ []) (5 ∷ 7 ∷ [])

walked : walk 9 (nht_rewind two_entries) ≡ (9 ∷ []) ∷ (8 ∷ []) ∷ []
unfolding walk seq_loop nht_seq nht_rewind
walked = refl

nht_seq-Walked_example :
    (es : List Hte) × (length es ≡ 2)
    × Walked tbls 0 two_entries (walk 3 (nht_rewind two_entries)) es
nht_seq-Walked_example =
    nht_seq-Walked tbls 0 two_entries two_entries-IsFresh (omega arith) 3 (omega arith)
