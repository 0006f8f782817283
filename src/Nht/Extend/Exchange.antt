-- ===== src/Nht/Extend/Exchange.antt =====
-- Two cells of the index exchanged, as ht_extend does it, and how many entries are left to be moved.
use getassoc.Common.{
  ℕ, zero, suc, ◌+◌, ◌<◌, ◌≡◌, ◌≢◌, refl, ◌∙◌, true, false, some, List, [], ◌∷◌, arith, length,
  length-set, get_elem?, set, ◌==◌,
}
use getassoc.Common.Arrays.{get_elem?-set}
use getassoc.Nht.{Hte, Cell, empty, dirty1, held, moving, count_moving}
use getassoc.Nht.Cells.{used, used-set}
use getassoc.Nht.Extend.State.{Exchanged}

abbrev pub is_moving : Cell → ℕ
is_moving empty = 0
is_moving dirty1 = 0
is_moving (held vv) = 0
is_moving (moving vv) = 1

pub count_moving-cons :
    (e : Cell) (ix : List Cell) → count_moving (e ∷ ix) ≡ is_moving e + count_moving ix
unfolding count_moving
count_moving-cons empty ix = omega arith
count_moving-cons dirty1 ix = omega arith
count_moving-cons (held vv) ix = omega arith
count_moving-cons (moving vv) ix = omega arith

pub count_moving-set :
    (ix : List Cell) (s : ℕ) (e d : Cell)
    → get_elem? ix s ≡ some e
    → count_moving (set ix s d) + is_moving e ≡ count_moving ix + is_moving d
count_moving-set [] s e d at = cc
count_moving-set (x ∷ ix) zero e d at =
    let same : x ≡ e = cc in rw same (omega (arith, count_moving-cons e ix, count_moving-cons d ix))
count_moving-set (x ∷ ix) (suc s) e d at =
    omega (
      arith,
      count_moving-set ix s e d at,
      count_moving-cons x ix,
      count_moving-cons x (set ix s d),
    )

pub get_elem?-lt : (ix : List Cell) (i : ℕ) (e : Cell) → get_elem? ix i ≡ some e → i < length ix
get_elem?-lt [] i e at = cc
get_elem?-lt (x ∷ ix) zero e at = omega arith
get_elem?-lt (x ∷ ix) (suc i) e at = omega (arith, get_elem?-lt ix i e at)

pub set-own :
    (ix : List Cell) (i : ℕ) (d e : Cell)
    → get_elem? ix i ≡ some d
    → get_elem? (set ix i e) i ≡ some e
set-own ix i d e at =
    let same : (i == i) ≡ true = ground arith in
    get_elem?-set ix i i e (get_elem?-lt ix i d at) ∙ (rw same refl)

pub set-other :
    (ix : List Cell) (i j : ℕ) (d e : Cell)
    → get_elem? ix i ≡ some d
    → (i == j) ≡ false
    → get_elem? (set ix i e) j ≡ get_elem? ix j
set-other ix i j d e at differs =
    get_elem?-set ix i j e (get_elem?-lt ix i d at) ∙ (rw differs refl)

-- The lists that the loop makes, when it stops away from `i`
module _ (ix : List Cell) (i s : ℕ) (o : Hte) (x : Cell) (was_i : get_elem? ix i ≡ some (moving o))
    (was_s : get_elem? ix s ≡ some x) (differ : (i == s) ≡ false) where
  abbrev pub exchanged : List Cell
  exchanged = set (set (set ix i (held o)) s (held o)) i x

  back : (s == i) ≡ false
  back = ground arith

  at_s : get_elem? (set ix i (held o)) s ≡ some x
  at_s = set-other ix i s (moving o) (held o) was_i differ ∙ was_s

  at_i : get_elem? (set (set ix i (held o)) s (held o)) i ≡ some (held o)
  at_i =
      set-other (set ix i (held o)) s i x (held o) at_s back
      ∙ set-own ix i (moving o) (held o) was_i

  pub exchanged-Exchanged : ((vv : Hte) → x ≢ held vv) → Exchanged ix exchanged i s o x
  exchanged-Exchanged not_held = record {
    was_i = was_i;
    was_s = was_s;
    differ = differ;
    not_held = not_held;
    now_i = set-own _ i (held o) x at_i;
    now_s = set-other _ i s (held o) x at_i differ ∙ set-own _ s x (held o) at_s;
    others = λ j not_i not_s.
        set-other _ i j (held o) x at_i not_i
        ∙ set-other _ s j x (held o) at_s not_s
        ∙ set-other ix i j (moving o) (held o) was_i not_i;
    same_length =
        length-set (set (set ix i (held o)) s (held o)) i x
        ∙ length-set (set ix i (held o)) s (held o)
        ∙ length-set ix i (held o);
  }

  pub count_moving-exchanged : count_moving exchanged + 1 ≡ count_moving ix
  count_moving-exchanged = omega (
    arith,
    count_moving-set ix i (moving o) (held o) was_i,
    count_moving-set (set ix i (held o)) s x (held o) at_s,
    count_moving-set (set (set ix i (held o)) s (held o)) i (held o) x at_i,
  )

  pub used-exchanged : used exchanged ≡ used ix
  used-exchanged = omega (
    arith,
    used-set ix i (moving o) (held o) was_i,
    used-set (set ix i (held o)) s x (held o) at_s,
    used-set (set (set ix i (held o)) s (held o)) i (held o) x at_i,
  )
