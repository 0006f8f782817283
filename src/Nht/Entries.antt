-- ===== src/Nht/Entries.antt =====
-- The entries of an index as a list.
use getassoc.Common.{
  ℕ, zero, suc, ◌≡◌, ◌≢◌, refl, ◌∙◌, true, some, List, [], ◌∷◌, arith, length, get_elem?,
}
use getassoc.Sutil.{equal}
use getassoc.Nht.{Hte, Cell, empty, dirty1, held, moving}
use getassoc.Nht.Cells.{used}
use getassoc.Nht.Extend.State.{content, entry_at, IsDistinct}

-- The entries in the order of their cells
abbrev pub entries : List Cell → List Hte
entries [] = []
entries (empty ∷ ix) = entries ix
entries (dirty1 ∷ ix) = entries ix
entries (held vv ∷ ix) = vv ∷ entries ix
entries (moving vv ∷ ix) = vv ∷ entries ix

-- The entries are those of the cells.
pub entries-entry :
    (ix : List Cell) (i : ℕ) (vv : Hte)
    → get_elem? (entries ix) i ≡ some vv
    → (j : ℕ) × (entry_at ix j ≡ some vv)
entries-entry [] i vv at = cc
entries-entry (empty ∷ ix) i vv at = let (j, e) = entries-entry ix i vv at in (suc j, e)
entries-entry (dirty1 ∷ ix) i vv at = let (j, e) = entries-entry ix i vv at in (suc j, e)
entries-entry (held ww ∷ ix) zero vv at = (0, at)
entries-entry (held ww ∷ ix) (suc i) vv at = let (j, e) = entries-entry ix i vv at in (suc j, e)
entries-entry (moving ww ∷ ix) zero vv at = (0, at)
entries-entry (moving ww ∷ ix) (suc i) vv at = let (j, e) = entries-entry ix i vv at in (suc j, e)

pub entry-entries :
    (ix : List Cell) (j : ℕ) (vv : Hte)
    → entry_at ix j ≡ some vv
    → (i : ℕ) × (get_elem? (entries ix) i ≡ some vv)
entry-entries [] j vv at = cc
entry-entries (empty ∷ ix) zero vv at = cc
entry-entries (dirty1 ∷ ix) zero vv at = cc
entry-entries (held ww ∷ ix) zero vv at = (0, at)
entry-entries (moving ww ∷ ix) zero vv at = (0, at)
entry-entries (empty ∷ ix) (suc j) vv at = entry-entries ix j vv at
entry-entries (dirty1 ∷ ix) (suc j) vv at = entry-entries ix j vv at
entry-entries (held ww ∷ ix) (suc j) vv at = let (i, e) = entry-entries ix j vv at in (suc i, e)
entry-entries (moving ww ∷ ix) (suc j) vv at = let (i, e) = entry-entries ix j vv at in (suc i, e)

pub length-entries :
    (ix : List Cell) → ((s : ℕ) → get_elem? ix s ≢ some dirty1) → length (entries ix) ≡ used ix
length-entries [] clean = refl
length-entries (empty ∷ ix) clean = omega (arith, length-entries ix (λ s. clean (suc s)))
length-entries (dirty1 ∷ ix) clean = absurd (clean 0 refl)
length-entries (held vv ∷ ix) clean = omega (arith, length-entries ix (λ s. clean (suc s)))
length-entries (moving vv ∷ ix) clean = omega (arith, length-entries ix (λ s. clean (suc s)))

IsDistinct-behind : (c : Cell) (ix : List Cell) → IsDistinct (c ∷ ix) → IsDistinct ix
IsDistinct-behind c ix d s t vv ww at_s at_t e =
    let both = d (suc s) (suc t) vv ww at_s at_t e in omega arith

abbrev pub IsOnce : List Hte → Type 0
IsOnce es =
    (i j : ℕ) (vv ww : Hte)
    → get_elem? es i ≡ some vv
    → get_elem? es j ≡ some ww
    → equal vv.name ww.name ≡ true
    → i ≡ j

first_or_behind :
    (c : Cell) (xx : Hte) (ix : List Cell)
    → content (some c) ≡ some xx
    → IsDistinct (c ∷ ix)
    → IsOnce (entries ix)
    → IsOnce (xx ∷ entries ix)
first_or_behind c xx ix here d behind zero zero vv ww at_i at_j same = refl
first_or_behind c xx ix here d behind zero (suc j) vv ww at_i at_j same =
    let (k, at_k) = entries-entry ix j ww at_j in
    let wrong = d 0 (suc k) vv ww (here ∙ at_i) at_k same in absurd (omega arith)
first_or_behind c xx ix here d behind (suc i) zero vv ww at_i at_j same =
    let (k, at_k) = entries-entry ix i vv at_i in
    let wrong = d (suc k) 0 vv ww at_k (here ∙ at_j) same in absurd (omega arith)
first_or_behind c xx ix here d behind (suc i) (suc j) vv ww at_i at_j same =
    let both = behind i j vv ww at_i at_j same in omega arith

-- Each entry is given once.
pub IsDistinct-entries : (ix : List Cell) → IsDistinct ix → IsOnce (entries ix)
IsDistinct-entries [] d i j vv ww at_i at_j same = cc
IsDistinct-entries (empty ∷ ix) d i j vv ww at_i at_j same =
    IsDistinct-entries ix (IsDistinct-behind empty ix d) i j vv ww at_i at_j same
IsDistinct-entries (dirty1 ∷ ix) d i j vv ww at_i at_j same =
    IsDistinct-entries ix (IsDistinct-behind dirty1 ix d) i j vv ww at_i at_j same
IsDistinct-entries (held xx ∷ ix) d i j vv ww at_i at_j same =
    first_or_behind (held xx) xx ix refl d
      (IsDistinct-entries ix (IsDistinct-behind (held xx) ix d)) i j vv ww at_i at_j same
IsDistinct-entries (moving xx ∷ ix) d i j vv ww at_i at_j same =
    first_or_behind (moving xx) xx ix refl d
      (IsDistinct-entries ix (IsDistinct-behind (moving xx) ix d)) i j vv ww at_i at_j same
