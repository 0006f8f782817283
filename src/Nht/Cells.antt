-- ===== src/Nht/Cells.antt =====
-- The cells of the table in use, and the places of the entries.
use getassoc.Common.{
  ℕ, zero, suc, ◌+◌, ◌<◌, ◌≡◌, ◌≢◌, refl, Option, none, some, List, [], ◌∷◌, arith, length,
  get_elem?, set,
}
use getassoc.Nht.{Hte, Cell, empty, dirty1, held, moving, nsxhash}

-- The payload that a search returns at the cell where it stops
abbrev pub value_of : Cell → Option (List ℕ)
value_of empty = none
value_of dirty1 = none
value_of (held vv) = some vv.payload
value_of (moving vv) = none

-- The cells in use, deleted ones included
abbrev pub one : Cell → ℕ
one empty = 0
one dirty1 = 1
one (held vv) = 1
one (moving vv) = 1

abbrev pub used : List Cell → ℕ
used [] = 0
used (e ∷ ix) = one e + used ix

pub used-set :
    (ix : List Cell) (s : ℕ) (e d : Cell)
    → get_elem? ix s ≡ some e
    → used (set ix s d) + one e ≡ used ix + one d
used-set [] s e d at = cc
used-set (x ∷ ix) zero e d at = let same : x ≡ e = cc in rw same (omega arith)
used-set (x ∷ ix) (suc s) e d at = omega (arith, used-set ix s e d at)

pub free_cell :
    (ix : List Cell)
    → used ix < length ix
    → (s : ℕ) × (s < length ix) × (get_elem? ix s ≡ some empty)
free_cell [] h = absurd (omega arith)
free_cell (empty ∷ ix) h = (0, omega arith, refl)
free_cell (dirty1 ∷ ix) h = let (s, l, e) = free_cell ix (omega arith) in (suc s, omega arith, e)
free_cell (held vv ∷ ix) h = let (s, l, e) = free_cell ix (omega arith) in (suc s, omega arith, e)
free_cell (moving vv ∷ ix) h = let (s, l, e) = free_cell ix (omega arith) in (suc s, omega arith, e)

module _ (tbls : ℕ → ℕ → ℕ) (nelems size : ℕ) where
  -- Every entry is where the probes of its key find it, and no entry is on the move.
  pub record IsSound (ix : List Cell) : Type 0 where
    pub reach :
        (s : ℕ) (vv : Hte)
        → get_elem? ix s ≡ some (held vv)
        → (c : ℕ) × (nsxhash tbls nelems size vv.name c ≡ s)
          × ((i : ℕ) → i < c → get_elem? ix (nsxhash tbls nelems size vv.name i) ≢ some empty)
    pub settled : (s : ℕ) (vv : Hte) → get_elem? ix s ≢ some (moving vv)
