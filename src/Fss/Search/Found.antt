-- ===== src/Fss/Search/Found.antt =====
-- x_simple_query finds the documents with an entry that the pattern matches.
use Prim.Native.Nat.{bit_and}
use getassoc.Common.{
  ℕ, ◌+◌, ◌-◌, ◌^◌, ◌<◌, ◌≡◌, ◌≢◌, Ordering, Bool, true, false, not, ◌&&◌, ◌||◌, List, [], ◌∷◌,
  ◌++◌, Perm, drop, ◌==◌, if◌then◌else◌, length, All, done,
}
use getassoc.Brsearch.Range.{Compares}
use getassoc.Fss.{Art, SimpleQuery, acompar}
use getassoc.Fss.Merge.{has}
use getassoc.Fss.Combine.{Found}
use getassoc.Fss.Seek.{less_one}
use getassoc.Fss.Seek.Found.{IsSection}
use getassoc.Fss.Search.{Frag, word, is_zero, poptions_mask, xcompar}

-- No element is before one in front of it, as qsort leaves an array.
abbrev pub IsOrdered : List Art → Type 0
IsOrdered [] = Unit
IsOrdered (a ∷ arts) = All (λ b. acompar a b ≢ Ordering.gt) arts × IsOrdered arts

abbrev pub IsSort : (List Art → List Art) → Type 0
IsSort qsort = (arts : List Art) → Perm (qsort arts) arts × IsOrdered (qsort arts)

module _ (xstrncmp : List ℕ → List ℕ → ℕ → ℕ → Ordering) (query : SimpleQuery)
    (entry : Frag → ℕ → Art) where
  -- Whether the pattern matches at a place of the text
  abbrev pub matches : ℕ → Frag → ℕ → Bool
  matches options fp p =
      is_zero (xstrncmp query.pattern (drop p fp.flwd) (length query.pattern) options)

  -- The options that the fragment was built with
  abbrev pub built : Frag → ℕ
  built fp = fp.xsc_options - bit_and fp.xsc_options poptions_mask

  -- What the query asks of an entry: that it is not deleted, its segment and its text
  abbrev pub selects : Frag → ℕ → Bool
  selects fp p =
      not ((entry fp p).id == 0)
      && (not (bit_and (2 ^ (entry fp p).segid) query.segments == 0) && matches query.options fp p)

  abbrev pub picked : Frag → List ℕ → List Art
  picked fp [] = []
  picked fp (p ∷ ps) = if selects fp p then entry fp p ∷ picked fp ps else picked fp ps

  -- The documents of the selected entries of all fragments
  abbrev pub found_in : List Frag → ℕ → Bool
  found_in [] id = false
  found_in (fp ∷ fragments) id = has id (picked fp fp.idx) || found_in fragments id

  -- `entry` is what the header in front of the section of a place says.
  pub record IsEntry (fp : Frag) (p : ℕ) : Type 0 where
    pub marker : ℕ
    pub section : IsSection fp.flwd fp.bitmap p marker
    pub id : word fp.flwd (marker - 8) ≡ done (entry fp p).id
    pub segid : word fp.flwd (marker - 8 + 4) ≡ done (entry fp p).segid
    pub disp : (entry fp p).disp ≡ less_one (p - marker)
    pub shifts : (entry fp p).segid < 32

  -- The suffix array is in the order of its own options, which match whatever the query's options match.
  pub record IsIndexed (fp : Frag) : Type 0 where
    pub below : List ℕ
    pub equal : List ℕ
    pub above : List ℕ
    pub parts : fp.idx ≡ below ++ equal ++ above
    pub less :
        All (Compares (xcompar xstrncmp) (query.pattern, fp.flwd, built fp) Ordering.gt) below
    pub same :
        All (Compares (xcompar xstrncmp) (query.pattern, fp.flwd, built fp) Ordering.eq) equal
    pub greater :
        All (Compares (xcompar xstrncmp) (query.pattern, fp.flwd, built fp) Ordering.lt) above
    pub fits : length fp.idx < 0x8000000000000000
    pub entries : All (IsEntry fp) fp.idx
    pub narrower :
        All (λ p. matches query.options fp p ≡ true → matches (built fp) fp p ≡ true) fp.idx
