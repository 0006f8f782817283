-- ===== src/Vec/Update/Added.antt =====
-- After p3_eject_vec the vector has the documents of both, old and new.
use getassoc.Common.{
  ℕ, ◌+◌, ◌<◌, ◌≡◌, Bool, false, Option, some, none, List, [], if◌then◌else◌, length,
}
use getassoc.Corpus.{XrElem}
use getassoc.Vec.{XrVec, Rvst, Role, Distconf, int_limit}
use getassoc.Vec.Merge.Union.{freq_in, total, weigh, IsRising}
use getassoc.Vec.Uniq.{IsVector}
use getassoc.Vec.Update.{Side}
use getassoc.Vec.Update.Shared.{keeps, stores}

module _ {X : Type 0} (retrieve_xr : ℕ → X → Option (Option XrVec))
    (insert_xr : ℕ → XrVec → X → Option X) (granted : Bool) (id elem_num freq_sum : ℕ) (rs : Rvst)
    (dc : Distconf) (d : Side X) where
  -- The elements of the stored vector, `old`
  abbrev old_elems : Option XrVec → List XrElem
  old_elems none = []
  old_elems (some v0) = v0.elems

  abbrev old_sum : Option XrVec → ℕ
  old_sum none = 0
  old_sum (some v0) = v0.freq_sum

  -- What a call leaves, with the vector `old` in the table before
  pub record Added (old : Option XrVec) (r : Rvst) (d' : Side X) : Type 0 where
    pub vector : IsVector r.v.elems
    pub freqs :
        (x : ℕ)
        → freq_in x r.v.elems
          ≡ (if keeps dc x then freq_in x rs.v.elems + freq_in x (old_elems old) else 0)
    pub written : (if stores dc id then insert_xr id r.v d.xr else some d.xr) ≡ some d'.xr
    pub entries :
        d'.nentries ≡ (elim old as (λ o. ℕ) [ none ↦ d.nentries + 1 | some v0 ↦ d.nentries ])

  -- -1 with its reason, or 0
  pub data Ejected : Option (Rvst × Side X) → Type 0 where
    lost : retrieve_xr id d.xr ≡ none → Ejected none
    refused : granted ≡ false → Ejected none
    no_role : dc.role ≡ Role.inherit → Ejected none
    full : (v : XrVec) → insert_xr id v d.xr ≡ none → Ejected none
    added :
        {r : Rvst} {d' : Side X} (old : Option XrVec)
        → retrieve_xr id d.xr ≡ some old
        → Added old r d'
        → Ejected (some (r, d'))

  -- The update's elements, and a stored vector
  pub record IsUpdate (old : Option XrVec) : Type 0 where
    pub rising : IsRising rs.v.elems
    pub sum : rs.v.freq_sum ≡ total rs.v.elems
    pub old_vector : IsVector (old_elems old)
    pub old_total : old_sum old ≡ total (old_elems old)
    pub few : length rs.v.elems + length (old_elems old) < int_limit
    pub small : rs.v.freq_sum + old_sum old < int_limit

  -- What is left in front of uniq_vec
  abbrev IsMerged : Option XrVec → Option Rvst → Type 0
  IsMerged old none = granted ≡ false
  IsMerged old (some r) =
      IsRising r.v.elems
      × ((f : XrElem → ℕ) → weigh f r.v.elems ≡ weigh f rs.v.elems + weigh f (old_elems old))
      × (r.v.freq_sum ≡ rs.v.freq_sum + old_sum old)
