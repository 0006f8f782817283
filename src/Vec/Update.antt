-- ===== src/Vec/Update.antt =====
-- nwam.c: p3_eject_vec, which adds the documents of an update to the vector of a word.
pub mod Shared
pub mod Added
mod Samples
use getassoc.Common.{
  ℕ, ◌+◌, Bool, true, false, Option, none, some, List, ltb, if◌then◌else◌, Run, done, ◌>>=◌,
}
use getassoc.Corpus.{XrElem}
use getassoc.Vec.{XrVec, Rvst, Role, Dir, Distconf, minep, reduce_vec, merge_vec, uniq_vec}

-- The fields of `d[1]` in use; `xr` is the table of the vectors.
pub record Side (X : Type 0) : Type 0 where
  pub xr : X
  pub max_elem_num : ℕ
  pub max_freq_sum : ℕ
  pub nentries : ℕ

-- The switch on the role: the vector, and `myxr`. `none` is -1.
unfoldable pub share : ℕ → XrVec → Distconf → Option (XrVec × Bool)
share id v dc = elim dc.role [
  | Role.inherit ↦ none
  | Role.monolithic ↦ some (v, true)
  | Role.parent ↦ some (v, false)
  | Role.child ↦ elim dc.dir [
    | Dir.wam_row ↦ some (reduce_vec v dc, true)
    | Dir.wam_col ↦ some (v, minep id dc)
  ]
]

abbrev pub max_with : ℕ → ℕ → ℕ
max_with m n = if ltb m n then n else m

-- retrieve_xr and insert_xr are functions of the table: `none` is -1, and `some none` is that there is no
-- vector. `rs` has the update's elements, and the sum of their frequencies.
module _ {X : Type 0} (retrieve_xr : ℕ → X → Option (Option XrVec))
    (insert_xr : ℕ → XrVec → X → Option X) where
  -- What follows the switch
  unfoldable pub record_vec : ℕ → ℕ → ℕ → Bool → Rvst → Distconf → Side X → Option (Rvst × Side X)
  record_vec id elem_num freq_sum known rs dc d = elim (share id rs.v dc) [
    | none ↦ none
    | some s ↦ elim (if s.1 then insert_xr id s.0 d.xr else some d.xr) [
      | none ↦ none
      | some xr ↦ some (
        record rs { v = s.0 },
        record {
          xr = xr;
          max_elem_num = max_with d.max_elem_num elem_num;
          max_freq_sum = max_with d.max_freq_sum freq_sum;
          nentries = if known then d.nentries else d.nentries + 1;
        },
      )
    ]
  ]

  -- `granted` and `junk` are those of merge_vec.
  unfoldable pub p3_eject_vec :
      Bool → (ℕ → XrElem) → ℕ → ℕ → ℕ → Rvst → Distconf → Side X → Run (Option (Rvst × Side X))
  p3_eject_vec granted junk id elem_num freq_sum rs dc d = elim (retrieve_xr id d.xr) [
    | none ↦ done none
    | some old ↦
        (elim old [ none ↦ done (some rs) | some v0 ↦ merge_vec granted junk rs v0 ]) >>= λ o.
        elim o [
          | none ↦ done none
          | some merged ↦ uniq_vec merged.v >>= λ v.
              let known : Bool = elim old [ none ↦ false | some v0 ↦ true ] in
              done (record_vec id elem_num freq_sum known (record merged { v = v }) dc d)
        ]
  ]
