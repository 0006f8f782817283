-- ===== src/Assv/Masks.antt =====
-- The tests that `eject` makes: assv_mask_test and assv_cutoff_test, and their cookies.
pub mod Filter
pub mod Cutoff
use getassoc.Common.{
  ℕ, suc, Bool, true, false, not, ◌&&◌, Option, none, some, List, [], ◌∷◌, ltb, leb, ◌==◌,
  if◌then◌else◌, get_elem?, drop, Run, done, fault, ◌>>=◌, deref,
}
use getassoc.Assv.{Hit}

-- `struct assv_cookie_mask_t`: `m` is NULL or an array, `len` its length
pub record Mask : Type 0 where
  pub m : Option (List ℕ)
  pub idx : ℕ

-- `struct assv_cookie_masks_t`
pub record Masks : Type 0 where
  pub p : Mask
  pub n : Mask

-- How far the loop `while (s->idx < s->len && s->m[s->idx] < d)` takes `idx`, on the cells from it on
unfoldable pub skip : ℕ → List ℕ → ℕ → ℕ
skip d [] idx = idx
skip d (x ∷ xs) idx = if ltb x d then skip d xs (suc idx) else idx

unfoldable pub advance : ℕ → Mask → Mask
unfolding skip
advance d s = elim s.m [
  | none ↦ s
  | some cells ↦ record { m = some cells; idx = skip d (drop s.idx cells) s.idx }
]

-- `s->m`, as a condition
unfoldable pub present : Mask → Bool
present s = elim s.m [ none ↦ false | some _ ↦ true ]

-- `s->idx < s->len && s->m[s->idx] == d`, where `s->m` is not NULL
unfoldable pub hit : ℕ → Mask → Bool
hit d s = elim s.m [
  | none ↦ false
  | some cells ↦ elim (get_elem? cells s.idx) [ none ↦ false | some x ↦ x == d ]
]

unfoldable pub assv_mask_test : ℕ → Masks → Bool × Masks
unfolding advance present hit
assv_mask_test d mask =
    let p = advance d mask.p in
    let n = advance d mask.n in
    if present p && hit d p
    then (true, record { p = p; n = mask.n })
    else if present n && not (hit d n)
    then (true, record { p = p; n = n })
    else (false, record { p = p; n = n })

-- The loop of assv_cutoff_test over `h`; `none` is its early return of 1.
unfoldable pub cutoff_limit : {D : Type 0} → List ℕ → List (Hit D) → ℕ → Run (Option ℕ)
cutoff_limit cutoff_df_list [] limit = done (some limit)
cutoff_limit cutoff_df_list (h ∷ hs) limit = deref (get_elem? cutoff_df_list h.qidx) >>= λ lim.
    if lim == 0
    then done none
    else cutoff_limit cutoff_df_list hs (if ltb limit lim then lim else limit)

-- `elem_num` is what `wam_elem_num` answers for the document.
unfoldable pub assv_cutoff_test : {D : Type 0} → List ℕ → ℕ → List (Hit D) → Run Bool
unfolding cutoff_limit
assv_cutoff_test cutoff_df_list elem_num h = cutoff_limit cutoff_df_list h 0 >>= λ r. elim r [
  | none ↦ done true
  | some limit ↦ done (if leb limit elem_num then false else true)
]
