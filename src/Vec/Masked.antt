-- ===== src/Vec/Masked.antt =====
-- nwam.c: the masks of a direction of the index, and wam_get_vec, which answers a vector without what they
-- leave out. An identifier has 4 bytes, and so has each field of a vector.
pub mod Left
pub mod Allowed
mod Samples
use getassoc.Common.{
  ℕ, zero, suc, ◌+◌, ◌*◌, Bool, true, false, not, ◌&&◌, ◌||◌, Option, none, some, List, [], ◌∷◌,
  ltb, leb, ◌==◌, if◌then◌else◌, length, Run, done, ◌>>=◌,
}
unfoldable use getassoc.Common.{round_up}
use getassoc.Corpus.{XrElem}
use getassoc.Vec.{XrVec, add_int}

-- `struct mask_t`: `mask` is NULL or has `len` elements, and `size` is that of `buf` in bytes.
pub record MaskT : Type 0 where
  pub mask : Option (List ℕ)
  pub size : ℕ

-- The fields of `d[d]` that hold the masks
pub record MaskPair : Type 0 where
  pub pmask : MaskT
  pub nmask : MaskT
  pub mask_set : Bool

-- Whether the loop of setmask0 finds nothing to sort
unfoldable pub in_order : List ℕ → Bool
in_order [] = true
in_order (x ∷ mask) = elim mask [ [] ↦ true | ◌∷◌ y rest ↦ leb x y ] && in_order mask

-- `qsort` is qsort with icompar, and `granted` whether realloc succeeds.
module _ (qsort : List ℕ → List ℕ) where
  -- Whether the answer is 0, not -1
  unfoldable pub setmask0 : Bool → MaskT → Option (List ℕ) → Bool × MaskT
  setmask0 granted m none = (true, record m { mask = none })
  setmask0 granted m (some mask) =
      let size = (length mask + 1) * 4 in
      let ordered = if in_order mask then mask else qsort mask in
      if ltb m.size size
      then if granted
        then (true, record { mask = some ordered; size = round_up size 128 })
        else (false, record { mask = none; size = 0 })
      else (true, record m { mask = some ordered })

  unfoldable pub wam_setmask :
      Bool → Bool → MaskPair → Option (List ℕ) → Option (List ℕ) → Bool × MaskPair
  wam_setmask granted granted' d pmask nmask =
      let p = setmask0 granted d.pmask pmask in
      let n = setmask0 granted' d.nmask nmask in
      let there : Option (List ℕ) → Bool = λ o. elim o [ none ↦ false | some mask ↦ true ] in
      if not p.0
      then (false, record d { pmask = p.1 })
      else if not n.0
      then (false, record d { pmask = p.1; nmask = n.1 })
      else (true, record { pmask = p.1; nmask = n.1; mask_set = there p.1.mask || there n.1.mask })

-- `for (; mask < me && *mask < id; mask++) ;`, on what is left of a mask
unfoldable pub skip_below : ℕ → List ℕ → List ℕ
skip_below id [] = []
skip_below id (x ∷ mask) = if ltb x id then skip_below id mask else x ∷ mask

unfoldable pub skip_mask : ℕ → Option (List ℕ) → Option (List ℕ)
skip_mask id none = none
skip_mask id (some mask) = some (skip_below id mask)

-- `mask < me && *mask == id`
unfoldable pub heads : ℕ → List ℕ → Bool
heads id [] = false
heads id (x ∷ mask) = x == id

-- The condition of mask_vec
unfoldable pub passes : ℕ → Option (List ℕ) → Option (List ℕ) → Bool
passes id pmask nmask =
    elim pmask [ none ↦ false | some p ↦ heads id p ]
    || elim nmask [ none ↦ false | some n ↦ not (heads id n) ]

-- The loop of mask_vec, with the sum so far
unfoldable pub mask_loop :
    List XrElem → Option (List ℕ) → Option (List ℕ) → ℕ → Run (ℕ × List XrElem)
mask_loop [] pmask nmask freq_sum = done (freq_sum, [])
mask_loop (e ∷ elems) pmask nmask freq_sum =
    let p = skip_mask e.id pmask in
    let n = skip_mask e.id nmask in
    let keep = passes e.id p n in
    (if keep then add_int freq_sum e.freq else done freq_sum) >>= λ s.
    mask_loop elems p n s >>= λ r. done (r.0, if keep then e ∷ r.1 else r.1)

unfoldable pub mask_vec : XrVec → Option (List ℕ) → Option (List ℕ) → Run XrVec
mask_vec v pmask nmask =
    mask_loop v.elems pmask nmask 0 >>= λ r. done (record { freq_sum = r.0; elems = r.1 })

-- wam_get_vec, but for a parent, which asks its children: `found` is the entry of the table and its size,
-- and `tv_size` the size of `tv`. The value `none` is -1.
unfoldable pub wam_get_vec : Bool → Option (XrVec × ℕ) → MaskPair → ℕ → Run (ℕ × Option XrVec)
wam_get_vec granted none d tv_size = done (tv_size, none)
wam_get_vec granted (some (v, size)) d tv_size =
    let masked : ℕ → Run (ℕ × Option XrVec) =
      λ tv_size. mask_vec v d.pmask.mask d.nmask.mask >>= λ r. done (tv_size, some r) in
    if not (size == 8 + 8 * length v.elems)
    then done (tv_size, none)
    else if not d.mask_set
    then done (tv_size, some v)
    else if ltb tv_size size
    then (if granted then masked (round_up size 128) else done (tv_size, none))
    else masked tv_size
