-- ===== src/Vec/Masked/Samples.antt =====
-- A sort of identifiers, runs of wam_get_vec with masks, and its theorem.
use mathlib.Core.List.Perm
use getassoc.Common.{
  ℕ, ◌≡◌, refl, true, false, Option, none, some, List, [], ◌∷◌, Perm, ltb, if◌then◌else◌, Run, done,
}
unfoldable use getassoc.Common.{round_up}
use getassoc.Corpus.{XrElem}
use getassoc.Vec.{XrVec, add_int}
use getassoc.Vec.Masked.{
  MaskPair, in_order, setmask0, wam_setmask, skip_below, skip_mask, heads, passes, mask_loop,
  mask_vec, wam_get_vec,
}

abbrev insert : ℕ → List ℕ → List ℕ
insert a [] = a ∷ []
insert a (b ∷ xs) = if ltb b a then b ∷ insert a xs else a ∷ b ∷ xs

abbrev sorted : List ℕ → List ℕ
sorted [] = []
sorted (a ∷ xs) = insert a (sorted xs)

abbrev cell : ℕ → ℕ → XrElem
cell id freq = record { id = id; freq = freq }

abbrev stored : XrVec
stored = record { freq_sum = 11; elems = cell 2 1 ∷ cell 3 1 ∷ cell 5 7 ∷ cell 8 2 ∷ [] }

abbrev unset : MaskPair
unset = record {
  pmask = record { mask = none; size = 0 };
  nmask = record { mask = none; size = 0 };
  mask_set = false;
}

abbrev masked : Option (List ℕ) → Option (List ℕ) → Run (ℕ × Option XrVec)
masked pmask nmask =
    wam_get_vec true (some (stored, 40)) (wam_setmask sorted true true unset pmask nmask).1 0

only_those_of_the_mask :
    masked (some (5 ∷ 2 ∷ [])) none
    ≡ done (128, some (record { freq_sum = 8; elems = cell 2 1 ∷ cell 5 7 ∷ [] }))
unfolding wam_get_vec wam_setmask setmask0 in_order mask_vec mask_loop passes heads skip_mask
    skip_below add_int round_up
only_those_of_the_mask = refl

all_but_those_of_the_mask :
    masked none (some (2 ∷ 5 ∷ []))
    ≡ done (128, some (record { freq_sum = 3; elems = cell 3 1 ∷ cell 8 2 ∷ [] }))
unfolding wam_get_vec wam_setmask setmask0 in_order mask_vec mask_loop passes heads skip_mask
    skip_below add_int round_up
all_but_those_of_the_mask = refl
