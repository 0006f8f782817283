-- ===== src/Vec/Update/Samples.antt =====
-- Runs of p3_eject_vec, and its theorem, on a table of one vector.
use getassoc.Common.{ℕ, ◌≡◌, refl, true, Option, some, [], ◌∷◌, Run, done}
use getassoc.Corpus.{XrElem}
use getassoc.Vec.{
  XrVec, Rvst, Role, Dir, Distconf, add_int, ecompar_gt, copy_loop, merge_vec_loop, cells,
  merge_vec, end_group, uniq_vec_loop, uniq_vec, minep, reduce, reduce_vec,
}
use getassoc.Vec.Update.{Side, share, record_vec, p3_eject_vec}

abbrev cell : ℕ → ℕ → XrElem
cell id freq = record { id = id; freq = freq }

-- The word is in the documents 3 and 5, and the update adds 2 and 5.
abbrev stored : XrVec
stored = record { freq_sum = 5; elems = cell 3 1 ∷ cell 5 4 ∷ [] }

abbrev update : Rvst
update = record { v_size = 128; v = record { freq_sum = 4; elems = cell 2 1 ∷ cell 5 3 ∷ [] } }

abbrev retrieve : ℕ → Option XrVec → Option (Option XrVec)
retrieve id x = some x

abbrev insert : ℕ → XrVec → Option XrVec → Option (Option XrVec)
insert id v x = some (some v)

abbrev node : Distconf
node = record { role = Role.monolithic; dir = Dir.wam_row; node_id = 0; nn = λ d. 1 }

abbrev child : Distconf
child = record { role = Role.child; dir = Dir.wam_row; node_id = 1; nn = λ d. 2 }

abbrev side : Side (Option XrVec)
side = record { xr = some stored; max_elem_num = 2; max_freq_sum = 5; nentries = 1 }

abbrev junk : ℕ → XrElem
junk i = cell 77 i

abbrev result : Distconf → Run (Option (Rvst × Side (Option XrVec)))
result dc = p3_eject_vec retrieve insert true junk 9 2 4 update dc side

abbrev whole : XrVec
whole = record { freq_sum = 9; elems = cell 2 1 ∷ cell 3 1 ∷ cell 5 7 ∷ [] }

-- The vector has three documents now, but `max_elem_num` is still 2.
adds_documents :
    result node
    ≡ done (
        some (
          record { v_size = 128; v = whole },
          record { xr = some whole; max_elem_num = 2; max_freq_sum = 5; nentries = 1 },
        ))
unfolding p3_eject_vec record_vec share merge_vec merge_vec_loop copy_loop cells add_int ecompar_gt
    uniq_vec uniq_vec_loop end_group
adds_documents = refl

abbrev odd : XrVec
odd = record { freq_sum = 9; elems = cell 3 1 ∷ cell 5 7 ∷ [] }

keeps_its_documents :
    result child
    ≡ done (
        some (
          record { v_size = 128; v = odd },
          record { xr = some odd; max_elem_num = 2; max_freq_sum = 5; nentries = 1 },
        ))
unfolding p3_eject_vec record_vec share merge_vec merge_vec_loop copy_loop cells add_int ecompar_gt
    uniq_vec uniq_vec_loop end_group minep reduce reduce_vec
keeps_its_documents = refl
