-- ===== src/Vec.antt =====
-- nwam.c, nwamP.h: the operations on the vector of a word or a document while an index is updated. The
-- build is the default one: `freq_t` has 32 bits and XPART is a remainder. A signed sum that overflows is a
-- fault; frequencies are not negative.
pub mod Merge
pub mod Uniq
pub mod Update
pub mod Masked
use getassoc.Common.{
  ℕ, zero, suc, ◌+◌, ◌-◌, ◌%◌, Bool, true, false, not, Option, none, some, List, [], ◌∷◌, ◌++◌, ltb,
  ◌==◌, if◌then◌else◌, length, set, drop, take, Run, done, fault, out_of_fuel, ◌>>=◌,
}
unfoldable use getassoc.Common.{round_up}
use getassoc.Common.Arrays.{load}
use getassoc.Corpus.{XrElem}

-- `struct xr_vec`; `elem_num` is the length of `elems`
pub record XrVec : Type 0 where
  pub freq_sum : ℕ
  pub elems : List XrElem

-- The fields `v_size` and `v` of `struct rvst`
pub record Rvst : Type 0 where
  pub v_size : ℕ
  pub v : XrVec

-- The bound of `freq_t` and of `df_t`
abbrev pub int_limit : ℕ
int_limit = 0x80000000

unfoldable pub add_int : ℕ → ℕ → Run ℕ
add_int a b = if ltb (a + b) int_limit then done (a + b) else fault

abbrev pub put_elem : List XrElem → ℕ → XrElem → Run (List XrElem)
put_elem xs i a = if ltb i (length xs) then done (set xs i a) else fault

-- `ecompar(a, b) > 0`
unfoldable pub ecompar_gt : XrElem → XrElem → Bool
ecompar_gt a b = ltb b.id a.id

-- The inner loop of merge_vec, which copies the first `q` cells of `v`, the last one first; `e` is one above
-- `ep`, and `q` above `np`.
unfoldable pub copy_loop : List XrElem → List XrElem → ℕ → ℕ → Run (List XrElem)
copy_loop v elems e zero = done elems
copy_loop v elems e (suc q) =
    load v q >>= λ b. put_elem elems (e - 1) b >>= λ elems. copy_loop v elems (e - 1) q

-- The outer loop, on fuel; `p` is one above `pp`. The assertion is that `ep` and `pp` meet.
unfoldable pub merge_vec_loop : ℕ → List XrElem → List XrElem → ℕ → ℕ → ℕ → Run (List XrElem)
merge_vec_loop zero v elems e p q = out_of_fuel
merge_vec_loop (suc n) v elems e p q = load elems (p - 1) >>= λ a. load v (q - 1) >>= λ b.
    let take_p : Run (List XrElem) =
      (put_elem elems (e - 1) a >>= λ elems.
      if p == 1 then copy_loop v elems (e - 1) q else merge_vec_loop n v elems (e - 1) (p - 1) q) in
    let take_q : Run (List XrElem) =
      (put_elem elems (e - 1) b >>= λ elems.
      let on = merge_vec_loop n v elems (e - 1) p (q - 1) in
      if q == 1 then (if e - 1 == p then done elems else fault) else on) in
    if ecompar_gt a b then take_p else take_q

-- The cells behind a vector
unfoldable pub cells : (ℕ → XrElem) → ℕ → List XrElem
cells junk zero = []
cells junk (suc n) = junk n ∷ cells junk n

-- `junk` is what the cells behind the vector hold, and `granted` whether realloc succeeds; `none` is -1.
unfoldable pub merge_vec : Bool → (ℕ → XrElem) → Rvst → XrVec → Run (Option Rvst)
merge_vec granted junk rs v =
    let p = length rs.v.elems in
    let q = length v.elems in
    let merged : Run (List XrElem) =
      if q == 0
      then done rs.v.elems
      else if p == 0
      then done v.elems
      else merge_vec_loop (p + q) v.elems (rs.v.elems ++ cells junk q) (p + q) p q in
    let merge : ℕ → Run (Option Rvst) = λ v_size. merged >>= λ elems.
    add_int rs.v.freq_sum v.freq_sum >>= λ freq_sum.
    done (some (record { v_size = v_size; v = record { freq_sum = freq_sum; elems = elems } })) in
    add_int p q >>= λ elem_num.
    if ltb rs.v_size elem_num
    then (if granted then merge (round_up elem_num 128) else done none)
    else merge rs.v_size

-- What is done when the group of `e` is complete: the vector gets `e` if its frequency is not 0.
unfoldable pub end_group : XrElem → ℕ → Run (ℕ × List XrElem)
end_group e freq_sum =
    if e.freq == 0 then done (freq_sum, []) else (add_int freq_sum e.freq >>= λ s. done (s, e ∷ []))

-- The loops of uniq_vec: `e` is the element under way, and the cells behind `j` are left. The assertion is
-- that the next element has a greater identifier.
unfoldable pub uniq_vec_loop : XrElem → List XrElem → ℕ → Run (ℕ × List XrElem)
uniq_vec_loop e [] freq_sum = end_group e freq_sum
uniq_vec_loop e (b ∷ elems) freq_sum =
    let next : Run (XrElem × ℕ × List XrElem) =
      if e.id == b.id
      then (add_int e.freq b.freq >>= λ f. done (record e { freq = f }, freq_sum, []))
      else if ltb e.id b.id
      then (end_group e freq_sum >>= λ s. done (b, s.0, s.1))
      else fault in
    next >>= λ t. uniq_vec_loop t.0 elems t.1 >>= λ r. done (r.0, t.2 ++ r.1)

unfoldable pub uniq_vec : XrVec → Run XrVec
uniq_vec v =
    let none_yet : ℕ × List XrElem = (0, []) in
    (elim v.elems [ [] ↦ done none_yet | ◌∷◌ e elems ↦ uniq_vec_loop e elems 0 ]) >>= λ r.
    if v.freq_sum == r.0 then done (record v { elems = r.1 }) else fault

-- `role`
pub data Role : Type 0 where
  inherit : Role
  monolithic : Role
  parent : Role
  child : Role

pub data Dir : Type 0 where
  wam_row : Dir
  wam_col : Dir

-- `struct distconf_t`, where `nn` is not 0
pub record Distconf : Type 0 where
  pub role : Role
  pub dir : Dir
  pub node_id : ℕ
  pub nn : Dir → ℕ

unfoldable pub minep : ℕ → Distconf → Bool
minep id dc = id % dc.nn dc.dir == dc.node_id

unfoldable pub reduce : Distconf → List XrElem → List XrElem
reduce dc [] = []
reduce dc (e ∷ elems) = if minep e.id dc then e ∷ reduce dc elems else reduce dc elems

-- `freq_sum` stays.
unfoldable pub reduce_vec : XrVec → Distconf → XrVec
reduce_vec v dc = record v { elems = reduce dc v.elems }
