-- ===== src/Fss.antt =====
-- fss.c, nwam.h.in: the full-text filter. A query is a list of conjunctions of patterns, each of which can
-- be negated; the answer is the documents found by a positive conjunction, and those left out by the
-- negative ones. Memory is taken to suffice; the build is the one for bytes, with one thread.
pub mod Merge
pub mod Order
pub mod Combine
pub mod Query
pub mod Search
pub mod Seek
mod Samples
use getassoc.Common.{
  ℕ, zero, suc, ◌+◌, compare, Ordering, Bool, true, false, not, ◌&&◌, Option, none, some, List, [],
  ◌∷◌, ◌++◌, ltb, ◌==◌, if◌then◌else◌, length, take, Run, done, fault, out_of_fuel, ◌>>=◌,
}

-- `struct art`; `q` is for debugging.
pub record Art : Type 0 where
  pub id : ℕ
  pub segid : ℕ
  pub disp : ℕ

-- The input of `struct fss_simple_query`
pub record SimpleQuery : Type 0 where
  pub negativep : Bool
  pub pattern : List ℕ
  pub options : ℕ
  pub segments : ℕ

-- `negativep`, and `arts` with its `narts` elements, or NULL
pub record Arts : Type 0 where
  pub negativep : Bool
  pub arts : Option (List Art)

-- What is answered: the first `narts` of `total`
pub record Answer : Type 0 where
  pub negativep : Bool
  pub arts : List Art
  pub total : ℕ

unfoldable pub acompar : Art → Art → Ordering
acompar a b =
    if ltb a.id b.id
    then Ordering.lt
    else if ltb b.id a.id
    then Ordering.gt
    else if ltb a.segid b.segid
    then Ordering.lt
    else if ltb b.segid a.segid
    then Ordering.gt
    else compare a.disp b.disp

-- The array, once fill_dummy has put one in place of NULL
unfoldable pub fill_dummy : Option (List Art) → List Art
fill_dummy none = []
fill_dummy (some arts) = arts

-- The loop of uniq_qq behind an element with this identifier
unfoldable pub uniq_loop : ℕ → List Art → List Art
uniq_loop id [] = []
uniq_loop id (a ∷ arts) = if a.id == id then uniq_loop id arts else a ∷ uniq_loop a.id arts

unfoldable pub uniq_qq : Arts → Arts
uniq_qq q =
    let uniq : List Art → List Art =
      λ arts. elim arts [ [] ↦ [] | ◌∷◌ a rest ↦ a ∷ uniq_loop a.id rest ] in
    record q {
      arts = some (fill_dummy (elim q.arts [ none ↦ none | some arts ↦ some (uniq arts) ]));
    }

-- The loops on what is left of both arrays
unfoldable pub join_loop : ℕ → List Art → List Art → Run (List Art)
join_loop zero q0 q1 = out_of_fuel
join_loop (suc n) [] q1 = done []
join_loop (suc n) (a ∷ q0) [] = done []
join_loop (suc n) (a ∷ q0) (b ∷ q1) =
    let skip_a = join_loop n q0 (b ∷ q1) in
    let skip_b = join_loop n (a ∷ q0) q1 in
    let both = (join_loop n q0 q1 >>= λ r. done (a ∷ r)) in
    if ltb a.id b.id then skip_a else if ltb b.id a.id then skip_b else both

unfoldable pub join_pn_loop : ℕ → List Art → List Art → Run (List Art)
join_pn_loop zero q0 q1 = out_of_fuel
join_pn_loop (suc n) [] q1 = done []
join_pn_loop (suc n) (a ∷ q0) [] = done (a ∷ q0)
join_pn_loop (suc n) (a ∷ q0) (b ∷ q1) =
    let keep_a = (join_pn_loop n q0 (b ∷ q1) >>= λ r. done (a ∷ r)) in
    let skip_b = join_pn_loop n (a ∷ q0) q1 in
    let both = join_pn_loop n q0 q1 in
    if ltb a.id b.id then keep_a else if ltb b.id a.id then skip_b else both

unfoldable pub union_loop : ℕ → List Art → List Art → Run (List Art)
union_loop zero q0 q1 = out_of_fuel
union_loop (suc n) [] q1 = done q1
union_loop (suc n) (a ∷ q0) [] = done (a ∷ q0)
union_loop (suc n) (a ∷ q0) (b ∷ q1) =
    let first = (union_loop n q0 (b ∷ q1) >>= λ r. done (a ∷ r)) in
    let second = (union_loop n (a ∷ q0) q1 >>= λ r. done (b ∷ r)) in
    let both = (union_loop n q0 q1 >>= λ r. done (a ∷ r)) in
    if ltb a.id b.id then first else if ltb b.id a.id then second else both

-- A loop on two arrays, which are read if they are there
abbrev pub on_arrays : (ℕ → List Art → List Art → Run (List Art)) → Bool → Arts → Arts → Run Arts
on_arrays loop negativep q0 q1 = elim q0.arts [
  | none ↦ fault
  | some a0 ↦ elim q1.arts [
    | none ↦ fault
    | some a1 ↦
        (loop (length a0 + length a1 + 1) a0 a1 >>= λ r.
        done (record { negativep = negativep; arts = some r }))
  ]
]

-- The assertion on `negativep`
abbrev pub same : Bool → Bool → Bool
same true b = b
same false b = not b

-- An assertion that fails is a fault.
unfoldable pub join_qq : Arts → Arts → Run Arts
join_qq q0 q1 =
    if same q0.negativep q1.negativep then on_arrays join_loop q0.negativep q0 q1 else fault

unfoldable pub union_qq : Arts → Arts → Run Arts
union_qq q0 q1 =
    if same q0.negativep q1.negativep then on_arrays union_loop q0.negativep q0 q1 else fault

unfoldable pub join_qq_pn : Arts → Arts → Run Arts
join_qq_pn q0 q1 =
    if not q0.negativep && q1.negativep then on_arrays join_pn_loop false q0 q1 else fault

-- The choice of xfss within a conjunction, for `y` and `qij`
unfoldable pub conjoin : Arts → Arts → Run Arts
conjoin y q =
    if not y.negativep && not q.negativep
    then join_qq y q
    else if y.negativep && q.negativep
    then union_qq y q
    else if y.negativep
    then join_qq_pn q y
    else join_qq_pn y q

-- The choice between conjunctions, for `u` and `y`
unfoldable pub disjoin : Arts → Arts → Run Arts
disjoin u y = if y.negativep then join_qq u y else union_qq u y

-- The first `limit` elements, where `none` is -1
unfoldable pub answer : Option ℕ → Arts → Answer
answer limit x =
    let arts : List Art = elim x.arts [ none ↦ [] | some a ↦ a ] in
    record {
      negativep = x.negativep;
      arts = elim limit [ none ↦ arts | some n ↦ take n arts ];
      total = length arts;
    }

-- x_simple_query is an argument of xfss, whose value `none` is -1.
module _ (x_simple_query : SimpleQuery → Run (Option (Option (List Art)))) where
  -- The loop over a conjunction
  unfoldable pub conjunction : List SimpleQuery → Arts → Run (Option Arts)
  conjunction [] y = done (some y)
  conjunction (qij ∷ q) y = x_simple_query qij >>= λ o. elim o [
    | none ↦ done none
    | some arts ↦
        let u = uniq_qq (record { negativep = qij.negativep; arts = arts }) in
        elim y.arts [ none ↦ conjunction q u | some a ↦ (conjoin y u >>= λ t. conjunction q t) ]
  ]

  -- The loop over the conjunctions, for `x` and `z`. `junk` is what `y.negativep` holds at first; the count
  -- of `y`, as undefined behind an empty conjunction, goes with its array, which is NULL then.
  unfoldable pub disjunction :
      Bool → List (List SimpleQuery) → Arts → Arts → Run (Option (Arts × Arts))
  disjunction junk [] x z = done (some (x, z))
  disjunction junk (qi ∷ query) x z =
      conjunction qi (record { negativep = junk; arts = none }) >>= λ o. elim o [
        | none ↦ done none
        | some y ↦
            let u = if y.negativep then z else x in
            (elim u.arts [ none ↦ done y | some a ↦ disjoin u y ]) >>= λ t.
            disjunction junk query (if y.negativep then x else t) (if y.negativep then t else z)
      ]

  -- `*rp` and `*rn`, or -1
  unfoldable pub xfss :
      Bool → List (List SimpleQuery) → Option ℕ → Option ℕ → Run (Option (Answer × Answer))
  xfss junk query rp rn =
      let nothing : Arts = record { negativep = false; arts = none } in
      disjunction junk query nothing nothing >>= λ o. elim o [
        | none ↦ done none
        | some r ↦ done (some (answer rp r.0, answer rn r.1))
      ]
