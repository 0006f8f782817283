-- ===== src/Priq.antt =====
-- priq.h, priq.c: a priority queue of objects of one size, kept as a binary heap whose root is the
-- least under `compar`. An item is a value; the array `q` is the list of its `n` live cells, and
-- `size` is the number of cells allocated. `realloc` may fail, so its answer is an argument.
pub mod Order
pub mod Back
pub mod Forward
pub mod Laws
pub mod Remove
mod Samples
use getassoc.Common.{
  ℕ, zero, suc, ◌+◌, ◌-◌, ◌*◌, ◌/◌, ◌≡◌, Ordering, compare, Bool, true, false, Option, none, some,
  List, [], ◌∷◌, ◌++◌, ltb, leb, ◌==◌, if◌then◌else◌, round_up, length, set, take, Run, done,
  out_of_fuel, ◌>>=◌, not, ◌||◌,
}
use getassoc.Common.Arrays.{load, exchange}

-- `priq_compar_t`, by the sign of its result. It orders the values, of which a machine has finitely
-- many, so that they have ranks.
pub record Comparator (A : Type 0) : Type 0 where
  pub compar : A → A → Ordering
  pub rank : A → ℕ
  pub compar_rank : (a b : A) → compar a b ≡ compare (rank a) (rank b)

-- `e > 0`
abbrev pub is_gt : Ordering → Bool
is_gt Ordering.gt = true
is_gt Ordering.lt = false
is_gt Ordering.eq = false

pub record Priq (A : Type 0) : Type 0 where
  pub size : ℕ
  pub items : List A

-- What `priq_top` returns: NULL before the first allocation, a pointer to a cell that is not in use
-- when the queue has become empty, and else the address of the root.
pub data Top (A : Type 0) : Type 0 where
  null : Top A
  stale : Top A
  root : A → Top A

-- `priq_creat_p`, with the answers of the two calls of `calloc`.
unfoldable pub creat : {A : Type 0} → Bool → Bool → Option (Priq A)
creat queue_granted tmp_granted =
    if queue_granted
    then if tmp_granted then some (record { size = 0; items = [] }) else none
    else none

unfoldable pub emptyp : {A : Type 0} → Priq A → Bool
emptyp q = length q.items == 0

unfoldable pub nmemb : {A : Type 0} → Priq A → ℕ
nmemb q = length q.items

top_cell : {A : Type 0} → ℕ → List A → Top A
top_cell size [] = if size == 0 then null else stale
top_cell size (x ∷ _) = root x

unfoldable pub top : {A : Type 0} → Priq A → Top A
unfolding top_cell
top q = top_cell q.size q.items

module _ {A : Type 0} (o : Comparator A) where
  open o use {compar}

  -- the lesser of the children at `j` and `j + 1`, where there are two
  unfoldable pub lesser_child : List A → ℕ → Run ℕ
  lesser_child xs j =
      if ltb (j + 1) (length xs)
      then (load xs j >>= λ b.
          load xs (j + 1) >>= λ c. done (if is_gt (compar b c) then j + 1 else j))
      else done j

  unfoldable pub prop_f_loop : ℕ → List A → ℕ → Run (List A)
  prop_f_loop zero xs i = out_of_fuel
  prop_f_loop (suc fuel) xs i =
      let sink : Run (List A) = lesser_child xs (i * 2 + 1) >>= λ j. load xs i >>= λ a.
      load xs j >>= λ b.
      let swapped = exchange xs i j >>= λ ys. prop_f_loop fuel ys j in
      if not (is_gt (compar a b)) then done xs else swapped in
      if ltb (i * 2 + 1) (length xs) then sink else done xs

  -- PROP_F
  unfoldable pub prop_f : List A → ℕ → Run (List A)
  unfolding prop_f_loop
  prop_f xs start = prop_f_loop (length xs + 1) xs start

  unfoldable pub prop_b_loop : ℕ → List A → ℕ → Run (List A)
  prop_b_loop zero xs j = out_of_fuel
  prop_b_loop (suc fuel) xs j =
      let i = (j - 1) / 2 in
      let rise : Run (List A) = load xs i >>= λ a. load xs j >>= λ b.
      let swapped = exchange xs i j >>= λ ys. prop_b_loop fuel ys i in
      if not (is_gt (compar a b)) then done xs else swapped in
      if ltb 0 j then rise else done xs

  -- PROP_B
  unfoldable pub prop_b : List A → ℕ → Run (List A)
  unfolding prop_b_loop
  prop_b xs start = if length xs == 0 then done xs else prop_b_loop (start + 1) xs start

  store : Priq A → A → ℕ → Run (Option ℕ × Priq A)
  store q d size =
      let n = length q.items + 1 in
      prop_b (q.items ++ d ∷ []) (n - 1) >>= λ xs. done (some n, record { size = size; items = xs })

  -- `none` is -1; `granted` is whether `realloc`, where it is called, succeeds.
  unfoldable pub enq : Bool → Priq A → A → Run (Option ℕ × Priq A)
  unfolding store
  enq granted q d =
      if leb q.size (length q.items)
      then if granted then store q d (round_up (length q.items + 1) 128) else done (none, q)
      else store q d q.size

  unfoldable pub update_index : List A → ℕ → Run (List A)
  update_index xs i =
      prop_f xs i >>= λ ys. let back = prop_b ys i in if not (i == 0) then back else done ys

  -- `false` is NULL
  unfoldable pub rplatop : Priq A → A → Run (Bool × Priq A)
  rplatop q d =
      if length q.items == 0
      then done (false, q)
      else prop_f (set q.items 0 d) 0 >>= λ xs. done (true, record q { items = xs })

  unfoldable pub delete_index : Priq A → ℕ → Run (Option ℕ × Priq A)
  delete_index q i =
      let n = length q.items - 1 in
      let cut = take n q.items in
      let move : Run (Option ℕ × Priq A) = load q.items n >>= λ last.
      update_index (set cut i last) i >>= λ xs. done (some n, record q { items = xs }) in
      if length q.items == 0 || leb (length q.items) i
      then done (none, q)
      else if n == i
      then done (some n, record q { items = cut })
      else if n == 0
      then done (some 0, record { size = 0; items = [] })
      else move

  unfoldable pub deq : Priq A → Run (Option ℕ × Priq A)
  unfolding delete_index
  deq q = delete_index q 0
