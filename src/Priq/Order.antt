-- ===== src/Priq/Order.antt =====
-- The heap order of the array, and what an exchange of two cells does to it.
use mathlib.Core.List.Perm
use getassoc.Common.{
  ℕ, zero, suc, ◌-◌, ◌/◌, ◌≤◌, ◌<◌, ◌≡◌, refl, sym, ◌∙◌, some, List, [], ◌∷◌, Perm, arith, ltb,
  ◌==◌, if◌then◌else◌, length, get_elem?, set, length-set, Returns, returned,
}
use getassoc.Common.Arrays.{load, exchange, get_elem?-some, get_elem?-set, set-perm}
use getassoc.Priq.{Comparator, is_gt}

abbrev pub parent : ℕ → ℕ
parent c = (c - 1) / 2

module _ {A : Type 0} (o : Comparator A) where
  open o use {compar, rank, compar_rank}

  -- The rank of a cell; 0 past the end, where no statement looks.
  abbrev pub key : List A → ℕ → ℕ
  key [] i = 0
  key (x ∷ xs) zero = rank x
  key (x ∷ xs) (suc i) = key xs i

  abbrev pub IsHeap : List A → Type 0
  IsHeap xs = (c : ℕ) → 0 < c → c < length xs → key xs (parent c) ≤ key xs c

  pub is_gt-compar : (a b : A) → is_gt (compar a b) ≡ ltb (rank b) (rank a)
  is_gt-compar a b = rw (compar_rank a b) (ground arith)

  pub key-get_elem? : (xs : List A) (i : ℕ) {a : A} → get_elem? xs i ≡ some a → key xs i ≡ rank a
  key-get_elem? [] i e = cc
  key-get_elem? (x ∷ xs) zero e = cc
  key-get_elem? (x ∷ xs) (suc i) e = key-get_elem? xs i e

  pub load-Returns :
      (xs : List A) (i : ℕ) → i < length xs → Returns (λ a. rank a ≡ key xs i) (load xs i)
  load-Returns xs i h =
      let (a, e) = get_elem?-some xs i h in rw e (returned (sym (key-get_elem? xs i e)))

  pub key-set :
      (xs : List A) (i j : ℕ) (v : A)
      → i < length xs
      → key (set xs i v) j ≡ (if i == j then rank v else key xs j)
  key-set [] i j v h = absurd (omega arith)
  key-set (x ∷ xs) zero zero v h = refl
  key-set (x ∷ xs) zero (suc j) v h = ground arith
  key-set (x ∷ xs) (suc i) zero v h = ground arith
  key-set (x ∷ xs) (suc i) (suc j) v h = ground (arith, key-set xs i j v)

  -- The root of a heap is least.
  root_least_below :
      (fuel : ℕ) (xs : List A) (i : ℕ) → IsHeap xs → i < fuel → i < length xs → key xs 0 ≤ key xs i
  root_least_below zero xs i h f p = absurd (omega arith)
  root_least_below (suc fuel) xs i h f p =
      ground (arith, h i, root_least_below fuel xs (parent i) h)

  pub root_least : (xs : List A) (i : ℕ) → IsHeap xs → i < length xs → key xs 0 ≤ key xs i
  root_least xs i h p = root_least_below (suc i) xs i h (omega arith) p

  pub record Exchanged (xs : List A) (i j : ℕ) (ys : List A) : Type 0 where
    pub same_length : length ys ≡ length xs
    pub same_items : Perm ys xs
    pub keys :
        (c : ℕ) → key ys c ≡ (if j == c then key xs i else if i == c then key xs j else key xs c)

  pub exchange-Returns :
      (xs : List A) (i j : ℕ)
      → i < length xs
      → j < length xs
      → Returns (Exchanged xs i j) (exchange xs i j)
  unfolding exchange
  exchange-Returns xs i j hi hj =
      let (a, ea) = get_elem?-some xs i hi in
      let (b, eb) = get_elem?-some xs j hj in
      let hj' : j < length (set xs i b) = rw length-set hj in
      let kept : get_elem? (set xs i b) j ≡ some b = ground (arith, get_elem?-set xs i j b hi) in
      rw (ea, eb)
        (returned (record {
          same_length = length-set (set xs i b) j a ∙ length-set xs i b;
          same_items =
              Perm.cons_inv (Perm.trans (set-perm (set xs i b) j b a kept) (set-perm xs i a b ea));
          keys = λ c. rw (
            key-set (set xs i b) j c a hj',
            key-set xs i c b hi,
            key-get_elem? xs i ea,
            key-get_elem? xs j eb,
          );
        }))
