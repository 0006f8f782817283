-- ===== src/Priq/Laws.antt =====
-- What the operations of priq.c do to the multiset of the items, and the invariant that they keep.
use mathlib.Core.List.Perm
use getassoc.Common.{
  ℕ, zero, suc, ◌+◌, ◌-◌, ◌≤◌, ◌<◌, ◌≡◌, refl, ◌⊎◌, Bool, true, Option, some, List, [], ◌∷◌, ◌++◌,
  Perm, leb, arith, length, take, All, length-append, length-perm, le-round_up, Returns, returned,
  Returns->>=, Returns-if,
}
use getassoc.Common.Arrays.{perm_last}
use getassoc.Common.{subst}
use getassoc.Priq.{top, root, top_cell, Comparator, Priq, nmemb, enq, store}
use getassoc.Priq.Order.{parent, key, IsHeap}
use getassoc.Priq.Back.{IsHeapButAbove, prop_b-Sifted}

module _ {A : Type 0} (o : Comparator A) where
  open o use {rank}

  pub record IsValid (q : Priq A) : Type 0 where
    pub heap : IsHeap o q.items
    pub room : length q.items ≤ q.size

  key-append : (xs ys : List A) (i : ℕ) → i < length xs → key o (xs ++ ys) i ≡ key o xs i
  key-append [] ys i h = absurd (omega arith)
  key-append (x ∷ xs) ys zero h = refl
  key-append (x ∷ xs) ys (suc i) h = key-append xs ys i (omega arith)

  pub key-take : (n : ℕ) (xs : List A) (i : ℕ) → i < n → key o (take n xs) i ≡ key o xs i
  key-take zero xs i h = absurd (omega arith)
  key-take (suc n) [] i h = refl
  key-take (suc n) (x ∷ xs) zero h = refl
  key-take (suc n) (x ∷ xs) (suc i) h = key-take n xs i (omega arith)

  pub All-key :
      (n : ℕ) (xs : List A) → ((i : ℕ) → i < length xs → n ≤ key o xs i) → All (λ y. n ≤ rank y) xs
  All-key n [] h = tt
  All-key n (x ∷ xs) h = (h 0 (omega arith), All-key n xs λ i p. h (suc i) (omega arith))

  append-IsHeapButAbove :
      (xs : List A) (d : A) → IsHeap o xs → IsHeapButAbove o (xs ++ d ∷ []) (length xs)
  append-IsHeapButAbove xs d h =
      let longer = length-append xs (d ∷ []) in
      record {
        sorted = λ c p q r.
            ground
              (arith, longer, h c, key-append xs (d ∷ []) c, key-append xs (d ∷ []) (parent c));
        bridge = λ c p q r s. absurd (omega (arith, longer));
      }

  -- One more item, and the count that `priq_enq` returns.
  pub record Enqueued (q : Priq A) (d : A) (r : Option ℕ × Priq A) : Type 0 where
    pub count : r.0 ≡ some (nmemb q + 1)
    pub valid : IsValid r.1
    pub added : Perm r.1.items (d ∷ q.items)

  store-Enqueued :
      (q : Priq A) (d : A) (size : ℕ)
      → IsValid q
      → length q.items < size
      → Returns (Enqueued q d) (store o q d size)
  unfolding store nmemb
  store-Enqueued q d size v h =
      let longer = length-append q.items (d ∷ []) in
      let last : length q.items + 1 - 1 ≡ length q.items = omega arith in
      rw last (
        Returns->>=
          (prop_b-Sifted o (q.items ++ d ∷ []) (length q.items) (omega (arith, longer))
            (append-IsHeapButAbove q.items d v.heap))
          λ xs (heap, same). returned (record {
            count = refl;
            valid = record { heap = heap; room = omega (arith, longer, length-perm same) };
            added = Perm.trans same (perm_last q.items d);
          }))

  -- `priq_enq` on a valid queue, if there is room or `realloc` succeeds: it ends without a fault,
  -- returns the new count, and the queue is valid and holds exactly one more item, `d`.
  pub enq-Enqueued :
      (granted : Bool) (q : Priq A) (d : A)
      → IsValid q
      → (granted ≡ true) ⊎ (length q.items < q.size)
      → Returns (Enqueued q d) (enq o granted q d)
  unfolding enq
  enq-Enqueued granted q d v h =
      Returns-if (leb q.size (length q.items))
        (λ full.
          Returns-if granted
            (λ yes_granted.
              store-Enqueued q d _ v (omega (arith, le-round_up (length q.items + 1) 128)))
            (λ denied. absurd (ground arith)))
        (λ roomy. store-Enqueued q d q.size v (ground arith))

  -- The item that `priq_top` shows is in the queue.
  All-top_cell :
      (P : A → Type 0) (size : ℕ) (xs : List A) {x : A} → top_cell size xs ≡ root x → All P xs → P x
  unfolding top_cell
  All-top_cell P size [] e h = ground arith
  All-top_cell P size (y ∷ xs) e h = subst P (cc) h.0

  pub All-top : (P : A → Type 0) (q : Priq A) {x : A} → top q ≡ root x → All P q.items → P x
  unfolding top
  All-top P q e h = All-top_cell P q.size q.items e h
