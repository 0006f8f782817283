-- ===== src/Priq/Remove.antt =====
-- priq_rplatop, priq_delete_index and priq_deq: what leaves the queue, and what stays.
use mathlib.Core.List.Perm
use getassoc.Common.{
  ℕ, suc, ◌-◌, ◌≤◌, ◌<◌, ◌≡◌, refl, ap, ◌∙◌, Bool, true, Option, some, List, [], ◌∷◌, Perm, leb,
  ◌==◌, ◌||◌, arith, length, get_elem?, set, take, All, length-set, length-perm, Returns, returned,
  Returns-mono, Returns->>=, Returns-if,
}
use getassoc.Common.Arrays.{
  get_elem?-some, get_elem?-take, length-take, set-perm, perm_last, take-append_last,
}
use getassoc.Priq.{Comparator, Priq, root, top, nmemb, rplatop, delete_index, deq, top_cell}
use getassoc.Priq.Order.{parent, IsHeap, key-set, key-get_elem?, root_least}
use getassoc.Priq.Forward.{IsHeapButAt, prop_f-Sifted, update_index-Sifted}
use getassoc.Priq.Laws.{IsValid, key-take, All-key}

module _ {A : Type 0} (o : Comparator A) where
  open o use {rank}

  -- The item at `i` is gone, the count is one less, and the allocation is as it was.
  pub record Deleted (q : Priq A) (x : A) (r : Option ℕ × Priq A) : Type 0 where
    pub count : (nmemb q ≡ suc (nmemb r.1)) × (r.0 ≡ some (nmemb r.1))
    pub valid : IsValid o r.1
    pub removed : Perm (x ∷ r.1.items) q.items
    pub same_size : r.1.size ≡ q.size

  module _ (xs : List A) (n i : ℕ) (a last : A) (h : IsHeap o xs) (size : length xs ≡ suc n) where
    cut-perm : get_elem? xs n ≡ some last → Perm (last ∷ take n xs) xs
    cut-perm e =
        let whole = take-append_last n xs last size e in
        Perm.trans (Perm.symm (perm_last (take n xs) last)) (rw whole Perm.rfl)

    moved-perm :
        i < n
        → get_elem? xs i ≡ some a
        → get_elem? xs n ≡ some last
        → Perm (a ∷ set (take n xs) i last) xs
    moved-perm p ea el =
        Perm.trans (set-perm (take n xs) i a last (get_elem?-take n xs i p ∙ ea)) (cut-perm el)

    moved-IsHeapButAt : i < n → IsHeapButAt o (set (take n xs) i last) i
    moved-IsHeapButAt p =
        let cut = length-take n xs (omega arith) in
        let shorter = length-set (take n xs) i last in
        let at = λ (c : ℕ). key-set o (take n xs) i c last (rw cut p) in
        record {
          sorted = λ c q r s t. ground (
            arith,
            cut,
            shorter,
            at c,
            at (parent c),
            key-take o n xs c,
            key-take o n xs (parent c),
            h c,
          );
          bridge = λ c q r s t. ground (
            arith,
            cut,
            shorter,
            at c,
            at (parent i),
            key-take o n xs c,
            key-take o n xs (parent i),
            h c,
            h i,
          );
        }

    cut-IsHeap : IsHeap o (take n xs)
    cut-IsHeap c p q =
        ground (arith, length-take n xs, key-take o n xs c, key-take o n xs (parent c), h c)

  -- `priq_delete_index` at an index in use ends without a fault: exactly the item at `i` leaves, the
  -- rest is a valid queue, the count returned is the new one, and no storage is given back.
  pub delete_index-Deleted :
      (q : Priq A) (i : ℕ) (a : A)
      → IsValid o q
      → get_elem? q.items i ≡ some a
      → i < length q.items
      → Returns (Deleted q a) (delete_index o q i)
  unfolding delete_index nmemb
  delete_index-Deleted q i a v ea h =
      let n = length q.items - 1 in
      let size : length q.items ≡ suc n = omega arith in
      let cut = length-take n q.items (omega arith) in
      Returns-if (length q.items == 0 || leb (length q.items) i) (λ e. absurd (ground arith))
        λ _.
          Returns-if (n == i)
            (λ e.
              let is_last : n ≡ i = ground arith in
              returned (record {
                count = (omega (arith, cut), rw cut refl);
                valid = record {
                  heap = cut-IsHeap q.items n i a a v.heap size;
                  room = omega (arith, cut, v.room);
                };
                removed = cut-perm q.items n i a a v.heap size (rw is_last ea);
                same_size = refl;
              }))
            λ e.
              Returns-if (n == 0) (λ z. absurd (ground arith))
                λ z.
                  let below : i < n = ground arith in
                  let (last, el) = get_elem?-some q.items n (omega arith) in
                  let shorter = length-set (take n q.items) i last in
                  rw el (
                    Returns->>=
                      (update_index-Sifted o _ i (omega (arith, cut, shorter))
                        (moved-IsHeapButAt q.items n i a last v.heap size below))
                      λ ys (heap, same).
                        let long = length-perm same in
                        returned (record {
                          count = (
                            omega (arith, cut, shorter, long),
                            ap some (omega (arith, cut, shorter, long)),
                          );
                          valid = record {
                            heap = heap;
                            room = omega (arith, cut, shorter, long, v.room);
                          };
                          removed =
                              Perm.trans (Perm.cons a same)
                                (moved-perm q.items n i a last v.heap size below ea el);
                          same_size = refl;
                        }))

  -- What `priq_deq` takes away is the root, and no item has a lower rank.
  pub record Dequeued (q : Priq A) (r : Option ℕ × Priq A) : Type 0 where
    pub least : A
    pub was_top : top q ≡ root least
    pub deleted : Deleted q least r
    pub lower_bound : All (λ y. rank least ≤ rank y) q.items

  top-root :
      (q : Priq A)
      → 0 < length q.items
      → (x : A) × (top q ≡ root x) × (get_elem? q.items 0 ≡ some x)
  unfolding top
  top-root q h = go q.items h
    where
      go :
          (xs : List A)
          → 0 < length xs
          → (x : A) × (top_cell q.size xs ≡ root x) × (get_elem? xs 0 ≡ some x)
      go [] p = absurd (omega arith)
      go (x ∷ xs) p = (x, refl, refl)

  key_lower_bound :
      (xs : List A) (x : A) → IsHeap o xs → get_elem? xs 0 ≡ some x → All (λ y. rank x ≤ rank y) xs
  key_lower_bound xs x h e =
      All-key o (rank x) xs λ i p. omega (arith, root_least o xs i h p, key-get_elem? o xs 0 e)

  -- `priq_deq` on a valid queue that is not empty ends without a fault, and removes exactly the item
  -- that `priq_top` shows, which is least; the rest is a valid queue and its count is returned.
  pub deq-Dequeued :
      (q : Priq A) → IsValid o q → 0 < length q.items → Returns (Dequeued q) (deq o q)
  unfolding deq
  deq-Dequeued q v h =
      let (x, shown, e) = top-root q h in
      Returns-mono
        (λ r d. record {
          least = x;
          was_top = shown;
          deleted = d;
          lower_bound = key_lower_bound q.items x v.heap e;
        })
        (delete_index-Deleted q 0 x v e h)

  -- The root makes room for `d`.
  pub record Replaced (q : Priq A) (d : A) (r : Bool × Priq A) : Type 0 where
    pub answer : r.0 ≡ true
    pub least : A
    pub was_top : top q ≡ root least
    pub valid : IsValid o r.1
    pub exchanged : Perm (least ∷ r.1.items) (d ∷ q.items)
    pub lower_bound : All (λ y. rank least ≤ rank y) q.items

  -- `priq_rplatop` on a valid queue that is not empty ends without a fault, replaces exactly the
  -- item that `priq_top` shows, which is least, by `d`, and keeps the queue valid.
  pub rplatop-Replaced :
      (q : Priq A) (d : A)
      → IsValid o q
      → 0 < length q.items
      → Returns (Replaced q d) (rplatop o q d)
  unfolding rplatop
  rplatop-Replaced q d v h =
      let (x, shown, e) = top-root q h in
      let same_length = length-set q.items 0 d in
      let at = λ (c : ℕ). key-set o q.items 0 c d h in
      Returns-if (length q.items == 0) (λ z. absurd (ground arith))
        λ _.
          Returns->>=
            (prop_f-Sifted o (set q.items 0 d) 0 (omega (arith, same_length)) (record {
              at = record {
                sorted = λ c p r s t. ground (arith, same_length, at c, at (parent c), v.heap c);
                bridge = λ c p r s t. absurd (omega arith);
              };
              above = λ p. absurd (omega arith);
            }))
            λ ys (heap, same). returned (record {
              answer = refl;
              least = x;
              was_top = shown;
              valid = record {
                heap = heap;
                room = omega (arith, same_length, length-perm same, v.room);
              };
              exchanged = Perm.trans (Perm.cons x same) (set-perm q.items 0 x d e);
              lower_bound = key_lower_bound q.items x v.heap e;
            })
