-- ===== src/Priq/Forward.antt =====
-- PROP_F: an item that may be too large for its place sinks to where the heap order holds.
use mathlib.Core.List.Perm
use getassoc.Common.{
  ℕ, zero, suc, ◌+◌, ◌*◌, ◌≤◌, ◌<◌, ◌≢◌, ◌≡◌, ◌⊎◌, List, Perm, not, arith, ltb, ◌==◌, length,
  length-perm, Returns, returned, Returns-mono, Returns->>=, Returns-if,
}
use getassoc.Priq.{Comparator, is_gt, lesser_child, prop_f_loop, prop_f, update_index}
use getassoc.Priq.Order.{
  parent, key, IsHeap, Exchanged, exchange-Returns, load-Returns, is_gt-compar,
}
use getassoc.Priq.Back.{IsHeapButAbove, Sifted, prop_b-Sifted}

module _ {A : Type 0} (o : Comparator A) where
  open o use {compar, rank}

  -- Only the sorted at `i` may be out of order: the one above it and those below.
  pub record IsHeapButAt (xs : List A) (i : ℕ) : Type 0 where
    pub sorted :
        (child : ℕ)
        → 0 < child
        → child < length xs
        → child ≢ i
        → parent child ≢ i
        → key o xs (parent child) ≤ key o xs child
    pub bridge :
        (c : ℕ) → 0 < c → c < length xs → parent c ≡ i → 0 < i → key o xs (parent i) ≤ key o xs c

  -- Moreover the edge above `i` is in order.
  pub record IsHeapButBelow (xs : List A) (i : ℕ) : Type 0 where
    pub at : IsHeapButAt xs i
    pub above : 0 < i → key o xs (parent i) ≤ key o xs i

  record IsLesserChild (xs : List A) (i m : ℕ) : Type 0 where
    inside : m < length xs
    child : (m ≡ i * 2 + 1) ⊎ (m ≡ i * 2 + 2)
    least : (c : ℕ) → 0 < c → c < length xs → parent c ≡ i → key o xs m ≤ key o xs c

  lesser_child-IsLesserChild :
      (xs : List A) (i : ℕ)
      → i * 2 + 1 < length xs
      → Returns (IsLesserChild xs i) (lesser_child o xs (i * 2 + 1))
  unfolding lesser_child
  lesser_child-IsLesserChild xs i h =
      Returns-if (ltb (i * 2 + 1 + 1) (length xs))
        (λ two. Returns->>= (load-Returns o xs (i * 2 + 1) h) λ b rb.
          Returns->>= (load-Returns o xs (i * 2 + 1 + 1) (ground arith))
            λ c rc. returned (grind (arith, is_gt-compar o b c)))
        (λ one. returned (record {
          inside = h;
          child = omega arith;
          least = λ c p q r. let only : c ≡ i * 2 + 1 = ground arith in rw only (omega arith);
        }))

  exchange-IsHeapButBelow :
      (xs ys : List A) (i m : ℕ)
      → IsHeapButAt xs i
      → IsLesserChild xs i m
      → key o xs m < key o xs i
      → Exchanged o xs i m ys
      → IsHeapButBelow ys m
  exchange-IsHeapButBelow xs ys i m v l below e = record {
    at = record {
      sorted = λ c p q r s.
          ground
            (arith, e.same_length, e.keys c, e.keys (parent c), v.sorted c, v.bridge m, l.least c);
      bridge = λ c p q r s. ground (arith, e.same_length, e.keys c, e.keys (parent m), v.sorted c);
    };
    above = λ p. ground (arith, e.keys m, e.keys (parent m));
  }

  -- What the item at `i` is at most, where it rests.
  abbrev Rests : List A → ℕ → Type 0
  Rests xs i = (c : ℕ) → 0 < c → c < length xs → parent c ≡ i → key o xs i ≤ key o xs c

  -- One round of the loop: the item rests, or it changes places with its lesser child.
  prop_f_loop-Returns :
      (Q : List A → Type 0) (fuel : ℕ) (xs : List A) (i : ℕ)
      → IsHeapButAt xs i
      → (Rests xs i → Q xs)
      → ((ys : List A) (m : ℕ)
          → i < m
          → m < length ys
          → Perm ys xs
          → IsHeapButBelow ys m
          → Returns Q (prop_f_loop o fuel ys m))
      → Returns Q (prop_f_loop o (suc fuel) xs i)
  unfolding prop_f_loop
  prop_f_loop-Returns Q fuel xs i v rests sinks =
      Returns-if (ltb (i * 2 + 1) (length xs))
        (λ e. Returns->>= (lesser_child-IsLesserChild xs i (ground arith)) λ m l.
          let hi : i < length xs = ground arith in
          Returns->>= (load-Returns o xs i hi) λ a ra.
            Returns->>= (load-Returns o xs m l.inside) λ b rb.
              Returns-if (not (is_gt (compar a b)))
                (λ le. returned (rests λ c p q r. ground (arith, is_gt-compar o a b, l.least c)))
                (λ gt. Returns->>= (exchange-Returns o xs i m hi l.inside) λ ys x.
                  sinks ys m (omega (arith, l.child)) (omega (arith, l.inside, x.same_length))
                    x.same_items
                    (exchange-IsHeapButBelow xs ys i m v l (ground (arith, is_gt-compar o a b)) x)))
        (λ e. returned (rests λ c p q r. absurd (ground arith)))

  prop_f_loop-Sifted :
      (fuel : ℕ) (xs : List A) (i : ℕ)
      → length xs < fuel + i
      → i < length xs
      → IsHeapButBelow xs i
      → Returns (Sifted o xs) (prop_f_loop o fuel xs i)
  prop_f_loop-Sifted zero xs i f h v = absurd (omega arith)
  prop_f_loop-Sifted (suc fuel) xs i f h v =
      prop_f_loop-Returns (Sifted o xs) fuel xs i v.at
        (λ rests. ((λ c p q. ground (arith, v.at.sorted c, v.above, rests c)), Perm.rfl))
        λ ys m below inside same w.
          Returns-mono (λ zs s. (s.0, Perm.trans s.1 same))
            (prop_f_loop-Sifted fuel ys m (omega (arith, length-perm same)) inside w)

  -- From a heap but for the sorted below `i`, `prop_f` makes a heap of the same items.
  pub prop_f-Sifted :
      (xs : List A) (i : ℕ)
      → i < length xs
      → IsHeapButBelow xs i
      → Returns (Sifted o xs) (prop_f o xs i)
  unfolding prop_f
  prop_f-Sifted xs i h v = prop_f_loop-Sifted (length xs + 1) xs i (omega arith) h v

  heap-IsHeapButAbove : (xs : List A) (i : ℕ) → IsHeap o xs → i < length xs → IsHeapButAbove o xs i
  heap-IsHeapButAbove xs i v h = record {
    sorted = λ c p q r. v c p q;
    bridge = λ c p q r s. ground (arith, v c, v i);
  }

  -- Where the edge above `i` is out of order too, it is the only one left.
  prop_f-IsHeapButAbove :
      (xs : List A) (i : ℕ)
      → i < length xs
      → IsHeapButAt xs i
      → Returns (λ ys. IsHeapButAbove o ys i × Perm ys xs) (prop_f o xs i)
  unfolding prop_f
  prop_f-IsHeapButAbove xs i h v =
      let more : length xs + 1 ≡ suc (length xs) = omega arith in
      rw more (
        prop_f_loop-Returns _ (length xs) xs i v
          (λ rests. (
            record { sorted = λ c p q r. ground (arith, v.sorted c, rests c); bridge = v.bridge },
            Perm.rfl,
          ))
          λ ys m below inside same w.
            Returns-mono
              (λ zs s.
                let all = Perm.trans s.1 same in
                (heap-IsHeapButAbove zs i s.0 (omega (arith, length-perm all)), all))
              (prop_f_loop-Sifted (length xs) ys m (omega (arith, length-perm same)) inside w))

  -- Whatever was written at `i`, `update_index` makes a heap of the same items.
  pub update_index-Sifted :
      (xs : List A) (i : ℕ)
      → i < length xs
      → IsHeapButAt xs i
      → Returns (Sifted o xs) (update_index o xs i)
  unfolding update_index
  update_index-Sifted xs i h v = Returns->>= (prop_f-IsHeapButAbove xs i h v) λ ys (w, same).
      Returns-if (not (i == 0))
        (λ e.
          Returns-mono (λ zs s. (s.0, Perm.trans s.1 same))
            (prop_b-Sifted o ys i (omega (arith, length-perm same)) w))
        (λ e. returned ((λ c p q. w.sorted c p q (ground arith)), same))
