-- ===== src/Priq/Back.antt =====
-- PROP_B: an item that may be too small for its place rises to where the heap order holds.
use mathlib.Core.List.Perm
use getassoc.Common.{
  ℕ, zero, suc, ◌+◌, ◌≤◌, ◌<◌, ◌≢◌, ◌≡◌, List, Perm, not, arith, ltb, ◌==◌, length, Returns,
  returned, Returns-mono, Returns->>=, Returns-if,
}
use getassoc.Priq.{Comparator, is_gt, prop_b_loop, prop_b}
use getassoc.Priq.Order.{
  parent, key, IsHeap, Exchanged, exchange-Returns, load-Returns, is_gt-compar,
}

module _ {A : Type 0} (o : Comparator A) where
  open o use {compar, rank}

  -- Only the edge above `j` may be out of order.
  pub record IsHeapButAbove (xs : List A) (j : ℕ) : Type 0 where
    pub sorted :
        (child : ℕ)
        → 0 < child
        → child < length xs
        → child ≢ j
        → key o xs (parent child) ≤ key o xs child
    pub bridge :
        (c : ℕ) → 0 < c → c < length xs → parent c ≡ j → 0 < j → key o xs (parent j) ≤ key o xs c

  abbrev pub Sifted : List A → List A → Type 0
  Sifted xs ys = IsHeap o ys × Perm ys xs

  exchange-IsHeapButAbove :
      (xs ys : List A) (j : ℕ)
      → IsHeapButAbove xs j
      → 0 < j
      → j < length xs
      → key o xs j < key o xs (parent j)
      → Exchanged o xs (parent j) j ys
      → IsHeapButAbove ys (parent j)
  exchange-IsHeapButAbove xs ys j v pos inside above e = record {
    sorted = λ c p q r. ground (
      arith,
      e.same_length,
      e.keys c,
      e.keys (parent c),
      v.sorted c,
      v.bridge c,
      v.sorted (parent c),
    );
    bridge = λ c p q r s. ground (
      arith,
      e.same_length,
      e.keys c,
      e.keys (parent (parent j)),
      v.sorted c,
      v.sorted (parent j),
      v.bridge c,
    );
  }

  prop_b_loop-Sifted :
      (fuel : ℕ) (xs : List A) (j : ℕ)
      → j < fuel
      → j < length xs
      → IsHeapButAbove xs j
      → Returns (Sifted xs) (prop_b_loop o fuel xs j)
  unfolding prop_b_loop
  prop_b_loop-Sifted zero xs j f h v = absurd (omega arith)
  prop_b_loop-Sifted (suc fuel) xs j f h v =
      Returns-if (ltb 0 j)
        (λ pos. Returns->>= (load-Returns o xs (parent j) (omega arith)) λ a ra.
          Returns->>= (load-Returns o xs j h) λ b rb.
            Returns-if (not (is_gt (compar a b)))
              (λ le. returned ((λ c p q. ground (arith, is_gt-compar o a b, v.sorted c)), Perm.rfl))
              (λ gt. Returns->>= (exchange-Returns o xs (parent j) j (omega arith) h) λ ys e.
                Returns-mono (λ zs s. (s.0, Perm.trans s.1 e.same_items))
                  (prop_b_loop-Sifted fuel ys (parent j) (ground arith)
                    (omega (arith, e.same_length))
                    (exchange-IsHeapButAbove xs ys j v (ground arith) h
                      (ground (arith, is_gt-compar o a b)) e))))
        (λ top. returned ((λ c p q. v.sorted c p q (ground arith)), Perm.rfl))

  -- From a heap but for the edge above `j`, `prop_b` makes a heap of the same items.
  pub prop_b-Sifted :
      (xs : List A) (j : ℕ)
      → j < length xs
      → IsHeapButAbove xs j
      → Returns (Sifted xs) (prop_b o xs j)
  unfolding prop_b
  prop_b-Sifted xs j h v =
      Returns-if (length xs == 0) (λ e. absurd (ground arith))
        λ _. prop_b_loop-Sifted (j + 1) xs j (omega arith) h v
