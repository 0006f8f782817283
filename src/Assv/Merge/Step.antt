-- ===== src/Assv/Merge/Step.antt =====
-- One turn of the loop of `assv` on its queue: the container at the top goes on to its next cell, or
-- leaves the queue.
use mathlib.Core.List.Perm
use mathlib.Core.Logic.{∥∥₁_elim}
use mathlib.Core.List.{Permᴰ, Perm-prop, perm_append_comm}
use getassoc.Common.{
  ℕ, ◌≤◌, ◌<◌, ◌≡◌, refl, subst, List, [], ◌∷◌, ◌++◌, map, Option, Perm, length, All, append_assoc,
  done, Returns, returned, Returns-value,
}
use getassoc.Corpus.{XrElem}
use getassoc.Priq.{Priq, root, top, deq}
use getassoc.Priq.Laws.{IsValid}
use getassoc.Priq.Remove.{deq-Dequeued, rplatop-Replaced}
use getassoc.Assv.{Container, Hit, ccompar, container_rank}
use getassoc.Assv.Merge.{step, hit_of, next_cell}

module _ {D : Type 0} where
  -- The cells that a container has still to show
  abbrev pub cells_of : Container D → List (Hit D)
  cells_of c = map (hit_of c) (c.ep ∷ c.rest)

  abbrev pub all_cells : List (Container D) → List (Hit D)
  all_cells [] = []
  all_cells (c ∷ cs) = cells_of c ++ all_cells cs

  swap_front : (xs ys zs : List (Hit D)) → Perm (xs ++ (ys ++ zs)) (ys ++ (xs ++ zs))
  swap_front xs ys zs =
      rw (← append_assoc xs ys zs, ← append_assoc ys xs zs)
        (Perm.append (perm_append_comm xs ys) (Perm.refl zs))

  all_cells-permᴰ : {xs ys : List (Container D)} → Permᴰ xs ys → Perm (all_cells xs) (all_cells ys)
  all_cells-permᴰ Permᴰ.nil = Perm.refl []
  all_cells-permᴰ (Permᴰ.cons {a = a} {l₁ = l₁} {l₂ = l₂} e p) =
      subst (λ c. Perm (cells_of a ++ all_cells l₁) (cells_of c ++ all_cells l₂)) e
        (Perm.append (Perm.refl (cells_of a)) (all_cells-permᴰ p))
  all_cells-permᴰ (Permᴰ.swap {a = a} {b = b} {a' = a'} {b' = b'} {l = l} e f) =
      let front = cells_of a ++ (cells_of b ++ all_cells l) in
      subst (λ c. Perm front (cells_of c ++ (cells_of b' ++ all_cells l))) f
        (subst (λ c. Perm front (cells_of b ++ (cells_of c ++ all_cells l))) e
          (swap_front (cells_of a) (cells_of b) (all_cells l)))
  all_cells-permᴰ (Permᴰ.trans p q) = Perm.trans (all_cells-permᴰ p) (all_cells-permᴰ q)

  pub all_cells-perm :
      {xs ys : List (Container D)} → Perm xs ys → Perm (all_cells xs) (all_cells ys)
  all_cells-perm {xs} {ys} p = ∥∥₁_elim p Perm-prop all_cells-permᴰ

  -- What takes the place of the container at the top
  abbrev pub after : Container D → List (Container D)
  after t = elim t.rest [ [] ↦ [] | e ∷ es ↦ next_cell t e es ∷ [] ]

  pub record Stepped (a : Priq (Container D)) (t : Container D) (others : List (Container D))
      (a' : Priq (Container D)) : Type 0 where
    pub valid : IsValid ccompar a'
    pub left : Perm a'.items (after t ++ others)

  pub record Turn (a : Priq (Container D)) : Type 0 where
    pub t : Container D
    pub others : List (Container D)
    pub was_top : top a ≡ root t
    pub split : Perm (t ∷ others) a.items
    pub least : All (λ c. container_rank t ≤ container_rank c) a.items
    pub stepped : Returns (Stepped a t others) (step a t)

  stepped :
      (a : Priq (Container D))
      → IsValid ccompar a
      → 0 < length a.items
      → (t : Container D) (r : Option ℕ × Priq (Container D)) → top a ≡ root t
      → deq ccompar a ≡ done r
      → IsValid ccompar r.1
      → Perm (t ∷ r.1.items) a.items
      → (rest : List XrElem) → t.rest ≡ rest
      → Returns (Stepped a t r.1.items) (step a t)
  unfolding step
  stepped a v h t r shown e w p [] k =
      rw (k, e) (returned (record { valid = w; left = Perm.refl _ }))
  stepped a v h t r shown e w p (x ∷ xs) k =
      let (u, eq, q) = Returns-value (rplatop-Replaced ccompar a (next_cell t x xs) v h) in
      let same : root q.least ≡ root t = cc in
      let at : q.least ≡ t = cc in
      let next = next_cell t x xs in
      let left : Perm u.1.items (next ∷ r.1.items) = Perm.cons_inv (
        Perm.trans (subst (λ c. Perm (c ∷ u.1.items) (next ∷ a.items)) at q.exchanged)
          (Perm.trans (Perm.cons next (Perm.symm p)) (Perm.swap t next r.1.items))) in
      rw (k, eq) (returned (record { valid = q.valid; left = left }))

  pub turn : (a : Priq (Container D)) → IsValid ccompar a → 0 < length a.items → Turn a
  unfolding step
  turn a v h =
      let (r, eq, q) = Returns-value (deq-Dequeued ccompar a v h) in
      record {
        t = q.least;
        others = r.1.items;
        was_top = q.was_top;
        split = q.deleted.removed;
        least = q.lower_bound;
        stepped =
            stepped a v h q.least r q.was_top eq q.deleted.valid q.deleted.removed q.least.rest
              refl;
      }
