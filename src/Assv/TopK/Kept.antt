-- ===== src/Assv/TopK/Kept.antt =====
-- The queue of `updateq` keeps `nd` of the documents that it is given, and none that it drops
-- weighs more than one that it keeps.
use mathlib.Core.List.Perm
use mathlib.Core.List.{perm_middle}
use native.Mathlib.Bridge.{le_prop}
use getassoc.Common.{
  ℕ, ◌≤◌, ◌<◌, ◌≡◌, refl, inl, Bool, true, Option, List, [], ◌∷◌, ◌++◌, Perm, ltb, leb, arith,
  length, length-perm, All, All-mono, All-perm, done, Returns, returned, Returns->>=, Returns-if,
  Returns-value,
}
use getassoc.Priq.{Priq, root, top, nmemb}
use getassoc.Priq.Laws.{IsValid, All-top, Enqueued, enq-Enqueued}
use getassoc.Priq.Remove.{Replaced, rplatop-Replaced}
use getassoc.Assv.{Double, Ovec, wcompar, ovec_rank}
use getassoc.Assv.TopK.{read_top, updateq}

module _ (F : Double) where
  open F use {carrier, rank}

  abbrev pub weight_rank : Ovec carrier → ℕ
  weight_rank x = rank x.weight

  -- Of the documents `xs`, the queue holds as many as it may, and the others are `dropped`.
  pub record Keeps (nd : ℕ) (xs : List (Ovec carrier)) (b : Priq (Ovec carrier)) : Type 0 where
    pub valid : IsValid (wcompar F) b
    pub dropped : List (Ovec carrier)
    pub split : Perm (b.items ++ dropped) xs
    pub within : length b.items ≤ nd
    pub full : 0 < length dropped → length b.items ≡ nd
    pub bound : ℕ
    pub kept_above : All (λ x. bound ≤ weight_rank x) b.items
    pub dropped_below : All (λ x. weight_rank x ≤ bound) dropped

  ovec_rank-weight :
      (a b : Ovec carrier) → ovec_rank F a ≤ ovec_rank F b → weight_rank a ≤ weight_rank b
  ovec_rank-weight a b h = let p = a.small in let q = b.small in omega arith

  module _ (granted : ℕ → Bool) (nd : ℕ) (xs : List (Ovec carrier)) (d : Ovec carrier) where
    insert-Keeps :
        (b : Priq (Ovec carrier)) (k : Keeps nd xs b) (r : Option ℕ × Priq (Ovec carrier))
        → length b.items < nd
        → Enqueued (wcompar F) b d r
        → Keeps nd (d ∷ xs) r.1
    insert-Keeps b k r room e =
        let longer = length-perm e.added in
        record {
          valid = e.valid;
          dropped = k.dropped;
          split = Perm.trans (Perm.append e.added (Perm.refl k.dropped)) (Perm.cons d k.split);
          within = omega (arith, longer);
          full = λ p. absurd (omega (arith, k.full p));
          bound = 0;
          kept_above = All-mono r.1.items (λ x _. omega arith) (all_true r.1.items);
          dropped_below = nothing k.dropped (λ p. omega (arith, k.full p));
        }
      where
        all_true : (ys : List (Ovec carrier)) → All (λ _. Unit {0}) ys
        all_true [] = tt
        all_true (y ∷ ys) = (tt, all_true ys)

        nothing :
            (ys : List (Ovec carrier))
            → (0 < length ys → length b.items ≡ nd)
            → All (λ x. weight_rank x ≤ 0) ys
        nothing [] h = tt
        nothing (y ∷ ys) h = absurd (omega (arith, h (omega arith)))

    replace-Keeps :
        (b : Priq (Ovec carrier)) (k : Keeps nd xs b) (r : Bool × Priq (Ovec carrier))
        → length b.items ≡ nd
        → (e : Replaced (wcompar F) b d r) → weight_rank e.least ≤ weight_rank d
        → k.bound ≤ weight_rank e.least
        → Keeps nd (d ∷ xs) r.1
    replace-Keeps b k r size e heavier above =
        let same = length-perm e.exchanged in
        let least_of_all = All-mono b.items (ovec_rank-weight e.least) e.lower_bound in
        record {
          valid = e.valid;
          dropped = e.least ∷ k.dropped;
          split =
              Perm.trans (perm_middle r.1.items k.dropped)
                (Perm.trans (Perm.append e.exchanged (Perm.refl k.dropped)) (Perm.cons d k.split));
          within = omega (arith, same);
          full = λ _. omega (arith, same);
          bound = weight_rank e.least;
          kept_above = (All-perm (λ x. le_prop) (Perm.symm e.exchanged) (heavier, least_of_all)).1;
          dropped_below = (omega arith, All-mono k.dropped (λ x p. omega arith) k.dropped_below);
        }

    drop-Keeps :
        (b : Priq (Ovec carrier)) (k : Keeps nd xs b) {r : Bool × Priq (Ovec carrier)}
        → length b.items ≡ nd
        → (e : Replaced (wcompar F) b d r) → weight_rank d ≤ weight_rank e.least
        → k.bound ≤ weight_rank e.least
        → Keeps nd (d ∷ xs) b
    drop-Keeps b k size e light above = record {
      valid = k.valid;
      dropped = d ∷ k.dropped;
      split = Perm.trans (perm_middle b.items k.dropped) (Perm.cons d k.split);
      within = k.within;
      full = λ _. size;
      bound = weight_rank e.least;
      kept_above = All-mono b.items (ovec_rank-weight e.least) e.lower_bound;
      dropped_below = (light, All-mono k.dropped (λ x p. omega arith) k.dropped_below);
    }

  top-root_first :
      (b : Priq (Ovec carrier)) {x : Ovec carrier} → top b ≡ root x → read_top (top b) ≡ done x
  top-root_first b e = unfold read_top in rw e

  -- One call of `updateq` on a queue that keeps the best of `xs` makes it keep the best of `xs` and
  -- `d`, if `realloc` succeeds; it does not fault.
  pub updateq-Keeps :
      (granted : ℕ → Bool) (nd : ℕ) (xs : List (Ovec carrier)) (b : Priq (Ovec carrier))
      (d : Ovec carrier)
      → ((n : ℕ) → granted n ≡ true)
      → 0 < nd
      → Keeps nd xs b
      → Returns (λ r. (r.0 ≡ true) × Keeps nd (d ∷ xs) r.1) (updateq F granted nd b d)
  unfolding updateq nmemb
  updateq-Keeps granted nd xs b d ok pos k =
      Returns-if (leb nd (length b.items))
        (λ full.
          let size : length b.items ≡ nd = let w = k.within in ground arith in
          let r = Returns-value (rplatop-Replaced (wcompar F) b d k.valid (omega (arith, size))) in
          let e = r.2 in
          let above : k.bound ≤ weight_rank e.least =
            All-top (wcompar F) (λ x. k.bound ≤ weight_rank x) b e.was_top k.kept_above in
          rw (top-root_first b e.was_top) (
            Returns-if (ltb (rank d.weight) (rank e.least.weight))
              (λ light.
                let lt : rank d.weight ≤ rank e.least.weight = ground arith in
                returned (refl, drop-Keeps granted nd xs d b k size e lt above))
              (λ heavy.
                let le : rank e.least.weight ≤ rank d.weight = ground arith in
                rw r.1 (returned (refl, replace-Keeps granted nd xs d b k r.0 size e le above)))))
        (λ roomy.
          Returns->>= (enq-Enqueued (wcompar F) (granted (length b.items)) b d k.valid (inl (ok _)))
            λ r e.
              let count = e.count in
              rw count (returned (refl, insert-Keeps granted nd xs d b k r (ground arith) e)))
