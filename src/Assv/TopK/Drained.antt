-- ===== src/Assv/TopK/Drained.antt =====
-- The result of `assv` is what the queue kept, the best document first.
use mathlib.Core.List.Perm
use mathlib.Core.List.{perm_middle}
use native.Mathlib.Bridge.{le_prop}
use getassoc.Common.{
  ℕ, zero, suc, ◌≤◌, ◌≡◌, refl, List, [], ◌∷◌, ◌++◌, Perm, arith, length, length-perm, All,
  All-mono, All-perm, Returns, returned, Returns-value, Returns-mono, append-nil,
}
use getassoc.Priq.{Priq, nmemb}
use getassoc.Priq.Laws.{IsValid, All-top}
use getassoc.Priq.Remove.{deq-Dequeued}
use getassoc.Assv.{Double, Ovec, wcompar, ovec_rank}
use getassoc.Assv.TopK.{read_top, drain, results}

module _ (F : Double) where
  open F use {carrier}

  abbrev Ovecs : Type 0
  Ovecs = List (Ovec carrier)

  -- No document stands behind one that is worse: lighter, or of the same weight and with a greater
  -- identifier.
  abbrev pub IsDescending : List (Ovec carrier) → Type 0
  IsDescending [] = Unit
  IsDescending (x ∷ xs) = All (λ y. ovec_rank F y ≤ ovec_rank F x) xs × IsDescending xs

  drain-IsDescending :
      (n : ℕ) (b : Priq (Ovec carrier)) (out : List (Ovec carrier))
      → length b.items ≡ n
      → IsValid (wcompar F) b
      → IsDescending out
      → All (λ y. All (λ x. ovec_rank F y ≤ ovec_rank F x) b.items) out
      → Returns (λ r. IsDescending r × Perm r (b.items ++ out)) (drain F n b out)
  unfolding drain read_top
  drain-IsDescending zero b out e v d h = returned (d, none_left b.items e)
    where
      none_left : (xs : List (Ovec carrier)) → length xs ≡ zero → Perm out (xs ++ out)
      none_left [] p = Perm.refl out
      none_left (x ∷ xs) p = absurd (omega arith)
  drain-IsDescending (suc n) b out e v d h =
      let (r, eq, q) = Returns-value (deq-Dequeued (wcompar F) b v (omega (arith, e))) in
      let same = q.deleted.removed in
      let later = (All-perm (λ x. le_prop) (Perm.symm same) q.lower_bound).1 in
      rw (q.was_top, eq)
        (Returns-mono
          (λ z s. (
            s.0,
            Perm.trans s.1
                (Perm.trans (perm_middle r.1.items out) (Perm.append same (Perm.refl out))),
          ))
          (drain-IsDescending n r.1 (q.least ∷ out) (omega (arith, e, length-perm same))
            q.deleted.valid
            (
              All-mono out
                  (λ y k. All-top (wcompar F) (λ x. ovec_rank F y ≤ ovec_rank F x) b q.was_top k) h,
              d,
            )
            (later, All-mono out (λ y k. (All-perm (λ x. le_prop) (Perm.symm same) k).1) h)))

  -- The loop that fills `result` from a valid queue ends without a fault; the documents are those of
  -- the queue, in descending order.
  pub results-IsDescending :
      (b : Priq (Ovec carrier))
      → IsValid (wcompar F) b
      → Returns (λ r. IsDescending r × Perm r b.items) (results F b)
  unfolding results nmemb
  results-IsDescending b v =
      Returns-mono (λ z s. (s.0, rw append-nil at s.1))
        (drain-IsDescending (length b.items) b [] refl v tt tt)
