-- ===== src/Assv/TopK.antt =====
-- updateq, and the loop of `assv` that empties the queue into `result`.
pub mod Kept
pub mod Drained
use getassoc.Common.{
  ℕ, zero, suc, ◌-◌, Bool, Option, none, some, List, [], ◌∷◌, ltb, leb, if◌then◌else◌, Run, done,
  fault, ◌>>=◌,
}
use getassoc.Priq.{Priq, Top, null, stale, root, top, nmemb, enq, rplatop, deq}
use getassoc.Assv.{Double, Ovec, wcompar}

-- `*(struct ovec_t *)PRIQ_TOP(b)`; a pointer to a cell that is not in use is not read
unfoldable pub read_top : {A : Type 0} → Top A → Run A
read_top null = fault
read_top stale = fault
read_top (root x) = done x

module _ (F : Double) where
  open F use {carrier, rank}

  -- `g->nd` is `nd`, and `granted n` is whether `realloc` succeeds on a queue of `n` items.
  -- The result is whether the answer is 0, not -1.
  unfoldable pub updateq :
      (ℕ → Bool) → ℕ → Priq (Ovec carrier) → Ovec carrier → Run (Bool × Priq (Ovec carrier))
  updateq granted nd b dd =
      let replace : Run (Bool × Priq (Ovec carrier)) = read_top (top b) >>= λ t.
      if ltb (rank dd.weight) (rank t.weight)
      then done (Bool.true, b)
      else (rplatop (wcompar F) b dd >>= λ r. done (Bool.true, r.1)) in
      let insert : Run (Bool × Priq (Ovec carrier)) =
        enq (wcompar F) (granted (nmemb b)) b dd >>= λ r.
        done (elim r.0 [ none ↦ (Bool.false, r.1) | some _ ↦ (Bool.true, r.1) ]) in
      if leb nd (nmemb b) then replace else insert

  -- The loop over `i`: `result` is filled from its end, so `out` is its part from `*nd - i` on.
  unfoldable pub drain : ℕ → Priq (Ovec carrier) → List (Ovec carrier) → Run (List (Ovec carrier))
  drain zero b out = done out
  drain (suc n) b out = read_top (top b) >>= λ t. deq (wcompar F) b >>= λ r. drain n r.1 (t ∷ out)

  -- `*nd = PRIQ_NMEMB(b)` and the loop
  unfoldable pub results : Priq (Ovec carrier) → Run (List (Ovec carrier))
  unfolding drain
  results b = drain (nmemb b) b []
