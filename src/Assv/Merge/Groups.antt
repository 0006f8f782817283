-- ===== src/Assv/Merge/Groups.antt =====
-- The cells that the loop of `assv` notes, split by their document.
use mathlib.Core.List.Perm
use mathlib.Core.List.{Nodup, Nodup-cons, mem-cons_self, mem-cons_of_mem}
use native.Mathlib.Bridge.{le_prop}
use getassoc.Common.{
  ℕ, suc, ◌≤◌, ◌<◌, ◌≡◌, ◌≢◌, refl, subst, List, [], ◌∷◌, ◌++◌, map, Mem, Perm, arith, length, All,
  All-perm, done, Returns-value,
}
use getassoc.Corpus.{XrElem}
use getassoc.Priq.{Priq, root, top}
use getassoc.Priq.Laws.{IsValid}
use getassoc.Assv.{Container, ccompar, container_rank}
use getassoc.Assv.Merge.{step, hit_of}
use getassoc.Assv.Merge.Step.{all_cells, all_cells-perm, after, turn}

-- Identifiers that increase strictly from `n`
abbrev pub IsAscendingFrom : ℕ → List XrElem → Type 0
IsAscendingFrom n [] = Unit
IsAscendingFrom n (e ∷ es) = (n < e.id) × IsAscendingFrom e.id es

IsAscendingFrom-prop : (n : ℕ) (es : List XrElem) → IsProp (IsAscendingFrom n es)
IsAscendingFrom-prop n [] = λ a b. refl
IsAscendingFrom-prop n (e ∷ es) =
    λ a b i. (le_prop a.0 b.0 i, IsAscendingFrom-prop e.id es a.1 b.1 i)

module _ {D : Type 0} where
  -- A container that reads the vector of an entry of the query: `epid` is the identifier of its cell,
  -- those of the vector are positive and increase.
  abbrev pub IsReady : ℕ → Container D → Type 0
  IsReady nq c = (c.epid ≡ c.ep.id) × (0 < c.epid) × IsAscendingFrom c.ep.id c.rest × (c.qidx < nq)

  -- No two entries of a queue have one `qidx`.
  abbrev pub IsApart : List (Container D) → Type 0
  IsApart cs = Nodup (map (λ c. c.qidx) cs)

  -- `k` cells of the document `d` are noted.
  abbrev pub Fits : ℕ → ℕ → ℕ → Container D → Type 0
  Fits nq d k c = IsReady nq c × (d ≤ c.epid) × (c.epid ≡ d → k ≤ c.qidx)

  pub Fits-prop : (nq d k : ℕ) (c : Container D) → IsProp (Fits nq d k c)
  Fits-prop nq d k c = let p = IsAscendingFrom-prop c.ep.id c.rest in hlevel (p, le_prop)

  pub others-apart :
      (i : ℕ) (cs : List (Container D)) → ¬ Mem i (map (λ c. c.qidx) cs) → All (λ c. c.qidx ≢ i) cs
  others-apart i [] h = tt
  others-apart i (c ∷ cs) h =
      (λ e. h (rw e mem-cons_self), others-apart i cs (λ m. h (mem-cons_of_mem _ m)))

  pub all_cells-after :
      (t : Container D) (others : List (Container D))
      → all_cells (t ∷ others) ≡ hit_of t t.ep ∷ all_cells (after t ++ others)
  all_cells-after t others = go t.rest refl
    where
      go :
          (rest : List XrElem)
          → t.rest ≡ rest
          → all_cells (t ∷ others) ≡ hit_of t t.ep ∷ all_cells (after t ++ others)
      go [] e = rw e refl
      go (x ∷ xs) e = rw e refl

  -- Once a cell of `t` is noted, the queue fits one cell more of its document.
  pub forward :
      (nq k : ℕ) (t : Container D) (others : List (Container D))
      → IsReady nq t
      → k ≤ t.qidx
      → All (λ c. IsReady nq c × (container_rank t ≤ container_rank c)) others
      → All (λ c. c.qidx ≢ t.qidx) others
      → All (Fits nq t.epid (suc k)) (after t ++ others)
  forward nq k t others r le h apart = front t.rest refl
    where
      behind :
          (cs : List (Container D))
          → All (λ c. IsReady nq c × (container_rank t ≤ container_rank c)) cs
          → All (λ c. c.qidx ≢ t.qidx) cs
          → All (Fits nq t.epid (suc k)) cs
      behind [] a b = tt
      behind (c ∷ cs) a b =
          let ((ready, rank), more) = a in
          let (differs, more_apart) = b in
          let p = t.small in
          let q = c.small in ((ready, omega arith, λ e. omega arith), behind cs more more_apart)

      front :
          (rest : List XrElem) → t.rest ≡ rest → All (Fits nq t.epid (suc k)) (after t ++ others)
      front [] e = rw e (behind others h apart)
      front (x ∷ xs) e =
          let (on, pos, asc, bound) = r in
          let asc' : (t.ep.id < x.id) × IsAscendingFrom x.id xs = rw e at asc in
          rw e (
            (
              (refl, omega (arith, asc'.0), asc'.1, bound),
              omega (arith, asc'.0),
              λ q. absurd (omega (arith, asc'.0)),
            ),
            behind others h apart,
          )

  after-IsApart :
      (t : Container D) (others : List (Container D))
      → IsApart (t ∷ others)
      → IsApart (after t ++ others)
  after-IsApart t others h = go t.rest refl
    where
      go : (rest : List XrElem) → t.rest ≡ rest → IsApart (after t ++ others)
      go [] e = rw e ((Nodup-cons.0 h).1)
      go (x ∷ xs) e = rw e h

  -- One turn of the loop on a queue that fits `k` cells of `d`
  pub record Progress (nq d k : ℕ) (a : Priq (Container D)) : Type 0 where
    pub t : Container D
    pub a' : Priq (Container D)
    pub was_top : top a ≡ root t
    pub stepped : step a t ≡ done a'
    pub fit : Fits nq d k t
    pub valid : IsValid ccompar a'
    pub fits : (j : ℕ) → j ≤ t.qidx → All (Fits nq t.epid (suc j)) a'.items
    pub apart : IsApart a'.items
    pub cells : Perm (hit_of t t.ep ∷ all_cells a'.items) (all_cells a.items)

  pub progress :
      (nq d k : ℕ) (a : Priq (Container D))
      → IsValid ccompar a
      → All (Fits nq d k) a.items
      → IsApart a.items
      → 0 < length a.items
      → Progress nq d k a
  progress nq d k a v fits apart p =
      let u = turn a v p in
      let t = u.t in
      let back = Perm.symm u.split in
      let (fit, more) = All-perm (Fits-prop nq d k) back fits in
      let least = (All-perm (λ c. le_prop) back u.least).1 in
      let differ : IsApart (t ∷ u.others) = Perm.nodup (Perm.map (λ c. c.qidx) back) apart in
      let (a', e, s) = Returns-value u.stepped in
      let now = Perm.symm s.left in
      record {
        t = t;
        a' = a';
        was_top = u.was_top;
        stepped = e;
        fit = fit;
        valid = s.valid;
        fits = λ j le. All-perm (Fits-prop nq t.epid (suc j)) now (
            forward nq j t u.others fit.0 le (zip t u.others more least)
              (others-apart t.qidx u.others ((Nodup-cons.0 differ).0)));
        apart = Perm.nodup (Perm.map (λ c. c.qidx) now) (after-IsApart t u.others differ);
        cells = Perm.trans (Perm.cons (hit_of t t.ep) (all_cells-perm s.left)) (
            subst (λ l. Perm l (all_cells a.items)) (all_cells-after t u.others)
              (all_cells-perm u.split));
      }
    where
      zip :
          (t : Container D) (cs : List (Container D))
          → All (Fits nq d k) cs
          → All (λ c. container_rank t ≤ container_rank c) cs
          → All (λ c. IsReady nq c × (container_rank t ≤ container_rank c)) cs
      zip t [] a b = tt
      zip t (c ∷ cs) a b = ((a.0.0, b.0), zip t cs a.1 b.1)
