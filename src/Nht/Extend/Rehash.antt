-- ===== src/Nht/Extend/Rehash.antt =====
-- The outer loop of ht_extend puts every entry into its place.
use getassoc.Common.{
  ℕ, zero, suc, ◌+◌, ◌-◌, ◌≤◌, ◌<◌, ◌≡◌, ◌≢◌, refl, sym, ap, ◌∙◌, some, List, [], ◌∷◌, arith,
  get_elem?, set, ltb, ◌==◌, if◌then◌else◌, Bool-cases, inl, inr, fault, Returns, returned,
  Returns-mono, Returns-value, ◌>>=◌,
}
use getassoc.Common.Arrays.{get_elem?-some}
use getassoc.Nht.{
  Hte, Cell, empty, dirty1, held, moving, probes, count_moving, place_loop, rehash_loop,
}
use getassoc.Nht.Cells.{used}
use getassoc.Nht.Extend.Place.{place_loop-Placed}
use getassoc.Nht.Extend.State.{Underway}

count_moving-none :
    (ix : List Cell)
    → ((s : ℕ) (vv : Hte) → get_elem? ix s ≢ some (moving vv))
    → count_moving ix ≡ 0
unfolding count_moving
count_moving-none [] h = refl
count_moving-none (empty ∷ ix) h = count_moving-none ix (λ s vv. h (suc s) vv)
count_moving-none (dirty1 ∷ ix) h = count_moving-none ix (λ s vv. h (suc s) vv)
count_moving-none (held ww ∷ ix) h = count_moving-none ix (λ s vv. h (suc s) vv)
count_moving-none (moving ww ∷ ix) h = absurd (h 0 ww refl)

module _ (tbls : ℕ → ℕ → ℕ) (nelems size osize : ℕ) (whole : List Cell) (within : osize ≤ size)
    (pos : 0 < size) (small : size ≤ 0x100000000) where
  -- A cell without an entry to be moved is passed.
  pass :
      (i : ℕ) (ix : List Cell)
      → Underway tbls nelems size osize whole i ix
      → ((vv : Hte) → get_elem? ix i ≢ some (moving vv))
      → Underway tbls nelems size osize whole (i + 1) ix
  pass i ix u none_here = record {
    wide = u.wide;
    left = λ s vv at.
        let (low, high) = u.left s vv at in
        elim (Bool-cases (i == s)) [
          | inl e ↦
              let is : i ≡ s = ground arith in absurd (none_here vv (ap (get_elem? ix) is ∙ at))
          | inr e ↦ (ground arith, high)
        ];
    clean = u.clean;
    path = u.path;
    distinct = u.distinct;
    old = u.old;
    kept = u.kept;
  }

  -- All entries are in place, none is lost, and `m` has counted those that were moved.
  pub record Rehashed (m : ℕ) (ix : List Cell) (r : ℕ × List Cell) : Type 0 where
    pub count : r.0 ≡ m + count_moving ix
    pub underway : Underway tbls nelems size osize whole osize r.1
    pub as_many : used r.1 ≡ used ix

  over :
      (i m : ℕ) (ix : List Cell)
      → Underway tbls nelems size osize whole i ix
      → osize ≤ i
      → Rehashed m ix (m, ix)
  over i m ix u end_ =
      let nothing =
        count_moving-none ix
          (λ s vv at. let (low, high) = u.left s vv at in absurd (omega arith)) in
      record {
        count = omega (arith, nothing);
        underway = record {
          wide = u.wide;
          left = λ s vv at. let (low, high) = u.left s vv at in (omega arith, high);
          clean = u.clean;
          path = u.path;
          distinct = u.distinct;
          old = u.old;
          kept = u.kept;
        };
        as_many = refl;
      }

  -- A turn at a cell, with the loop behind it
  turn :
      (n i m : ℕ) (ix : List Cell)
      → Underway tbls nelems size osize whole i ix
      → i < osize
      → ((i' m' : ℕ) (ix' : List Cell)
          → Underway tbls nelems size osize whole i' ix'
          → osize - i' + count_moving ix' < n
          → Returns (Rehashed m' ix') (rehash_loop tbls nelems size n osize i' m' ix'))
      → osize - i + count_moving ix < suc n
      → (e : Cell) → get_elem? ix i ≡ some e
      → Returns (Rehashed m ix) (elim e [
        | empty ↦ rehash_loop tbls nelems size n osize (i + 1) m ix
        | dirty1 ↦ fault
        | held vv ↦ rehash_loop tbls nelems size n osize (i + 1) m ix
        | moving o ↦
            place_loop tbls nelems size (probes nelems size) i o (set ix i (held o)) 0 >>= λ r.
            rehash_loop tbls nelems size n osize (if r.0 then i + 1 else i) (m + 1) r.1
      ])
  turn n i m ix u lt again enough empty at =
      again (i + 1) m ix
        (pass i ix u (λ vv e. let wrong : some empty ≡ some (moving vv) = sym at ∙ e in cc))
        (omega arith)
  turn n i m ix u lt again enough dirty1 at = absurd (u.clean i at)
  turn n i m ix u lt again enough (held ww) at =
      again (i + 1) m ix
        (pass i ix u (λ vv e. let wrong : some (held ww) ≡ some (moving vv) = sym at ∙ e in cc))
        (omega arith)
  turn n i m ix u lt again enough (moving o) at =
      let (r, ran, p) =
        Returns-value (place_loop-Placed tbls nelems size osize whole i o ix u at pos small) in
      let fewer = p.fewer in
      let as_many = p.as_many in
      let on : i ≤ (if r.0 then i + 1 else i) = ground arith in
      rw ran (
        Returns-mono
          (λ q g. record {
            count = let c = g.count in omega arith;
            underway = g.underway;
            as_many = g.as_many ∙ as_many;
          })
          (again (if r.0 then i + 1 else i) (m + 1) r.1 p.underway (omega arith)))

  pub rehash_loop-Rehashed :
      (n i m : ℕ) (ix : List Cell)
      → Underway tbls nelems size osize whole i ix
      → osize - i + count_moving ix < n
      → Returns (Rehashed m ix) (rehash_loop tbls nelems size n osize i m ix)
  unfolding rehash_loop
  rehash_loop-Rehashed zero i m ix u enough = absurd (omega arith)
  rehash_loop-Rehashed (suc n) i m ix u enough = elim (Bool-cases (ltb i osize)) [
    | inr last ↦ rw last (returned (over i m ix u (ground arith)))
    | inl more ↦
        let lt : i < osize = ground arith in
        let (e, at) = get_elem?-some ix i (omega (arith, u.wide)) in
        rw (more, at)
          (turn n i m ix u lt (λ i' m' ix' u' enough'. rehash_loop-Rehashed n i' m' ix' u' enough')
            enough e at)
  ]
