-- ===== src/Nht/Extend/Fresh.antt =====
-- ht_extend on a table from which nothing was deleted: every key is found as before.
use getassoc.Common.{
  ℕ, suc, ◌+◌, ◌≤◌, ◌<◌, ◌≡◌, ◌≢◌, refl, sym, ap, ◌∙◌, true, false, Option, none, some, List, [],
  ◌∷◌, arith, length, map, get_elem?, ◌==◌, inl, inr, lt-cases, done, Returns, returned,
  Returns->>=,
}
use getassoc.Sutil.{equal}
use getassoc.Sutil.Trim.{equal_refl, equal_sound}
use getassoc.Nht.{
  Hte, Cell, empty, dirty1, held, moving, Nht, ht_growsz, threshold_of, nsxhash, mark_cell,
  count_moving, nht_retrieve, ht_extend,
}
use getassoc.Nht.Search.{find_stops, First}
use getassoc.Nht.Cells.{value_of, used, IsSound}
use getassoc.Nht.Write.{lost}
use getassoc.Nht.Lookup.{IsValid, retrieve-First, search}
use getassoc.Nht.Extend.Rehash.{Rehashed, rehash_loop-Rehashed}
use getassoc.Nht.Extend.Start.{
  start, count_moving-marked, count_moving-le, count_moving-start, used-start, start-Underway,
}
use getassoc.Nht.Extend.State.{content, entry_at, IsDistinct, IsIn}

-- What an index says of a key
pub data Answer (ix : List Cell) (q : List ℕ) : Option (List ℕ) → Type 0 where
  absent :
      ((j : ℕ) (vv : Hte) → entry_at ix j ≡ some vv → equal vv.name q ≡ true → ⊥) → Answer ix q none
  present :
      (j : ℕ) (vv : Hte)
      → entry_at ix j ≡ some vv
      → equal vv.name q ≡ true
      → Answer ix q (some vv.payload)

-- Two indexes with the same entries say the same.
pub Answer-same :
    (ix ix' : List Cell) (q : List ℕ) (o o' : Option (List ℕ))
    → IsDistinct ix
    → ((vv : Hte) → IsIn ix vv → IsIn ix' vv)
    → ((vv : Hte) → IsIn ix' vv → IsIn ix vv)
    → Answer ix q o
    → Answer ix' q o'
    → o ≡ o'
Answer-same ix ix' q none none d to from (absent h) (absent k) = refl
Answer-same ix ix' q none (some p) d to from (absent h) (present j vv at named) =
    let (k, at') = from vv (j, at) in absurd (h k vv at' named)
Answer-same ix ix' q (some p) none d to from (present j vv at named) (absent k) =
    let (j', at') = to vv (j, at) in absurd (k j' vv at' named)
Answer-same ix ix' q (some p) (some p') d to from (present j vv at named)
      (present k ww at_k named') =
    let (j', at') = from ww (k, at_k) in
    let names : vv.name ≡ ww.name =
      equal_sound vv.name q named ∙ sym (equal_sound ww.name q named') in
    let place = d j j' vv ww at at' (ap (equal vv.name) (sym names) ∙ equal_refl vv.name) in
    let both : some vv ≡ some ww = sym at ∙ ap (entry_at ix) place ∙ at' in
    let entry : vv ≡ ww = cc in ap (λ x. some x.payload) entry

module _ (tbls : ℕ → ℕ → ℕ) (nelems : ℕ) where
  -- A table in order from which nothing was deleted; it can be empty.
  pub record IsFresh (h : Nht) : Type 0 where
    pub sound : IsSound tbls nelems (length h.ix) h.ix
    pub clean : (s : ℕ) → get_elem? h.ix s ≢ some dirty1
    pub distinct : IsDistinct h.ix
    pub count : used h.ix ≡ h.nentries
    pub fixed : h.threshold ≡ threshold_of (length h.ix)
    pub below : h.nentries ≤ h.threshold

  pub IsFresh-IsValid :
      (h : Nht) → IsFresh h → 0 < length h.ix → length h.ix ≤ 0x100000000 → IsValid tbls nelems h
  IsFresh-IsValid h f pos small =
      let fixed = f.fixed in
      record {
        sound = f.sound;
        few = let c = f.count in omega arith;
        below = f.below;
        spare = omega arith;
        addressable = small;
      }

  -- What the search for a key ends at
  found :
      (h : Nht) (f : IsFresh h) (q : List ℕ)
      (g : First tbls nelems (length h.ix) q (find_stops q) h.ix)
      → (e : Cell) → g.e ≡ e
      → Answer h.ix q (value_of e)
  found h f q g empty is = absent (λ j vv at named.
      held_at j vv at (λ at'. lost tbls nelems (length h.ix) h.ix q f.sound g is j vv at' named))
    where
      of_cell :
          (j : ℕ) (o : Option Cell) (vv : Hte)
          → get_elem? h.ix j ≡ o
          → content o ≡ some vv
          → (get_elem? h.ix j ≡ some (held vv) → ⊥)
          → ⊥
      of_cell j none vv was at no_ = cc
      of_cell j (some empty) vv was at no_ = cc
      of_cell j (some dirty1) vv was at no_ = cc
      of_cell j (some (moving ww)) vv was at no_ = f.sound.settled j ww was
      of_cell j (some (held ww)) vv was at no_ =
          let entry : ww ≡ vv = cc in no_ (was ∙ ap (λ x. some (held x)) entry)

      held_at :
          (j : ℕ) (vv : Hte)
          → entry_at h.ix j ≡ some vv
          → (get_elem? h.ix j ≡ some (held vv) → ⊥)
          → ⊥
      held_at j vv at no_ = of_cell j (get_elem? h.ix j) vv refl at no_
  found h f q g dirty1 is = let wrong : true ≡ false = sym g.stopped ∙ ap (find_stops q) is in cc
  found h f q g (held vv) is =
      present (nsxhash tbls nelems (length h.ix) q g.c) vv (ap content (g.at ∙ ap some is))
        (ap (find_stops q) (sym is) ∙ g.stopped)
  found h f q g (moving vv) is =
      absurd (f.sound.settled (nsxhash tbls nelems (length h.ix) q g.c) vv (g.at ∙ ap some is))

  nht_retrieve-empty :
      (h : Nht) (q : List ℕ) → length h.ix ≡ 0 → nht_retrieve tbls nelems h q ≡ done none
  unfolding nht_retrieve
  nht_retrieve-empty h q e = let none_ : (length h.ix == 0) ≡ true = ground arith in rw none_ refl

  -- nht_retrieve returns what the index says.
  pub nht_retrieve-Answer :
      (h : Nht)
      → IsFresh h
      → length h.ix ≤ 0x100000000
      → (q : List ℕ)
      → (o : Option (List ℕ)) × (nht_retrieve tbls nelems h q ≡ done o) × Answer h.ix q o
  nht_retrieve-Answer h f small q = elim (lt-cases 0 (length h.ix)) [
    | inl pos ↦
        let v = IsFresh-IsValid h f pos small in
        let g = search tbls nelems h v (find_stops q) refl q in
        (
          value_of g.e,
          retrieve-First tbls nelems h (length h.ix) refl pos f.sound q g,
          found h f q g g.e refl,
        )
    | inr none_ ↦ (
      none,
      nht_retrieve-empty h q (omega arith),
      absent (λ j vv at named. nowhere h.ix j vv (omega arith) at),
    )
  ]
    where
      nowhere : (ix : List Cell) (j : ℕ) (vv : Hte) → length ix ≡ 0 → entry_at ix j ≡ some vv → ⊥
      nowhere [] j vv e at = cc
      nowhere (x ∷ ix) j vv e at = absurd (omega arith)

  -- What ht_extend leaves of a table
  pub record Extended (h h' : Nht) : Type 0 where
    pub fresh : IsFresh h'
    pub longer : length h'.ix ≡ length h.ix + ht_growsz
    pub as_many : h'.nentries ≡ h.nentries
    pub same_size : h'.dsize ≡ h.dsize
    pub same_kind : h'.rdonly ≡ h.rdonly
    pub found_as_before :
        (q : List ℕ) → nht_retrieve tbls nelems h' q ≡ nht_retrieve tbls nelems h q

  module _ (h : Nht) (f : IsFresh h) (small : length h.ix + ht_growsz ≤ 0x100000000) where
    -- The table with the index that the loop leaves
    abbrev extended_to : List Cell → Nht
    extended_to ix = record h { ix = ix; threshold = threshold_of (length h.ix + ht_growsz) }

    extended_to-Extended :
        (r : ℕ × List Cell)
        → Rehashed tbls nelems
            (length h.ix + ht_growsz)
            (length h.ix)
            h.ix
            (omega arith)
            (omega arith)
            small
            0
            (start h.ix ht_growsz)
            r
        → Extended h (extended_to r.1)
    extended_to-Extended r g =
        let u = g.underway in
        let size = u.wide in
        let sound : IsSound tbls nelems (length r.1) r.1 = rw size (record {
          reach = λ s vv at.
              let (c, hits, before) = u.path s vv at in
              (
                c,
                hits,
                λ i l free.
                    let (ww, at') = before i l in
                    let wrong : some (held ww) ≡ some empty = sym at' ∙ free in cc,
              );
          settled = λ s vv at. let (low, high) = u.left s vv at in absurd (omega arith);
        }) in
        let fresh : IsFresh (extended_to r.1) = record {
          sound = sound;
          clean = u.clean;
          distinct = u.distinct;
          count =
              g.as_many ∙ used-start h.ix ht_growsz ∙ count_moving-marked h.ix f.clean ∙ f.count;
          fixed = ap threshold_of (sym size);
          below = let b = f.below in let t = f.fixed in omega arith;
        } in
        record {
          fresh = fresh;
          longer = size;
          as_many = refl;
          same_size = refl;
          same_kind = refl;
          found_as_before = λ q.
              let (o, ran, a) = nht_retrieve-Answer h f (omega arith) q in
              let (o', ran', a') = nht_retrieve-Answer (extended_to r.1) fresh (omega arith) q in
              ran'
              ∙ ap done (sym (Answer-same h.ix r.1 q o o' f.distinct u.kept u.old a a'))
              ∙ sym ran;
        }

    -- nvmt_extend succeeds on a table from which nothing was deleted, even an empty one, and the index stays
    -- below 2^32 cells: ht_extend fails none of its assertions and answers 0. The index is longer, the table
    -- is in order, and nht_retrieve answers for every key what it answered before.
    pub ht_extend-Extended :
        Returns (λ o. (h' : Nht) × (o ≡ some h') × Extended h h') (ht_extend tbls nelems true h)
    unfolding ht_extend
    ht_extend-Extended =
        let marked : count_moving (map mark_cell h.ix) ≡ h.nentries =
          count_moving-marked h.ix f.clean ∙ f.count in
        let counted : (count_moving (map mark_cell h.ix) == h.nentries) ≡ true = ground arith in
        let all : count_moving (start h.ix ht_growsz) ≡ h.nentries =
          count_moving-start h.ix ht_growsz ∙ marked in
        rw counted (
          Returns->>=
            (rehash_loop-Rehashed tbls nelems (length h.ix + ht_growsz) (length h.ix) h.ix
              (omega arith) (omega arith) small (suc (length h.ix + length h.ix)) 0 0
              (start h.ix ht_growsz) (start-Underway tbls nelems ht_growsz h.ix f.distinct)
              (omega (arith, count_moving-le h.ix)))
            λ r g.
              let count = g.count in
              let moved : (r.0 == h.nentries) ≡ true = ground arith in
              rw moved (returned (extended_to r.1, refl, extended_to-Extended r g)))
