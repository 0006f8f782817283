-- ===== src/Nht/Extend/Place.antt =====
-- The inner loop of ht_extend finds the place of one entry.
use getassoc.Common.{
  ℕ, suc, ◌+◌, ◌≤◌, ◌<◌, ◌≡◌, ◌⊎◌, refl, sym, ap, ◌∙◌, subst, Bool, true, false, some, List, arith,
  length, length-set, get_elem?, set, ltb, ◌==◌, if◌then◌else◌, Bool-cases, inl, inr, Run, done,
  fault, Returns, returned,
}
use getassoc.Sutil.{equal}
use getassoc.Sutil.Trim.{equal_refl, equal_sound}
use getassoc.Nht.{Hte, Cell, empty, dirty1, held, moving, nsxhash, probes, count_moving, place_loop}
use getassoc.Nht.Cells.{used, used-set}
use getassoc.Nht.Search.{First, first, loop-First}
use getassoc.Nht.Extend.Exchange.{
  count_moving-set, get_elem?-lt, set-own, set-other, exchanged-Exchanged, count_moving-exchanged,
  used-exchanged,
}
use getassoc.Nht.Extend.State.{content, entry_at, IsPlaced, Way, Underway, Underway-Exchanged}

-- Where the loop stops; at a deleted cell it faults.
abbrev place_stops : List ℕ → Cell → Bool
place_stops p empty = true
place_stops p dirty1 = true
place_stops p (held vv) = equal vv.name p
place_stops p (moving vv) = true

module _ (tbls : ℕ → ℕ → ℕ) (nelems size : ℕ) (i : ℕ) (o : Hte) (ix1 : List Cell) where
  -- What the loop returns where it stops
  abbrev placed_in : Cell → ℕ → Run (Bool × List Cell)
  placed_in empty s = done (true, set (set ix1 s (held o)) i empty)
  placed_in dirty1 s = fault
  placed_in (held vv) s = if i == s then done (true, ix1) else fault
  placed_in (moving vv) s =
      if ltb i s then done (false, set (set ix1 s (held o)) i (moving vv)) else fault

  place_loop-step :
      (n c : ℕ) (d : Cell)
      → get_elem? ix1 (nsxhash tbls nelems size o.name c) ≡ some d
      → place_stops o.name d ≡ false
      → place_loop tbls nelems size (suc n) i o ix1 c
        ≡ place_loop tbls nelems size n i o ix1 (c + 1)
  unfolding place_loop
  place_loop-step n c empty at goes = cc
  place_loop-step n c dirty1 at goes = cc
  place_loop-step n c (held vv) at goes = rw (at, goes) refl
  place_loop-step n c (moving vv) at goes = cc

  place_loop-stop :
      (n c : ℕ) (e : Cell)
      → get_elem? ix1 (nsxhash tbls nelems size o.name c) ≡ some e
      → place_stops o.name e ≡ true
      → place_loop tbls nelems size (suc n) i o ix1 c
        ≡ placed_in e (nsxhash tbls nelems size o.name c)
  unfolding place_loop
  place_loop-stop n c empty at stop = rw at refl
  place_loop-stop n c dirty1 at stop = rw at refl
  place_loop-stop n c (held vv) at stop = rw (at, stop) refl
  place_loop-stop n c (moving vv) at stop = rw at refl

  place_loop-First :
      (f : First tbls nelems size o.name (place_stops o.name) ix1)
      → place_loop tbls nelems size (probes nelems size) i o ix1 0
        ≡ placed_in f.e (nsxhash tbls nelems size o.name f.c)
  place_loop-First f =
      loop-First tbls nelems size o.name (place_stops o.name) ix1
        (λ n c. place_loop tbls nelems size n i o ix1 c) placed_in place_loop-step place_loop-stop f

module _ (tbls : ℕ → ℕ → ℕ) (nelems size osize : ℕ) (whole : List Cell) where
  -- What a turn of ht_extend makes of the index
  pub record Placed (i : ℕ) (ix : List Cell) (r : Bool × List Cell) : Type 0 where
    pub underway : Underway tbls nelems size osize whole (if r.0 then i + 1 else i) r.1
    pub fewer : count_moving r.1 + 1 ≡ count_moving ix
    pub as_many : used r.1 ≡ used ix

  module _ (i : ℕ) (o : Hte) (ix : List Cell) (u : Underway tbls nelems size osize whole i ix)
      (was_i : get_elem? ix i ≡ some (moving o)) where
    abbrev stayed : List Cell
    stayed = set ix i (held o)

    at_i_stayed : get_elem? stayed i ≡ some (held o)
    at_i_stayed = set-own ix i (moving o) (held o) was_i

    elsewhere : (j : ℕ) → (i == j) ≡ false → get_elem? stayed j ≡ get_elem? ix j
    elsewhere j = set-other ix i j (moving o) (held o) was_i

    here_or_not :
        (j : ℕ)
        → ((i ≡ j) × (get_elem? stayed j ≡ some (held o)))
          ⊎ (((i == j) ≡ false) × (get_elem? stayed j ≡ get_elem? ix j))
    here_or_not j = elim (Bool-cases (i == j)) [
      | inl e ↦
          let is : i ≡ j = ground arith in inl (is, ap (get_elem? stayed) (sym is) ∙ at_i_stayed)
      | inr e ↦ inr (e, elsewhere j e)
    ]

    entry_at-stayed : (j : ℕ) → entry_at stayed j ≡ entry_at ix j
    entry_at-stayed j = elim (here_or_not j) [
      | inl (is, at) ↦ ap content at ∙ sym (ap content (ap (get_elem? ix) (sym is) ∙ was_i))
      | inr (e, same) ↦ ap content same
    ]

    IsPlaced-stayed : (t : ℕ) → IsPlaced ix t → IsPlaced stayed t
    IsPlaced-stayed t (ww, at) = elim (here_or_not t) [
      | inl (is, now) ↦ (o, now)
      | inr (e, same) ↦ (ww, same ∙ at)
    ]

    Underway-stayed :
        Way tbls nelems size ix o.name i → Underway tbls nelems size osize whole (i + 1) stayed
    Underway-stayed (way_c, way_hits, way_before) = record {
      wide = length-set ix i (held o) ∙ u.wide;
      left = λ j vv at. elim (here_or_not j) [
        | inl (is, now) ↦ let wrong : some (held o) ≡ some (moving vv) = sym now ∙ at in cc
        | inr (e, same) ↦ let (low, high) = u.left j vv (sym same ∙ at) in (ground arith, high)
      ];
      clean = λ j at. elim (here_or_not j) [
        | inl (is, now) ↦ let wrong : some (held o) ≡ some dirty1 = sym now ∙ at in cc
        | inr (e, same) ↦ u.clean j (sym same ∙ at)
      ];
      path = λ j vv at. elim (here_or_not j) [
        | inl (is, now) ↦
            let both : some (held o) ≡ some (held vv) = sym now ∙ at in
            let entry : o ≡ vv = cc in
            rw⁻¹ (entry, is) (way_c, way_hits, λ k l. IsPlaced-stayed _ (way_before k l))
        | inr (e, same) ↦
            let (c, hits, before) = u.path j vv (sym same ∙ at) in
            (c, hits, λ k l. IsPlaced-stayed _ (before k l))
      ];
      distinct = λ j k vv ww at_j at_k.
          u.distinct j k vv ww (sym (entry_at-stayed j) ∙ at_j) (sym (entry_at-stayed k) ∙ at_k);
      old = λ vv h. u.old vv (h.0, sym (entry_at-stayed h.0) ∙ h.1);
      kept = λ vv h. let (j, at) = u.kept vv h in (j, entry_at-stayed j ∙ at);
    }

    -- A cell that the loop passed holds an entry in place.
    passed :
        (j : ℕ) (d : Cell)
        → get_elem? stayed j ≡ some d
        → place_stops o.name d ≡ false
        → IsPlaced ix j
    passed j empty at goes = cc
    passed j dirty1 at goes = cc
    passed j (moving vv) at goes = cc
    passed j (held vv) at goes = elim (here_or_not j) [
      | inl (is, now) ↦
          let both : some (held o) ≡ some (held vv) = sym now ∙ at in
          let entry : o ≡ vv = cc in
          let wrong : true ≡ false =
            sym (equal_refl o.name) ∙ ap (λ x. equal x.name o.name) entry ∙ goes in
          cc
      | inr (e, same) ↦ (vv, sym same ∙ at)
    ]

    -- The cell at which the loop stopped
    stopped :
        (s : ℕ) (d : Cell)
        → get_elem? stayed s ≡ some d
        → place_stops o.name d ≡ true
        → Way tbls nelems size ix o.name s
        → Returns (Placed i ix) (placed_in tbls nelems size i o stayed d s)
    stopped s empty at stop way =
        let differ : (i == s) ≡ false = elim (Bool-cases (i == s)) [
          | inl e ↦
              let is : i ≡ s = ground arith in
              let wrong : some (held o) ≡ some empty =
                sym at_i_stayed ∙ ap (get_elem? stayed) is ∙ at in
              cc
          | inr e ↦ e
        ] in
        let was_s : get_elem? ix s ≡ some empty = sym (elsewhere s differ) ∙ at in
        let x = exchanged-Exchanged ix i s o empty was_i was_s differ (λ vv e. cc) in
        returned (record {
          underway =
              Underway-Exchanged x tbls nelems size osize whole (i + 1) u way (omega arith)
                (λ vv e. cc);
          fewer = count_moving-exchanged ix i s o empty was_i was_s differ;
          as_many = used-exchanged ix i s o empty was_i was_s differ;
        })
    stopped s dirty1 at stop way = elim (here_or_not s) [
      | inl (is, now) ↦ let wrong : some (held o) ≡ some dirty1 = sym now ∙ at in cc
      | inr (e, same) ↦ absurd (u.clean s (sym same ∙ at))
    ]
    stopped s (held vv) at stop way =
        let here : i ≡ s = elim (here_or_not s) [
          | inl (is, now) ↦ is
          | inr (e, same) ↦
              let named : o.name ≡ vv.name = sym (equal_sound vv.name o.name stop) in
              u.distinct i s o vv (ap content was_i) (ap content (sym same ∙ at))
                (ap (equal o.name) (sym named) ∙ equal_refl o.name)
        ] in
        let same : (i == s) ≡ true = ground arith in
        rw same (
          returned (record {
            underway = Underway-stayed (subst (Way tbls nelems size ix o.name) (sym here) way);
            fewer = omega (arith, count_moving-set ix i (moving o) (held o) was_i);
            as_many = omega (arith, used-set ix i (moving o) (held o) was_i);
          }))
    stopped s (moving vv) at stop way = elim (here_or_not s) [
      | inl (is, now) ↦ let wrong : some (held o) ≡ some (moving vv) = sym now ∙ at in cc
      | inr (differ, same) ↦
          let was_s : get_elem? ix s ≡ some (moving vv) = sym same ∙ at in
          let (low, high) = u.left s vv was_s in
          let above : ltb i s ≡ true = ground arith in
          let x = exchanged-Exchanged ix i s o (moving vv) was_i was_s differ (λ ww e. cc) in
          rw above (
            returned (record {
              underway =
                  Underway-Exchanged x tbls nelems size osize whole i u way (omega arith)
                    (λ ww e. omega arith);
              fewer = count_moving-exchanged ix i s o (moving vv) was_i was_s differ;
              as_many = used-exchanged ix i s o (moving vv) was_i was_s differ;
            }))
    ]

    -- The entry of the cell `i` finds its place: the loop ends without a failed assertion.
    pub place_loop-Placed :
        0 < size
        → size ≤ 0x100000000
        → Returns
            (Placed i ix)
            (place_loop tbls nelems size (probes nelems size) i o (set ix i (held o)) 0)
    place_loop-Placed pos small =
        let wide : length stayed ≡ size = length-set ix i (held o) ∙ u.wide in
        let inside : i < size = omega (arith, get_elem?-lt ix i (moving o) was_i, u.wide) in
        let f =
          first tbls nelems size o.name (place_stops o.name) stayed wide pos small i (held o) inside
            at_i_stayed (equal_refl o.name) in
        rw (place_loop-First tbls nelems size i o stayed f) (
          stopped (nsxhash tbls nelems size o.name f.c) f.e f.at f.stopped
            (f.c, refl, λ k l. let (d, at, goes) = f.before k l in passed _ d at goes))
