-- ===== src/Nht/Lookup.antt =====
-- The table as a map: what nht_retrieve returns after nht_enter and nht_delete.
use getassoc.Common.{
  ℕ, ◌+◌, ◌≤◌, ◌<◌, ◌≡◌, ◌≢◌, refl, sym, ap, ◌∙◌, subst, Bool, true, false, Option, none, some,
  List, arith, length, length-set, get_elem?, set, take, ◌==◌, leb, Returns, returned, done, ◌>>=◌,
}
use getassoc.Common.Arrays.{load}
use getassoc.Sutil.{equal}
use getassoc.Sutil.Trim.{equal_sound}
use getassoc.Nht.{
  Hte, Cell, empty, dirty1, held, moving, Nht, nsxhash, probes, entry, nht_retrieve, enter,
  nht_enter, enter_loop,
}
use getassoc.Nht.Probe.{nsxhash-lt}
use getassoc.Nht.Search.{
  find_stops, enter_stops, found_in, entered_in, First, first, find_loop-First, enter_loop-First,
}
use getassoc.Nht.Cells.{value_of, one, used, used-set, free_cell, IsSound}
use getassoc.Nht.Write.{own-First, after-IsSound, other-First}

module _ (tbls : ℕ → ℕ → ℕ) (nelems : ℕ) where
  -- A table that has been extended: each entry is in place, fewer cells are in use than the
  -- threshold allows, and the threshold leaves a cell free.
  pub record IsValid (h : Nht) : Type 0 where
    pub sound : IsSound tbls nelems (length h.ix) h.ix
    pub few : used h.ix ≤ h.nentries
    pub below : h.nentries ≤ h.threshold
    pub spare : h.threshold < length h.ix
    pub addressable : length h.ix ≤ 0x100000000

  pub retrieve-First :
      (h : Nht) (size : ℕ)
      → length h.ix ≡ size
      → 0 < size
      → IsSound tbls nelems size h.ix
      → (q : List ℕ) → (g : First tbls nelems size q (find_stops q) h.ix)
      → nht_retrieve tbls nelems h q ≡ done (value_of g.e)
  unfolding nht_retrieve entry
  retrieve-First h size wide p sound q g =
      let nonempty : (size == 0) ≡ false = ground arith in
      rw (wide, nonempty, find_loop-First tbls nelems size q h.ix g) (ends g.e g.at g.stopped)
    where
      ends :
          (e : Cell)
          → get_elem? h.ix (nsxhash tbls nelems size q g.c) ≡ some e
          → find_stops q e ≡ true
          → (found_in e (nsxhash tbls nelems size q g.c) >>= λ o. elim o [
            | none ↦ done none
            | some s ↦ (load h.ix s >>= λ d. entry d >>= λ vv. done (some vv.payload))
          ])
            ≡ done (value_of e)
      ends empty at stop = refl
      ends dirty1 at stop = cc
      ends (held vv) at stop = unfold entry in rw at refl
      ends (moving vv) at stop = absurd (sound.settled _ vv at)

  module _ (h : Nht) (v : IsValid h) where
    abbrev size : ℕ
    size = length h.ix

    pub positive : 0 < size
    positive = let s = v.spare in omega arith

    -- Every search ends.
    pub search :
        (stops : Cell → Bool)
        → stops empty ≡ true
        → (q : List ℕ) → First tbls nelems size q stops h.ix
    search stops at_empty q =
        let few = v.few in
        let below = v.below in
        let spare = v.spare in
        let (s, l, e) = free_cell h.ix (omega arith) in
        first tbls nelems size q stops h.ix refl positive v.addressable s empty l e at_empty

    -- The cell that a call writes: where the search for the key ended, at the cell `was`
    pub record Written (p : List ℕ) (h' : Nht) : Type 0 where
      pub search_end : First tbls nelems size p (enter_stops p) h.ix
      pub was : Cell
      pub new : Hte
      pub at : get_elem? h.ix (nsxhash tbls nelems size p search_end.c) ≡ some was
      pub stopped : enter_stops p was ≡ true
      pub named : new.name ≡ p
      pub cells : h'.ix ≡ set h.ix (nsxhash tbls nelems size p search_end.c) (held new)
      pub counted : was ≢ dirty1 → h'.nentries + one was ≡ h.nentries + 1
      pub threshold : h'.threshold ≡ h.threshold

    -- What nht_enter leaves
    pub record Entered (p payload : List ℕ) (r : Option (List ℕ) × Nht) : Type 0 where
      pub answer : r.0 ≡ some payload
      pub valid : IsValid r.1
      pub written_cell : Written p r.1
      pub own : nht_retrieve tbls nelems r.1 p ≡ done (some payload)
      pub others :
          (q : List ℕ)
          → equal p q ≡ false
          → nht_retrieve tbls nelems r.1 q ≡ nht_retrieve tbls nelems h q

    written :
        (p payload : List ℕ) (new : Hte) (n : ℕ) (f : First tbls nelems size p (enter_stops p) h.ix)
        (e : Cell)
        → get_elem? h.ix (nsxhash tbls nelems size p f.c) ≡ some e
        → enter_stops p e ≡ true
        → (e ≢ dirty1 → n + one e ≡ h.nentries + 1)
        → new.name ≡ p
        → new.payload ≡ payload
        → used (set h.ix (nsxhash tbls nelems size p f.c) (held new)) ≤ n
        → n ≤ h.threshold
        → Entered p payload (
          some payload,
          record h { nentries = n; ix = set h.ix (nsxhash tbls nelems size p f.c) (held new) },
        )
    written p payload new n f e at stop counted named pays few below =
        let inside = nsxhash-lt tbls nelems size p f.c positive in
        let wide = length-set h.ix (nsxhash tbls nelems size p f.c) (held new) in
        let spare = v.spare in
        let room : used (set h.ix (nsxhash tbls nelems size p f.c) (held new))
            < length (set h.ix (nsxhash tbls nelems size p f.c) (held new)) =
          omega (arith, wide) in
        let (mine, holds) = own-First tbls nelems size h.ix p new f named v.sound inside in
        let sound = after-IsSound tbls nelems size h.ix p new f named v.sound inside in
        record {
          answer = refl;
          valid = record {
            sound =
                subst
                  (λ m.
                    IsSound tbls nelems m (set h.ix (nsxhash tbls nelems size p f.c) (held new)))
                  (sym wide) sound;
            few = few;
            below = below;
            spare = omega (arith, wide);
            addressable = let a = v.addressable in omega (arith, wide);
          };
          written_cell = record {
            search_end = f;
            was = e;
            new = new;
            at = at;
            stopped = stop;
            named = named;
            cells = refl;
            counted = counted;
            threshold = refl;
          };
          own =
              retrieve-First _ size wide positive sound p mine
              ∙ ap done (ap value_of holds ∙ ap some pays);
          others = λ q other.
              let g = search (find_stops q) refl q in
              let (g', same) =
                other-First tbls nelems size h.ix p new f named v.sound inside q other refl positive
                  v.addressable room g in
              retrieve-First _ size wide positive sound q g'
              ∙ ap done same
              ∙ sym (retrieve-First h size refl positive v.sound q g);
        }

    entered :
        (p ptr : List ℕ) (f : First tbls nelems size p (enter_stops p) h.ix) (e : Cell)
        → h.nentries < h.threshold
        → get_elem? h.ix (nsxhash tbls nelems size p f.c) ≡ some e
        → enter_stops p e ≡ true
        → enter_loop tbls nelems size h.ix p (probes nelems size) 0
          ≡ entered_in e (nsxhash tbls nelems size p f.c)
        → Returns (Entered p (take h.dsize ptr)) (enter tbls nelems true h p ptr)
    unfolding enter
    entered p ptr f empty room at stop run =
        let few = v.few in
        rw (run, at)
          (returned (
            written p _ (record { payload = take h.dsize ptr; name = p }) _ f empty at stop
              (λ k. omega arith) refl refl
              (omega (
                arith,
                used-set h.ix _ empty (held (record { payload = take h.dsize ptr; name = p })) at,
              ))
              (omega arith)))
    entered p ptr f dirty1 room at stop run =
        let few = v.few in
        rw (run, at)
          (returned (
            written p _ (record { payload = take h.dsize ptr; name = p }) _ f dirty1 at stop
              (λ k. absurd (k refl)) refl refl
              (omega (
                arith,
                used-set h.ix _ dirty1 (held (record { payload = take h.dsize ptr; name = p })) at,
              ))
              (omega arith)))
    entered p ptr f (held vv) room at stop run =
        let few = v.few in
        rw (run, at)
          (returned (
            written p _ (record vv { payload = take h.dsize ptr }) _ f (held vv) at stop
              (λ k. omega arith) (equal_sound vv.name p stop) refl
              (omega (
                arith,
                used-set h.ix _ (held vv) (held (record vv { payload = take h.dsize ptr })) at,
              ))
              v.below))
    entered p ptr f (moving vv) room at stop run = absurd (v.sound.settled _ vv at)

    pub enter-Entered :
        (p ptr : List ℕ)
        → h.nentries < h.threshold
        → Returns (Entered p (take h.dsize ptr)) (enter tbls nelems true h p ptr)
    enter-Entered p ptr room =
        let f = search (enter_stops p) refl p in
        entered p ptr f f.e room f.at f.stopped (enter_loop-First tbls nelems size p h.ix f)

    -- With room below the threshold, nht_enter on a valid table that is not read only ends without a
    -- fault, if nvmt_alloc succeeds: it returns the payload, nht_retrieve then finds this payload at
    -- the key, and at any other key what it found before, and the table is valid.
    pub nht_enter-Entered :
        (extended : Bool) (p ptr : List ℕ)
        → h.rdonly ≡ false
        → h.nentries < h.threshold
        → Returns (Entered p (take h.dsize ptr)) (nht_enter tbls nelems extended true h p ptr)
    unfolding nht_enter
    nht_enter-Entered extended p ptr writable room =
        let enough : leb h.threshold h.nentries ≡ false = ground arith in
        simp (writable, enough) (enter-Entered p ptr room)
