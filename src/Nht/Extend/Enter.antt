-- ===== src/Nht/Extend/Enter.antt =====
-- nht_enter on a table from which nothing was deleted, with room or without.
use getassoc.Common.{
  ℕ, ◌+◌, ◌*◌, ◌/◌, ◌≤◌, ◌<◌, ◌≡◌, ◌⊎◌, refl, sym, ap, ◌∙◌, subst, true, false, Option, none, some,
  List, arith, length, length-set, get_elem?, set, take, leb, ◌==◌, Bool-cases, inl, inr, done,
  Returns, Returns-mono, Returns-value,
}
use getassoc.Sutil.{equal}
use getassoc.Sutil.Trim.{equal_refl, equal_sound}
use getassoc.Nht.{
  Hte, Cell, empty, dirty1, held, moving, Nht, ht_growsz, threshold_of, nsxhash, nht_retrieve,
  enter, nht_enter,
}
use getassoc.Nht.Search.{find_stops, enter_stops, First}
use getassoc.Nht.Cells.{used, used-set}
use getassoc.Nht.Write.{lost}
use getassoc.Nht.Lookup.{IsValid, Written, enter-Entered}
use getassoc.Nht.Extend.Exchange.{set-own, set-other}
use getassoc.Nht.Extend.Fresh.{IsFresh, IsFresh-IsValid, ht_extend-Extended}
use getassoc.Nht.Extend.State.{content, entry_at, IsDistinct}

module _ (tbls : ℕ → ℕ → ℕ) (nelems : ℕ) (h : Nht) (f : IsFresh tbls nelems h)
    (v : IsValid tbls nelems h) (p : List ℕ) where
  module _ (h' : Nht) (w : Written tbls nelems h v p h') where
    abbrev slot : ℕ
    slot = nsxhash tbls nelems (length h.ix) p (w.search_end).c

    -- What stands in a cell
    now :
        (j : ℕ)
        → ((slot ≡ j) × (get_elem? h'.ix j ≡ some (held w.new)))
          ⊎ (((slot == j) ≡ false) × (get_elem? h'.ix j ≡ get_elem? h.ix j))
    now j = elim (Bool-cases (slot == j)) [
      | inl e ↦
          let is : slot ≡ j = ground arith in
          inl (
            is,
            ap (λ ix. get_elem? ix j) w.cells
                ∙ ap (get_elem? (set h.ix slot (held w.new))) (sym is)
                ∙ set-own h.ix slot w.was (held w.new) w.at,
          )
      | inr e ↦
          inr
            (e, ap (λ ix. get_elem? ix j) w.cells ∙ set-other h.ix slot j w.was (held w.new) w.at e)
    ]

    -- An entry with the key's name was where the search ended.
    own_place : (k : ℕ) (ww : Hte) → entry_at h.ix k ≡ some ww → equal ww.name p ≡ true → slot ≡ k
    own_place k ww at named = of_was w.was w.at w.stopped
      where
        of_entry :
            (o : Option Cell)
            → get_elem? h.ix k ≡ o
            → content o ≡ some ww
            → get_elem? h.ix k ≡ some (held ww)
        of_entry none e c = cc
        of_entry (some empty) e c = cc
        of_entry (some dirty1) e c = cc
        of_entry (some (moving vv)) e c = absurd (f.sound.settled k vv e)
        of_entry (some (held vv)) e c =
            let entry : vv ≡ ww = cc in e ∙ ap (λ x. some (held x)) entry

        passed_by : (d : Cell) → enter_stops p d ≡ false → find_stops p d ≡ false
        passed_by empty e = cc
        passed_by dirty1 e = cc
        passed_by (held vv) e = e
        passed_by (moving vv) e = cc

        of_was : (d : Cell) → get_elem? h.ix slot ≡ some d → enter_stops p d ≡ true → slot ≡ k
        of_was empty at_d stop =
            let g : First tbls nelems (length h.ix) p (find_stops p) h.ix = record {
              c = (w.search_end).c;
              e = empty;
              soon = (w.search_end).soon;
              at = at_d;
              stopped = refl;
              before = λ i l.
                  let (d, at_i, goes) = (w.search_end).before i l in (d, at_i, passed_by d goes);
            } in
            absurd (
              lost tbls nelems (length h.ix) h.ix p f.sound g refl k ww
                (of_entry (get_elem? h.ix k) refl at) named)
        of_was dirty1 at_d stop = absurd (f.clean slot at_d)
        of_was (held vv) at_d stop =
            let names : vv.name ≡ ww.name =
              equal_sound vv.name p stop ∙ sym (equal_sound ww.name p named) in
            f.distinct slot k vv ww (ap content at_d) at
              (ap (equal vv.name) (sym names) ∙ equal_refl vv.name)
        of_was (moving vv) at_d stop = absurd (f.sound.settled slot vv at_d)

    -- A name that the new entry has is the key.
    is_key : (ww : Hte) → equal ww.name (w.new).name ≡ true → equal ww.name p ≡ true
    is_key ww e = ap (equal ww.name) (sym w.named) ∙ e

    IsDistinct-Written : IsDistinct h'.ix
    IsDistinct-Written j k vv ww at_j at_k same = elim (now j) [
      | inl (is_j, new_j) ↦ elim (now k) [
        | inl (is_k, new_k) ↦ sym is_j ∙ is_k
        | inr (not_k, old_k) ↦
            let entry_j : some w.new ≡ some vv = sym (ap content new_j) ∙ at_j in
            let mine : w.new ≡ vv = cc in
            let names : vv.name ≡ ww.name = equal_sound vv.name ww.name same in
            let named : equal ww.name (w.new).name ≡ true =
              ap (λ x. equal ww.name x.name) mine ∙ ap (equal ww.name) names ∙ equal_refl ww.name in
            sym is_j ∙ own_place k ww (sym (ap content old_k) ∙ at_k) (is_key ww named)
      ]
      | inr (not_j, old_j) ↦ elim (now k) [
        | inl (is_k, new_k) ↦
            let entry_k : some w.new ≡ some ww = sym (ap content new_k) ∙ at_k in
            let mine : w.new ≡ ww = cc in
            let named : equal vv.name (w.new).name ≡ true =
              ap (λ x. equal vv.name x.name) mine ∙ same in
            sym (own_place j vv (sym (ap content old_j) ∙ at_j) (is_key vv named)) ∙ is_k
        | inr (not_k, old_k) ↦
            f.distinct j k vv ww (sym (ap content old_j) ∙ at_j) (sym (ap content old_k) ∙ at_k)
              same
      ]
    ]

    pub IsFresh-Written : IsValid tbls nelems h' → IsFresh tbls nelems h'
    IsFresh-Written v' = record {
      sound = v'.sound;
      clean = λ s at. elim (now s) [
        | inl (is, new) ↦ let wrong : some (held w.new) ≡ some dirty1 = sym new ∙ at in cc
        | inr (e, old) ↦ f.clean s (sym old ∙ at)
      ];
      distinct = IsDistinct-Written;
      count =
          let grown = ap used w.cells in
          let changed = used-set h.ix slot w.was (held w.new) w.at in
          let count = f.count in
          let counted = w.counted (λ e. f.clean slot (w.at ∙ ap some e)) in omega arith;
      fixed =
          let size : length h'.ix ≡ length h.ix =
            ap length w.cells ∙ length-set h.ix slot (held w.new) in
          w.threshold ∙ f.fixed ∙ ap threshold_of (sym size);
      below = v'.below;
    }

module _ (tbls : ℕ → ℕ → ℕ) (nelems : ℕ) (h : Nht) where
  -- What nht_enter leaves of a table from which nothing was deleted
  pub record Kept (p payload : List ℕ) (r : Option (List ℕ) × Nht) : Type 0 where
    pub answer : r.0 ≡ some payload
    pub fresh : IsFresh tbls nelems r.1
    pub own : nht_retrieve tbls nelems r.1 p ≡ done (some payload)
    pub others :
        (q : List ℕ)
        → equal p q ≡ false
        → nht_retrieve tbls nelems r.1 q ≡ nht_retrieve tbls nelems h q

  -- A call on `h`, or on the table that ht_extend made of it
  enter-Kept :
      (h' : Nht)
      → IsFresh tbls nelems h'
      → length h'.ix ≤ 0x100000000
      → h'.nentries < h'.threshold
      → ((q : List ℕ) → nht_retrieve tbls nelems h' q ≡ nht_retrieve tbls nelems h q)
      → (p ptr : List ℕ) → Returns (Kept p (take h'.dsize ptr)) (enter tbls nelems true h' p ptr)
  enter-Kept h' f small room same p ptr =
      let t = f.fixed in
      let v = IsFresh-IsValid tbls nelems h' f (omega arith) small in
      Returns-mono
        (λ r e. record {
          answer = e.answer;
          fresh = IsFresh-Written tbls nelems h' f v p r.1 e.written_cell e.valid;
          own = e.own;
          others = λ q other. e.others q other ∙ same q;
        })
        (enter-Entered tbls nelems h' v p ptr room)

  -- On a table in order from which nothing was deleted, which can be full or empty and is not read only,
  -- nht_enter ends without a failed assertion if nvmt_extend and nvmt_alloc succeed and a longer index stays
  -- below 2^32 cells. It returns the payload; nht_retrieve then finds it at the key, and at any other key
  -- what it found before; and the table is again in order, as if nothing was deleted from it.
  pub nht_enter-Kept :
      IsFresh tbls nelems h
      → h.rdonly ≡ false
      → length h.ix + ht_growsz ≤ 0x100000000
      → (p ptr : List ℕ)
      → Returns (Kept p (take h.dsize ptr)) (nht_enter tbls nelems true true h p ptr)
  unfolding nht_enter
  nht_enter-Kept f writable small p ptr = elim (Bool-cases (leb h.threshold h.nentries)) [
    | inr room ↦
        simp (writable, room) (enter-Kept h f (omega arith) (ground arith) (λ q. refl) p ptr)
    | inl full ↦
        let (o, ran, (h', is, x)) = Returns-value (ht_extend-Extended tbls nelems h f small) in
        let below = f.below in
        let fixed = f.fixed in
        let fresh = x.fresh in
        let fixed' = fresh.fixed in
        let longer = x.longer in
        let as_many = x.as_many in
        let more : threshold_of (length h'.ix) ≡ (length h.ix + ht_growsz) / 7 * 6 =
          ap threshold_of longer in
        simp (writable, full, ran, is)
          (subst (λ n. Returns (Kept p (take n ptr)) (enter tbls nelems true h' p ptr)) x.same_size
            (enter-Kept h' fresh (omega arith) (omega arith) x.found_as_before p ptr))
  ]
