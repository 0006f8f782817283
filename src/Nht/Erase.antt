-- ===== src/Nht/Erase.antt =====
-- nht_delete on the table as a map.
use getassoc.Common.{
  ℕ, ◌<◌, ◌≡◌, ◌≢◌, refl, sym, ap, ◌∙◌, subst, Bool, true, false, Option, none, some, List, arith,
  length, length-set, get_elem?, set, ◌==◌, Bool-cases, inl, inr, Returns, returned, done, ◌>>=◌,
}
use getassoc.Common.Arrays.{get_elem?-set}
use getassoc.Sutil.{equal}
use getassoc.Sutil.Trim.{equal_sound}
use getassoc.Nht.{Hte, Cell, empty, dirty1, held, moving, Nht, nsxhash, nht_retrieve, nht_delete}
use getassoc.Nht.Probe.{nsxhash-lt}
use getassoc.Nht.Search.{find_stops, found_in, First, first, find_loop-First}
use getassoc.Nht.Cells.{value_of, used-set, free_cell, IsSound}
use getassoc.Nht.Lookup.{IsValid, positive, search, retrieve-First}

-- At most one cell holds an entry for the key.
abbrev pub IsOnce : List ℕ → List Cell → Type 0
IsOnce p ix =
    (s t : ℕ) (a b : Hte)
    → get_elem? ix s ≡ some (held a)
    → get_elem? ix t ≡ some (held b)
    → a.name ≡ p
    → b.name ≡ p
    → s ≡ t

-- Whether a search found something
abbrev pub is_some : Option (List ℕ) → Bool
is_some none = false
is_some (some _) = true

module _ (tbls : ℕ → ℕ → ℕ) (nelems : ℕ) (h : Nht) (v : IsValid tbls nelems h) (p : List ℕ) where
  abbrev size : ℕ
  size = length h.ix

  pub record Erased (r : Bool × Nht) : Type 0 where
    pub answer : (o : Option (List ℕ)) → nht_retrieve tbls nelems h p ≡ done o → r.0 ≡ is_some o
    pub valid : IsValid tbls nelems r.1
    pub others :
        (q : List ℕ)
        → equal p q ≡ false
        → nht_retrieve tbls nelems r.1 q ≡ nht_retrieve tbls nelems h q
    pub own : IsOnce p h.ix → nht_retrieve tbls nelems r.1 p ≡ done none

  module _ (f : First tbls nelems size p (find_stops p) h.ix) (vv : Hte) (was : f.e ≡ held vv) where
    abbrev slot : ℕ
    slot = nsxhash tbls nelems size p f.c

    abbrev after : List Cell
    after = set h.ix slot dirty1

    inside : slot < size
    inside = nsxhash-lt tbls nelems size p f.c (positive tbls nelems h v)

    at_slot : get_elem? h.ix slot ≡ some (held vv)
    at_slot = f.at ∙ ap some was

    named : vv.name ≡ p
    named = equal_sound vv.name p (ap (find_stops p) (sym was) ∙ f.stopped)

    after-at : (j : ℕ) → (slot ≡ j → ⊥) → get_elem? after j ≡ get_elem? h.ix j
    after-at j k =
        let differs : (slot == j) ≡ false = ground arith in
        get_elem?-set h.ix slot j dirty1 inside ∙ (rw differs refl)

    after-slot : (j : ℕ) → slot ≡ j → get_elem? after j ≡ some dirty1
    after-slot j k =
        let same : (slot == j) ≡ true = ground arith in
        get_elem?-set h.ix slot j dirty1 inside ∙ (rw same refl)

    -- An entry that is left stood there before.
    left :
        (j : ℕ) (e : Cell)
        → get_elem? after j ≡ some e
        → e ≢ dirty1
        → (slot ≢ j) × (get_elem? h.ix j ≡ some e)
    left j e at differs = elim (Bool-cases (slot == j)) [
      | inl same ↦
          let both : some e ≡ some dirty1 = sym at ∙ after-slot j (ground arith) in
          let wrong : e ≡ dirty1 = cc in absurd (differs wrong)
      | inr away ↦ ((λ k. ground arith), sym (after-at j (λ k. ground arith)) ∙ at)
    ]

    still_used : (j : ℕ) → get_elem? h.ix j ≢ some empty → get_elem? after j ≢ some empty
    still_used j k e = k (left j empty e (λ x. cc)).1

    after-IsSound : IsSound tbls nelems size after
    after-IsSound = record {
      reach = λ s w at.
          let (c, hits, path) = v.sound.reach s w (left s (held w) at (λ x. cc)).1 in
          (c, hits, λ i l. still_used _ (path i l));
      settled = λ s w at. v.sound.settled s w (left s (moving w) at (λ x. cc)).1;
    }

    wide : length after ≡ size
    wide = length-set h.ix slot dirty1

    abbrev result : Nht
    result = record h { ix = after }

    after-IsValid : IsValid tbls nelems result
    after-IsValid =
        let few = v.few in
        let counted = used-set h.ix slot (held vv) dirty1 at_slot in
        record {
          sound = subst (λ m. IsSound tbls nelems m after) (sym wide) after-IsSound;
          few = omega arith;
          below = v.below;
          spare = let s = v.spare in let w = wide in omega arith;
          addressable = let a = v.addressable in let w = wide in omega arith;
        }

    kept :
        (q : List ℕ)
        → equal p q ≡ false
        → (g : First tbls nelems size q (find_stops q) h.ix)
        → First tbls nelems size q (find_stops q) after
    kept q other g = record {
      c = g.c;
      e = g.e;
      soon = g.soon;
      at =
          after-at _ (λ same.
            let both : some g.e ≡ some (held vv) =
              sym g.at ∙ (ap (get_elem? h.ix) (sym same) ∙ at_slot) in
            let e : g.e ≡ held vv = cc in
            let stops : equal vv.name q ≡ true = ap (find_stops q) (sym e) ∙ g.stopped in
            let wrong : false ≡ true = sym other ∙ (ap (λ k. equal k q) (sym named) ∙ stops) in cc)
          ∙ g.at;
      stopped = g.stopped;
      before = λ i l.
          let (d, at, goes) = g.before i l in
          elim (Bool-cases (slot == nsxhash tbls nelems size q i)) [
            | inl same ↦ (dirty1, after-slot _ (ground arith), refl)
            | inr differs ↦ (d, after-at _ (λ e. ground arith) ∙ at, goes)
          ];
    }

    gone :
        IsOnce p h.ix
        → (e : Cell) (j : ℕ) → get_elem? after j ≡ some e
        → find_stops p e ≡ true
        → value_of e ≡ none
    gone once empty j at stop = refl
    gone once dirty1 j at stop = refl
    gone once (moving w) j at stop = refl
    gone once (held w) j at stop =
        let (away, old) = left j (held w) at (λ x. cc) in
        absurd (away (once slot j vv w at_slot old named (equal_sound w.name p stop)))

    erased : Erased (true, result)
    unfolding nht_retrieve kept
    erased = record {
      answer = λ o e.
          let found =
            retrieve-First tbls nelems h size refl (positive tbls nelems h v) v.sound p f in
          let both : done o ≡ done (value_of f.e) = sym e ∙ found in
          let eq : o ≡ value_of f.e = cc in rw (eq, was) refl;
      valid = after-IsValid;
      others = λ q other.
          let g = search tbls nelems h v (find_stops q) refl q in
          retrieve-First tbls nelems result size wide (positive tbls nelems h v) after-IsSound q
            (kept q other g)
          ∙ sym (retrieve-First tbls nelems h size refl (positive tbls nelems h v) v.sound q g);
      own = λ once.
          let few = v.few in
          let below = v.below in
          let spare = v.spare in
          let counted = used-set h.ix slot (held vv) dirty1 at_slot in
          let w = wide in
          let (s, l, e) = free_cell after (omega arith) in
          let g =
            first tbls nelems size p (find_stops p) after wide (positive tbls nelems h v)
              v.addressable s empty (omega arith) e refl in
          retrieve-First tbls nelems result size wide (positive tbls nelems h v) after-IsSound p g
          ∙ ap done (gone once g.e _ g.at g.stopped);
    }

  missing : (f : First tbls nelems size p (find_stops p) h.ix) → f.e ≡ empty → Erased (false, h)
  missing f was =
      let found : nht_retrieve tbls nelems h p ≡ done none =
        retrieve-First tbls nelems h size refl (positive tbls nelems h v) v.sound p f
        ∙ ap (λ e. done (value_of e)) was in
      record {
        answer = λ o e.
            let both : done o ≡ done none = sym e ∙ found in let eq : o ≡ none = cc in rw eq refl;
        valid = v;
        others = λ q other. refl;
        own = λ once. found;
      }

  -- nht_delete on a valid table that is not read only ends without a fault: it returns 0 exactly if
  -- nht_retrieve finds the key; afterwards the table is valid, nht_retrieve finds at any other key
  -- what it found before, and at the key nothing, if no second cell held an entry for it.
  pub nht_delete-Erased : h.rdonly ≡ false → Returns Erased (nht_delete tbls nelems h p)
  unfolding nht_delete
  nht_delete-Erased writable =
      let f = search tbls nelems h v (find_stops p) refl p in
      let nonempty : (size == 0) ≡ false = let q = positive tbls nelems h v in ground arith in
      rw (writable, nonempty, find_loop-First tbls nelems size p h.ix f) (ends f f.e refl)
    where
      ends :
          (f : First tbls nelems size p (find_stops p) h.ix) (e : Cell)
          → f.e ≡ e
          → Returns Erased (
              found_in f.e (nsxhash tbls nelems size p f.c) >>= λ o. elim o [
                | none ↦ done (false, h)
                | some s ↦ done (true, record h { ix = set h.ix s dirty1 })
              ])
      ends f empty was = rw was (returned (missing f was))
      ends f dirty1 was = let wrong : false ≡ true = ap (find_stops p) (sym was) ∙ f.stopped in cc
      ends f (held vv) was = rw was (returned (erased f vv was))
      ends f (moving vv) was = absurd (v.sound.settled _ vv (f.at ∙ ap some was))
