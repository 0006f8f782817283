-- ===== src/Nht/Write.antt =====
-- What the write of nht_enter does to the searches for its key and for others.
use getassoc.Common.{
  ℕ, ◌≤◌, ◌<◌, ◌≡◌, ◌≢◌, refl, sym, ap, ◌∙◌, subst, true, false, none, some, List, arith, length,
  length-set, get_elem?, set, ◌==◌, Bool-cases, lt-cases, inl, inr,
}
use getassoc.Common.Arrays.{get_elem?-set}
use getassoc.Sutil.{equal}
use getassoc.Sutil.Trim.{equal_refl, equal_sound}
use getassoc.Nht.{Hte, Cell, empty, dirty1, held, moving, nsxhash}
use getassoc.Nht.Search.{find_stops, enter_stops, First, first}
use getassoc.Nht.Cells.{value_of, used, free_cell, IsSound}

-- No entry has a name whose search ended at an empty cell.
pub lost :
    (tbls : ℕ → ℕ → ℕ) (nelems size : ℕ) (ix : List Cell) (q : List ℕ)
    → IsSound tbls nelems size ix
    → (g : First tbls nelems size q (find_stops q) ix) → g.e ≡ empty
    → (u : ℕ) (vv : Hte) → get_elem? ix u ≡ some (held vv)
    → equal vv.name q ≡ true
    → ⊥
lost tbls nelems size ix q sound g was_empty u vv old named_q =
    let name = equal_sound vv.name q named_q in
    let (c, hits, path) = sound.reach u vv old in
    let hits' : nsxhash tbls nelems size q c ≡ u =
      subst (λ k. nsxhash tbls nelems size k c ≡ u) name hits in
    let at_c : get_elem? ix (nsxhash tbls nelems size q c) ≡ some (held vv) =
      ap (get_elem? ix) hits' ∙ old in
    let free : get_elem? ix (nsxhash tbls nelems size q g.c) ≡ some empty =
      g.at ∙ ap some was_empty in
    elim (lt-cases c g.c) [
      | inl earlier ↦
          let (d, at, goes) = g.before c earlier in
          let both : some d ≡ some (held vv) = sym at ∙ at_c in
          let same : d ≡ held vv = cc in
          let wrong : true ≡ false = sym named_q ∙ (ap (find_stops q) (sym same) ∙ goes) in cc
      | inr not_earlier ↦ elim (lt-cases g.c c) [
        | inl later ↦ path g.c later (
            subst (λ k. get_elem? ix (nsxhash tbls nelems size k g.c) ≡ some empty) (sym name) free)
        | inr together ↦
            let equal_c : c ≡ g.c = omega arith in
            let wrong : some (held vv) ≡ some empty =
              sym at_c ∙ (ap (λ i. get_elem? ix (nsxhash tbls nelems size q i)) equal_c ∙ free) in
            cc
      ]
    ]

module _ (tbls : ℕ → ℕ → ℕ) (nelems size : ℕ) where
  module _ (ix : List Cell) (p : List ℕ) (new : Hte)
      (f : First tbls nelems size p (enter_stops p) ix) (named : new.name ≡ p)
      (sound : IsSound tbls nelems size ix)
      (inside : nsxhash tbls nelems size p f.c < length ix) where
    abbrev pub slot : ℕ
    slot = nsxhash tbls nelems size p f.c

    abbrev pub after : List Cell
    after = set ix slot (held new)

    after-at : (j : ℕ) → (slot ≡ j → ⊥) → get_elem? after j ≡ get_elem? ix j
    after-at j h =
        let differs : (slot == j) ≡ false = ground arith in
        get_elem?-set ix slot j (held new) inside ∙ (rw differs refl)

    after-slot : (j : ℕ) → slot ≡ j → get_elem? after j ≡ some (held new)
    after-slot j h =
        let same : (slot == j) ≡ true = ground arith in
        get_elem?-set ix slot j (held new) inside ∙ (rw same refl)

    still_used : (j : ℕ) → get_elem? ix j ≢ some empty → get_elem? after j ≢ some empty
    still_used j h e = elim (Bool-cases (slot == j)) [
      | inl same ↦ let wrong = sym (after-slot j (ground arith)) ∙ e in cc
      | inr differs ↦ h (sym (after-at j (λ at. ground arith)) ∙ e)
    ]

    passed_by : (d : Cell) → enter_stops p d ≡ false → (d ≢ empty) × (find_stops p d ≡ false)
    passed_by empty h = cc
    passed_by dirty1 h = cc
    passed_by (held vv) h = ((λ e. cc), h)
    passed_by (moving vv) h = cc

    -- A cell that the search for `p` passed is not the one that is written.
    passed_slot :
        (i : ℕ) (d : Cell)
        → get_elem? ix (nsxhash tbls nelems size p i) ≡ some d
        → enter_stops p d ≡ false
        → slot ≡ nsxhash tbls nelems size p i
        → ⊥
    passed_slot i d at goes same =
        let here : get_elem? ix slot ≡ some d = ap (get_elem? ix) same ∙ at in
        let both : some f.e ≡ some d = sym f.at ∙ here in
        let eq : f.e ≡ d = cc in
        let wrong : true ≡ false = sym f.stopped ∙ ap (enter_stops p) eq ∙ goes in cc

    -- The search for the key finds the new entry.
    pub own-First : (g : First tbls nelems size p (find_stops p) after) × (g.e ≡ held new)
    own-First = (
      record {
        c = f.c;
        e = held new;
        soon = f.soon;
        at = after-slot slot refl;
        stopped = ap (λ k. equal k p) named ∙ equal_refl p;
        before = λ i l.
            let (d, at, goes) = f.before i l in
            (
              d,
              after-at (nsxhash tbls nelems size p i) (passed_slot i d at goes) ∙ at,
              (passed_by d goes).1,
            );
      },
      refl,
    )

    used_before : (i : ℕ) → i < f.c → get_elem? ix (nsxhash tbls nelems size p i) ≢ some empty
    used_before i l e =
        let (d, at, goes) = f.before i l in
        let both : some d ≡ some empty = sym at ∙ e in
        let eq : d ≡ empty = cc in (passed_by d goes).0 eq

    pub after-IsSound : IsSound tbls nelems size after
    after-IsSound = record {
      reach = λ s vv at. elim (Bool-cases (slot == s)) [
        | inl same ↦
            let both : some (held new) ≡ some (held vv) = sym (after-slot s (ground arith)) ∙ at in
            let whole : new ≡ vv = cc in
            let name : p ≡ vv.name = sym named ∙ ap (λ x. x.name) whole in
            subst
              (λ k.
                (c : ℕ) × (nsxhash tbls nelems size k c ≡ s)
                × ((i : ℕ) → i < c → get_elem? after (nsxhash tbls nelems size k i) ≢ some empty))
              name (f.c, ground arith, λ i l. still_used _ (used_before i l))
        | inr differs ↦
            let (c, hits, path) = sound.reach s vv (sym (after-at s (λ e. ground arith)) ∙ at) in
            (c, hits, λ i l. still_used _ (path i l))
      ];
      settled = λ s vv at. elim (Bool-cases (slot == s)) [
        | inl same ↦ let wrong = sym (after-slot s (ground arith)) ∙ at in cc
        | inr differs ↦ sound.settled s vv (sym (after-at s (λ e. ground arith)) ∙ at)
      ];
    }

    -- A search for another key returns what it returned.
    module _ (q : List ℕ) (other : equal p q ≡ false) where
      not_held : (vv : Hte) → equal vv.name p ≡ true → equal vv.name q ≡ true → ⊥
      not_held vv a b =
          let x = equal_sound vv.name p a in
          let wrong : false ≡ true = sym other ∙ (ap (λ k. equal k q) (sym x) ∙ b) in cc

      new_passes : find_stops q (held new) ≡ false
      new_passes = ap (λ k. equal k q) named ∙ other

      -- The cell written, if the search for `q` stopped there, was empty.
      stop_there : (e : Cell) → find_stops q e ≡ true → e ≡ f.e → e ≡ empty
      stop_there empty h same = refl
      stop_there dirty1 h same = cc
      stop_there (held vv) h same = absurd (not_held vv (ap (enter_stops p) same ∙ f.stopped) h)
      stop_there (moving vv) h same = absurd (sound.settled slot vv (f.at ∙ ap some (sym same)))

      kept-First :
          (g : First tbls nelems size q (find_stops q) ix)
          → (slot ≡ nsxhash tbls nelems size q g.c → ⊥)
          → First tbls nelems size q (find_stops q) after
      kept-First g away = record {
        c = g.c;
        e = g.e;
        soon = g.soon;
        at = after-at _ away ∙ g.at;
        stopped = g.stopped;
        before = λ i l.
            let (d, at, goes) = g.before i l in
            elim (Bool-cases (slot == nsxhash tbls nelems size q i)) [
              | inl same ↦ (held new, after-slot _ (ground arith), new_passes)
              | inr differs ↦ (d, after-at _ (λ e. ground arith) ∙ at, goes)
            ];
      }

      module _ (g : First tbls nelems size q (find_stops q) ix) (was_empty : g.e ≡ empty) where
        -- A key that was not found is not found behind the cell that is written either.
        still_lost :
            (c : ℕ) (e : Cell)
            → get_elem? after (nsxhash tbls nelems size q c) ≡ some e
            → find_stops q e ≡ true
            → value_of e ≡ none
        still_lost c empty at stop = refl
        still_lost c dirty1 at stop = refl
        still_lost c (moving vv) at stop = refl
        still_lost c (held vv) at stop = elim (Bool-cases (slot == nsxhash tbls nelems size q c)) [
          | inl same ↦
              let both : some (held new) ≡ some (held vv) =
                sym (after-slot _ (ground arith)) ∙ at in
              let whole : new ≡ vv = cc in
              let wrong : false ≡ true =
                sym (new_passes) ∙ (ap (λ x. equal x.name q) whole ∙ stop) in
              cc
          | inr differs ↦
              let old : get_elem? ix (nsxhash tbls nelems size q c) ≡ some (held vv) =
                sym (after-at _ (λ e. ground arith)) ∙ at in
              absurd (
                lost tbls nelems size ix q sound g was_empty (nsxhash tbls nelems size q c) vv old
                  stop)
        ]

      -- The search for another key ends as it ended, or both find nothing.
      pub other-First :
          length ix ≡ size
          → 0 < size
          → size ≤ 0x100000000
          → used after < length after
          → (g : First tbls nelems size q (find_stops q) ix)
          → (g' : First tbls nelems size q (find_stops q) after) × (value_of g'.e ≡ value_of g.e)
      unfolding kept-First
      other-First wide pos small room g =
          elim (Bool-cases (slot == nsxhash tbls nelems size q g.c)) [
            | inr differs ↦ (kept-First g (λ e. ground arith), refl)
            | inl same ↦
                let there : slot ≡ nsxhash tbls nelems size q g.c = ground arith in
                let both : some g.e ≡ some f.e =
                  sym g.at ∙ (ap (get_elem? ix) (sym there) ∙ f.at) in
                let alike : g.e ≡ f.e = cc in
                let free = stop_there g.e g.stopped alike in
                let (s, l, e) = free_cell after room in
                let wide' : length after ≡ size = length-set ix slot (held new) ∙ wide in
                let g' =
                  first tbls nelems size q (find_stops q) after wide' pos small s empty
                    (omega arith) e refl in
                (g', still_lost g free g'.c g'.e g'.at g'.stopped ∙ ap value_of (sym free))
          ]
