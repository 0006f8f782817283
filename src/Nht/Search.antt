-- ===== src/Nht/Search.antt =====
-- Where the loops of nht_enter, nht_retrieve and nht_delete stop.
use getassoc.Common.{
  ℕ, zero, suc, ◌+◌, ◌≤◌, ◌<◌, ◌≡◌, refl, sym, ap, ◌∙◌, Bool, true, false, Option, none, some, List,
  arith, length, get_elem?, Run, done, fault, lt-cases, inl, inr,
}
use getassoc.Common.Arrays.{get_elem?-some}
use getassoc.Common.Least.{first_passing}
use getassoc.Sutil.{equal}
use getassoc.Nht.{Cell, empty, dirty1, held, moving, nsxhash, probes, enter_loop, find_loop}
use getassoc.Nht.Probe.{nsxhash-lt, nsxhash-covers}

-- The cells at which a loop stops that looks for the key `p`; at the last it faults.
abbrev pub find_stops : List ℕ → Cell → Bool
find_stops p empty = true
find_stops p dirty1 = false
find_stops p (held vv) = equal vv.name p
find_stops p (moving vv) = true

abbrev pub enter_stops : List ℕ → Cell → Bool
enter_stops p empty = true
enter_stops p dirty1 = true
enter_stops p (held vv) = equal vv.name p
enter_stops p (moving vv) = true

-- What find_loop returns where it stops
abbrev pub found_in : Cell → ℕ → Run (Option ℕ)
found_in empty s = done none
found_in dirty1 s = fault
found_in (held vv) s = done (some s)
found_in (moving vv) s = fault

abbrev pub entered_in : Cell → ℕ → Run ℕ
entered_in empty s = done s
entered_in dirty1 s = done s
entered_in (held vv) s = done s
entered_in (moving vv) s = fault

module _ (tbls : ℕ → ℕ → ℕ) (nelems size : ℕ) (p : List ℕ) where
  -- The first probe at which a test holds
  pub record First (stops : Cell → Bool) (ix : List Cell) : Type 0 where
    pub c : ℕ
    pub e : Cell
    pub soon : c < probes nelems size
    pub at : get_elem? ix (nsxhash tbls nelems size p c) ≡ some e
    pub stopped : stops e ≡ true
    pub before :
        (i : ℕ)
        → i < c
        → (d : Cell) × (get_elem? ix (nsxhash tbls nelems size p i) ≡ some d) × (stops d ≡ false)

  module _ (stops : Cell → Bool) (ix : List Cell) (wide : length ix ≡ size) (pos : 0 < size)
      (small : size ≤ 0x100000000) where
    cell : (i : ℕ) → (e : Cell) × (get_elem? ix (nsxhash tbls nelems size p i) ≡ some e)
    cell i = get_elem?-some ix _ (omega (arith, nsxhash-lt tbls nelems size p i pos))

    -- A cell at which the test holds is seen, or one before it.
    pub first :
        (s : ℕ) (d : Cell) → s < size → get_elem? ix s ≡ some d → stops d ≡ true → First stops ix
    first s d h at_s holds =
        let (k, near, hits) = nsxhash-covers tbls nelems size p pos small s h in
        let both : some (cell k).0 ≡ some d = sym (cell k).1 ∙ ap (get_elem? ix) hits ∙ at_s in
        let here : (cell k).0 ≡ d = cc in
        let l = first_passing (λ i. stops (cell i).0) k (rw here holds) in
        record {
          c = l.least;
          e = (cell l.least).0;
          soon = let w = l.within in omega arith;
          at = (cell l.least).1;
          stopped = l.passes;
          before = λ i j. ((cell i).0, (cell i).1, l.before i j);
        }

  -- A loop that goes on at a cell where the test fails, and ends at one where it holds, ends at the first.
  module _ {R : Type 0} (stops : Cell → Bool) (ix : List Cell) (loop : ℕ → ℕ → R)
      (ends : Cell → ℕ → R)
      (step : (n c : ℕ) (d : Cell)
        → get_elem? ix (nsxhash tbls nelems size p c) ≡ some d
        → stops d ≡ false
        → loop (suc n) c ≡ loop n (c + 1))
      (stop : (n c : ℕ) (e : Cell)
        → get_elem? ix (nsxhash tbls nelems size p c) ≡ some e
        → stops e ≡ true
        → loop (suc n) c ≡ ends e (nsxhash tbls nelems size p c)) where
    loop-run :
        (n c k : ℕ) (e : Cell)
        → c ≤ k
        → k < c + n
        → get_elem? ix (nsxhash tbls nelems size p k) ≡ some e
        → stops e ≡ true
        → ((i : ℕ)
            → i < k
            → (d : Cell) × (get_elem? ix (nsxhash tbls nelems size p i) ≡ some d)
              × (stops d ≡ false))
        → loop n c ≡ ends e (nsxhash tbls nelems size p k)
    loop-run zero c k e le lt at stopped before = absurd (omega arith)
    loop-run (suc n) c k e le lt at stopped before = elim (lt-cases c k) [
      | inl earlier ↦
          let (d, at_d, goes) = before c earlier in
          step n c d at_d goes
          ∙ loop-run n (c + 1) k e (omega arith) (omega arith) at stopped before
      | inr now ↦
          let same : k ≡ c = omega arith in
          stop n c e (rw same at at) stopped
          ∙ ap (λ i. ends e (nsxhash tbls nelems size p i)) (sym same)
    ]

    pub loop-First :
        (f : First stops ix)
        → loop (probes nelems size) 0 ≡ ends f.e (nsxhash tbls nelems size p f.c)
    loop-First f =
        loop-run _ 0 f.c f.e (omega arith) (let s = f.soon in omega arith) f.at f.stopped f.before

  module _ (ix : List Cell) where
    find_loop-step :
        (n c : ℕ) (d : Cell)
        → get_elem? ix (nsxhash tbls nelems size p c) ≡ some d
        → find_stops p d ≡ false
        → find_loop tbls nelems size ix p (suc n) c ≡ find_loop tbls nelems size ix p n (c + 1)
    unfolding find_loop
    find_loop-step n c empty at goes = cc
    find_loop-step n c dirty1 at goes = rw at refl
    find_loop-step n c (held vv) at goes = rw (at, goes) refl
    find_loop-step n c (moving vv) at goes = cc

    find_loop-stop :
        (n c : ℕ) (e : Cell)
        → get_elem? ix (nsxhash tbls nelems size p c) ≡ some e
        → find_stops p e ≡ true
        → find_loop tbls nelems size ix p (suc n) c ≡ found_in e (nsxhash tbls nelems size p c)
    unfolding find_loop
    find_loop-stop n c empty at stop = rw at refl
    find_loop-stop n c dirty1 at stop = cc
    find_loop-stop n c (held vv) at stop = rw (at, stop) refl
    find_loop-stop n c (moving vv) at stop = rw at refl

    -- The loop stops at the first cell of its kind, and does not run out.
    pub find_loop-First :
        (f : First (find_stops p) ix)
        → find_loop tbls nelems size ix p (probes nelems size) 0
          ≡ found_in f.e (nsxhash tbls nelems size p f.c)
    find_loop-First f =
        loop-First (find_stops p) ix (find_loop tbls nelems size ix p) found_in find_loop-step
          find_loop-stop f

    enter_loop-step :
        (n c : ℕ) (d : Cell)
        → get_elem? ix (nsxhash tbls nelems size p c) ≡ some d
        → enter_stops p d ≡ false
        → enter_loop tbls nelems size ix p (suc n) c ≡ enter_loop tbls nelems size ix p n (c + 1)
    unfolding enter_loop
    enter_loop-step n c empty at goes = cc
    enter_loop-step n c dirty1 at goes = cc
    enter_loop-step n c (held vv) at goes = rw (at, goes) refl
    enter_loop-step n c (moving vv) at goes = cc

    enter_loop-stop :
        (n c : ℕ) (e : Cell)
        → get_elem? ix (nsxhash tbls nelems size p c) ≡ some e
        → enter_stops p e ≡ true
        → enter_loop tbls nelems size ix p (suc n) c ≡ entered_in e (nsxhash tbls nelems size p c)
    unfolding enter_loop
    enter_loop-stop n c empty at stop = rw at refl
    enter_loop-stop n c dirty1 at stop = rw at refl
    enter_loop-stop n c (held vv) at stop = rw (at, stop) refl
    enter_loop-stop n c (moving vv) at stop = rw at refl

    -- The loop stops at the first cell of its kind, and does not run out.
    pub enter_loop-First :
        (f : First (enter_stops p) ix)
        → enter_loop tbls nelems size ix p (probes nelems size) 0
          ≡ entered_in f.e (nsxhash tbls nelems size p f.c)
    enter_loop-First f =
        loop-First (enter_stops p) ix (enter_loop tbls nelems size ix p) entered_in enter_loop-step
          enter_loop-stop f
