-- ===== src/Nit/Items.antt =====
-- The table of items as a map, and its count of items.
use getassoc.Common.{
  ℕ, zero, suc, ◌+◌, ◌-◌, ◌%◌, ◌≤◌, ◌<◌, ◌≡◌, ◌≢◌, refl, sym, ap, ◌∙◌, Bool, true, false, not,
  Option, none, some, List, [], ◌∷◌, ◌++◌, arith, length, length-set, length-append, get_elem?, set,
  ◌==◌, leb, ltb, if◌then◌else◌, Bool-cases, lt-cases, inl, inr, Returns, returned, Returns-mono,
  done, fault, ◌>>=◌,
}
use getassoc.Common.Arrays.{load}
use getassoc.Nit.{Nit, it_growsz, no_items, it_extend, put, nit_enter, nit_retrieve, nit_delete}

-- What a cell holds; outside the index nothing
abbrev pub item : List (Option (List ℕ)) → ℕ → Option (List ℕ)
item [] i = none
item (e ∷ ix) zero = e
item (e ∷ ix) (suc i) = item ix i

abbrev pub number : Option (List ℕ) → ℕ
number none = 0
number (some _) = 1

abbrev pub count : List (Option (List ℕ)) → ℕ
count [] = 0
count (e ∷ ix) = number e + count ix

abbrev pub is_some : Option (List ℕ) → Bool
is_some none = false
is_some (some _) = true

-- The header counts the items, and the index can be addressed.
pub record IsCounted (h : Nit) : Type 0 where
  pub counted : h.nentries ≡ count h.ix
  pub addressable : length h.ix < 0x100000000

pub item-at :
    (ix : List (Option (List ℕ))) (i : ℕ) → i < length ix → get_elem? ix i ≡ some (item ix i)
item-at [] i h = absurd (omega arith)
item-at (e ∷ ix) zero h = refl
item-at (e ∷ ix) (suc i) h = item-at ix i (omega arith)

item-beyond : (ix : List (Option (List ℕ))) (i : ℕ) → length ix ≤ i → item ix i ≡ none
item-beyond [] i h = refl
item-beyond (e ∷ ix) zero h = absurd (omega arith)
item-beyond (e ∷ ix) (suc i) h = item-beyond ix i (omega arith)

item-set :
    (ix : List (Option (List ℕ))) (i j : ℕ) (e : Option (List ℕ))
    → i < length ix
    → item (set ix i e) j ≡ (if i == j then e else item ix j)
item-set [] i j e h = absurd (omega arith)
item-set (x ∷ ix) zero zero e h = refl
item-set (x ∷ ix) zero (suc j) e h = ground arith
item-set (x ∷ ix) (suc i) zero e h = ground arith
item-set (x ∷ ix) (suc i) (suc j) e h = ground (arith, item-set ix i j e)

count-set :
    (ix : List (Option (List ℕ))) (i : ℕ) (e : Option (List ℕ))
    → i < length ix
    → count (set ix i e) + number (item ix i) ≡ count ix + number e
count-set [] i e h = absurd (omega arith)
count-set (x ∷ ix) zero e h = omega arith
count-set (x ∷ ix) (suc i) e h = omega (arith, count-set ix i e)

number-le : (e : Option (List ℕ)) → number e ≤ 1
number-le none = omega arith
number-le (some _) = omega arith

count-le : (ix : List (Option (List ℕ))) → count ix ≤ length ix
count-le [] = omega arith
count-le (e ∷ ix) = omega (arith, number-le e, count-le ix)

count-append : (ix jx : List (Option (List ℕ))) → count (ix ++ jx) ≡ count ix + count jx
count-append [] jx = omega arith
count-append (e ∷ ix) jx = omega (arith, count-append ix jx)

count-no_items : (n : ℕ) → count (no_items n) ≡ 0
unfolding no_items
count-no_items zero = refl
count-no_items (suc n) = omega (arith, count-no_items n)

length-no_items : (n : ℕ) → length (no_items n) ≡ n
unfolding no_items
length-no_items zero = refl
length-no_items (suc n) = ap suc (length-no_items n)

item-no_items : (n i : ℕ) → item (no_items n) i ≡ none
unfolding no_items
item-no_items zero i = refl
item-no_items (suc n) zero = refl
item-no_items (suc n) (suc i) = item-no_items n i

item-append_no_items :
    (ix : List (Option (List ℕ))) (n i : ℕ) → item (ix ++ no_items n) i ≡ item ix i
item-append_no_items [] n i = item-no_items n i
item-append_no_items (e ∷ ix) n zero = refl
item-append_no_items (e ∷ ix) n (suc i) = item-append_no_items ix n i

-- nit_retrieve reads the map, and never faults.
pub nit_retrieve-item : (h : Nit) (i : ℕ) → nit_retrieve h i ≡ done (item h.ix i)
unfolding nit_retrieve
nit_retrieve-item h i = elim (lt-cases i (length h.ix)) [
  | inl inside ↦
      let below : leb (length h.ix) i ≡ false = ground arith in
      rw (below, item-at h.ix i inside) refl
  | inr beyond ↦
      let out : leb (length h.ix) i ≡ true = ground arith in
      rw (out, item-beyond h.ix i beyond) refl
]

-- What nit_enter leaves
pub record Entered (h : Nit) (i : ℕ) (ptr : List ℕ) (r : Option (List ℕ) × Nit) : Type 0 where
  pub answer : r.0 ≡ some ptr
  pub counted : IsCounted r.1
  pub own : nit_retrieve r.1 i ≡ done (some ptr)
  pub others : (j : ℕ) → i ≢ j → nit_retrieve r.1 j ≡ nit_retrieve h j

-- A cell that is written
module _ (h : Nit) (v : IsCounted h) (i : ℕ) (inside : i < length h.ix) where
  pub set-others :
      (n : ℕ) (e : Option (List ℕ)) (j : ℕ)
      → i ≢ j
      → nit_retrieve (record h { nentries = n; ix = set h.ix i e }) j ≡ nit_retrieve h j
  set-others n e j away =
      let differs : (i == j) ≡ false = ground arith in
      nit_retrieve-item _ j
      ∙ ap done (item-set h.ix i j e inside ∙ (rw differs refl))
      ∙ sym (nit_retrieve-item h j)

  pub set-own :
      (n : ℕ) (e : Option (List ℕ))
      → nit_retrieve (record h { nentries = n; ix = set h.ix i e }) i ≡ done e
  set-own n e =
      let same : (i == i) ≡ true = ground arith in
      nit_retrieve-item _ i ∙ ap done (item-set h.ix i i e inside ∙ (rw same refl))

  pub set-IsCounted :
      (n : ℕ) (e : Option (List ℕ))
      → n + number (item h.ix i) ≡ h.nentries + number e
      → IsCounted (record h { nentries = n; ix = set h.ix i e })
  set-IsCounted n e balance = record {
    counted = let c = v.counted in omega (arith, count-set h.ix i e inside);
    addressable = let a = v.addressable in omega (arith, length-set h.ix i e);
  }

  written :
      (ptr : List ℕ) (n : ℕ)
      → n + number (item h.ix i) ≡ h.nentries + 1
      → Entered h i ptr (some ptr, record h { nentries = n; ix = set h.ix i (some ptr) })
  written ptr n balance = record {
    answer = refl;
    counted = set-IsCounted n (some ptr) balance;
    own = set-own n (some ptr);
    others = set-others n (some ptr);
  }

  put-Entered :
      (ptr : List ℕ) (e : Option (List ℕ)) → item h.ix i ≡ e → Entered h i ptr (put true h i ptr e)
  unfolding put
  put-Entered ptr none was =
      let c = v.counted in
      let a = v.addressable in
      let wide = count-le (set h.ix i (some ptr)) in
      let same = length-set h.ix i (some ptr) in
      let more = count-set h.ix i (some ptr) inside in
      let now : number (item h.ix i) ≡ 0 = ap number was in written ptr _ (omega arith)
  put-Entered ptr (some vv) was =
      let c = v.counted in
      let a = v.addressable in
      let wide = count-le h.ix in
      let now : number (item h.ix i) ≡ 1 = ap number was in
      let some_item : 0 < h.nentries = omega (arith, count-set h.ix i none inside) in
      elim (Bool-cases (length vv == length ptr)) [
        | inl same ↦ rw same (written ptr _ (omega arith))
        | inr other ↦ rw other (written ptr _ (omega arith))
      ]

  enter-Entered :
      (ptr : List ℕ) → Returns (Entered h i ptr) (load h.ix i >>= λ e. done (put true h i ptr e))
  enter-Entered ptr = rw (item-at h.ix i inside) (returned (put-Entered ptr (item h.ix i) refl))

-- The index after it_extend
abbrev grown : Nit → ℕ → Nit
grown h i = record h { ix = h.ix ++ no_items ((i + it_growsz) % 0x100000000 - length h.ix) }

it_extend-grown :
    (h : Nit) (i : ℕ) → i + it_growsz < 0x100000000 → it_extend true h i ≡ done (some (grown h i))
unfolding it_extend
it_extend-grown h i small =
    let fits : ltb i ((i + it_growsz) % 0x100000000) ≡ true = ground arith in rw fits refl

grown-Entered :
    (h : Nit) (i : ℕ) (ptr : List ℕ)
    → IsCounted h
    → length h.ix ≤ i
    → i + it_growsz < 0x100000000
    → Returns (Entered h i ptr) (load (grown h i).ix i >>= λ e. done (put true (grown h i) i ptr e))
grown-Entered h i ptr v beyond small =
    let n = (i + it_growsz) % 0x100000000 - length h.ix in
    let wide : length (h.ix ++ no_items n) ≡ i + it_growsz =
      omega (arith, length-append h.ix (no_items n), length-no_items n) in
    let counted : IsCounted (grown h i) = record {
      counted =
          let c = v.counted in omega (arith, count-append h.ix (no_items n), count-no_items n);
      addressable = omega (arith, wide);
    } in
    Returns-mono
      (λ r g. record {
        answer = g.answer;
        counted = g.counted;
        own = g.own;
        others = λ j away.
            g.others j away
            ∙ nit_retrieve-item (grown h i) j
            ∙ ap done (item-append_no_items h.ix n j)
            ∙ sym (nit_retrieve-item h j);
      })
      (enter-Entered (grown h i) counted i (omega (arith, wide)) ptr)

-- nit_enter on a table that counts its items and is not read only, at a number below 2 ^ 32 - 1024,
-- ends without a fault if the memory is granted: it returns the bytes, nit_retrieve then finds them
-- at the number and at any other number what it found before, and the table counts its items.
pub nit_enter-Entered :
    (h : Nit) (i : ℕ) (ptr : List ℕ)
    → IsCounted h
    → h.rdonly ≡ false
    → i + it_growsz < 0x100000000
    → Returns (Entered h i ptr) (nit_enter true true h i ptr)
unfolding nit_enter
nit_enter-Entered h i ptr v writable small = elim (lt-cases i (length h.ix)) [
  | inl inside ↦
      let below : leb (length h.ix) i ≡ false = ground arith in
      simp writable (rw below (enter-Entered h v i inside ptr))
  | inr beyond ↦
      let out : leb (length h.ix) i ≡ true = ground arith in
      simp writable (rw (out, it_extend-grown h i small) (grown-Entered h i ptr v beyond small))
]

-- What nit_delete leaves
pub record Deleted (h : Nit) (i : ℕ) (r : Bool × Nit) : Type 0 where
  pub answer : r.0 ≡ is_some (item h.ix i)
  pub counted : IsCounted r.1
  pub own : nit_retrieve r.1 i ≡ done none
  pub others : (j : ℕ) → i ≢ j → nit_retrieve r.1 j ≡ nit_retrieve h j

unchanged : (h : Nit) (i : ℕ) → IsCounted h → item h.ix i ≡ none → Deleted h i (false, h)
unchanged h i v was = record {
  answer = sym (ap is_some was);
  counted = v;
  own = nit_retrieve-item h i ∙ ap done was;
  others = λ j away. refl;
}

-- nit_delete on a table that counts its items and is not read only ends without a fault, its assertion
-- included: it returns 0 exactly if the number has an item, which nit_retrieve then no longer finds;
-- at other numbers it finds what it found before, and the table counts its items.
pub nit_delete-Deleted :
    (h : Nit) (i : ℕ) → IsCounted h → h.rdonly ≡ false → Returns (Deleted h i) (nit_delete h i)
unfolding nit_delete
nit_delete-Deleted h i v writable = elim (lt-cases i (length h.ix)) [
  | inr beyond ↦
      let out : leb (length h.ix) i ≡ true = ground arith in
      simp writable (rw out (returned (unchanged h i v (item-beyond h.ix i beyond))))
  | inl inside ↦
      let below : leb (length h.ix) i ≡ false = ground arith in
      simp writable (rw (below, item-at h.ix i inside) (ends inside (item h.ix i) refl))
]
  where
    ends :
        (inside : i < length h.ix) (e : Option (List ℕ))
        → item h.ix i ≡ e
        → Returns (Deleted h i) (elim e [
          | none ↦ done (false, h)
          | some vv ↦
              if not (ltb 0 h.nentries)
              then fault
              else done (true, record h { nentries = h.nentries - 1; ix = set h.ix i none })
        ])
    ends inside none was = returned (unchanged h i v was)
    ends inside (some vv) was =
        let c = v.counted in
        let now : number (item h.ix i) ≡ 1 = ap number was in
        let balance = count-set h.ix i none inside in
        let some_item : ltb 0 h.nentries ≡ true = ground arith in
        rw some_item (
          returned (record {
            answer = sym (ap is_some was);
            counted = set-IsCounted h v i inside _ none (omega arith);
            own = set-own h v i inside _ none;
            others = set-others h v i inside _ none;
          }))
