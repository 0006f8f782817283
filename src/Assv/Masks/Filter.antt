-- ===== src/Assv/Masks/Filter.antt =====
-- The two cursors of assv_mask_test, on the documents in the order of assv, test for membership.
use getassoc.Common.{
  ℕ, zero, suc, ◌≤◌, ◌<◌, ◌≡◌, refl, ap, ◌∙◌, Bool, true, false, not, ◌&&◌, ◌||◌, Option, none,
  some, List, [], ◌∷◌, ltb, ◌==◌, arith, map, get_elem?, drop, All, All-mono, Bool-cases, inl, inr,
  lt-cases,
}
use getassoc.Assv.Masks.{Mask, Masks, skip, advance, present, hit, assv_mask_test}

abbrev pub member : ℕ → List ℕ → Bool
member d [] = false
member d (x ∷ xs) = x == d || member d xs

abbrev pub IsSorted : List ℕ → Type 0
IsSorted [] = Unit
IsSorted (x ∷ xs) = All (λ y. x ≤ y) xs × IsSorted xs

-- What the mask's cells say of a document
abbrev pub listed : ℕ → Mask → Bool
listed d s = elim s.m [ none ↦ false | some cells ↦ member d cells ]

-- The cells from `idx` on are sorted, and those before it are less than `d`, or it does not matter.
pub record Awaits (d : ℕ) (cells : List ℕ) (idx : ℕ) : Type 0 where
  pub sorted : IsSorted (drop idx cells)
  pub ahead : (e : ℕ) → d ≤ e → member e (drop idx cells) ≡ member e cells

abbrev pub IsReady : ℕ → Mask → Type 0
IsReady d s = elim s.m [ none ↦ Unit | some cells ↦ Awaits d cells s.idx ]

drop-head :
    (cells : List ℕ) (i x : ℕ) (xs : List ℕ)
    → drop i cells ≡ x ∷ xs
    → (get_elem? cells i ≡ some x) × (drop (suc i) cells ≡ xs)
drop-head [] zero x xs e = cc
drop-head [] (suc i) x xs e = cc
drop-head (y ∷ ys) zero x xs e = (cc, cc)
drop-head (y ∷ ys) (suc i) x xs e = drop-head ys i x xs e

drop-end : (cells : List ℕ) (i : ℕ) → drop i cells ≡ [] → get_elem? cells i ≡ none
drop-end [] i e = refl
drop-end (y ∷ ys) zero e = cc
drop-end (y ∷ ys) (suc i) e = drop-end ys i e

member-below : (d : ℕ) (xs : List ℕ) → All (λ y. d < y) xs → member d xs ≡ false
member-below d [] h = refl
member-below d (x ∷ xs) h = let (a, b) = h in let rest = member-below d xs b in ground arith

first-member : (d x : ℕ) (xs : List ℕ) → d ≤ x → All (λ y. x ≤ y) xs → (x == d) ≡ member d (x ∷ xs)
first-member d x xs h s = elim (lt-cases d x) [
  | inl under ↦ let rest = member-below d xs (All-mono xs (λ y k. omega arith) s) in ground arith
  | inr over ↦ ground arith
]

abbrev Found : ℕ → List ℕ → ℕ → Type 0
Found d cells i = hit d (record { m = some cells; idx = i }) ≡ member d cells

skip-Found :
    (d : ℕ) (cells ys : List ℕ) (i : ℕ)
    → drop i cells ≡ ys
    → Awaits d cells i
    → Awaits d cells (skip d ys i) × Found d cells (skip d ys i)
unfolding skip hit
skip-Found d cells [] i e a =
    let none_left : false ≡ member d cells = rw e at (a.ahead d (omega arith)) in
    (a, rw (drop-end cells i e, hit) none_left)
skip-Found d cells (x ∷ ys) i e a =
    let (here, next) = drop-head cells i x ys e in
    let sorted : All (λ y. x ≤ y) ys × IsSorted ys = rw e at a.sorted in
    elim (Bool-cases (ltb x d)) [
      | inl less ↦ rw less (
          skip-Found d cells ys (suc i) next (record {
            sorted = rw next (sorted.1);
            ahead = λ e' le.
                let same : member e' (x ∷ ys) ≡ member e' cells = rw e at (a.ahead e' le) in
                let lt : x < d = ground arith in
                let fewer : member e' ys ≡ member e' (x ∷ ys) = ground arith in
                rw next (fewer ∙ same);
          }))
      | inr not_less ↦
          let le : d ≤ x = ground arith in
          let same : member d (x ∷ ys) ≡ member d cells = rw e at (a.ahead d (omega arith)) in
          rw (not_less, here, hit) (a, first-member d x ys le sorted.0 ∙ same)
    ]

-- The document's test against one mask: what it answers, and that the mask stays fit for the next
record Advanced (d : ℕ) (s t : Mask) : Type 0 where
  ready : IsReady d t
  answer : (present t && hit d t) ≡ listed d s
  same_array : t.m ≡ s.m

advance-Advanced :
    (d : ℕ) (m : Option (List ℕ)) (idx : ℕ)
    → IsReady d (record { m = m; idx = idx })
    → Advanced d (record { m = m; idx = idx }) (advance d (record { m = m; idx = idx }))
unfolding advance present
advance-Advanced d none idx r = record { ready = tt; answer = refl; same_array = refl }
advance-Advanced d (some cells) idx r =
    let (a, f) = skip-Found d cells (drop idx cells) idx refl r in
    record { ready = a; answer = f; same_array = refl }

IsReady-mono :
    (d e : ℕ)
    → d ≤ e
    → (m : Option (List ℕ)) (idx : ℕ) → IsReady d (record { m = m; idx = idx })
    → IsReady e (record { m = m; idx = idx })
IsReady-mono d e le none idx r = tt
IsReady-mono d e le (some cells) idx r = record {
  sorted = r.sorted;
  ahead = λ f l. r.ahead f (omega arith);
}

-- Whether the masks let the document pass
abbrev pub allows : Masks → ℕ → Bool
allows k d = listed d k.p || (present k.n && not (listed d k.n))

abbrev pub IsFit : ℕ → Masks → Type 0
IsFit d k = IsReady d k.p × IsReady d k.n

same-listed : (e : ℕ) (s t : Mask) → t.m ≡ s.m → listed e t ≡ listed e s
same-listed e s t q = rw q refl

same-present : (s t : Mask) → t.m ≡ s.m → present t ≡ present s
unfolding present
same-present s t q = rw q refl

record Tested (d : ℕ) (k : Masks) (r : Bool × Masks) : Type 0 where
  answer : r.0 ≡ allows k d
  fit : IsFit d r.1
  same_p : r.1.p.m ≡ k.p.m
  same_n : r.1.n.m ≡ k.n.m

assv_mask_test-Tested : (d : ℕ) (k : Masks) → IsFit d k → Tested d k (assv_mask_test d k)
unfolding assv_mask_test
assv_mask_test-Tested d k (rp, rn) =
    let p = advance-Advanced d k.p.m k.p.idx rp in
    let n = advance-Advanced d k.n.m k.n.idx rn in
    let t = advance d k.n in
    let other : (present t && not (hit d t)) ≡ (present k.n && not (listed d k.n)) =
      other_way (present t) (hit d t) (n.answer)
      ∙ ap (λ b. b && not (listed d k.n)) (same-present k.n t n.same_array) in
    elim (Bool-cases (listed d k.p)) [
      | inl in_p ↦
          rw (p.answer, in_p)
            (record {
              answer = rw in_p refl;
              fit = (p.ready, rn);
              same_p = p.same_array;
              same_n = refl;
            })
      | inr not_in_p ↦ elim (Bool-cases (present k.n && not (listed d k.n))) [
        | inl passes ↦
            rw (p.answer, not_in_p, other, passes)
              (record {
                answer = rw (not_in_p, passes) refl;
                fit = (p.ready, n.ready);
                same_p = p.same_array;
                same_n = n.same_array;
              })
        | inr fails ↦
            rw (p.answer, not_in_p, other, fails)
              (record {
                answer = rw (not_in_p, fails) refl;
                fit = (p.ready, n.ready);
                same_p = p.same_array;
                same_n = n.same_array;
              })
      ]
    ]
  where
    other_way : (b h : Bool) {l : Bool} → (b && h) ≡ l → (b && not h) ≡ (b && not l)
    other_way true h e = ap not e
    other_way false h e = refl

-- The tests that assv makes on the documents `ds`, in this order
abbrev pub mask_tests : List ℕ → Masks → List Bool
mask_tests [] k = []
mask_tests (d ∷ ds) k = let r = assv_mask_test d k in r.0 ∷ mask_tests ds r.1

allows-same :
    (k k' : Masks) (ds : List ℕ)
    → k'.p.m ≡ k.p.m
    → k'.n.m ≡ k.n.m
    → map (allows k') ds ≡ map (allows k) ds
unfolding present
allows-same k k' [] a b = refl
allows-same k k' (d ∷ ds) a b = rw (a, b, allows-same k k' ds a b) refl

mask_tests-fit :
    (ds : List ℕ) (k : Masks)
    → IsSorted ds
    → All (λ d. IsFit d k) ds
    → mask_tests ds k ≡ map (allows k) ds
mask_tests-fit [] k s h = refl
mask_tests-fit (d ∷ ds) k s h =
    let (later, rest) = s in
    let t = assv_mask_test-Tested d k h.0 in
    let k' = (assv_mask_test d k).1 in
    let ready : All (λ e. IsFit e k') ds =
      All-mono ds
        (λ e le. (
          IsReady-mono d e le k'.p.m k'.p.idx t.fit.0,
          IsReady-mono d e le k'.n.m k'.n.idx t.fit.1,
        ))
        later in
    rw (t.answer, mask_tests-fit ds k' rest ready, allows-same k k' ds t.same_p t.same_n) refl

abbrev unread : Option (List ℕ) → Mask
unread m = record { m = m; idx = 0 }

abbrev pub IsSortedMask : Option (List ℕ) → Type 0
IsSortedMask m = elim m [ none ↦ Unit | some cells ↦ IsSorted cells ]

unread-IsReady : (d : ℕ) (m : Option (List ℕ)) → IsSortedMask m → IsReady d (unread m)
unread-IsReady d none s = tt
unread-IsReady d (some cells) s = record { sorted = s; ahead = λ e le. refl }

-- On documents in ascending order, with masks that are NULL or sorted and of which nothing is read,
-- assv_mask_test answers for each document whether the first mask lists it, or the second is not
-- NULL and does not list it.
pub mask_tests-allows :
    (ds : List ℕ) (p n : Option (List ℕ))
    → IsSorted ds
    → IsSortedMask p
    → IsSortedMask n
    → mask_tests ds (record { p = unread p; n = unread n })
      ≡ map (allows (record { p = unread p; n = unread n })) ds
mask_tests-allows ds p n s sp sn = mask_tests-fit ds _ s (everywhere ds)
  where
    everywhere : (ds : List ℕ) → All (λ d. IsReady d (unread p) × IsReady d (unread n)) ds
    everywhere [] = tt
    everywhere (d ∷ ds) = ((unread-IsReady d p sp, unread-IsReady d n sn), everywhere ds)
