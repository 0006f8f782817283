-- ===== src/Fss/Combine.antt =====
-- The operations of fss.c on two arrays with their signs, as operations on the sets that they answer.
use getassoc.Common.{
  ℕ, ◌+◌, ◌≤◌, ◌<◌, ◌≡◌, refl, sym, ap, ◌∙◌, Bool, true, false, not, ◌&&◌, ◌||◌, Option, none, some,
  List, [], ◌∷◌, arith, ◌==◌, if◌then◌else◌, length, All, All-mono, inl, inr, Bool-cases, Returns,
  returned, Returns-mono, Returns->>=, Run,
}
use getassoc.Fss.{
  Art, Arts, fill_dummy, uniq_loop, uniq_qq, join_loop, union_loop, join_pn_loop, on_arrays,
  join_qq, union_qq, join_qq_pn, conjoin, disjoin,
}
use getassoc.Fss.Merge.{
  has, IsAbove, IsAscending, Merged, and_not, join_loop-Merged, join_pn_loop-Merged,
  union_loop-Merged,
}

-- Documents in order, of which one can stand there more than once
abbrev pub IsSorted : List Art → Type 0
IsSorted [] = Unit
IsSorted (a ∷ arts) = All (λ b. a.id ≤ b.id) arts × IsSorted arts

-- What uniq_qq leaves behind the document `id`
record Uniq (id : ℕ) (arts r : List Art) : Type 0 where
  ascending : IsAscending r
  above : IsAbove id r
  others : (x : ℕ) → (id == x) ≡ false → has x r ≡ has x arts

uniq_loop-Uniq :
    (id : ℕ) (arts : List Art)
    → All (λ b. id ≤ b.id) arts
    → IsSorted arts
    → Uniq id arts (uniq_loop id arts)
unfolding uniq_loop
uniq_loop-Uniq id [] h s = record { ascending = tt; above = tt; others = λ x e. refl }
uniq_loop-Uniq id (a ∷ arts) (le, h) (h', s) = elim (Bool-cases (a.id == id)) [
  | inl again ↦
      let u = uniq_loop-Uniq id arts h s in
      let same : a.id ≡ id = ground arith in
      rw again (record {
        ascending = u.ascending;
        above = u.above;
        others = λ x e. let e' : (a.id == x) ≡ false = ground arith in rw e' (u.others x e);
      })
  | inr new ↦
      let u = uniq_loop-Uniq a.id arts h' s in
      let lt : id < a.id = ground arith in
      rw new (record {
        ascending = (u.above, u.ascending);
        above = (lt, All-mono (uniq_loop a.id arts) (λ b k. omega arith) u.above);
        others = λ x e. elim (Bool-cases (a.id == x)) [
          | inl f ↦ rw f refl
          | inr f ↦ rw f (u.others x f)
        ];
      })
]

-- An array that is there, in order, with an element for each document of the set
pub data Shown (n : Bool) (f : ℕ → Bool) : Arts → Type 0 where
  shown :
      {a : List Art}
      → IsAscending a
      → ((id : ℕ) → has id a ≡ f id)
      → Shown n f (record { negativep = n; arts = some a })

-- What an answer of x_simple_query says of a set
pub data Found (f : ℕ → Bool) : Option (Option (List Art)) → Type 0 where
  failed : Found f none
  nothing : ((id : ℕ) → f id ≡ false) → Found f (some none)
  found :
      {arts : List Art}
      → IsSorted arts
      → ((id : ℕ) → has id arts ≡ f id)
      → Found f (some (some arts))

pub uniq_qq-Shown :
    (n : Bool) (f : ℕ → Bool) (arts : Option (List Art))
    → Found f (some arts)
    → Shown n f (uniq_qq (record { negativep = n; arts = arts }))
unfolding uniq_qq fill_dummy
uniq_qq-Shown n f none (nothing empty) = shown tt (λ id. sym (empty id))
uniq_qq-Shown n f (some []) (found s is) = shown tt is
uniq_qq-Shown n f (some (a ∷ arts)) (found (h, s) is) =
    let u = uniq_loop-Uniq a.id arts h s in
    shown (u.above, u.ascending)
      (λ id. elim (Bool-cases (a.id == id)) [
        | inl e ↦ (rw e refl) ∙ is id
        | inr e ↦ ap (λ b. if a.id == id then true else b) (u.others id e) ∙ is id
      ])

-- The set that an array with this sign answers
abbrev pub signed : Bool → Bool → Bool
signed true b = not b
signed false b = b

module _ (op : Bool → Bool → Bool) (loop : ℕ → List Art → List Art → Run (List Art))
    (merges : (n : ℕ) (q0 q1 : List Art)
      → IsAscending q0
      → IsAscending q1
      → length q0 + length q1 < n
      → Returns (Merged op q0 q1) (loop n q0 q1)) where
  on_arrays-Shown :
      (l m n : Bool) {f g : ℕ → Bool} {y u : Arts}
      → Shown l f y
      → Shown m g u
      → Returns (Shown n (λ id. op (f id) (g id))) (on_arrays loop n y u)
  on_arrays-Shown l m n (shown {a} up is) (shown {a = b} up' is') =
      Returns->>= (merges (length a + length b + 1) a b up up' (omega arith))
        λ r m. returned (shown m.ascending (λ id. m.found id ∙ (rw (is id, is' id) refl)))

-- Some signed array that answers the set
pub data Says (f : ℕ → Bool) (t : Arts) : Type 0 where
  says : (n : Bool) (h : ℕ → Bool) → Shown n h t → ((id : ℕ) → signed n (h id) ≡ f id) → Says f t

de_morgan : (x y : Bool) → not (x || y) ≡ (not x && not y)
de_morgan true y = refl
de_morgan false y = refl

de_morgan' : (x y : Bool) → not (x && y) ≡ (not x || not y)
de_morgan' true y = refl
de_morgan' false y = refl

and_comm : (x y : Bool) → (x && y) ≡ (y && x)
and_comm true true = refl
and_comm true false = refl
and_comm false true = refl
and_comm false false = refl

pub conjoin-Says :
    (n m : Bool) (f g : ℕ → Bool) (y u : Arts)
    → Shown n f y
    → Shown m g u
    → Returns (Says (λ id. signed n (f id) && signed m (g id))) (conjoin y u)
unfolding conjoin join_qq union_qq join_qq_pn
conjoin-Says false false f g y u (shown up is) (shown up' is') =
    Returns-mono (λ t s. says false _ s (λ id. refl))
      (on_arrays-Shown ◌&&◌ join_loop join_loop-Merged false false false (shown up is)
        (shown up' is'))
conjoin-Says true true f g y u (shown up is) (shown up' is') =
    Returns-mono (λ t s. says true _ s (λ id. de_morgan (f id) (g id)))
      (on_arrays-Shown ◌||◌ union_loop union_loop-Merged true true true (shown up is)
        (shown up' is'))
conjoin-Says true false f g y u (shown up is) (shown up' is') =
    Returns-mono (λ t s. says false _ s (λ id. and_comm (g id) (not (f id))))
      (on_arrays-Shown and_not join_pn_loop join_pn_loop-Merged false true false (shown up' is')
        (shown up is))
conjoin-Says false true f g y u (shown up is) (shown up' is') =
    Returns-mono (λ t s. says false _ s (λ id. refl))
      (on_arrays-Shown and_not join_pn_loop join_pn_loop-Merged false true false (shown up is)
        (shown up' is'))

pub disjoin-Says :
    (n : Bool) (f g : ℕ → Bool) (y u : Arts)
    → Shown n f y
    → Shown n g u
    → Returns
        (λ t.
          (h : ℕ → Bool) × Shown n h t
          × ((id : ℕ) → signed n (h id) ≡ (signed n (f id) || signed n (g id))))
        (disjoin y u)
unfolding disjoin join_qq union_qq
disjoin-Says true f g y u (shown up is) (shown up' is') =
    Returns-mono (λ t s. (_, s, λ id. de_morgan' (f id) (g id)))
      (on_arrays-Shown ◌&&◌ join_loop join_loop-Merged true true true (shown up is) (shown up' is'))
disjoin-Says false f g y u (shown up is) (shown up' is') =
    Returns-mono (λ t s. (_, s, λ id. refl))
      (on_arrays-Shown ◌||◌ union_loop union_loop-Merged false false false (shown up is)
        (shown up' is'))
