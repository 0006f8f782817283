-- ===== src/Fss/Query.antt =====
-- xfss decides the query, which is a disjunction of conjunctions.
use getassoc.Common.{
  ℕ, ◌≡◌, refl, sym, ap, ◌∙◌, Bool, true, false, not, ◌&&◌, ◌||◌, Option, none, some, List, [], ◌∷◌,
  if◌then◌else◌, length, take, Returns, returned, Returns-mono, Returns->>=, Run, done, ◌>>=◌,
}
use getassoc.Fss.{Art, SimpleQuery, Arts, Answer, disjoin}
use getassoc.Fss.Merge.{has, IsAscending}
use getassoc.Fss.Combine.{says, shown, Shown, Found, signed, Says, disjoin-Says}

-- How a query decides a document, if `hits` is what each pattern finds
module _ (hits : SimpleQuery → ℕ → Bool) where
  abbrev pub all_of : List SimpleQuery → ℕ → Bool
  all_of [] id = true
  all_of (q ∷ qs) id = signed q.negativep (hits q id) && all_of qs id

  abbrev pub any_of : List (List SimpleQuery) → ℕ → Bool
  any_of [] id = false
  any_of (qi ∷ query) id = all_of qi id || any_of query id

-- The arrays that xfss leaves, of which the answers are the first elements
pub record Decided (f : ℕ → Bool) (rp rn : Option ℕ) (p n : Answer) : Type 0 where
  pub positive : List Art
  pub negative : List Art
  pub ascending : IsAscending positive × IsAscending negative
  pub decides : (id : ℕ) → (has id positive || (n.negativep && not (has id negative))) ≡ f id
  pub answers :
      (p.arts ≡ (elim rp as (λ o. List Art) [ none ↦ positive | some k ↦ take k positive ]))
      × (p.total ≡ length positive)
  pub left_out :
      (n.arts ≡ (elim rn as (λ o. List Art) [ none ↦ negative | some k ↦ take k negative ]))
      × (n.total ≡ length negative)

-- -1, or both answers
pub data Outcome (f : ℕ → Bool) (rp rn : Option ℕ) : Option (Answer × Answer) → Type 0 where
  failed : Outcome f rp rn none
  decided : {p n : Answer} → Decided f rp rn p n → Outcome f rp rn (some (p, n))

or_assoc : (x y z : Bool) → ((x || y) || z) ≡ (x || (y || z))
or_assoc true y z = refl
or_assoc false y z = refl

or_swap : (x y z : Bool) → ((x || z) || y) ≡ ((x || y) || z)
or_swap true y z = refl
or_swap false true true = refl
or_swap false true false = refl
or_swap false false true = refl
or_swap false false false = refl

module _ (x_simple_query : SimpleQuery → Run (Option (Option (List Art))))
    (hits : SimpleQuery → ℕ → Bool)
    (finds : (q : SimpleQuery) → Returns (Found (hits q)) (x_simple_query q)) where
  data Maybe (f : ℕ → Bool) : Option Arts → Type 0 where
    failed : Maybe f none
    there : {t : Arts} → Says f t → Maybe f (some t)

  -- `x` or `z`, which answers a set or is not there yet
  data Gathered (n : Bool) (f : ℕ → Bool) : Arts → Type 0 where
    empty : ((id : ℕ) → f id ≡ false) → Gathered n f (record { negativep = false; arts = none })
    gathered :
        {t : Arts} (h : ℕ → Bool)
        → Shown n h t
        → ((id : ℕ) → signed n (h id) ≡ f id)
        → Gathered n f t

  gather :
      (n : Bool) (f g : ℕ → Bool) (u y : Arts)
      → Gathered n f u
      → (h : ℕ → Bool) → Shown n h y
      → ((id : ℕ) → signed n (h id) ≡ g id)
      → Returns
          (Gathered n (λ id. f id || g id))
          (elim u.arts [ none ↦ done y | some a ↦ disjoin u y ])
  gather n f g u y (empty no_one) h s is =
      returned (gathered h s (λ id. is id ∙ sym (ap (λ b. b || g id) (no_one id))))
  gather n f g u y (gathered h0 (shown up here) is0) h s is =
      Returns-mono (λ t m. gathered m.0 m.1 (λ id. m.2 id ∙ (rw (is0 id, is id) refl)))
        (disjoin-Says n h0 h u y (shown up here) s)

  -- Both arrays of xfss, which answer a set together
  data Both (f : ℕ → Bool) : Option (Arts × Arts) → Type 0 where
    failed : Both f none
    both :
        {x z : Arts} (g k : ℕ → Bool)
        → Gathered false g x
        → Gathered true k z
        → ((id : ℕ) → (g id || k id) ≡ f id)
        → Both f (some (x, z))

  Both-same :
      {f g : ℕ → Bool} {o : Option (Arts × Arts)} → ((id : ℕ) → f id ≡ g id) → Both f o → Both g o
  Both-same e failed = failed
  Both-same e (both g k p n is) = both g k p n (λ id. is id ∙ e id)

  -- What is done with a conjunction
  step :
      (f g k : ℕ → Bool) (x z : Arts) (r : ℕ → Bool)
      (rest : Arts → Arts → Run (Option (Arts × Arts)))
      → Gathered false g x
      → Gathered true k z
      → ((g k : ℕ → Bool) (x z : Arts)
          → Gathered false g x
          → Gathered true k z
          → Returns (Both (λ id. (g id || k id) || r id)) (rest x z))
      → (o : Option Arts) → Maybe f o
      → Returns (Both (λ id. (g id || k id) || (f id || r id))) (elim o [
        | none ↦ done none
        | some y ↦
            let u = if y.negativep then z else x in
            (elim u.arts [ none ↦ done y | some a ↦ disjoin u y ]) >>= λ t.
            rest (if y.negativep then x else t) (if y.negativep then t else z)
      ])
  step f g k x z r rest p n again none m = returned failed
  step f g k x z r rest p n again (some y) (there (says true h (shown up here) is)) =
      Returns->>= (gather true k f z y n h (shown up here) is) λ t n'.
        Returns-mono
          (λ o b.
            Both-same
              (λ id.
                ap (λ b. b || r id) (sym (or_assoc (g id) (k id) (f id)))
                ∙ or_assoc (g id || k id) (f id) (r id))
              b)
          (again g _ x t p n')
  step f g k x z r rest p n again (some y) (there (says false h (shown up here) is)) =
      Returns->>= (gather false g f x y p h (shown up here) is) λ t p'.
        Returns-mono
          (λ o b.
            Both-same
              (λ id.
                ap (λ b. b || r id) (or_swap (g id) (k id) (f id))
                ∙ or_assoc (g id || k id) (f id) (r id))
              b)
          (again _ k t z p' n)
