-- ===== src/Fss/Samples.antt =====
-- Runs of xfss, and its theorem at a query.
use getassoc.Common.{
  ℕ, ◌≡◌, refl, Ordering, Bool, true, false, Option, none, some, List, [], ◌∷◌, ◌==◌, if◌then◌else◌,
  Run, done,
}
use getassoc.Fss.{
  Art, SimpleQuery, acompar, fill_dummy, uniq_loop, uniq_qq, join_loop, join_pn_loop, union_loop,
  join_qq, union_qq, join_qq_pn, conjoin, disjoin, conjunction, disjunction, answer, xfss,
}
use getassoc.Fss.Merge.{has}

abbrev art : ℕ → ℕ → Art
art id disp = record { id = id; segid = 0; disp = disp }

abbrev pattern : ℕ → Bool → SimpleQuery
pattern c negativep = record { negativep = negativep; pattern = c ∷ []; options = c; segments = 1 }

-- The pattern with options 0 is found in the documents 1 and 3, any other in 3 and 5.
abbrev found_by : SimpleQuery → List Art
found_by q = if q.options == 0 then art 1 4 ∷ art 3 2 ∷ art 3 7 ∷ [] else art 3 0 ∷ art 5 1 ∷ []

abbrev search : SimpleQuery → Run (Option (Option (List Art)))
search q = done (some (some (found_by q)))

abbrev hits : SimpleQuery → ℕ → Bool
hits q id = has id (found_by q)

-- The first pattern without the second, or neither of the two
abbrev query : List (List SimpleQuery)
query = (pattern 0 false ∷ pattern 1 true ∷ []) ∷ (pattern 0 true ∷ pattern 1 true ∷ []) ∷ []

abbrev in_order : Art → Art → Bool
in_order a b = elim (acompar a b) [ Ordering.lt ↦ true | Ordering.eq ↦ true | Ordering.gt ↦ false ]

orders_arts : (in_order (art 3 2) (art 3 7) ≡ true) × (in_order (art 3 7) (art 1 9) ≡ false)
unfolding acompar
orders_arts = (refl, refl)

answers_both :
    xfss search false query none (some 2)
    ≡ done (
        some (
          record { negativep = false; arts = art 1 4 ∷ []; total = 1 },
          record { negativep = true; arts = art 1 4 ∷ art 3 2 ∷ []; total = 3 },
        ))
unfolding xfss disjunction conjunction conjoin disjoin join_qq union_qq join_qq_pn uniq_qq uniq_loop
    fill_dummy join_loop join_pn_loop union_loop answer
answers_both = refl
