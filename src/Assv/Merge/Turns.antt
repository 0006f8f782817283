-- ===== src/Assv/Merge/Turns.antt =====
-- The loop of `assv`, turn by turn.
use getassoc.Common.{
  ℕ, suc, ◌<◌, ◌≡◌, refl, ap, true, false, Option, none, some, List, [], ◌∷◌, ◌++◌, leb, ◌==◌,
  if◌then◌else◌, arith, length, All, Run, done, fault, out_of_fuel, ◌>>=◌,
}
use getassoc.Priq.{Priq, root, top, emptyp}
use getassoc.Assv.{Container, Hit}
use getassoc.Assv.TopK.{read_top}
use getassoc.Assv.Merge.{Group, merge_loop, last_group, flush, step, push}

module _ {D : Type 0} where
  abbrev pub all_hits : List (Group D) → List (Hit D)
  all_hits [] = []
  all_hits (g ∷ gs) = g.h ++ all_hits gs

  -- Documents that ascend from `d`, each with the cells that are its own, at least one
  abbrev pub AreGroups : ℕ → List (Group D) → Type 0
  AreGroups d [] = Unit
  AreGroups d (g ∷ gs) =
      (d < g.d) × (0 < length g.h) × All (λ x. x.dp.id ≡ g.d) g.h × AreGroups g.d gs

  module _ {S : Type 0} (nq : ℕ) (sink : ℕ → List (Hit D) → S → Run (Option S)) where
    -- `eject`, called for each of the documents, up to the first call that fails
    abbrev pub eject_all : List (Group D) → S → Run (Option S)
    eject_all [] s = done (some s)
    eject_all (g ∷ gs) s =
        sink g.d g.h s >>= λ o. elim o [ none ↦ done none | some s' ↦ eject_all gs s' ]

    pub flush-same :
        (d : ℕ) (h : List (Hit D)) (s : S)
        → 0 < length h
        → flush nq sink d (record { d = d; h = h }) s ≡ done (some (record { d = d; h = h }, s))
    unfolding flush
    flush-same d h s p =
        let long : (length h == 0) ≡ false = ground arith in
        let same : (d == d) ≡ true = ground arith in rw (long, same) refl

    pub flush-next :
        (e d : ℕ) (h : List (Hit D)) (s : S)
        → 0 < length h
        → 0 < d
        → d < e
        → flush nq sink e (record { d = d; h = h }) s ≡ (
            sink d h s >>= λ o. elim o [
              | none ↦ done none
              | some s' ↦ done (some (record { d = e; h = [] }, s'))
            ])
    unfolding flush
    flush-next e d h s p q r =
        let long : (length h == 0) ≡ false = ground arith in
        let differs : (e == d) ≡ false = ground arith in
        let pos : (d == 0) ≡ false = ground arith in rw (long, differs, pos) refl

    -- One turn of the loop, when the test of `nh` passes
    pub visit :
        (n : ℕ) (a a' : Priq (Container D)) (t : Container D) (g : Group D) (s : S)
        → 0 < length a.items
        → top a ≡ root t
        → step a t ≡ done a'
        → merge_loop nq sink (suc n) a g s ≡ (
            flush nq sink t.epid g s >>= λ r. elim r [
              | none ↦ done none
              | some u ↦
                  if leb nq (length u.0.h)
                  then done none
                  else merge_loop nq sink n a' (push t u.0) u.1
            ])
    unfolding merge_loop emptyp read_top
    visit n a a' t g s p shown e =
        let nonempty : (length a.items == 0) ≡ false = ground arith in
        rw (nonempty, shown)
          (ap
            (λ z. flush nq sink t.epid g s >>= λ r. elim r [
              | none ↦ done none
              | some u ↦
                  if leb nq (length u.0.h)
                  then done none
                  else (z >>= λ a''. merge_loop nq sink n a'' (push t u.0) u.1)
            ])
            e)

    pub finished :
        (n : ℕ) (a : Priq (Container D)) (d : ℕ) (h : List (Hit D)) (s : S)
        → length a.items ≡ 0
        → 0 < length h
        → (merge_loop nq sink (suc n) a (record { d = d; h = h }) s >>= λ r. last_group nq sink r)
          ≡ sink d h s
    unfolding merge_loop emptyp last_group
    finished n a d h s e p =
        let long : (length h == 0) ≡ false = ground arith in
        let empty : (length a.items == 0) ≡ true = ground arith in rw (empty, long) refl

    pub whole_run :
        (r : Run (Option S)) → r ≡ (r >>= λ o. elim o [ none ↦ done none | some s ↦ done (some s) ])
    whole_run (done none) = refl
    whole_run (done (some s)) = refl
    whole_run fault = refl
    whole_run out_of_fuel = refl

    abbrev pub fresh_after : ℕ → Option S → Run (Option (Group D × S))
    fresh_after e o = elim o [
      | none ↦ done none
      | some s' ↦ done (some (record { d = e; h = [] }, s'))
    ]

    pub after_sink :
        (e : ℕ) (f : Group D × S → Run (Option (Group D × S))) (k : S → Run (Option S))
        → ((s : S) → (f (record { d = e; h = [] }, s) >>= λ r. last_group nq sink r) ≡ k s)
        → (r : Run (Option S))
        → ((r >>= fresh_after e)
            >>= (λ w. elim w [ none ↦ done none | some u ↦ f u ])
            >>= (λ w. last_group nq sink w))
          ≡ (r >>= λ o. elim o [ none ↦ done none | some s' ↦ k s' ])
    unfolding last_group
    after_sink e f k q (done none) = refl
    after_sink e f k q (done (some s)) = q s
    after_sink e f k q fault = refl
    after_sink e f k q out_of_fuel = refl
