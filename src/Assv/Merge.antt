-- ===== src/Assv/Merge.antt =====
-- The main loop of `assv`: the vectors of the query are merged, and the cells of one document are
-- passed together to `eject`, here `sink`.
pub mod Step
pub mod Groups
pub mod Turns
pub mod Whole
use getassoc.Common.{
  ℕ, zero, suc, ◌+◌, Bool, Option, none, some, List, [], ◌∷◌, ◌++◌, leb, ◌==◌, if◌then◌else◌,
  length, Run, done, out_of_fuel, ◌>>=◌,
}
use getassoc.Corpus.{XrElem}
use getassoc.Priq.{Priq, top, emptyp, rplatop, deq}
use getassoc.Assv.{Container, Hit, ccompar}
use getassoc.Assv.TopK.{read_top}

-- `d`, and the first `nh` cells of `h`
pub record Group (D : Type 0) : Type 0 where
  pub d : ℕ
  pub h : List (Hit D)

module _ {D : Type 0} where
  abbrev pub hit_of : Container D → XrElem → Hit D
  hit_of t e = record { qidx = t.qidx; wq = t.wq; dp = e }

  -- `t` after `++t->ep`, when it is still below `ep_end`, and `t->epid = t->ep->id`
  abbrev pub next_cell : Container D → XrElem → List XrElem → Container D
  next_cell t e es = record t { epid = e.id; ep = e; rest = es }

  -- What follows the note of a cell of `t`, the container at the queue's top
  unfoldable pub step : Priq (Container D) → Container D → Run (Priq (Container D))
  step a t = elim t.rest [
    | [] ↦ (deq ccompar a >>= λ r. done r.1)
    | e ∷ es ↦ (rplatop ccompar a (next_cell t e es) >>= λ r. done r.1)
  ]

  abbrev pub push : Container D → Group D → Group D
  push t g = record { d = g.d; h = g.h ++ hit_of t t.ep ∷ [] }

  module _ {S : Type 0} (nq : ℕ) (sink : ℕ → List (Hit D) → S → Run (Option S)) where
    -- From `if (nh == 0)` to the test of `nh >= nq`; `none` is the return of NULL.
    unfoldable pub flush : ℕ → Group D → S → Run (Option (Group D × S))
    flush epid g s =
        let fresh : Group D = record { d = epid; h = [] } in
        if length g.h == 0
        then done (some (fresh, s))
        else if epid == g.d
        then done (some (g, s))
        else if g.d == 0
        then done (some (fresh, s))
        else (sink g.d g.h s >>= λ o. elim o [
          | none ↦ done none
          | some s' ↦ done (some (fresh, s'))
        ])

    -- `while (!PRIQ_EMPTYP(a))`, on fuel
    unfoldable pub merge_loop : ℕ → Priq (Container D) → Group D → S → Run (Option (Group D × S))
    unfolding step flush
    merge_loop zero a g s = out_of_fuel
    merge_loop (suc n) a g s =
        let visit : Run (Option (Group D × S)) = read_top (top a) >>= λ t. flush t.epid g s >>= λ r.
        elim r [
          | none ↦ done none
          | some u ↦
              let further : Run (Option (Group D × S)) =
                step a t >>= λ a'. merge_loop n a' (push t u.0) u.1 in
              if leb nq (length u.0.h) then done none else further
        ] in
        if emptyp a then done (some (g, s)) else visit

    -- `if (nh != 0)`, behind the loop
    unfoldable pub last_group : Option (Group D × S) → Run (Option S)
    last_group r = elim r [
      | none ↦ done none
      | some u ↦ if length u.0.h == 0 then done (some u.1) else sink u.0.d u.0.h u.1
    ]

    -- The loop and the last call of `eject`, on a fuel of one more than there are cells
    unfoldable pub merge : ℕ → Priq (Container D) → S → Run (Option S)
    unfolding merge_loop last_group
    merge cells a s = merge_loop (suc cells) a (record { d = 0; h = [] }) s >>= λ r. last_group r
