-- ===== src/Assv/Search.antt =====
-- `eject`, and `assv` from the merge to the result. The measure's functions and the tests are
-- arguments, as the pointers to functions are in the code.
pub mod Eject
pub mod Best
use getassoc.Common.{
  ℕ, suc, ◌+◌, ◌%◌, Bool, true, false, Option, none, some, List, [], ◌∷◌, ltb, ◌==◌, if◌then◌else◌,
  arith, Run, done, ◌>>=◌,
}
use getassoc.Corpus.{XrElem}
use getassoc.Priq.{Priq}
use getassoc.Assv.{Double, Container, Hit, Ovec}
use getassoc.Assv.TopK.{updateq, results}
use getassoc.Assv.Merge.{merge}

-- `struct test_c`. A function takes its cookie, and returns it as it leaves it.
pub record TestC (D C : Type 0) : Type 0 where
  pub func : ℕ → List (Hit D) → C → Run (Bool × C)
  pub cookie : C
  pub killed : ℕ
  pub tested : ℕ

module _ {D C : Type 0} (d : ℕ) (h : List (Hit D)) where
  -- The loop over `g->tests`
  unfoldable pub run_tests : List (TestC D C) → Run (Bool × List (TestC D C))
  run_tests [] = done (true, [])
  run_tests (tp ∷ tests) =
      let func = tp.func in
      func d h tp.cookie >>= λ r.
      if r.0
      then (run_tests tests >>= λ q.
          done (q.0, record tp { cookie = r.1; tested = tp.tested + 1 } ∷ q.1))
      else done (
        false,
        record tp { cookie = r.1; tested = tp.tested + 1; killed = tp.killed + 1 } ∷ tests,
      )

module _ (F : Double) where
  open F use {carrier, zero_value, nonzero, add, mul, div}

  -- The functions of `g->f`, of which each can be NULL; the query is theirs to look up.
  pub record Simfuns : Type 0 where
    pub wd : Option (XrElem → ℕ → carrier)
    pub norm : Option (ℕ → Ovec carrier → carrier)
    pub weight : Option (carrier → ℕ → Ovec carrier → List (Hit carrier) → carrier)

  -- `wsum`, `TF_d` and `DF_d`
  pub record Sums : Type 0 where
    pub wsum : carrier
    pub tf_d : ℕ
    pub df_d : ℕ

  -- `struct priq *b`, `g->tests` and `total`
  pub record State (C : Type 0) : Type 0 where
    pub b : Priq (Ovec carrier)
    pub tests : List (TestC carrier C)
    pub total : ℕ

  module _ (f : Simfuns) (nq : ℕ) where
    -- `i == nh`: all cells are those of the Boolean condition's words
    unfoldable pub from_query : List (Hit carrier) → Bool
    from_query [] = false
    from_query (x ∷ h) = if ltb x.qidx nq then true else from_query h

    -- TF_d has no bound here, and the assertion on the document of the cells is left out.
    unfoldable pub sum_loop : List (Hit carrier) → Sums → Sums
    sum_loop [] s = s
    sum_loop (x ∷ h) s = sum_loop h (
        if ltb x.qidx nq
        then record {
          wsum = elim f.wd [ none ↦ s.wsum | some wd ↦ add s.wsum (mul x.wq (wd x.dp x.qidx)) ];
          tf_d = s.tf_d + x.dp.freq;
          df_d = s.df_d + 1;
        }
        else s)

    -- The document's record, its weight last
    unfoldable pub score : ℕ → List (Hit carrier) → Ovec carrier
    unfolding sum_loop
    score d h =
        let s = sum_loop h (record { wsum = zero_value; tf_d = 0; df_d = 0 }) in
        let dd : Ovec carrier = record {
          id = d % 0x100000000;
          small = omega arith;
          weight = zero_value;
          tf_d = s.tf_d;
          df_d = s.df_d;
        } in
        let normed : carrier =
          if nonzero s.wsum
          then elim f.norm [
            | none ↦ s.wsum
            | some norm ↦ if nonzero (norm d dd) then div s.wsum (norm d dd) else s.wsum
          ]
          else s.wsum in
        record dd { weight = elim f.weight [ none ↦ normed | some weight ↦ weight normed d dd h ] }

    -- `eject` up to `updateq`: `none` if the document is killed
    unfoldable pub judge :
        {C : Type 0}
        → ℕ
        → List (Hit carrier)
        → List (TestC carrier C)
        → Run (Option (Ovec carrier) × List (TestC carrier C))
    unfolding from_query run_tests score
    judge d h tests =
        if from_query h
        then (run_tests d h tests >>= λ r. done (if r.0 then some (score d h) else none, r.1))
        else done (none, tests)

    -- `eject`, and the count of `total`; `none` is -1
    unfoldable pub eject :
        {C : Type 0} → (ℕ → Bool) → ℕ → ℕ → List (Hit carrier) → State C → Run (Option (State C))
    unfolding judge
    eject granted nd d h s = judge d h s.tests >>= λ r. elim r.0 [
      | none ↦ done (some (record s { tests = r.1 }))
      | some dd ↦
          (updateq F granted nd s.b dd >>= λ u.
          if u.0
          then done (some (record { b = u.1; tests = r.1; total = s.total + 1 }))
          else done none)
    ]

    -- `assv`, from the merge on; `cells` is how many cells the query's vectors have. The result is
    -- `*totalp` and the array.
    unfoldable pub assv :
        {C : Type 0}
        → (ℕ → Bool)
        → ℕ
        → ℕ
        → ℕ
        → Priq (Container carrier)
        → State C
        → Run (Option (ℕ × List (Ovec carrier)))
    unfolding eject
    assv granted nd nh_max cells a s =
        if nd == 0
        then done none
        else (merge nh_max (eject granted nd) cells a s >>= λ r. elim r [
          | none ↦ done none
          | some s' ↦ (results F s'.b >>= λ out. done (some (s'.total, out)))
        ])
