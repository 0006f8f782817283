-- ===== src/Assv/Search/Eject.antt =====
-- `eject`, called for one document after the other.
use mathlib.Core.List.Perm
use mathlib.Core.List.{perm_middle}
use getassoc.Common.{
  ℕ, ◌+◌, ◌<◌, ◌≡◌, refl, Bool, true, Option, none, some, List, [], ◌∷◌, ◌++◌, Perm, arith, length,
  All, Run, done, ◌>>=◌, Returns, returned, Returns-value, Returns->>=, Returns-if, Returns-mono,
}
use getassoc.Priq.{Priq}
use getassoc.Assv.{Double, Hit, Ovec}
use getassoc.Assv.TopK.Kept.{Keeps, updateq-Keeps}
use getassoc.Assv.Merge.{Group}
use getassoc.Assv.Merge.Turns.{eject_all}
use getassoc.Assv.Search.{TestC, run_tests, Simfuns, State, from_query, judge, eject}

-- The test's function neither faults nor loops.
abbrev pub Answers : {D C : Type 0} → TestC D C → Type 0
Answers t = (d : ℕ) (h : List (Hit _)) (c : _) → Returns (λ _. Unit {0}) (t.func d h c)

module _ {D C : Type 0} (d : ℕ) (h : List (Hit D)) where
  run_tests-Answers :
      (tests : List (TestC D C))
      → All Answers tests
      → Returns (λ r. All Answers r.1) (run_tests d h tests)
  unfolding run_tests
  run_tests-Answers [] a = returned tt
  run_tests-Answers (t ∷ tests) (a, rest) = Returns->>= (a d h t.cookie) λ r _.
      Returns-if r.0 (λ passed. Returns->>= (run_tests-Answers tests rest) λ q b. returned (a, b))
        (λ failed. returned (a, rest))

module _ (F : Double) {C : Type 0} (f : Simfuns F) (nq : ℕ) where
  open F use {carrier}

  judge-Answers :
      (d : ℕ) (h : List (Hit carrier)) (tests : List (TestC carrier C))
      → All Answers tests
      → Returns (λ r. All Answers r.1) (judge F f nq d h tests)
  unfolding judge
  judge-Answers d h tests a =
      Returns-if (from_query F f nq h)
        (λ hit. Returns->>= (run_tests-Answers d h tests a) λ r b. returned b)
        (λ missed. returned a)

  -- The documents, among those that the vectors have, that pass the tests, each as it is scored
  abbrev pub judge_all :
      List (Group carrier)
      → List (TestC carrier C)
      → Run (List (Ovec carrier) × List (TestC carrier C))
  judge_all [] tests = done ([], tests)
  judge_all (g ∷ gs) tests = judge F f nq g.d g.h tests >>= λ r.
      judge_all gs r.1 >>= λ q. done (elim r.0 [ none ↦ q.0 | some dd ↦ dd ∷ q.0 ], q.1)

  abbrev pub sink : (ℕ → Bool) → ℕ → ℕ → List (Hit carrier) → State F C → Run (Option (State F C))
  sink granted nd = eject F f nq granted nd

  -- After `eject`, called for the documents of `gs`, on a queue that keeps the best of `xs`
  pub record Ended (nd : ℕ) (gs : List (Group carrier)) (s : State F C) (xs : List (Ovec carrier))
      (o : Option (State F C)) : Type 0 where
    pub state : State F C
    pub succeeds : o ≡ some state
    pub docs : List (Ovec carrier)
    pub tests : List (TestC carrier C)
    pub judged : judge_all gs s.tests ≡ done (docs, tests)
    pub seen : List (Ovec carrier)
    pub keeps : Keeps F nd seen state.b
    pub same : Perm seen (docs ++ xs)
    pub total : state.total ≡ s.total + length docs

  skipped :
      {nd : ℕ} (g : Group carrier) (gs : List (Group carrier)) (s : State F C)
      (xs : List (Ovec carrier)) (ts : List (TestC carrier C)) {o : Option (State F C)}
      → judge F f nq g.d g.h s.tests ≡ done (none, ts)
      → Ended nd gs (record s { tests = ts }) xs o
      → Ended nd (g ∷ gs) s xs o
  skipped g gs s xs ts e n = record {
    state = n.state;
    succeeds = n.succeeds;
    docs = n.docs;
    tests = n.tests;
    judged = rw (e, n.judged) refl;
    seen = n.seen;
    keeps = n.keeps;
    same = n.same;
    total = n.total;
  }

  taken :
      {nd : ℕ} (g : Group carrier) (gs : List (Group carrier)) (s : State F C)
      (xs : List (Ovec carrier)) (ts : List (TestC carrier C)) (dd : Ovec carrier)
      (b : Priq (Ovec carrier)) {o : Option (State F C)}
      → judge F f nq g.d g.h s.tests ≡ done (some dd, ts)
      → Ended nd gs (record { b = b; tests = ts; total = s.total + 1 }) (dd ∷ xs) o
      → Ended nd (g ∷ gs) s xs o
  taken g gs s xs ts dd b e n = record {
    state = n.state;
    succeeds = n.succeeds;
    docs = dd ∷ n.docs;
    tests = n.tests;
    judged = rw (e, n.judged) refl;
    seen = n.seen;
    keeps = n.keeps;
    same = Perm.trans n.same (perm_middle n.docs xs);
    total = omega (arith, n.total);
  }

  module _ (granted : ℕ → Bool) (nd nh_max : ℕ) (ok : (n : ℕ) → granted n ≡ true)
      (pos : 0 < nd) where
    pub ejected :
        (gs : List (Group carrier)) (s : State F C) (xs : List (Ovec carrier))
        → All Answers s.tests
        → Keeps F nd xs s.b
        → Returns (Ended nd gs s xs) (eject_all nh_max (sink granted nd) gs s)
    ejected [] s xs a k = returned (record {
      state = s;
      succeeds = refl;
      docs = [];
      tests = s.tests;
      judged = refl;
      seen = xs;
      keeps = k;
      same = Perm.refl xs;
      total = omega arith;
    })
    ejected (g ∷ gs) s xs a k =
        let (r, e, b) = Returns-value (judge-Answers g.d g.h s.tests a) in
        go r e b (λ s' xs' a' k'. ejected gs s' xs' a' k')
      where
        go :
            (r : Option (Ovec carrier) × List (TestC carrier C))
            → judge F f nq g.d g.h s.tests ≡ done r
            → All Answers r.1
            → ((s' : State F C) (xs' : List (Ovec carrier))
                → All Answers s'.tests
                → Keeps F nd xs' s'.b
                → Returns (Ended nd gs s' xs') (eject_all nh_max (sink granted nd) gs s'))
            → Returns (Ended nd (g ∷ gs) s xs) (eject_all nh_max (sink granted nd) (g ∷ gs) s)
        go (none, ts) e b again =
            unfold eject in
            rw e (
              Returns-mono (λ o n. skipped g gs s xs ts e n)
                (again (record s { tests = ts }) xs b k))
        go (some dd, ts) e b again =
            let (u, eu, (fine, kept)) =
              Returns-value (updateq-Keeps F granted nd xs s.b dd ok pos k) in
            unfold eject in
            rw (e, eu, fine)
              (Returns-mono (λ o n. taken g gs s xs ts dd u.1 e n)
                (again (record { b = u.1; tests = ts; total = s.total + 1 }) (dd ∷ xs) b kept))
