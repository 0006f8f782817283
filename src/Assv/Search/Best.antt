-- ===== src/Assv/Search/Best.antt =====
-- What `assv` returns.
use mathlib.Core.List.Perm
use native.Mathlib.Bridge.{le_prop}
use getassoc.Common.{
  subst, append-nil, length-perm, All-perm, ℕ, ◌≤◌, ◌<◌, ◌≡◌, refl, ◌∙◌, Bool, true, false, Option,
  some, List, [], ◌++◌, Perm, arith, ◌==◌, length, All, done, Returns, returned, Returns-value,
}
use getassoc.Priq.{Priq}
use getassoc.Priq.Laws.{IsValid}
use getassoc.Assv.{Double, Container, Ovec, ccompar}
use getassoc.Assv.TopK.Kept.{Keeps, weight_rank}
use getassoc.Assv.TopK.Drained.{IsDescending, results-IsDescending}
use getassoc.Assv.Merge.{Group}
use getassoc.Assv.Merge.Step.{all_cells}
use getassoc.Assv.Merge.Groups.{IsReady, IsApart}
use getassoc.Assv.Merge.Turns.{all_hits, AreGroups}
use getassoc.Assv.Merge.Whole.{merge-Grouped}
use getassoc.Assv.Search.{TestC, Simfuns, State, assv}
use getassoc.Assv.Search.Eject.{Answers, judge_all, sink, ejected}

module _ (F : Double) where
  open F use {carrier}

  blank-Keeps : (nd : ℕ) → Keeps F nd [] (record { size = 0; items = [] })
  blank-Keeps nd = record {
    valid = record { heap = λ c p q. absurd (omega arith); room = omega arith };
    dropped = [];
    split = Perm.refl [];
    within = omega arith;
    full = λ p. absurd (omega arith);
    bound = 0;
    kept_above = tt;
    dropped_below = tt;
  }

  -- The state before the merge, with nothing found
  abbrev pub blank : {C : Type 0} → List (TestC carrier C) → State F C
  blank tests = record { b = record { size = 0; items = [] }; tests = tests; total = 0 }

module _ (F : Double) {C : Type 0} (f : Simfuns F) (nq nd : ℕ) where
  open F use {carrier}

  -- The answer for the vectors in `a`: of the documents that pass the tests, the best
  pub record Best (a : Priq (Container carrier)) (tests : List (TestC carrier C))
      (answer : Option (ℕ × List (Ovec carrier))) : Type 0 where
    pub total : ℕ
    pub out : List (Ovec carrier)
    pub is_found : answer ≡ some (total, out)
    pub groups : List (Group carrier)
    pub ascending : AreGroups 0 groups
    pub whole : Perm (all_hits groups) (all_cells a.items)
    pub docs : List (Ovec carrier)
    pub tests' : List (TestC carrier C)
    pub judged : judge_all F f nq groups tests ≡ done (docs, tests')
    pub counted : total ≡ length docs
    pub descending : IsDescending F out
    pub dropped : List (Ovec carrier)
    pub split : Perm (out ++ dropped) docs
    pub within : length out ≤ nd
    pub full : 0 < length dropped → length out ≡ nd
    pub bound : ℕ
    pub out_above : All (λ x. bound ≤ weight_rank F x) out
    pub dropped_below : All (λ x. weight_rank F x ≤ bound) dropped

module _ (F : Double) {C : Type 0} (f : Simfuns F) (nq : ℕ) where
  open F use {carrier}

  module _ (granted : ℕ → Bool) (nd nh_max : ℕ) (ok : (n : ℕ) → granted n ≡ true)
      (pos : 0 < nd) where
    -- `assv`, asked for `nd` documents, at least one, with a valid queue of vectors of different
    -- entries that ascend, tests that neither fault nor loop, and memory at hand, ends without a fault
    -- and returns an array. The cells of the vectors fall into one group for each document; `total`
    -- is how many of these, judged in ascending order, hit an entry of the query and pass the tests;
    -- the array holds as many of them as it may, all or `nd`, in descending order, and none
    -- that is left out weighs more than one in the array.
    pub assv-Best :
        (a : Priq (Container carrier)) (tests : List (TestC carrier C))
        → IsValid ccompar a
        → All (IsReady nh_max) a.items
        → IsApart a.items
        → All Answers tests
        → Returns
            (Best F f nq nd a tests)
            (assv F f nq granted nd nh_max (length (all_cells a.items)) a (blank F tests))
    unfolding assv
    assv-Best a tests v ready apart answers =
        let g = merge-Grouped nh_max (sink F f nq granted nd) a v ready apart in
        let some_wanted : (nd == 0) ≡ false = ground arith in
        let (o, e, n) = Returns-value (
          ejected F f nq granted nd nh_max ok pos g.groups (blank F tests) [] answers
            (blank-Keeps F nd)) in
        let (out, eo, (desc, items)) =
          Returns-value (results-IsDescending F n.state.b n.keeps.valid) in
        rw (some_wanted, g.run (blank F tests), e, n.succeeds, eo)
          (returned (record {
            total = n.state.total;
            out = out;
            is_found = refl;
            groups = g.groups;
            ascending = g.ascending;
            whole = g.whole;
            docs = n.docs;
            tests' = n.tests;
            judged = n.judged;
            counted = n.total ∙ (omega arith);
            descending = desc;
            dropped = n.keeps.dropped;
            split =
                Perm.trans (Perm.append items (Perm.refl n.keeps.dropped))
                  (Perm.trans n.keeps.split (subst (Perm n.seen) (append-nil n.docs) n.same));
            within = omega (arith, length-perm items, n.keeps.within);
            full = λ p. length-perm items ∙ n.keeps.full p;
            bound = n.keeps.bound;
            out_above = All-perm (λ x. le_prop) (Perm.symm items) n.keeps.kept_above;
            dropped_below = n.keeps.dropped_below;
          }))
