-- ===== src/Assv/Samples.antt =====
-- Runs of the parts of assv.c, and their theorems at an input. Weights are whole numbers.
use mathlib.Core.List.Perm
use mathlib.Core.List.{Nodup-cons, Nodup-nil, not-mem-nil, mem-singleton}
use native.Mathlib.Nat.{ℕ_set}
use getassoc.Common.{
  ℕ, ◌+◌, ◌*◌, ◌/◌, ◌<◌, ◌≡◌, refl, true, false, some, none, Option, List, [], ◌∷◌, Perm, arith,
  Run, done, Returns,
}
use getassoc.Corpus.{XrElem}
use getassoc.Priq.{Priq}
use getassoc.Priq.Laws.{IsValid}
use getassoc.Assv.{Double, Container, Hit, Ovec, wcompar, ccompar}
use getassoc.Assv.TopK.{updateq, results}
use getassoc.Assv.TopK.Kept.{Keeps, updateq-Keeps}
use getassoc.Assv.TopK.Drained.{IsDescending, results-IsDescending}
use getassoc.Assv.Search.{Simfuns, TestC, assv}
use getassoc.Assv.Search.Best.{Best, blank, assv-Best}
use getassoc.Common.{returned, ltb}
use getassoc.Assv.Masks.{Masks, assv_mask_test, present, assv_cutoff_test}
use getassoc.Assv.Masks.Filter.{mask_tests, mask_tests-allows}
use getassoc.Assv.Masks.Cutoff.{assv_cutoff_test-exceeds}
use getassoc.Assv.Merge.Groups.{IsApart}
use getassoc.Assv.Merge.Whole.{Grouped, merge-Grouped}

abbrev whole : Double
whole = record {
  carrier = ℕ;
  rank = λ a. a;
  zero_value = 0;
  nonzero = λ a. ltb 0 a;
  add = λ a b. a + b;
  mul = λ a b. a * b;
  div = λ a b. a / b;
}

abbrev document : (id : ℕ) → id < 0x100000000 → ℕ → Ovec ℕ
document id p w = record { id = id; small = p; weight = w; tf_d = 1; df_d = 1 }

abbrev light : Ovec ℕ
light = document 4 (omega arith) 2

abbrev heavy : Ovec ℕ
heavy = document 7 (omega arith) 9

abbrev best : Priq (Ovec ℕ)
best = record { size = 128; items = light ∷ heavy ∷ [] }

best-IsValid : IsValid (wcompar whole) best
best-IsValid = grind arith

best-Keeps : Keeps whole 2 (light ∷ heavy ∷ []) best
best-Keeps = record {
  valid = best-IsValid;
  dropped = [];
  split = Perm.refl _;
  within = omega arith;
  full = λ p. refl;
  bound = 0;
  kept_above = (omega arith, (omega arith, tt));
  dropped_below = tt;
}

updateq-Keeps_example :
    Returns
      (λ r. (r.0 ≡ true) × Keeps whole 2 (document 9 (omega arith) 5 ∷ light ∷ heavy ∷ []) r.1)
      (updateq whole (λ _. true) 2 best (document 9 (omega arith) 5))
updateq-Keeps_example =
    updateq-Keeps whole (λ _. true) 2 (light ∷ heavy ∷ []) best (document 9 (omega arith) 5)
      (λ n. refl) (omega arith) best-Keeps

results-IsDescending_example :
    Returns (λ r. IsDescending whole r × Perm r best.items) (results whole best)
results-IsDescending_example = results-IsDescending whole best best-IsValid

abbrev reader : (qidx : ℕ) → qidx < 0x80000000 → XrElem → List XrElem → Container ℕ
reader q p e es = record { qidx = q; small = p; epid = e.id; ep = e; rest = es; wq = 1 }

abbrev cell : ℕ → XrElem
cell n = record { id = n; freq = 1 }

abbrev vectors : Priq (Container ℕ)
vectors = record {
  size = 128;
  items =
      reader 0 (omega arith) (cell 3) (cell 6 ∷ [])
      ∷ reader 1 (omega arith) (cell 3) (cell 4 ∷ [])
      ∷ [];
}

vectors-IsValid : IsValid ccompar vectors
vectors-IsValid = grind arith

vectors-IsApart : IsApart vectors.items
vectors-IsApart = Nodup-cons.1 (
  λ m. let e : 0 ≡ 1 = (mem-singleton ℕ_set).0 m in absurd (omega arith),
  Nodup-cons.1 (not-mem-nil, Nodup-nil),
)

abbrev collect : ℕ → List (Hit ℕ) → List ℕ → Run (Option (List ℕ))
collect d h seen = done (some (d ∷ seen))

merge-Grouped_example : Grouped 2 collect vectors
merge-Grouped_example =
    merge-Grouped 2 collect vectors vectors-IsValid
      (
        (refl, omega arith, (omega arith, tt), omega arith),
        ((refl, omega arith, (omega arith, tt), omega arith), tt),
      )
      vectors-IsApart

mask_tests-allows_example :
    mask_tests
      (2 ∷ 5 ∷ 8 ∷ [])
      (record { p = record { m = some (5 ∷ 9 ∷ []); idx = 0 }; n = record { m = none; idx = 0 } })
    ≡ false ∷ true ∷ false ∷ []
unfolding present
mask_tests-allows_example =
    mask_tests-allows (2 ∷ 5 ∷ 8 ∷ []) (some (5 ∷ 9 ∷ [])) none
      ((omega arith, (omega arith, tt)), ((omega arith, tt), (tt, tt)))
      ((omega arith, tt), (tt, tt)) tt

abbrev noted : List (Hit ℕ)
noted = record { qidx = 0; wq = 1; dp = cell 3 } ∷ record { qidx = 1; wq = 1; dp = cell 3 } ∷ []

assv_cutoff_test-exceeds_example : assv_cutoff_test (4 ∷ 2 ∷ []) 5 noted ≡ done false
assv_cutoff_test-exceeds_example =
    assv_cutoff_test-exceeds (4 ∷ 2 ∷ []) 5 noted (omega arith, (omega arith, tt))

abbrev by_count : Simfuns whole
by_count = record { wd = some (λ e q. e.freq); norm = none; weight = none }

abbrev masked : TestC ℕ Masks
masked = record {
  func = λ d h c. done (assv_mask_test d c);
  cookie = record {
    p = record { m = some (3 ∷ 4 ∷ []); idx = 0 };
    n = record { m = none; idx = 0 };
  };
  killed = 0;
  tested = 0;
}

abbrev one_wanted : 0 < 1
one_wanted = omega arith

assv-Best_example :
    Returns
      (Best whole by_count 2 1 vectors (masked ∷ []))
      (assv whole by_count 2 (λ _. true) 1 2 4 vectors (blank whole (masked ∷ [])))
assv-Best_example =
    assv-Best whole by_count 2 (λ _. true) 1 2 (λ n. refl) one_wanted vectors (masked ∷ [])
      vectors-IsValid
      (
        (refl, omega arith, (omega arith, tt), omega arith),
        ((refl, omega arith, (omega arith, tt), omega arith), tt),
      )
      vectors-IsApart ((λ d h c. returned tt), tt)
