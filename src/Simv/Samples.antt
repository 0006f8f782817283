-- ===== src/Simv/Samples.antt =====
-- Runs and examples for simv.c, with weights that are whole numbers.
use getassoc.Common.{
  ℕ, ◌+◌, ◌*◌, ◌/◌, ◌≡◌, refl, true, false, none, some, List, [], ◌∷◌, arith, ltb, map, done,
}
use getassoc.Assv.{Double}
use getassoc.Simv.{Word, Measure, look_up, sum_tf_d, common_word, meet_loop, start, conclude, simv}
use getassoc.Simv.Join.{joined, looked_up, simv-joined}

abbrev whole : Double
whole = record {
  carrier = ℕ;
  rank = λ a. a;
  zero_value = 0;
  nonzero = λ a. ltb 0 a;
  add = λ a b. a + b;
  mul = λ a b. a * b;
  div = λ a b. a / b;
}

-- The product of the two frequencies
abbrev product : Measure whole
product = record { wq = some (λ q. q.tf_d); wd = some (λ e q. e.freq); norm = none; weight = none }

abbrev word : ℕ → ℕ → Word
word id n = record { id = id; v = false; tf_d = n; df = 0; tf = 0 }

abbrev first_text : List Word
first_text = word 2 3 ∷ word 5 1 ∷ word 9 4 ∷ []

abbrev second_text : List Word
second_text = word 1 7 ∷ word 2 2 ∷ word 9 5 ∷ []

abbrev no_counts : ℕ → ℕ
no_counts id = 0

-- The words 2 and 9 are in both.
two_common :
    simv whole 1 no_counts no_counts (λ ws n. some product) true first_text second_text ≡ done 26
unfolding simv look_up sum_tf_d start meet_loop common_word conclude
two_common = refl

simv-joined_example :
    simv whole 1 no_counts no_counts (λ ws n. some product) true first_text second_text
    ≡ done (
        conclude whole 1 product (
          joined whole 1 product 0
            (map (looked_up no_counts no_counts) first_text)
            second_text
            (start whole 1 product)))
simv-joined_example =
    simv-joined no_counts no_counts whole 1 product (λ ws n. some product) first_text second_text
      (refl, (refl, (refl, tt))) ((omega arith, (omega arith, tt)), ((omega arith, tt), (tt, tt)))
      ((omega arith, (omega arith, tt)), ((omega arith, tt), (tt, tt))) refl
