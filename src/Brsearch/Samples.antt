-- ===== src/Brsearch/Samples.antt =====
-- Runs of brsearch, and its theorem at an input.
use getassoc.Common.{
  ℕ, ◌+◌, ◌≡◌, refl, compare, true, false, List, [], ◌∷◌, ltb, arith, done, Returns,
}
use getassoc.Brsearch.{half, is_after, is_from, lower, upper, answer, brsearch}
use getassoc.Brsearch.Range.{brsearch-range}

abbrev numbers : List ℕ
numbers = 1 ∷ 3 ∷ 5 ∷ 5 ∷ 5 ∷ 8 ∷ []

finds_the_fives : brsearch compare 5 numbers ≡ done (true, 2, 5)
unfolding brsearch answer lower upper half is_after is_from
finds_the_fives = refl

misses_the_four : brsearch compare 4 numbers ≡ done (false, 2, 2)
unfolding brsearch answer lower upper half is_after is_from
misses_the_four = refl

brsearch-range_example :
    Returns (λ s. (s.0 ≡ ltb 0 3) × (s.1 ≡ 2) × (s.2 ≡ 2 + 3)) (brsearch compare 5 numbers)
brsearch-range_example =
    brsearch-range compare 5 (1 ∷ 3 ∷ []) (5 ∷ 5 ∷ 5 ∷ []) (8 ∷ []) (refl, (refl, tt))
      (refl, (refl, (refl, tt))) (refl, tt) (omega arith)
