-- ===== src/Common/Least.antt =====
-- The first number that passes a test.
use Prim.Native.Nat.{ℕ, zero, suc, ◌≤◌, ◌<◌}
use mathlib.Core.Path.{◌≡◌}
use mathlib.Core.Logic.{inl, inr}
use mathlib.Core.Bool.{Bool, true, false}
use native.Mathlib.Omega.{arith}
use getassoc.Common.Tests.{Bool-cases}

pub record Least (test : ℕ → Bool) (k : ℕ) : Type 0 where
  pub least : ℕ
  pub within : least ≤ k
  pub passes : test least ≡ true
  pub before : (i : ℕ) → i < least → test i ≡ false

-- One that passes has a first that passes.
pub first_passing : (test : ℕ → Bool) (k : ℕ) → test k ≡ true → Least test k
first_passing test zero h = record {
  least = 0;
  within = omega arith;
  passes = h;
  before = λ i l. absurd (omega arith);
}
first_passing test (suc k) h = elim (Bool-cases (test 0)) [
  | inl first ↦ record {
    least = 0;
    within = omega arith;
    passes = first;
    before = λ i l. absurd (omega arith);
  }
  | inr not_first ↦
      let l = first_passing (λ i. test (suc i)) k h in
      record {
        least = suc l.least;
        within = let w = l.within in omega arith;
        passes = l.passes;
        before = λ i p. below test l not_first i p;
      }
]
  where
    below :
        (test : ℕ → Bool) {k : ℕ} (l : Least (λ i. test (suc i)) k)
        → test 0 ≡ false
        → (i : ℕ) → i < suc l.least
        → test i ≡ false
    below test l h zero p = h
    below test l h (suc i) p = l.before i (omega arith)
