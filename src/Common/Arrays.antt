-- ===== src/Common/Arrays.antt =====
-- Lists as C arrays: checked reads and writes, and the exchange of two cells through `tmp`.
use mathlib.Core.List.Perm
use mathlib.Core.List.{perm_middle, append-nil}
use Prim.Native.Nat.{ℕ, zero, suc, ◌≤◌, ◌<◌}
use mathlib.Core.Path.{◌≡◌, refl, ap}
use mathlib.Core.List.{List, [], ◌∷◌, ◌++◌, Perm}
use mathlib.Core.Option.{some}
use native.Mathlib.Omega.{arith}
use getassoc.Common.Tests.{◌==◌, if◌then◌else◌}
use getassoc.Common.Lists.{length, get_elem?, set, take}
use getassoc.Common.Outcome.{Run, done, ◌>>=◌, deref}

module _ {ℓ} {A : Type ℓ} where
  -- `*(p + i)`, where `p` points to the cells of `xs`.
  abbrev pub load : List A → ℕ → Run A
  load xs i = deref (get_elem? xs i)

  unfoldable pub exchange : List A → ℕ → ℕ → Run (List A)
  exchange xs i j = load xs i >>= λ a. load xs j >>= λ b. done (set (set xs i b) j a)

  pub get_elem?-some : (xs : List A) (i : ℕ) → i < length xs → (a : A) × (get_elem? xs i ≡ some a)
  get_elem?-some [] i h = absurd (omega arith)
  get_elem?-some (x ∷ xs) zero h = (x, refl)
  get_elem?-some (x ∷ xs) (suc i) h = get_elem?-some xs i (omega arith)

  -- A write trades the old cell for the new one.
  pub set-perm :
      (xs : List A) (i : ℕ) (a v : A) → get_elem? xs i ≡ some a → Perm (a ∷ set xs i v) (v ∷ xs)
  set-perm [] i a v e = cc
  set-perm (x ∷ xs) zero a v e = let same : x ≡ a = cc in rw same (Perm.swap v a xs)
  set-perm (x ∷ xs) (suc i) a v e =
      Perm.trans (Perm.swap x a _)
        (Perm.trans (Perm.cons x (set-perm xs i a v e)) (Perm.swap v x xs))

  pub get_elem?-set :
      (xs : List A) (i j : ℕ) (v : A)
      → i < length xs
      → get_elem? (set xs i v) j ≡ (if i == j then some v else get_elem? xs j)
  get_elem?-set [] i j v h = absurd (omega arith)
  get_elem?-set (x ∷ xs) zero zero v h = refl
  get_elem?-set (x ∷ xs) zero (suc j) v h = ground arith
  get_elem?-set (x ∷ xs) (suc i) zero v h = ground arith
  get_elem?-set (x ∷ xs) (suc i) (suc j) v h = ground (arith, get_elem?-set xs i j v)

  pub perm_last : (xs : List A) (x : A) → Perm (xs ++ x ∷ []) (x ∷ xs)
  perm_last xs x = rw (append-nil xs) at (perm_middle {a = x} xs [])

  pub length-take : (n : ℕ) (xs : List A) → n ≤ length xs → length (take n xs) ≡ n
  length-take zero xs h = refl
  length-take (suc n) [] h = absurd (omega arith)
  length-take (suc n) (x ∷ xs) h = ap suc (length-take n xs (omega arith))

  pub get_elem?-take :
      (n : ℕ) (xs : List A) (i : ℕ) → i < n → get_elem? (take n xs) i ≡ get_elem? xs i
  get_elem?-take zero xs i h = absurd (omega arith)
  get_elem?-take (suc n) [] i h = refl
  get_elem?-take (suc n) (x ∷ xs) zero h = refl
  get_elem?-take (suc n) (x ∷ xs) (suc i) h = get_elem?-take n xs i (omega arith)

  -- An array of `n + 1` cells is its first `n` and the last.
  pub take-append_last :
      (n : ℕ) (xs : List A) (x : A)
      → length xs ≡ suc n
      → get_elem? xs n ≡ some x
      → take n xs ++ x ∷ [] ≡ xs
  take-append_last zero (y ∷ []) x h e = cc
  take-append_last zero [] x h e = absurd (omega arith)
  take-append_last zero (y ∷ z ∷ xs) x h e = absurd (omega arith)
  take-append_last (suc n) [] x h e = absurd (omega arith)
  take-append_last (suc n) (y ∷ xs) x h e = ap (◌∷◌ y) (take-append_last n xs x (omega arith) e)
