-- ===== src/Bx/Outcome.antt =====
-- Readers of an array that may answer NULL, and what a run of one ensures.
use getassoc.Common
use getassoc.Common.{
  ℕ, ◌≡◌, refl, Bool, true, false, Option, none, some, List, if◌then◌else◌, Run, done, fault,
  out_of_fuel,
}

-- NULL, or the result and the position behind it.
abbrev pub Reader {ℓ κ} : Type ℓ → Type κ → Type (ℓ ⊔ κ)
Reader S A = List S → Run (Option (A × List S))

abbrev pub pure {ℓ κ} : {S : Type ℓ} {A : Type κ} → A → Reader S A
pure a ts = done (some (a, ts))

abbrev pub bind_run {ℓ κ μ} :
    {S : Type ℓ} {A : Type κ} {B : Type μ}
    → Run (Option (A × List S))
    → (A → Reader S B)
    → Run (Option (B × List S))
bind_run (done none) k = done none
bind_run (done (some (a, ts))) k = k a ts
bind_run fault k = fault
bind_run out_of_fuel k = out_of_fuel

infixl 5 ◌>>=◌
abbrev pub ◌>>=◌ {ℓ κ μ} :
    {S : Type ℓ} {A : Type κ} {B : Type μ} → Reader S A → (A → Reader S B) → Reader S B
(p >>= k) ts = bind_run (p ts) k

-- The run ends without a fault, in NULL or in a value that satisfies `P`.
pub data Ensures {ℓ κ} {A : Type ℓ} (P : A → Type κ) : Run (Option A) → Type (ℓ ⊔ κ) where
  rejected : Ensures P (done none)
  accepted : {a : A} → P a → Ensures P (done (some a))

module _ {κ ℓ} {A : Type κ} {P : A → Type ℓ} where
  pub Ensures-some : {r : Run (Option A)} {a : A} → Ensures P r → r ≡ done (some a) → P a
  Ensures-some rejected e = cc
  Ensures-some (accepted h) e = Common.subst P (cc) h

  pub Ensures-mono {μ} :
      {Q : A → Type μ} {r : Run (Option A)} → ((a : A) → P a → Q a) → Ensures P r → Ensures Q r
  Ensures-mono f rejected = rejected
  Ensures-mono f (accepted {a} h) = accepted (f a h)

  pub Ensures-done : {r : Run (Option A)} → Ensures P r → (o : Option A) × (r ≡ done o)
  Ensures-done rejected = (none, refl)
  Ensures-done (accepted {a} h) = (some a, refl)

  pub Ensures-if :
      (b : Bool) {x y : Run (Option A)}
      → (b ≡ true → Ensures P x)
      → (b ≡ false → Ensures P y)
      → Ensures P (if b then x else y)
  Ensures-if true f g = f refl
  Ensures-if false f g = g refl

pub Ensures-bind {ℓ κ μ ν ο} :
    {S : Type ℓ} {A : Type κ} {B : Type μ} {P : A × List S → Type ν} {Q : B × List S → Type ο}
    {r : Run (Option (A × List S))} {k : A → Reader S B}
    → Ensures P r
    → ((a : A) (ts : List S) → P (a, ts) → Ensures Q (k a ts))
    → Ensures Q (bind_run r k)
Ensures-bind rejected f = rejected
Ensures-bind (accepted {a} h) f = f a.0 a.1 h

-- A branch between two readers at one position.
pub Ensures-branch {ℓ κ μ} :
    {S : Type ℓ} {A : Type κ} {P : A × List S → Type μ} (b : Bool) (p q : Reader S A) (ts : List S)
    → (b ≡ true → Ensures P (p ts))
    → (b ≡ false → Ensures P (q ts))
    → Ensures P ((if b then p else q) ts)
Ensures-branch true p q ts f g = f refl
Ensures-branch false p q ts f g = g refl
