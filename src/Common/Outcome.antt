-- ===== src/Common/Outcome.antt =====
-- The outcome of code that can touch memory it does not own, or loop.
use mathlib.Core.Path.{◌≡◌, refl}
use mathlib.Core.Bool.{Bool, true, false}
use mathlib.Core.Option.{Option, none, some}
use getassoc.Common.Tests.{if◌then◌else◌}

-- `fault` is an access outside the array; `out_of_fuel` has no counterpart in the code.
pub data Run {ℓ} (A : Type ℓ) : Type ℓ where
  done : A → Run A
  fault : Run A
  out_of_fuel : Run A

infixl 5 ◌>>=◌
abbrev pub ◌>>=◌ {a b} : {X : Type a} {Y : Type b} → Run X → (X → Run Y) → Run Y
fault >>= _ = fault
out_of_fuel >>= _ = out_of_fuel
done x >>= k = k x

abbrev pub deref {a} : {X : Type a} → Option X → Run X
deref none = fault
deref (some x) = done x

-- The run ends, without a fault, in a value that satisfies `Good`.
pub data Returns {a b} {X : Type a} (Good : X → Type b) : Run X → Type (a ⊔ b) where
  returned : {x : X} → Good x → Returns Good (done x)

module _ {a b} {X : Type a} {Good : X → Type b} where
  pub Returns-value : {run : Run X} → Returns Good run → (x : X) × (run ≡ done x) × Good x
  Returns-value (returned {x} g) = (x, refl, g)

  pub Returns-mono {b'} :
      {Weak : X → Type b'} {run : Run X}
      → ((x : X) → Good x → Weak x)
      → Returns Good run
      → Returns Weak run
  Returns-mono weaken (returned {x} g) = returned (weaken x g)

  pub Returns-if :
      (test : Bool) {first second : Run X}
      → (test ≡ true → Returns Good first)
      → (test ≡ false → Returns Good second)
      → Returns Good (if test then first else second)
  Returns-if false _ otherwise = otherwise refl
  Returns-if true holds _ = holds refl

  pub Returns->>= {a' b'} :
      {Y : Type a'} {Next : Y → Type b'} {run : Run X} {k : X → Run Y}
      → Returns Good run
      → ((x : X) → Good x → Returns Next (k x))
      → Returns Next (run >>= k)
  Returns->>= (returned {x} g) continue_ = continue_ x g
