-- ===== src/Nio/Output.antt =====
-- writen and sendn on a descriptor that keeps what it was given.
use mathlib.Core.List.{append_assoc}
use getassoc.Common.{
  ℕ, zero, suc, ◌+◌, ◌≤◌, ◌<◌, ◌≡◌, refl, sym, ap, ◌∙◌, subst, false, Option, none, some, List, [],
  ◌∷◌, ◌++◌, arith, ◌==◌, if◌then◌else◌, length, take, drop, Run, done, Returns, returned,
  Returns-mono, append-nil,
}
use getassoc.Common.Cuts.{take-add, drop-add, take-drop, length-drop}
use getassoc.Nio.{output_loop, writen}

-- `write` takes at most the bytes it is given.
abbrev pub IsOutput : {D : Type 0} → (D → List ℕ → Option ℕ × D) → (D → List ℕ) → Type 0
IsOutput {D} write sent =
    (d : D) (buf : List ℕ) (size : ℕ)
    → (write d buf).0 ≡ some size
    → (sent (write d buf).1 ≡ sent d ++ take size buf) × (size ≤ length buf)

module _ {D : Type 0} (write : D → List ℕ → Option ℕ × D) (sent : D → List ℕ) where
  -- All bytes are sent; or the first ones, up to a call that took none; or -1 after a call that
  -- returned it. `total` have been sent before.
  pub data Sent (d : D) (buf : List ℕ) (total : ℕ) : Option ℕ × D → Type 0 where
    all :
        {e : D} {n : ℕ}
        → sent e ≡ sent d ++ buf
        → n ≡ total + length buf
        → Sent d buf total (some n, e)
    stopped :
        {e : D} (d' : D) (n : ℕ)
        → n < length buf
        → sent e ≡ sent d ++ take n buf
        → write d' (drop n buf) ≡ (some 0, e)
        → Sent d buf total (some (total + n), e)
    failed :
        {e : D} (d' : D) (n : ℕ) → write d' (drop n buf) ≡ (none, e) → Sent d buf total (none, e)

  module _ (is : IsOutput write sent) (d : D) (buf : List ℕ) (total : ℕ) where
    Sent-behind :
        (size : ℕ) (r : Option ℕ × D)
        → (write d buf).0 ≡ some size
        → Sent (write d buf).1 (drop size buf) (total + size) r
        → Sent d buf total r
    Sent-behind size r was (failed d' n e) =
        failed d' (size + n) (ap (write d') (sym (drop-add size n buf)) ∙ e)
    Sent-behind size r was (all rest count) =
        let (more, fits) = is d buf size was in
        let long = length-drop size buf in
        all
          (rest
            ∙ ap (λ x. x ++ drop size buf) more
            ∙ append_assoc (sent d) (take size buf) (drop size buf)
            ∙ ap (◌++◌ (sent d)) (take-drop size buf))
          (omega arith)
    Sent-behind size r was (stopped {e} d' n short rest call) =
        let (more, fits) = is d buf size was in
        let long = length-drop size buf in
        let count : total + size + n ≡ total + (size + n) = omega arith in
        let got =
          rest
          ∙ ap (λ x. x ++ take n (drop size buf)) more
          ∙ append_assoc (sent d) (take size buf) (take n (drop size buf))
          ∙ ap (◌++◌ (sent d)) (take-add size n buf) in
        rw count (
          stopped d' (size + n) (omega arith) got
            (ap (write d') (sym (drop-add size n buf)) ∙ call))

    turn :
        (more : ℕ → Run (Option ℕ × D))
        → ((size : ℕ)
            → 0 < size
            → size ≤ length buf
            → Returns (Sent (write d buf).1 (drop size buf) (total + size)) (more size))
        → 0 < length buf
        → (o : Option ℕ) → (write d buf).0 ≡ o
        → Returns (Sent d buf total) (elim o [
          | none ↦ done (none, (write d buf).1)
          | some size ↦ if size == 0 then done (some total, (write d buf).1) else more size
        ])
    turn more again some_left none was = returned (failed d 0 (ap (λ o. (o, (write d buf).1)) was))
    turn more again some_left (some zero) was =
        let count : total ≡ total + 0 = omega arith in
        returned (
          subst (λ x. Sent d buf total (some x, (write d buf).1)) (sym count)
            (stopped d 0 some_left (is d buf 0 was).0 (ap (λ o. (o, (write d buf).1)) was)))
    turn more again some_left (some (suc size)) was =
        let long : (suc size == 0) ≡ false = ground arith in
        rw long (
          Returns-mono (λ r g. Sent-behind (suc size) r was g)
            (again (suc size) (omega arith) (is d buf (suc size) was).1))

  output_loop-Sent :
      IsOutput write sent
      → (fuel : ℕ) (d : D) (buf : List ℕ) (total : ℕ) → length buf < fuel
      → Returns (Sent d buf total) (output_loop write fuel d buf total)
  unfolding output_loop
  output_loop-Sent is zero d buf total enough = absurd (omega arith)
  output_loop-Sent is (suc fuel) d [] total enough =
      returned (all (sym (append-nil (sent d))) (omega arith))
  output_loop-Sent is (suc fuel) d (c ∷ buf) total enough =
      let long : (suc (length buf) == 0) ≡ false = ground arith in
      rw long (
        turn is d (c ∷ buf) total _
          (λ size p l.
            output_loop-Sent is fuel (write d (c ∷ buf)).1 (drop size (c ∷ buf)) (total + size)
              (omega (arith, length-drop size (c ∷ buf))))
          (omega arith) (write d (c ∷ buf)).0 refl)

  -- If each call of `write` takes at most the bytes it is given, then writen ends: all bytes are sent
  -- and it returns their number; or it stops at a call that took none and returns how many were sent
  -- before, which are the first ones; or it returns -1 as its last call did.
  pub writen-Sent :
      IsOutput write sent → (d : D) (buf : List ℕ) → Returns (Sent d buf 0) (writen write d buf)
  unfolding writen
  writen-Sent is d buf = output_loop-Sent is (length buf + 1) d buf 0 (omega arith)
