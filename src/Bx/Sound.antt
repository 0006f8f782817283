-- ===== src/Bx/Sound.antt =====
-- Whatever `bx_compile` accepts is the print of the tree that it returns, and it reads no token past
-- the array.
use getassoc.Common.{
  ℕ, zero, suc, ◌+◌, ◌*◌, ◌≤◌, ◌<◌, ◌≡◌, refl, sym, ◌∙◌, ap, subst, Bool, true, false, Option, List,
  [], ◌∷◌, ◌++◌, if◌then◌else◌, arith, length, append_assoc, Run, done, ◌>>=◌,
}
use mathlib.Core.Path.{ap₂}
use getassoc.Bx.{
  Token, start, lpar, rpar, and, or, not, var_t, var_f, end, AExpr, a_last, a_next, m_last, m_next,
  n_expr, sub, accept, expect_rpar, is_or, is_and, is_not, is_start, is_end, conv_a, conv_m, conv_n,
  conv_f, last_token, finish, bx_compile,
}
use getassoc.Bx.Outcome.{
  Ensures, rejected, accepted, Ensures-if, Ensures-bind, Ensures-branch, Ensures-mono,
}
use getassoc.Bx.Print.{print_a, print_m, print_n, print_f, print_ref, HasEnd}

accept-Ensures :
    (sep : Token) (test : Token → Bool) (ts : List Token)
    → ((t : Token) → test t ≡ true → t ≡ sep)
    → test end ≡ false
    → HasEnd ts
    → Ensures (λ (b, rest). (ts ≡ (if b then sep ∷ rest else rest)) × HasEnd rest) (accept test ts)
unfolding accept
accept-Ensures sep test [] only others h = absurd h
accept-Ensures sep test (t ∷ ts) only others h =
    Ensures-if (test t) (λ e. accepted (ap (λ (u : Token). u ∷ ts) (only t e), behind t e h))
      (λ e. accepted (refl, h))
  where
    behind : (u : Token) → test u ≡ true → HasEnd (u ∷ ts) → HasEnd ts
    behind end e p = cc
    behind start e p = p
    behind lpar e p = p
    behind rpar e p = p
    behind and e p = p
    behind or e p = p
    behind not e p = p
    behind var_t e p = p
    behind var_f e p = p
    behind Token.other e p = p
    behind (Token.var k) e p = p

is_or→eq : (t : Token) → is_or t ≡ true → t ≡ or
is_or→eq or e = refl
is_or→eq _ e = cc

is_and→eq : (t : Token) → is_and t ≡ true → t ≡ and
is_and→eq and e = refl
is_and→eq _ e = cc

is_not→eq : (t : Token) → is_not t ≡ true → t ≡ not
is_not→eq not e = refl
is_not→eq _ e = cc

expect_rpar-Ensures :
    (ts : List Token)
    → HasEnd ts
    → Ensures (λ (_, rest). (ts ≡ rpar ∷ rest) × HasEnd rest) (expect_rpar ts)
unfolding expect_rpar
expect_rpar-Ensures [] h = absurd h
expect_rpar-Ensures (rpar ∷ ts) h = accepted (refl, h)
expect_rpar-Ensures (_ ∷ ts) h = rejected

-- What was read is the print of the tree, and BX_END is still ahead.
abbrev Reads {ℓ} : {X : Type ℓ} → (X → List Token) → List Token → X × List Token → Type 0
Reads print ts (x, rest) = (ts ≡ print x ++ rest) × HasEnd rest × (length rest < length ts)

join :
    (sep : Token) (us vs ts₃ : List Token) {ts ts₁ ts₂ : List Token}
    → ts ≡ us ++ ts₁
    → ts₁ ≡ sep ∷ ts₂
    → ts₂ ≡ vs ++ ts₃
    → ts ≡ (us ++ (sep ∷ vs)) ++ ts₃
join sep us vs rest p q r =
    p
    ∙ ap (λ (u : List Token). us ++ u) (q ∙ ap (◌∷◌ sep) r)
    ∙ sym (append_assoc us (sep ∷ vs) rest)

mutual
  unfolding conv_a print_a print_ref

  conv_a-Reads :
      (fuel : ℕ) (ts : List Token)
      → 4 * length ts + 4 ≤ fuel
      → HasEnd ts
      → Ensures (Reads print_a ts) (conv_a fuel ts)
  conv_a-Reads zero ts f h = absurd (omega arith)
  conv_a-Reads (suc fuel) ts f h =
      Ensures-bind (conv_m-Reads fuel ts (omega arith) h) λ m ts₁ (p, h₁, l₁).
        Ensures-bind (accept-Ensures or is_or ts₁ is_or→eq refl h₁) λ more ts₂ (q, h₂).
          Ensures-branch more _ _ ts₂
            (λ e.
              let q' : ts₁ ≡ or ∷ ts₂ = rw e at q in
              let l₂ = ap length q' in
              Ensures-bind (conv_a-Reads fuel ts₂ (omega arith) h₂) λ a ts₃ (r, h₃, l₃).
                accepted {a = (a_next m a, ts₃)}
                  (join or (print_m m) (print_a a) ts₃ p q' r, h₃, omega arith))
            (λ e.
              let q' : ts₁ ≡ ts₂ = rw e at q in
              accepted {a = (a_last m, ts₂)} (rw (← q') p, h₂, rw (← q') l₁))

  conv_m-Reads :
      (fuel : ℕ) (ts : List Token)
      → 4 * length ts + 3 ≤ fuel
      → HasEnd ts
      → Ensures (Reads print_m ts) (conv_m fuel ts)
  conv_m-Reads zero ts f h = absurd (omega arith)
  conv_m-Reads (suc fuel) ts f h =
      Ensures-bind (conv_n-Reads fuel ts (omega arith) h) λ n ts₁ (p, h₁, l₁).
        Ensures-bind (accept-Ensures and is_and ts₁ is_and→eq refl h₁) λ more ts₂ (q, h₂).
          Ensures-branch more _ _ ts₂
            (λ e.
              let q' : ts₁ ≡ and ∷ ts₂ = rw e at q in
              let l₂ = ap length q' in
              Ensures-bind (conv_m-Reads fuel ts₂ (omega arith) h₂) λ m ts₃ (r, h₃, l₃).
                accepted {a = (m_next n m, ts₃)}
                  (join and (print_n n) (print_m m) ts₃ p q' r, h₃, omega arith))
            (λ e.
              let q' : ts₁ ≡ ts₂ = rw e at q in
              accepted {a = (m_last n, ts₂)} (rw (← q') p, h₂, rw (← q') l₁))

  conv_n-Reads :
      (fuel : ℕ) (ts : List Token)
      → 4 * length ts + 2 ≤ fuel
      → HasEnd ts
      → Ensures (Reads print_n ts) (conv_n fuel ts)
  conv_n-Reads zero ts f h = absurd (omega arith)
  conv_n-Reads (suc fuel) ts f h =
      Ensures-bind (accept-Ensures not is_not ts is_not→eq refl h) λ negated ts₁ (q, h₁).
        let short : length ts₁ ≤ length ts = ground (arith, ap length q) in
        Ensures-bind (conv_f-Reads fuel ts₁ (omega arith) h₁) λ f' ts₂ (p, h₂, l₂).
          accepted {a = (n_expr negated f', ts₂)}
            (negation negated (print_f f') ts₁ ts₂ q p, h₂, omega arith)
    where
      negation :
          (b : Bool) (u v w : List Token)
          → ts ≡ (if b then not ∷ v else v)
          → v ≡ u ++ w
          → ts ≡ (if b then not ∷ u else u) ++ w
      negation true u v w q p = rw (← p) q
      negation false u v w q p = q ∙ p

  conv_f-Reads :
      (fuel : ℕ) (ts : List Token)
      → 4 * length ts + 1 ≤ fuel
      → HasEnd ts
      → Ensures (Reads print_f ts) (conv_f fuel ts)
  conv_f-Reads zero ts f h = absurd (omega arith)
  conv_f-Reads (suc fuel) [] f h = absurd h
  conv_f-Reads (suc fuel) (Token.var k ∷ ts) f h = accepted (refl, h, omega arith)
  conv_f-Reads (suc fuel) (var_t ∷ ts) f h = accepted (refl, h, omega arith)
  conv_f-Reads (suc fuel) (var_f ∷ ts) f h = accepted (refl, h, omega arith)
  conv_f-Reads (suc fuel) (lpar ∷ ts) f h =
      Ensures-bind (conv_a-Reads fuel ts (omega arith) h) λ a ts₁ (p, h₁, l₁).
        Ensures-bind (expect_rpar-Ensures ts₁ h₁) λ _ ts₂ (q, h₂).
          let l₂ = ap length q in
          accepted {a = (sub a, ts₂)}
            (ap (◌∷◌ lpar) (join rpar (print_a a) [] ts₂ p q refl), h₂, omega arith)
  conv_f-Reads (suc fuel) (_ ∷ ts) f h = rejected

-- The array that `bx_compile` takes for the tree.
abbrev pub tokens_of : AExpr → List Token
tokens_of a = start ∷ (print_a a ++ (end ∷ []))

is_start→eq : (t : Token) → is_start t ≡ true → t ≡ start
is_start→eq start e = refl
is_start→eq _ e = cc

is_end→eq : (t : Token) → is_end t ≡ true → t ≡ end
is_end→eq end e = refl
is_end→eq _ e = cc

HasEnd-cons : (t : Token) (ts : List Token) → HasEnd ts → HasEnd (t ∷ ts)
HasEnd-cons end ts h = tt
HasEnd-cons _ ts h = h

last_token-HasEnd :
    (ts : List Token) {l : Token} → last_token ts ≡ done l → is_end l ≡ true → HasEnd ts
unfolding last_token
last_token-HasEnd [] e h = cc
last_token-HasEnd (t ∷ []) {l} e h =
    let p : t ≡ l = cc in subst (λ (v : Token). HasEnd (v ∷ [])) (sym (p ∙ is_end→eq l h)) tt
last_token-HasEnd (t ∷ u ∷ ts) e h = HasEnd-cons t (u ∷ ts) (last_token-HasEnd (u ∷ ts) e h)

last_token-done : (t : Token) (ts : List Token) → (l : Token) × (last_token (t ∷ ts) ≡ done l)
unfolding last_token
last_token-done t [] = (t, refl)
last_token-done t (u ∷ ts) = last_token-done u ts

finish-Ensures :
    (ts : List Token) {r : Run (Option (AExpr × List Token))}
    → Ensures (Reads print_a ts) r
    → Ensures (λ a. ts ≡ print_a a ++ (end ∷ [])) (r >>= λ o. done (finish o))
unfolding finish
finish-Ensures ts rejected = rejected
finish-Ensures ts (accepted {a = (a, [])} (p, h, l)) = absurd h
finish-Ensures ts (accepted {a = (a, end ∷ [])} (p, h, l)) = accepted p
finish-Ensures ts (accepted {a = (a, t ∷ [])} (p, h, l)) = absurd h
finish-Ensures ts (accepted {a = (a, t ∷ u ∷ us)} (p, h, l)) = rejected

-- `bx_compile` on an array that is not empty ends without reading past the array, and the fuel is
-- enough: it refuses, or the array is BX_START, the print of the tree that it returns, and BX_END.
pub bx_compile_sound :
    (ts : List Token) → 0 < length ts → Ensures (λ a. ts ≡ tokens_of a) (bx_compile ts)
unfolding bx_compile
bx_compile_sound [] h = absurd (omega arith)
bx_compile_sound (t ∷ ts) h =
    let (l, e) = last_token-done t ts in
    rw e (
      Ensures-if (is_start t)
        (λ s.
          Ensures-if (is_end l)
            (λ f.
              let begins = is_start→eq t s in
              let ends =
                subst (λ (v : Token). HasEnd (v ∷ ts)) begins (last_token-HasEnd (t ∷ ts) e f) in
              Ensures-mono (λ a p. ap₂ ◌∷◌ begins p)
                (finish-Ensures ts (conv_a-Reads (4 * length ts + 4) ts (omega arith) ends)))
            (λ f. rejected))
        (λ s. rejected))
