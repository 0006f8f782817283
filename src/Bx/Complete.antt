-- ===== src/Bx/Complete.antt =====
-- `bx_compile` takes the print of every tree, and gives the tree back.
use getassoc.Common.{
  ℕ, zero, suc, ◌+◌, ◌*◌, ◌≤◌, ◌≡◌, refl, Bool, true, false, some, List, [], ◌∷◌, ◌++◌, arith,
  length, append_assoc, done,
}
use getassoc.Bx.{
  cell, bx_true, bx_false, Token, start, rpar, and, or, end, AExpr, MExpr, NExpr, FExpr, a_last,
  a_next, m_last, m_next, n_expr, sub, accept, expect_rpar, is_or, is_and, is_not, conv_a, conv_m,
  conv_n, conv_f, last_token, finish, bx_compile,
}
use getassoc.Bx.Print.{print_a, print_m, print_n, print_f, print_ref, lengths}
use getassoc.Bx.Outcome.{Ensures-some}
use getassoc.Bx.Sound.{tokens_of, bx_compile_sound}
use getassoc.Common.{◌↔◌, fault}

-- What may stand behind a term, and behind an expression.
abbrev AfterM : List Token → Type 0
AfterM [] = ⊥
AfterM (t ∷ _) = is_and t ≡ false

abbrev AfterA : List Token → Type 0
AfterA [] = ⊥
AfterA (t ∷ _) = (is_and t ≡ false) × (is_or t ≡ false)

accept-other :
    (test : Token → Bool) (t : Token) (ts : List Token)
    → test t ≡ false
    → accept test (t ∷ ts) ≡ done (some (false, t ∷ ts))
unfolding accept
accept-other test t ts e = rw e

accept-not_print_f :
    (f : FExpr) (rest : List Token)
    → accept is_not (print_f f ++ rest) ≡ done (some (false, print_f f ++ rest))
unfolding accept print_f print_ref
accept-not_print_f (sub a) rest = refl
accept-not_print_f (FExpr.var (cell k)) rest = refl
accept-not_print_f (FExpr.var bx_true) rest = refl
accept-not_print_f (FExpr.var bx_false) rest = refl

mutual
  unfolding conv_a print_a print_ref accept expect_rpar

  conv_a-print :
      (a : AExpr) (fuel : ℕ) (rest : List Token)
      → 4 * length (print_a a) + 4 ≤ fuel
      → AfterA rest
      → conv_a fuel (print_a a ++ rest) ≡ done (some (a, rest))
  conv_a-print a zero rest f h = absurd (omega arith)
  conv_a-print (a_last m) (suc fuel) [] f h = absurd h
  conv_a-print (a_last m) (suc fuel) (t ∷ rest) f h =
      rw (conv_m-print m fuel (t ∷ rest) (omega arith) h.0, accept-other is_or t rest h.1)
  conv_a-print (a_next m a) (suc fuel) rest f h = rw (
    append_assoc (print_m m) (or ∷ print_a a) rest,
    conv_m-print m fuel (or ∷ (print_a a ++ rest)) (omega lengths) refl,
    conv_a-print a fuel rest (omega lengths) h,
  )

  conv_m-print :
      (m : MExpr) (fuel : ℕ) (rest : List Token)
      → 4 * length (print_m m) + 3 ≤ fuel
      → AfterM rest
      → conv_m fuel (print_m m ++ rest) ≡ done (some (m, rest))
  conv_m-print m zero rest f h = absurd (omega arith)
  conv_m-print (m_last n) (suc fuel) [] f h = absurd h
  conv_m-print (m_last n) (suc fuel) (t ∷ rest) f h =
      rw (conv_n-print n fuel (t ∷ rest) (omega arith), accept-other is_and t rest h)
  conv_m-print (m_next n m) (suc fuel) rest f h = rw (
    append_assoc (print_n n) (and ∷ print_m m) rest,
    conv_n-print n fuel (and ∷ (print_m m ++ rest)) (omega lengths),
    conv_m-print m fuel rest (omega lengths) h,
  )

  conv_n-print :
      (n : NExpr) (fuel : ℕ) (rest : List Token)
      → 4 * length (print_n n) + 2 ≤ fuel
      → conv_n fuel (print_n n ++ rest) ≡ done (some (n, rest))
  conv_n-print n zero rest f = absurd (omega arith)
  conv_n-print (n_expr true x) (suc fuel) rest f = rw (conv_f-print x fuel rest (omega arith))
  conv_n-print (n_expr false x) (suc fuel) rest f =
      rw (accept-not_print_f x rest, conv_f-print x fuel rest (omega arith))

  conv_f-print :
      (x : FExpr) (fuel : ℕ) (rest : List Token)
      → 4 * length (print_f x) + 1 ≤ fuel
      → conv_f fuel (print_f x ++ rest) ≡ done (some (x, rest))
  conv_f-print x zero rest f = absurd (omega arith)
  conv_f-print (FExpr.var (cell k)) (suc fuel) rest f = refl
  conv_f-print (FExpr.var bx_true) (suc fuel) rest f = refl
  conv_f-print (FExpr.var bx_false) (suc fuel) rest f = refl
  conv_f-print (sub a) (suc fuel) rest f = rw (
    append_assoc (print_a a) (rpar ∷ []) rest,
    conv_a-print a fuel (rpar ∷ rest) (omega lengths) (refl, refl),
  )

last_token-append : (t : Token) (ts : List Token) → last_token (t ∷ (ts ++ (end ∷ []))) ≡ done end
unfolding last_token
last_token-append t [] = refl
last_token-append t (u ∷ ts) = last_token-append u ts

-- `bx_compile` on BX_START, the print of a tree and BX_END returns the tree.
pub bx_compile-tokens_of : (a : AExpr) → bx_compile (tokens_of a) ≡ done (some a)
unfolding bx_compile finish
bx_compile-tokens_of a = rw (
  last_token-append start (print_a a),
  conv_a-print a (4 * length (print_a a ++ (end ∷ [])) + 4) (end ∷ []) (omega lengths) (refl, refl),
)

compile_empty : bx_compile [] ≡ fault
unfolding bx_compile
compile_empty = refl

-- `bx_compile` returns a tree exactly when the array is BX_START, the print of that tree by the
-- grammar, and BX_END.
pub bx_compile-eq_iff :
    (ts : List Token) (a : AExpr) → (bx_compile ts ≡ done (some a)) ↔ (ts ≡ tokens_of a)
bx_compile-eq_iff ts a = (sound ts, λ p. rw p (bx_compile-tokens_of a))
  where
    sound : (us : List Token) → bx_compile us ≡ done (some a) → us ≡ tokens_of a
    sound [] e = cc (compile_empty)
    sound (u ∷ us) e = Ensures-some (bx_compile_sound (u ∷ us) (omega arith)) e
