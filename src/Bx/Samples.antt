-- ===== src/Bx/Samples.antt =====
-- Expressions compiled and evaluated, and the theorems of bx.c at an input.
use getassoc.Common.{
  ℕ, ◌≡◌, ◌↔◌, refl, Bool, true, false, some, none, List, [], ◌∷◌, ◌++◌, arith, done,
}
use getassoc.Bx.{
  Token, cell, start, end, lpar, and, or, not, var_t, AExpr, FExpr, a_last, a_next, m_last, m_next,
  n_expr, int_of, bx_compile, bx_exec, conv_a, accept, expect_rpar, last_token, finish,
}
use getassoc.Bx.Outcome.{Ensures}
use getassoc.Bx.Sound.{tokens_of, bx_compile_sound}
use getassoc.Bx.Complete.{bx_compile-eq_iff}
use getassoc.Bx.Meaning.{Formula, atom, neg, conj, disj, holds, write, bx_exec-write}

-- 0 | ! 1 & 2
abbrev tokens : List Token
tokens = start ∷ Token.var 0 ∷ or ∷ not ∷ Token.var 1 ∷ and ∷ Token.var 2 ∷ end ∷ []

abbrev parsed : AExpr
parsed = a_next (m_last (n_expr false (FExpr.var (cell 0)))) (
    a_last (m_next (n_expr true (FExpr.var (cell 1))) (m_last (n_expr false (FExpr.var (cell 2))))))

precedence_compiled : bx_compile tokens ≡ done (some parsed)
unfolding bx_compile conv_a accept last_token finish
precedence_compiled = refl

-- two `!` in a row are refused, and so is a missing parenthesis
bx_compile_refused :
    (bx_compile (start ∷ not ∷ not ∷ var_t ∷ end ∷ []) ≡ done none)
    × (bx_compile (start ∷ lpar ∷ var_t ∷ end ∷ []) ≡ done none)
unfolding bx_compile conv_a accept last_token finish expect_rpar
bx_compile_refused = (refl, refl)

abbrev formula : Formula
formula = disj (neg (atom 0)) (conj (atom 1) (atom 2))

bx_compile_sound_example : Ensures (λ a. tokens ≡ tokens_of a) (bx_compile tokens)
bx_compile_sound_example = bx_compile_sound tokens (omega arith)

bx_compile-eq_iff_example : (bx_compile tokens ≡ done (some parsed)) ↔ (tokens ≡ tokens_of parsed)
bx_compile-eq_iff_example = bx_compile-eq_iff tokens parsed

bx_exec-write_example :
    (a : AExpr) × (bx_compile (start ∷ (write formula ++ (end ∷ []))) ≡ done (some a))
    × ((ρ : ℕ → Bool) → bx_exec (λ k. int_of (ρ k)) a ≡ int_of (holds ρ formula))
bx_exec-write_example = bx_exec-write formula
