-- ===== src/Bx/Print.antt =====
-- The tokens of a tree, by the grammar in the comment of bx.c.
use getassoc.Common.{
  ℕ, zero, suc, ◌+◌, ◌≤◌, ◌<◌, ◌≡◌, refl, Bool, true, false, List, [], ◌∷◌, ◌++◌, if◌then◌else◌,
  arith, length, length-append,
}
use getassoc.Bx.{
  Ref, cell, bx_true, bx_false, Token, lpar, rpar, and, or, not, var_t, var_f, end, AExpr, MExpr,
  NExpr, FExpr, a_last, a_next, m_last, m_next, n_expr, sub,
}

unfoldable pub print_ref : Ref → Token
print_ref (cell k) = Token.var k
print_ref bx_true = var_t
print_ref bx_false = var_f

unfoldable mutual
  pub print_a : AExpr → List Token
  print_a (a_last m) = print_m m
  print_a (a_next m a) = print_m m ++ (or ∷ print_a a)

  pub print_m : MExpr → List Token
  print_m (m_last n) = print_n n
  print_m (m_next n m) = print_n n ++ (and ∷ print_m m)

  pub print_n : NExpr → List Token
  print_n (n_expr negated f) = if negated then not ∷ print_f f else print_f f

  pub print_f : FExpr → List Token
  print_f (sub a) = lpar ∷ (print_a a ++ (rpar ∷ []))
  print_f (FExpr.var r) = print_ref r ∷ []

pub tokens_length : (xs ys : List Token) → length (xs ++ ys) ≡ length xs + length ys
tokens_length = length-append

pub ruleset lengths = (arith, tokens_length)

-- The array ends in BX_END, or goes on behind it.
abbrev pub HasEnd : List Token → Type 0
HasEnd [] = ⊥
HasEnd (end ∷ ts) = Unit
HasEnd (_ ∷ ts) = HasEnd ts
