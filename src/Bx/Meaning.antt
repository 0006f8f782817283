-- ===== src/Bx/Meaning.antt =====
-- Formulas as such, how they are written for bx.c, and what `bx_exec` says of them.
use getassoc.Common.{
  ℕ, ◌≡◌, refl, Bool, true, false, not, ◌&&◌, ◌||◌, some, List, [], ◌∷◌, ◌++◌, arith, append_assoc,
  done,
}
use getassoc.Bx.{
  cell, bx_true, bx_false, Token, start, lpar, rpar, and, or, var_t, var_f, end, AExpr, FExpr,
  a_last, a_next, m_last, m_next, n_expr, sub, int_of, deref_int, eval_a, eval_f, bx_exec,
  bx_compile,
}
use getassoc.Bx.Print.{print_a, print_f, print_ref}
use getassoc.Bx.Complete.{bx_compile-tokens_of}

pub data Formula : Type 0 where
  atom : ℕ → Formula
  top bot : Formula
  neg : Formula → Formula
  conj disj : Formula → Formula → Formula

unfoldable pub holds : (ℕ → Bool) → Formula → Bool
holds ρ (atom k) = ρ k
holds ρ top = true
holds ρ bot = false
holds ρ (neg φ) = not (holds ρ φ)
holds ρ (conj φ ψ) = holds ρ φ && holds ρ ψ
holds ρ (disj φ ψ) = holds ρ φ || holds ρ ψ

-- with all its parentheses
unfoldable pub write : Formula → List Token
write (atom k) = Token.var k ∷ []
write top = var_t ∷ []
write bot = var_f ∷ []
write (neg φ) = lpar ∷ Token.not ∷ (write φ ++ (rpar ∷ []))
write (conj φ ψ) = lpar ∷ (write φ ++ (and ∷ (write ψ ++ (rpar ∷ []))))
write (disj φ ψ) = lpar ∷ (write φ ++ (or ∷ (write ψ ++ (rpar ∷ []))))

factor : Formula → FExpr
factor (atom k) = FExpr.var (cell k)
factor top = FExpr.var bx_true
factor bot = FExpr.var bx_false
factor (neg φ) = sub (a_last (m_last (n_expr true (factor φ))))
factor (conj φ ψ) =
    sub (a_last (m_next (n_expr false (factor φ)) (m_last (n_expr false (factor ψ)))))
factor (disj φ ψ) =
    sub (a_next (m_last (n_expr false (factor φ))) (a_last (m_last (n_expr false (factor ψ)))))

pub tree : Formula → AExpr
tree φ = a_last (m_last (n_expr false (factor φ)))

print-factor : (φ : Formula) → print_f (factor φ) ≡ write φ
unfolding print_a print_ref factor write
print-factor (atom k) = refl
print-factor top = refl
print-factor bot = refl
print-factor (neg φ) = simp (print-factor φ)
print-factor (conj φ ψ) = simp (print-factor φ, print-factor ψ, append_assoc)
print-factor (disj φ ψ) = simp (print-factor φ, print-factor ψ, append_assoc)

eval-factor :
    (ρ : ℕ → Bool) (φ : Formula) → eval_f (λ k. int_of (ρ k)) (factor φ) ≡ int_of (holds ρ φ)
unfolding eval_a deref_int factor holds
eval-factor ρ (atom k) = refl
eval-factor ρ top = refl
eval-factor ρ bot = refl
eval-factor ρ (neg φ) = ground (arith, eval-factor ρ φ)
eval-factor ρ (conj φ ψ) = ground (arith, eval-factor ρ φ, eval-factor ρ ψ)
eval-factor ρ (disj φ ψ) = ground (arith, eval-factor ρ φ, eval-factor ρ ψ)

-- `bx_compile` takes every formula, written with all its parentheses between BX_START and BX_END,
-- and `bx_exec` on the tree that it returns gives the truth value of the formula, for every
-- assignment of 0 and 1 to the cells.
pub bx_exec-write :
    (φ : Formula)
    → (a : AExpr) × (bx_compile (start ∷ (write φ ++ (end ∷ []))) ≡ done (some a))
      × ((ρ : ℕ → Bool) → bx_exec (λ k. int_of (ρ k)) a ≡ int_of (holds ρ φ))
unfolding bx_exec tree print_a
bx_exec-write φ = (
  tree φ,
  rw (← print-factor φ) (bx_compile-tokens_of (tree φ)),
  λ ρ. ground (arith, eval-factor ρ φ),
)
