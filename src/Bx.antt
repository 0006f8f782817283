-- ===== src/Bx.antt =====
-- bx.h, bx.c: Boolean expressions, from an array of tokens to a tree that is evaluated for each
-- document. `attr + i` is the list of the tokens from `i`; a read past the array is a fault. A failed
-- `calloc` gives NULL as an ill-formed expression does, and is left out.
pub mod Outcome
pub mod Print
pub mod Sound
pub mod Complete
pub mod Meaning
mod Samples
use getassoc.Common.{
  ℕ, zero, suc, ◌+◌, ◌*◌, Bool, true, false, Option, none, some, List, [], ◌∷◌, ◌==◌, if◌then◌else◌,
  length, Run, done, fault, out_of_fuel,
}
use getassoc.Common
use getassoc.Bx.Outcome.{Reader, ◌>>=◌, pure}

-- `int *`: a cell of `vars`, or one of the two constants of bx.c.
pub data Ref : Type 0 where
  cell : ℕ → Ref
  bx_true bx_false : Ref

-- `struct bxe`, by its type: BX_START and so on. `var` names its cell of `vars`,
-- and `other` is any type but the ten.
pub data Token : Type 0 where
  start lpar rpar and or not var_t var_f end other : Token
  var : ℕ → Token

abbrev pub Parser : Type 0 → Type 0
Parser A = Reader Token A

-- The structs of the tree. A chain of `next` pointers ends in `a_last` or `m_last`, whose `next` is NULL.
mutual
  pub data AExpr : Type 0 where
    a_last : MExpr → AExpr
    a_next : MExpr → AExpr → AExpr

  pub data MExpr : Type 0 where
    m_last : NExpr → MExpr
    m_next : NExpr → MExpr → MExpr

  -- the factor, and `not`
  pub data NExpr : Type 0 where
    n_expr : Bool → FExpr → NExpr

  -- `e`, or `var` where `e` is NULL
  pub data FExpr : Type 0 where
    sub : AExpr → FExpr
    var : Ref → FExpr

abbrev pub is_or : Token → Bool
is_or or = true
is_or _ = false

abbrev pub is_and : Token → Bool
is_and and = true
is_and _ = false

abbrev pub is_not : Token → Bool
is_not not = true
is_not _ = false

abbrev pub is_start : Token → Bool
is_start start = true
is_start _ = false

abbrev pub is_end : Token → Bool
is_end end = true
is_end _ = false

-- `attr[i].type == t`, and the position behind it
unfoldable pub accept : (Token → Bool) → Parser Bool
accept test [] = fault
accept test (t ∷ ts) = if test t then done (some (true, ts)) else done (some (false, t ∷ ts))

unfoldable pub expect_rpar : Parser (Unit {0})
expect_rpar [] = fault
expect_rpar (rpar ∷ ts) = done (some (tt, ts))
expect_rpar (_ ∷ ts) = done none

-- The conversion functions of the grammar. Each call costs a unit of fuel.
unfoldable mutual
  pub conv_a : ℕ → Parser AExpr
  conv_a zero ts = out_of_fuel
  conv_a (suc fuel) ts =
      (conv_m fuel >>= λ m. accept is_or >>= λ more.
      if more then (conv_a fuel >>= λ a. pure (a_next m a)) else pure (a_last m))
        ts

  pub conv_m : ℕ → Parser MExpr
  conv_m zero ts = out_of_fuel
  conv_m (suc fuel) ts =
      (conv_n fuel >>= λ n. accept is_and >>= λ more.
      if more then (conv_m fuel >>= λ m. pure (m_next n m)) else pure (m_last n))
        ts

  pub conv_n : ℕ → Parser NExpr
  conv_n zero ts = out_of_fuel
  conv_n (suc fuel) ts =
      (accept is_not >>= λ negated. conv_f fuel >>= λ f. pure (n_expr negated f)) ts

  pub conv_f : ℕ → Parser FExpr
  conv_f zero ts = out_of_fuel
  conv_f (suc fuel) [] = fault
  conv_f (suc fuel) (var k ∷ ts) = done (some (var (cell k), ts))
  conv_f (suc fuel) (var_t ∷ ts) = done (some (var bx_true, ts))
  conv_f (suc fuel) (var_f ∷ ts) = done (some (var bx_false, ts))
  conv_f (suc fuel) (lpar ∷ ts) = (conv_a fuel >>= λ a. expect_rpar >>= λ _. pure (sub a)) ts
  conv_f (suc fuel) (_ ∷ ts) = done none

-- `attrs[len - 1]`; an empty array has no such cell
unfoldable pub last_token : List Token → Run Token
last_token [] = fault
last_token (t ∷ []) = done t
last_token (t ∷ u ∷ ts) = last_token (u ∷ ts)

-- `j != len - 1`
unfoldable pub finish : Option (AExpr × List Token) → Option AExpr
finish none = none
finish (some (a, t ∷ [])) = some a
finish (some (a, _)) = none

compile_from : List Token → Run (Option AExpr)
compile_from ts = Common.◌>>=◌ (conv_a (4 * length ts + 4) ts) λ r. done (finish r)

-- `none` is NULL
unfoldable pub bx_compile : List Token → Run (Option AExpr)
unfolding compile_from
bx_compile [] = fault
bx_compile (t ∷ ts) =
    Common.◌>>=◌ (last_token (t ∷ ts))
      λ l. if is_start t then (if is_end l then compile_from ts else done none) else done none

-- `*p`, where `vars` holds the cells
unfoldable pub deref_int : (ℕ → ℕ) → Ref → ℕ
deref_int vars (cell k) = vars k
deref_int vars bx_true = 1
deref_int vars bx_false = 0

abbrev pub int_of : Bool → ℕ
int_of true = 1
int_of false = 0

-- `eval_m` is the inner loop of `eval_a`: whether it ends without `goto cont`.
unfoldable mutual
  pub eval_a : (ℕ → ℕ) → AExpr → ℕ
  eval_a vars (a_last m) = if eval_m vars m then 1 else 0
  eval_a vars (a_next m a) = let rest = eval_a vars a in if eval_m vars m then 1 else rest

  pub eval_m : (ℕ → ℕ) → MExpr → Bool
  eval_m vars (m_last n) = eval_n vars n
  eval_m vars (m_next n m) = let rest = eval_m vars m in if eval_n vars n then rest else false

  -- `v != n->not`
  pub eval_n : (ℕ → ℕ) → NExpr → Bool
  eval_n vars (n_expr negated f) = if eval_f vars f == int_of negated then false else true

  pub eval_f : (ℕ → ℕ) → FExpr → ℕ
  eval_f vars (sub a) = eval_a vars a
  eval_f vars (var r) = deref_int vars r

unfoldable pub bx_exec : (ℕ → ℕ) → AExpr → ℕ
unfolding eval_a
bx_exec vars a = eval_a vars a
