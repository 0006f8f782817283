-- ===== src/Bxu.antt =====
-- bxutil.c: Boolean expressions over words. `bxu_conv` turns the expression of a request into the
-- tokens of bx.c, and gives each word a cell of `vars`: that of the query's entry for the word, or a
-- new one behind the query. A failed `calloc` gives NULL, as an unknown type does, and is left out.
pub mod Slots
pub mod Meaning
mod Samples
use getassoc.Common.{
  ℕ, zero, suc, ◌+◌, Bool, true, false, Option, none, some, List, [], ◌∷◌, ◌++◌, ◌==◌,
  if◌then◌else◌, ◌&&◌, length, get_elem?, set, leb, Run, done, fault, ◌>>=◌,
}
use getassoc.Bx.{Token, AExpr, bx_compile, bx_exec}
use getassoc.Corpus.{Syminfo, bare}

-- `struct bxue_t`; the type is a character.
pub record BxueT : Type 0 where
  pub type : ℕ
  pub id : ℕ

-- `struct bxu_t`
pub record BxuT : Type 0 where
  pub expr : AExpr
  pub nvars : ℕ

abbrev pub is_null {ℓ} : {A : Type ℓ} → Option A → Bool
is_null none = true
is_null (some _) = false

-- the loop over `k`: the first entry with no vector that has this `id`
unfoldable pub find_slot : ℕ → List Syminfo → ℕ → Option ℕ
find_slot id [] k = none
find_slot id (s ∷ qq) k = if is_null s.v && (id == s.id) then some k else find_slot id qq (suc k)

-- the case of '"'
unfoldable pub slot : ℕ → List Syminfo → ℕ × List Syminfo
slot id qq = elim (find_slot id qq 0) [ some k ↦ (k, qq) | none ↦ (length qq, qq ++ bare id ∷ []) ]

-- the cases of one character; `none` is any other
unfoldable pub operator : ℕ → Option Token
operator c =
    if c == b'('
    then some Token.lpar
    else if c == b')'
    then some Token.rpar
    else if c == b'&'
    then some Token.and
    else if c == b'|'
    then some Token.or
    else if c == b'!'
    then some Token.not
    else if c == b'T'
    then some Token.var_t
    else if c == b'F'
    then some Token.var_f
    else none

-- one round of the loop over `e`; `none` is `goto error`
unfoldable pub conv_step : BxueT → List Syminfo → Option (Token × List Syminfo)
conv_step ep qq =
    if ep.type == b'"'
    then some (Token.var (slot ep.id qq).0, (slot ep.id qq).1)
    else elim (operator ep.type) [ none ↦ none | some t ↦ some (t, qq) ]

-- the loop: the tokens between BX_START and BX_END, and `qq`
unfoldable pub conv_loop : List BxueT → List Syminfo → Option (List Token × List Syminfo)
conv_loop [] qq = some ([], qq)
conv_loop (ep ∷ e) qq = elim (conv_step ep qq) [
  | none ↦ none
  | some (t, qq') ↦ elim (conv_loop e qq') [ none ↦ none | some (ts, r) ↦ some (t ∷ ts, r) ]
]

-- `none` is NULL; the second part is `*newq`
unfoldable pub bxu_conv : List Syminfo → List BxueT → Run (Option (BxuT × List Syminfo))
bxu_conv q e = elim (conv_loop e q) [
  | none ↦ done none
  | some (ts, qq) ↦ bx_compile (Token.start ∷ (ts ++ Token.end ∷ [])) >>= λ r.
      done (elim r [ none ↦ none | some a ↦ some (record { expr = a; nvars = length qq }, qq) ])
]

-- `vars` after `bzero`
unfoldable pub cleared : ℕ → List ℕ
cleared zero = []
cleared (suc n) = 0 ∷ cleared n

-- the loop over `h`, whose entries are given by `t->qidx`; what lies outside of `vars` is only logged
-- before it is written to, which is a fault
unfoldable pub mark : List ℕ → List ℕ → Run (List ℕ)
mark vars [] = done vars
mark vars (i ∷ h) = let more = mark (set vars i 1) h in if leb (length vars) i then fault else more

abbrev pub cell_value : Option ℕ → ℕ
cell_value none = 0
cell_value (some x) = x

-- What the expression reads through its pointers; those that bxu_conv makes are to cells of `vars`.
unfoldable pub read : List ℕ → ℕ → ℕ
read vars k = cell_value (get_elem? vars k)

unfoldable pub bxu_eval : BxuT → List ℕ → Run ℕ
bxu_eval u h = mark (cleared u.nvars) h >>= λ vars. done (bx_exec (read vars) u.expr)
