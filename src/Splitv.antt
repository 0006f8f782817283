-- ===== src/Splitv.antt =====
-- splitv.c: a string is cut at a separator, and its fields are counted. A string is the list of its
-- bytes, of 1 to 255, before the final 0; the separator is an `int` that is not negative; the fields that the code terminates in place are the strings themselves.
pub mod Fields
mod Samples
use getassoc.Common.{
  ℕ, zero, suc, ◌-◌, ◌%◌, fault, Bool, Option, none, some, List, [], ◌∷◌, leb, ◌==◌, if◌then◌else◌,
  length, Run, done, out_of_fuel, ◌>>=◌,
}

module _ (c : ℕ) where
  -- `for (; *s && (*s & 0xff) != c; s++)`: the bytes passed over, and those left
  unfoldable pub break_at : List ℕ → List ℕ × List ℕ
  break_at [] = ([], [])
  break_at (x ∷ s) = let r = break_at s in if x == c then ([], x ∷ s) else (x ∷ r.0, r.1)

  -- `if (*s) *s++ = 0`
  unfoldable pub skip_one : List ℕ → List ℕ
  skip_one [] = []
  skip_one (_ ∷ s) = s

  -- `for (; *s && (*s & 0xff) == c; s++)`
  unfoldable pub skip_all : List ℕ → List ℕ
  skip_all [] = []
  skip_all (x ∷ s) = if x == c then skip_all s else x ∷ s

  -- The loop, on fuel; `n` is how many cells of `v` are left, at least one.
  unfoldable pub split_loop : Bool → ℕ → ℕ → List ℕ → Run (List (List ℕ))
  unfolding break_at skip_one skip_all
  split_loop collapse zero n s = out_of_fuel
  split_loop collapse (suc k) n [] = done []
  split_loop collapse (suc k) n (x ∷ s) =
      let field = break_at (x ∷ s) in
      let behind = skip_one field.1 in
      let further : Run (List (List ℕ)) =
        split_loop collapse k (n - 1) (if collapse then skip_all behind else behind) >>= λ fields.
        done (field.0 ∷ fields) in
      if leb n 1 then done ((x ∷ s) ∷ []) else further

  unfoldable pub splitv : Bool → ℕ → List ℕ → Run (List (List ℕ))
  unfolding split_loop
  splitv collapse n s = if n == 0 then done [] else split_loop collapse (suc (length s)) n s

  -- `index(s, c)`, which makes a `char` of `c`, and one byte further. If that is 0 it finds the final 0, and
  -- what is read next is behind the string.
  unfoldable pub behind_index : List ℕ → Run (Option (List ℕ))
  behind_index [] = if c % 0x100 == 0 then fault else done none
  behind_index (x ∷ s) = if x == c % 0x100 then done (some s) else behind_index s

  unfoldable pub count_loop : ℕ → List ℕ → Run ℕ
  unfolding behind_index
  count_loop zero s = out_of_fuel
  count_loop (suc k) [] = done 0
  count_loop (suc k) (x ∷ s) = behind_index (x ∷ s) >>= λ o. elim o [
    | none ↦ done 1
    | some r ↦ (count_loop k r >>= λ n. done (suc n))
  ]

  -- `none` is NULL
  unfoldable pub count_char : Option (List ℕ) → Run ℕ
  unfolding count_loop
  count_char s = elim s [ none ↦ done 0 | some s ↦ count_loop (suc (length s)) s ]
