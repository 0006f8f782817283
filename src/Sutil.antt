-- ===== src/Sutil.antt =====
-- sutil.c: names of files and handles. A string is the list of its bytes before the final 0.
pub mod Trim
mod Samples
use getassoc.Common.{
  ℕ, ◌+◌, ◌-◌, Bool, true, false, not, ◌&&◌, ◌||◌, Option, none, some, List, [], ◌∷◌, ◌++◌, ltb,
  leb, ◌==◌, if◌then◌else◌, length, take, drop,
}

-- `!strcmp(a, b)`
unfoldable pub equal : List ℕ → List ℕ → Bool
equal [] [] = true
equal [] (y ∷ b) = false
equal (x ∷ a) [] = false
equal (x ∷ a) (y ∷ b) = x == y && equal a b

-- The last byte goes, if it is `c`.
unfoldable pub drop_last : ℕ → List ℕ → Option (List ℕ)
drop_last c [] = none
drop_last c (x ∷ []) = if x == c then some [] else none
drop_last c (x ∷ y ∷ s) = elim (drop_last c (y ∷ s)) [ none ↦ none | some r ↦ some (x ∷ r) ]

-- A newline at the end goes, and a carriage return before it.
unfoldable pub chop : List ℕ → List ℕ
unfolding drop_last
chop s = elim (drop_last b'\n' s) [
  | none ↦ s
  | some r ↦ elim (drop_last b'\r' r) [ none ↦ r | some q ↦ q ]
]

-- `none` is NULL; `granted` is whether `malloc` succeeds.
unfoldable pub string_trim : Bool → List ℕ → List ℕ → List ℕ → Option (List ℕ)
unfolding equal
string_trim granted s prefix postfix =
    let l = length s in
    let newl = l - (length prefix + length postfix) in
    if leb l (length prefix + length postfix)
    then none
    else if not (equal (take (length prefix) s) prefix)
    then none
    else if not (equal (drop (l - length postfix) s) postfix)
    then none
    else if not granted
    then none
    else some (take newl (drop (length prefix) s))

-- The test of one byte: the lower bound is 040, the upper one 0177.
unfoldable pub is_handle_char : ℕ → Bool
is_handle_char c = ltb 0x20 c && (not (c == b'/') && (not (c == b'\\') && ltb c 0x7f))

unfoldable pub all_handle_chars : List ℕ → Bool
unfolding is_handle_char
all_handle_chars [] = true
all_handle_chars (c ∷ s) = if not (is_handle_char c) then false else all_handle_chars s

-- An empty string fails by its final 0.
unfoldable pub is_sound_handle_name : List ℕ → Bool
unfolding is_handle_char all_handle_chars
is_sound_handle_name [] = false
is_sound_handle_name (c ∷ s) =
    if not (is_handle_char c && not (c == b'.')) then false else all_handle_chars s
