-- ===== src/Sutil/Samples.antt =====
-- Runs of sutil.c, and its theorem at an input.
use getassoc.Common.{ℕ, ◌<◌, ◌≡◌, ◌↔◌, refl, true, false, some, none, List, [], ◌∷◌, ◌++◌, length}
use getassoc.Sutil.{
  equal, drop_last, chop, string_trim, is_handle_char, all_handle_chars, is_sound_handle_name,
}
use getassoc.Sutil.Trim.{string_trim-eq_iff}

abbrev path : List ℕ
path = b'a' ∷ b'/' ∷ b'x' ∷ b'.' ∷ b'c' ∷ []

abbrev prefix : List ℕ
prefix = b'a' ∷ b'/' ∷ []

abbrev postfix : List ℕ
postfix = b'.' ∷ b'c' ∷ []

abbrev middle : List ℕ
middle = b'x' ∷ []

no_memory : string_trim false path prefix postfix ≡ none
unfolding string_trim equal
no_memory = refl

line_chopped : chop (b'a' ∷ b'\r' ∷ b'\n' ∷ []) ≡ b'a' ∷ []
unfolding chop drop_last
line_chopped = refl

return_kept : chop (b'a' ∷ b'\r' ∷ []) ≡ b'a' ∷ b'\r' ∷ []
unfolding chop drop_last
return_kept = refl

hidden_refused : is_sound_handle_name (b'.' ∷ b'a' ∷ []) ≡ false
unfolding is_sound_handle_name is_handle_char
hidden_refused = refl

dot_inside : is_sound_handle_name (b'a' ∷ b'.' ∷ []) ≡ true
unfolding is_sound_handle_name is_handle_char all_handle_chars
dot_inside = refl

string_trim-eq_iff_example :
    (string_trim true path prefix postfix ≡ some middle)
    ↔ ((path ≡ prefix ++ (middle ++ postfix)) × (0 < length middle))
string_trim-eq_iff_example = string_trim-eq_iff path prefix postfix middle
