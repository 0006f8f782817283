-- ===== src/Splitv/Samples.antt =====
-- Runs of splitv, and its theorem at an input.
use getassoc.Common.{
  ℕ, ◌≡◌, refl, ◌⊎◌, true, false, some, List, [], ◌∷◌, ◌++◌, leb, if◌then◌else◌, arith, length,
  done, fault,
}
use getassoc.Splitv.{
  break_at, skip_one, skip_all, split_loop, splitv, behind_index, count_loop, count_char,
}
use getassoc.Splitv.Fields.{join, splitv-join}

abbrev line : List ℕ
line = b'a' ∷ b',' ∷ b',' ∷ b'b' ∷ b',' ∷ []

three_fields : splitv b',' false 8 line ≡ done ((b'a' ∷ []) ∷ [] ∷ (b'b' ∷ []) ∷ [])
unfolding splitv split_loop break_at skip_one skip_all
three_fields = refl

collapsed : splitv b',' true 8 line ≡ done ((b'a' ∷ []) ∷ (b'b' ∷ []) ∷ [])
unfolding splitv split_loop break_at skip_one skip_all
collapsed = refl

last_takes_rest : splitv b',' false 2 line ≡ done ((b'a' ∷ []) ∷ (b',' ∷ b'b' ∷ b',' ∷ []) ∷ [])
unfolding splitv split_loop break_at skip_one skip_all
last_takes_rest = refl

-- With the separator 0, index finds the end of the string, and count_char goes on behind it.
past_the_end : count_char 0 (some line) ≡ fault
unfolding count_char count_loop behind_index
past_the_end = refl

-- index takes the separator for a `char`, and splitv does not.
as_char : (count_char 300 (some line) ≡ done 3) × (splitv 300 false 8 line ≡ done (line ∷ []))
unfolding count_char count_loop behind_index splitv split_loop break_at skip_one skip_all
as_char = (refl, refl)

splitv-join_example :
    (fields : List (List ℕ)) × (count : ℕ) × (splitv b',' false 2 line ≡ done fields)
    × (count_char b',' (some line) ≡ done count)
    × (length fields ≡ (if leb 2 count then 2 else count))
    × ((line ≡ join b',' fields) ⊎ (line ≡ join b',' fields ++ b',' ∷ []))
splitv-join_example = splitv-join b',' (omega arith) (omega arith) 2 line (omega arith)
