-- ===== src/Fss/Search/Samples.antt =====
-- A sort by acompar, runs of x_simple_query, and its theorem at two sections of a text.
use mathlib.Core.List.Perm
use getassoc.Common.{
  ℕ, ◌-◌, ◌≡◌, refl, compare, Ordering, Bool, true, false, some, List, [], ◌∷◌, Perm, ltb,
  if◌then◌else◌, done,
}
use getassoc.Brsearch.{half, is_after, is_from, lower, upper, answer, brsearch}
use getassoc.Fss.{Art, SimpleQuery, acompar}
use getassoc.Fss.Combine.{Found}
use getassoc.Fss.Seek.{back, previous_bit, next_frame, frame_loop, skip_frames, seek_idx}
use getassoc.Fss.Search.{
  Frag, word, chkseg, xcompar, entry_at, x_simple_query_fragment, fragments_loop, x_simple_query,
}

abbrev is_after_it : Art → Art → Bool
is_after_it a b = elim (acompar a b) [
  | Ordering.lt ↦ false
  | Ordering.eq ↦ false
  | Ordering.gt ↦ true
]

abbrev insert : Art → List Art → List Art
insert a [] = a ∷ []
insert a (b ∷ arts) = if is_after_it a b then b ∷ insert a arts else a ∷ b ∷ arts

abbrev sorted : List Art → List Art
sorted [] = []
sorted (a ∷ arts) = insert a (sorted arts)

-- A comparison of the first byte, whatever the options
abbrev first_byte : List ℕ → List ℕ → ℕ → ℕ → Ordering
first_byte [] t n o = Ordering.eq
first_byte (c ∷ s) [] n o = Ordering.gt
first_byte (c ∷ s) (d ∷ t) n o = compare c d

-- The documents 9, with the text "ab", and 7, with "a"
abbrev text : List ℕ
text = 9 ∷ 0 ∷ 0 ∷ 0 ∷ 0 ∷ 0 ∷ 0 ∷ 0 ∷ 0 ∷ 97 ∷ 98 ∷ 7 ∷ 0 ∷ 0 ∷ 0 ∷ 1 ∷ 0 ∷ 0 ∷ 0 ∷ 0 ∷ 97 ∷ []

abbrev frag : Frag
frag = record { xsc_options = 0; idx = 20 ∷ 9 ∷ 10 ∷ []; flwd = text; bitmap = 1 ∷ [] }

abbrev query : SimpleQuery
query = record { negativep = false; pattern = 97 ∷ []; options = 0; segments = 3 }

abbrev entry : Frag → ℕ → Art
entry fp p =
    if ltb p 19
    then record { id = 9; segid = 0; disp = p - 9 }
    else record { id = 7; segid = 1; disp = p - 20 }

finds_both :
    x_simple_query first_byte sorted (frag ∷ []) query
    ≡ done (
        some (
          some
            (record { id = 7; segid = 1; disp = 0 } ∷ record { id = 9; segid = 0; disp = 0 } ∷ [])))
unfolding x_simple_query fragments_loop x_simple_query_fragment entry_at word chkseg xcompar acompar
    brsearch answer lower upper half is_after is_from seek_idx back skip_frames frame_loop
    next_frame previous_bit
finds_both = refl
