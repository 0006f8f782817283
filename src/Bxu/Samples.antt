-- ===== src/Bxu/Samples.antt =====
-- An expression of a request converted and evaluated, and the theorem of bxutil.c at an input.
use getassoc.Common.{ℕ, ◌≡◌, refl, some, none, List, [], ◌∷◌, ◌++◌, length, done, fault, All, ◌<◌}
use getassoc.Corpus.{Syminfo, bare}
use getassoc.Bx.{int_of}
use getassoc.Bxu.{
  BxuT, bxu_conv, cleared, mark, bxu_eval, conv_loop, conv_step, slot, find_slot, operator,
}
use getassoc.Bxu.Meaning.{Query, word, negated, both, satisfies, request, cell_of}
use getassoc.Bxu.Meaning.Convert.{HasCells, member, bxu_eval-request}

abbrev query : List Syminfo
query = bare 7 ∷ bare 9 ∷ []

-- the word 9 and not the word 4
abbrev condition : Query
condition = both (word 9) (negated (word 4))

-- the word 4 gets a new cell behind the query
new_cell : slot 4 query ≡ (2, bare 7 ∷ bare 9 ∷ bare 4 ∷ [])
unfolding slot find_slot
new_cell = refl

unknown_character : bxu_conv query (record { type = b'x'; id = 0 } ∷ []) ≡ done none
unfolding bxu_conv conv_loop conv_step operator
unknown_character = refl

-- An entry behind the query is written outside of `vars`.
outside : mark (cleared 2) (2 ∷ []) ≡ fault
unfolding mark cleared
outside = refl

bxu_eval-request_example :
    (u : BxuT) × (newq : List Syminfo) × (ext : List Syminfo) × (bxu_conv query (request condition)
      ≡ done (some (u, newq)))
    × (newq ≡ query ++ ext)
    × (u.nvars ≡ length newq)
    × HasCells newq condition
    × ((h : List ℕ)
        → All (λ i. i < length newq) h
        → bxu_eval u h ≡ done (int_of (satisfies (λ id. member (cell_of newq id) h) condition)))
bxu_eval-request_example = bxu_eval-request query condition
