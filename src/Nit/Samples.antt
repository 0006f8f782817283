-- ===== src/Nit/Samples.antt =====
-- Runs and examples for the table of items.
use getassoc.Common.{◌≡◌, refl, true, false, none, some, [], ◌∷◌, arith, Returns, done}
use getassoc.Nit.{Nit, put, nit_enter, nit_delete, it_seq_loop, nit_seq, nit_rewind}
use getassoc.Nit.Items.{item, IsCounted, Entered, nit_enter-Entered, Deleted, nit_delete-Deleted}
use getassoc.Nit.Next.{Next, nit_seq-Next}

abbrev items : Nit
items = record {
  nentries = 2;
  ix = none ∷ some (4 ∷ []) ∷ none ∷ some [] ∷ [];
  seq_ptr = 2;
  rdonly = false;
}

items-IsCounted : IsCounted items
items-IsCounted = record { counted = refl; addressable = omega arith }

-- Without memory for an item of another size, the header loses the old one, which stays.
not_granted : nit_enter true false items 1 (7 ∷ 7 ∷ []) ≡ done (none, record items { nentries = 1 })
unfolding nit_enter put
not_granted = refl

next_item : (nit_seq items).0 ≡ some (3, [])
unfolding nit_seq it_seq_loop
next_item = refl

from_the_start : (nit_seq (nit_rewind items)).0 ≡ some (1, 4 ∷ [])
unfolding nit_rewind nit_seq it_seq_loop
from_the_start = refl

nit_enter-Entered_example :
    Returns (Entered items 9 (5 ∷ [])) (nit_enter true true items 9 (5 ∷ []))
nit_enter-Entered_example = nit_enter-Entered items 9 (5 ∷ []) items-IsCounted refl (omega arith)

nit_delete-Deleted_example : Returns (Deleted items 1) (nit_delete items 1)
nit_delete-Deleted_example = nit_delete-Deleted items 1 items-IsCounted refl

nit_seq-Next_example : Next (item items.ix) 2 ((nit_seq items).0, (nit_seq items).1.seq_ptr)
nit_seq-Next_example = nit_seq-Next items
