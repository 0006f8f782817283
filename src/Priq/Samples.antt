-- ===== src/Priq/Samples.antt =====
-- Runs of the queue of priq.c, and its theorems at an input.
use getassoc.Common.{
  ℕ, ◌≡◌, refl, inl, compare, true, false, some, none, [], ◌∷◌, arith, done, Returns,
}
use getassoc.Common.{round_up}
use getassoc.Common.Arrays.{exchange}
use getassoc.Priq.{
  update_index, prop_f, prop_b, lesser_child, Comparator, Priq, enq, deq, delete_index, rplatop,
}
use getassoc.Priq.Laws.{IsValid, Enqueued, enq-Enqueued}
use getassoc.Priq.Remove.{
  Deleted, delete_index-Deleted, Dequeued, deq-Dequeued, Replaced, rplatop-Replaced,
}

abbrev by_value : Comparator ℕ
by_value = record { compar = compare; rank = λ a. a; compar_rank = λ a b. refl }

abbrev empty : Priq ℕ
empty = record { size = 0; items = [] }

abbrev sample : Priq ℕ
sample = record { size = 128; items = 2 ∷ 5 ∷ 3 ∷ 9 ∷ 7 ∷ 4 ∷ [] }

sample-IsValid : IsValid by_value sample
sample-IsValid = grind arith

enq_first : enq by_value true empty 5 ≡ done (some 1, record { size = 128; items = 5 ∷ [] })
unfolding enq prop_b round_up exchange
enq_first = refl

enq_denied : enq by_value false empty 5 ≡ done (none, empty)
unfolding enq
enq_denied = refl

least_leaves :
    deq by_value sample ≡ done (some 5, record { size = 128; items = 3 ∷ 5 ∷ 4 ∷ 9 ∷ 7 ∷ [] })
unfolding deq update_index prop_f prop_b lesser_child exchange
least_leaves = refl

deq_last :
    deq by_value (record { size = 128; items = 5 ∷ [] })
    ≡ done (some 0, record { size = 128; items = [] })
unfolding deq
deq_last = refl

enq-Enqueued_example : Returns (Enqueued by_value sample 1) (enq by_value true sample 1)
enq-Enqueued_example = enq-Enqueued by_value true sample 1 sample-IsValid (inl refl)

delete_index-Deleted_example : Returns (Deleted by_value sample 5) (delete_index by_value sample 1)
delete_index-Deleted_example =
    delete_index-Deleted by_value sample 1 5 sample-IsValid refl (omega arith)

deq-Dequeued_example : Returns (Dequeued by_value sample) (deq by_value sample)
deq-Dequeued_example = deq-Dequeued by_value sample sample-IsValid (omega arith)

rplatop-Replaced_example : Returns (Replaced by_value sample 8) (rplatop by_value sample 8)
rplatop-Replaced_example = rplatop-Replaced by_value sample 8 sample-IsValid (omega arith)
