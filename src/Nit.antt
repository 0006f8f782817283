-- ===== src/Nit.antt =====
-- nht.c: the table of items, `nit`, an array of items of any size. A cell of the index is 0 or the
-- offset of an item; each offset stands in one cell, so the cell holds the item's bytes themselves.
pub mod Items
pub mod Next
mod Samples
use getassoc.Common.{
  ℕ, zero, suc, ◌+◌, ◌-◌, ◌%◌, Bool, true, false, not, Option, none, some, List, [], ◌∷◌, ◌++◌, ltb,
  leb, ◌==◌, if◌then◌else◌, length, set, drop, Run, done, fault, ◌>>=◌,
}
use getassoc.Common.Arrays.{load}

-- `ix.size` is the length of `ix`; the size of an item is its length.
pub record Nit : Type 0 where
  pub nentries : ℕ
  pub ix : List (Option (List ℕ))
  pub seq_ptr : ℕ
  pub rdonly : Bool

abbrev pub it_growsz : ℕ
it_growsz = 1024

-- The loop that fills `n` cells with 0
unfoldable pub no_items : ℕ → List (Option (List ℕ))
no_items zero = []
no_items (suc n) = none ∷ no_items n

-- The cells of the index are those below `newsize`; `extended` is whether nvmt_extend succeeds.
-- `none` is -1, an assertion that fails is a fault.
unfoldable pub it_extend : Bool → Nit → ℕ → Run (Option Nit)
unfolding no_items
it_extend extended h i =
    let osize = length h.ix in
    let newsize = (i + it_growsz) % 0x100000000 in
    if not (ltb i newsize)
    then fault
    else if not extended
    then done none
    else done (some (record h { ix = h.ix ++ no_items (newsize - osize) }))

-- nit_enter on a cell inside the index that holds `e`, for the bytes `ptr`; `granted` is whether
-- nvmt_alloc succeeds. The result is the item's bytes, or NULL.
unfoldable pub put : Bool → Nit → ℕ → List ℕ → Option (List ℕ) → Option (List ℕ) × Nit
put granted h i ptr e =
    let new : ℕ → Option (List ℕ) × Nit = λ n.
      if granted
      then (some ptr, record h { nentries = (n + 1) % 0x100000000; ix = set h.ix i (some ptr) })
      else (none, record h { nentries = n }) in
    elim e [
      | none ↦ new h.nentries
      | some vv ↦
          if length vv == length ptr
          then (some ptr, record h { ix = set h.ix i (some ptr) })
          else new ((h.nentries + 0xffffffff) % 0x100000000)
    ]

unfoldable pub nit_enter : Bool → Bool → Nit → ℕ → List ℕ → Run (Option (List ℕ) × Nit)
nit_enter extended granted h i ptr =
    let enter : Nit → Run (Option (List ℕ) × Nit) =
      λ t. load t.ix i >>= λ e. done (put granted t i ptr e) in
    let extend : Run (Option (List ℕ) × Nit) =
      it_extend extended h i >>= λ o. elim o [ none ↦ done (none, h) | some t ↦ enter t ] in
    if h.rdonly then done (none, h) else if leb (length h.ix) i then extend else enter h

unfoldable pub nit_retrieve : Nit → ℕ → Run (Option (List ℕ))
nit_retrieve h i = if leb (length h.ix) i then done none else load h.ix i

-- The loop of nit_seq from the cell `i` on: the key and the item, if any, and where the next call starts
unfoldable pub it_seq_loop : List (Option (List ℕ)) → ℕ → Option (ℕ × List ℕ) × ℕ
it_seq_loop [] i = (none, i)
it_seq_loop (none ∷ ix) i = it_seq_loop ix (i + 1)
it_seq_loop (some vv ∷ ix) i = (some (i, vv), i + 1)

unfoldable pub nit_seq : Nit → Option (ℕ × List ℕ) × Nit
unfolding it_seq_loop
nit_seq h = let r = it_seq_loop (drop h.seq_ptr h.ix) h.seq_ptr in (r.0, record h { seq_ptr = r.1 })

-- Whether the answer is 0, not -1
unfoldable pub nit_delete : Nit → ℕ → Run (Bool × Nit)
nit_delete h i =
    if h.rdonly
    then done (false, h)
    else if leb (length h.ix) i
    then done (false, h)
    else (load h.ix i >>= λ e. elim e [
      | none ↦ done (false, h)
      | some vv ↦
          if not (ltb 0 h.nentries)
          then fault
          else done (true, record h { nentries = h.nentries - 1; ix = set h.ix i none })
    ])

unfoldable pub nit_rewind : Nit → Nit
nit_rewind h = record h { seq_ptr = 0 }
