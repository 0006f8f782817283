-- ===== src/Nht/Samples.antt =====
-- Runs and examples for nht.c. The checksum runs without its tables.
use getassoc.Common.{
  ℕ, zero, suc, ◌<◌, ◌≡◌, ◌≢◌, refl, ap, sym, true, false, some, List, [], ◌∷◌, arith, get_elem?,
  Returns, done, ◌>>=◌,
}
use getassoc.Sutil.{equal}
use getassoc.Nht.{
  Hte, Cell, empty, held, moving, Nht, crc_loop, cshash, nsxhash, find_loop, enter_loop, entry,
  nht_retrieve, enter, nht_enter, nht_delete, probes,
}
use getassoc.Nht.Probe.{nsxhash-covers}
use getassoc.Nht.Cells.{used}
use getassoc.Nht.Lookup.{IsValid, Entered, nht_enter-Entered}
use getassoc.Nht.Erase.{Erased, nht_delete-Erased}

abbrev tbls : ℕ → ℕ → ℕ
tbls = λ k x. 0

abbrev table : List Cell → Nht
table ix = record {
  dsize = 1;
  nentries = used ix;
  threshold = 2;
  ix = ix;
  seq_ptr = 0;
  rdonly = false;
}

abbrev first_entry : Hte
first_entry = record { payload = 9 ∷ []; name = 1 ∷ [] }

-- The keys 1 and "" have the same first cell.
abbrev one_entry : List Cell
one_entry = held first_entry ∷ empty ∷ empty ∷ []

-- Deleting the key in the way leaves the cell to the next key that is entered, even to one that has
-- an entry further on: its old entry comes back once the new one is deleted.
resurrected :
    (nht_enter tbls 0 false true
        (record (table (empty ∷ empty ∷ empty ∷ [])) { threshold = 6 })
        (1 ∷ [])
        (9 ∷ [])
      >>= λ a. nht_enter tbls 0 false true a.1 [] (5 ∷ []) >>= λ b.
          nht_delete tbls 0 b.1 (1 ∷ []) >>= λ c.
          nht_enter tbls 0 false true c.1 [] (6 ∷ []) >>= λ d.
          nht_delete tbls 0 d.1 [] >>= λ e. nht_retrieve tbls 0 e.1 [])
    ≡ done (some (5 ∷ []))
unfolding crc_loop cshash nsxhash find_loop enter_loop entry nht_retrieve enter nht_enter nht_delete
    equal
resurrected = refl

in_order :
    (s : ℕ) (vv : Hte)
    → get_elem? one_entry s ≡ some (held vv)
    → (c : ℕ) × (nsxhash tbls 0 3 vv.name c ≡ s)
      × ((i : ℕ) → i < c → get_elem? one_entry (nsxhash tbls 0 3 vv.name i) ≢ some empty)
unfolding crc_loop cshash nsxhash
in_order zero vv at =
    let same : first_entry ≡ vv = cc in
    (0, ap (λ v. nsxhash tbls 0 3 v.name 0) (sym same), λ i l. omega arith)
in_order (suc zero) vv at = cc
in_order (suc (suc zero)) vv at = cc
in_order (suc (suc (suc s))) vv at = cc

none_moving : (s : ℕ) (vv : Hte) → get_elem? one_entry s ≢ some (moving vv)
none_moving zero vv at = cc
none_moving (suc zero) vv at = cc
none_moving (suc (suc zero)) vv at = cc
none_moving (suc (suc (suc s))) vv at = cc

one_entry-IsValid : IsValid tbls 0 (table one_entry)
one_entry-IsValid = record {
  sound = record { reach = in_order; settled = none_moving };
  few = omega arith;
  below = omega arith;
  spare = omega arith;
  addressable = omega arith;
}

nht_enter-Entered_example :
    Returns
      (Entered tbls 0 (table one_entry) one_entry-IsValid [] (5 ∷ []))
      (nht_enter tbls 0 false true (table one_entry) [] (5 ∷ 7 ∷ []))
nht_enter-Entered_example =
    nht_enter-Entered tbls 0 (table one_entry) one_entry-IsValid false [] (5 ∷ 7 ∷ []) refl
      (omega arith)

nht_delete-Erased_example :
    Returns
      (Erased tbls 0 (table one_entry) one_entry-IsValid (1 ∷ []))
      (nht_delete tbls 0 (table one_entry) (1 ∷ []))
nht_delete-Erased_example =
    nht_delete-Erased tbls 0 (table one_entry) one_entry-IsValid (1 ∷ []) refl

nsxhash-covers_example : (c : ℕ) × (c < probes 1 5) × (nsxhash tbls 1 5 (3 ∷ []) c ≡ 4)
nsxhash-covers_example =
    nsxhash-covers tbls 1 5 (3 ∷ []) (omega arith) (omega arith) 4 (omega arith)
