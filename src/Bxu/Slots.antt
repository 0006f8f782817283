-- ===== src/Bxu/Slots.antt =====
-- The cells that `bxu_conv` gives to words: an entry is only ever appended, so the cell of a word
-- stays its cell.
use getassoc.Common.{
  ℕ, suc, ◌+◌, ◌≡◌, refl, sym, ap, ◌∙◌, Bool, true, false, ◌&&◌, ◌==◌, Bool-cases, inl, inr,
  get_elem?, Option, none, some, List, [], ◌∷◌, ◌++◌, arith, length, append-nil,
}
use getassoc.Corpus.{Syminfo, bare}
use getassoc.Bxu.{is_null, find_slot, slot}

-- The slot of a word in use, from position `k` on.
pub find_slot-append :
    (id : ℕ) (qq r : List Syminfo) (k : ℕ) {i : ℕ}
    → find_slot id qq k ≡ some i
    → find_slot id (qq ++ r) k ≡ some i
unfolding find_slot
find_slot-append id [] r k e = cc
find_slot-append id (s ∷ qq) r k {i} e = ground (arith, find_slot-append id qq r (suc k) {i = i})

find_slot-bare :
    (id : ℕ) (qq : List Syminfo) (k : ℕ)
    → find_slot id qq k ≡ none
    → find_slot id (qq ++ bare id ∷ []) k ≡ some (k + length qq)
unfolding find_slot
find_slot-bare id [] k e = ground arith
find_slot-bare id (s ∷ qq) k e = ground (arith, find_slot-bare id qq (suc k))

-- What `slot` returns is the word's slot in the array that it returns.
pub find_slot-slot :
    (id : ℕ) (qq : List Syminfo) → find_slot id (slot id qq).1 0 ≡ some (slot id qq).0
unfolding slot
find_slot-slot id qq = go (find_slot id qq 0) refl
  where
    go :
        (o : Option ℕ) → find_slot id qq 0 ≡ o → find_slot id (slot id qq).1 0 ≡ some (slot id qq).0
    go none e = rw (e, slot) (find_slot-bare id qq 0 e ∙ ap some (omega arith))
    go (some k) e = rw (e, slot) e

pub slot-append : (id : ℕ) (qq : List Syminfo) → (ext : List Syminfo) × ((slot id qq).1 ≡ qq ++ ext)
unfolding slot
slot-append id qq = go (find_slot id qq 0) refl
  where
    go :
        (o : Option ℕ) → find_slot id qq 0 ≡ o → (ext : List Syminfo) × ((slot id qq).1 ≡ qq ++ ext)
    go none e = (bare id ∷ [], rw (e, slot))
    go (some k) e = ([], rw (e, slot) (sym (append-nil qq)))

abbrev pub IsEntryOf : ℕ → Syminfo → Type 0
IsEntryOf id s = (is_null s.v ≡ true) × (s.id ≡ id)

test-IsEntryOf : (id : ℕ) (s : Syminfo) → (is_null s.v && (id == s.id)) ≡ true → IsEntryOf id s
test-IsEntryOf id s e = (left (is_null s.v) e, right (is_null s.v) e)
  where
    left : (b : Bool) → (b && (id == s.id)) ≡ true → b ≡ true
    left true e = refl
    left false e = cc

    right : (b : Bool) → (b && (id == s.id)) ≡ true → s.id ≡ id
    right true e = ground arith
    right false e = cc

pub find_slot-entry :
    (id : ℕ) (qq : List Syminfo) (k : ℕ) {i : ℕ}
    → find_slot id qq k ≡ some i
    → (j : ℕ) × (s : Syminfo) × (i ≡ k + j) × (get_elem? qq j ≡ some s) × IsEntryOf id s
unfolding find_slot
find_slot-entry id [] k e = cc
find_slot-entry id (s ∷ qq) k {i} e = elim (Bool-cases (is_null s.v && (id == s.id))) [
  | inl found ↦
      let at : some k ≡ some i = rw found at e in
      (0, s, ground arith, refl, test-IsEntryOf id s found)
  | inr missed ↦
      let later : find_slot id qq (suc k) ≡ some i = rw missed at e in
      let (j, t, p, q, r) = find_slot-entry id qq (suc k) later in (suc j, t, omega arith, q, r)
]
