-- ===== src/Marshal/Calls.antt =====
-- A number of calls of mar_append_p: where they put the objects, and the pointers to them.
use getassoc.Common.{
  ℕ, ◌+◌, ◌-◌, ◌%◌, ◌<◌, ◌≡◌, ◌≢◌, refl, sym, ◌∙◌, Bool, true, false, Option, none, some, List, [],
  ◌∷◌, ◌++◌, inl, inr, ltb, ◌==◌, if◌then◌else◌, Bool-cases, append-nil, round_up, length, Run,
  done, Returns, returned, ◌>>=◌,
}
use getassoc.Nstring.{write_at}
use getassoc.Nstring.Append.{IsRealloc, write_at-inside}
use getassoc.Marshal.{Relent, Basemem, Mar, find_base, padded, enter_tables, mar_append_p}
use getassoc.Marshal.Append.{IsPacked, is_first, Storage, refused, there, find-Storage}

-- The arguments of a call
pub record Object : Type 0 where
  pub base : Option ℕ
  pub ptr : ℕ
  pub value : ℕ
  pub bytes : List ℕ

-- The objects and where they stand, from `n` on
abbrev pub placed : ℕ → List Object → List (ℕ × Object)
placed n [] = []
placed n (o ∷ os) = (n, o) ∷ placed (n + padded (length o.bytes)) os

abbrev pub total : List Object → ℕ
total [] = 0
total (o ∷ os) = padded (length o.bytes) + total os

abbrev pub known_with : List Basemem → ℕ → Object → List Basemem
known_with known n o = known ++ (record { ptr = o.value; offset = n } ∷ [])

-- The pointer to an object that stands at `n`: as far behind the copy of its base as it was behind the base
abbrev pub pointer_to : Option ℕ → ℕ → ℕ → ℕ → List Relent
pointer_to none b ptr n = []
pointer_to (some base_o) b ptr n =
    record {
      offset = (base_o + (ptr + 0x10000000000000000 - b)) % 0x10000000000000000;
      address = n;
    }
    ∷ []

abbrev pub link : List Basemem → Option ℕ → ℕ → ℕ → List Relent
link known none ptr n = []
link known (some b) ptr n = pointer_to (find_base b known) b ptr n

abbrev pub links : List Basemem → ℕ → List Object → List Relent
links known n [] = []
links known n (o ∷ os) =
    link (known_with known n o) o.base o.ptr n
    ++ links (known_with known n o) (n + padded (length o.bytes)) os

abbrev pub HasBase : Option ℕ → List Basemem → Type 0
HasBase none known = Unit
HasBase (some b) known = (x : ℕ) × (find_base b known ≡ some x)

-- No object is empty; the first has no base, and each other one names an object before it.
abbrev pub IsCallable : List Basemem → ℕ → List Object → Type 0
IsCallable known n [] = Unit
IsCallable known n (o ∷ os) =
    (0 < length o.bytes)
    × (is_first o.base ≡ (n == 0))
    × (HasBase o.base (known_with known n o))
    × IsCallable (known_with known n o) (n + padded (length o.bytes)) os

module _ (realloc : List ℕ → ℕ → Option (List ℕ)) where
  -- The calls, as long as they answer 0, when realloc succeeds for the tables
  unfoldable pub pack : List Object → Mar → Run (Bool × Mar)
  pack [] m = done (true, m)
  pack (o ∷ os) m = mar_append_p realloc true true m o.base o.ptr o.value o.bytes >>= λ r.
      let rest = pack os r.1 in if r.0 then rest else done (false, r.1)

  module _ (is : IsRealloc realloc) (grants : (old : List ℕ) (n : ℕ) → realloc old n ≢ none) where
    entered :
        (m : Mar) (o : Object) (x : Option (List ℕ))
        → Storage m (length o.bytes) x
        → x ≢ none
        → Returns
            (λ r.
              (object : List ℕ) × (r
                ≡ enter_tables true true m o.base o.ptr o.value (length o.bytes) object))
            (elim x [
              | none ↦ done (false, m)
              | some object ↦
                  (write_at object m.objsize o.bytes >>= λ p.
                  done (enter_tables true true m o.base o.ptr o.value (length o.bytes) p))
            ])
    entered m o x refused some_ = absurd (some_ refl)
    entered m o x (there {object} wide blocks same) some_ =
        rw (write_at-inside object m.objsize o.bytes wide) (returned (_, refl))

    has_room :
        (m : Mar) (n : ℕ)
        → (if ltb (length m.object) n then realloc m.object (round_up n 1024) else some m.object)
          ≢ none
    has_room m n = elim (Bool-cases (ltb (length m.object) n)) [
      | inl full ↦ rw full (grants m.object (round_up n 1024))
      | inr fits ↦ rw fits λ e. cc
    ]

    pub mar_append_p-entered :
        (m : Mar) (o : Object)
        → IsPacked m
        → is_first o.base ≡ (m.objsize == 0)
        → Returns
            (λ r.
              (object : List ℕ) × (r
                ≡ enter_tables true true m o.base o.ptr o.value (length o.bytes) object))
            (mar_append_p realloc true true m o.base o.ptr o.value o.bytes)
    unfolding mar_append_p
    mar_append_p-entered m o v first =
        let run =
          entered m o _ (find-Storage realloc m (length o.bytes) is v)
            (has_room m (m.objsize + length o.bytes)) in
        elim (Bool-cases (m.objsize == 0)) [
          | inl e ↦ let h : is_first o.base ≡ true = first ∙ e in rw (e, h) run
          | inr e ↦ let h : is_first o.base ≡ false = first ∙ e in rw (e, h) run
        ]

-- What a call does to the tables
pub record Entered (m : Mar) (o : Object) (r : Bool × Mar) : Type 0 where
  pub ok : r.0 ≡ true
  pub size : r.1.objsize ≡ m.objsize + padded (length o.bytes)
  pub bases : r.1.base_table ≡ known_with m.base_table m.objsize o
  pub relents :
      r.1.relocation_table
      ≡ m.relocation_table ++ link (known_with m.base_table m.objsize o) o.base o.ptr m.objsize

pub enter_tables-Entered :
    (m : Mar) (o : Object) (object : List ℕ) (base : Option ℕ)
    → o.base ≡ base
    → HasBase base (known_with m.base_table m.objsize o)
    → Entered m o (enter_tables true true m base o.ptr o.value (length o.bytes) object)
unfolding enter_tables
enter_tables-Entered m o object none e has = record {
  ok = refl;
  size = refl;
  bases = refl;
  relents = rw e (sym (append-nil m.relocation_table));
}
enter_tables-Entered m o object (some b) e (x, found) =
    rw found (record { ok = refl; size = refl; bases = refl; relents = rw (e, found) refl })
