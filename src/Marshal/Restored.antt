-- ===== src/Marshal/Restored.antt =====
-- A packet that was packed, finished, and received by unmar.
use getassoc.Common.{
  ℕ, ◌+◌, ◌%◌, ◌<◌, ◌≡◌, ◌≢◌, refl, sym, ap, ◌∙◌, subst, Bool, Option, none, some, List, [], ◌∷◌,
  arith, inl, inr, length, get_elem?, take, Returns, returned, Returns->>=, ◌>>=◌,
}
use getassoc.Common.Arrays.{length-take, get_elem?-take}
use getassoc.Nstring.Append.{IsRealloc}
use getassoc.Marshal.{Relent, Mar, mar_create, mar_finish, unmar}
use getassoc.Marshal.Append.{mar_create-IsPacked, mar_finish-IsPacked}
use getassoc.Marshal.Linked.{IsInside, IsApart, IsFree, Linked, relocate-Linked}
use getassoc.Marshal.Calls.{Object, placed, total, links, IsCallable, pack}
use getassoc.Marshal.Packed.{Packed, pack-Packed}

module _ (pointer : ℕ → List ℕ) (obj : ℕ) where
  -- Each pointer points to the copy of its object, and the objects' other bytes are as they were.
  pub record Restored (os : List Object) (r : List ℕ) : Type 0 where
    pub pointed :
        (i : ℕ) (e : Relent)
        → get_elem? (links [] 0 os) i ≡ some e
        → (k : ℕ) → k < 8
        → get_elem? r (e.offset + k)
          ≡ get_elem? (pointer ((obj + e.address) % 0x10000000000000000)) k
    pub copied :
        (i n : ℕ) (o : Object)
        → get_elem? (placed 0 os) i ≡ some (n, o)
        → (k : ℕ) → k < length o.bytes
        → IsFree (links [] 0 os) (n + k)
        → get_elem? r (n + k) ≡ get_elem? o.bytes k

  Linked-Restored :
      (os : List Object) (m : Bool × Mar) (r : List ℕ)
      → Packed os mar_create m
      → Linked pointer obj m.1.relocation_table (take m.1.objsize m.1.object) r
      → Restored os r
  unfolding mar_create
  Linked-Restored os m r p l =
      let table : m.1.relocation_table ≡ links [] 0 os = p.relents in
      record {
        pointed = λ i e at k less.
            l.pointed i e (ap (λ t. get_elem? t i) table ∙ at) (e.offset + k) k refl less;
        copied = λ i n o at k less free.
            let inside = p.inside i n o at in
            l.untouched (n + k) (subst (λ t. IsFree t (n + k)) (sym table) free)
            ∙ get_elem?-take m.1.objsize m.1.object (n + k) (omega arith)
            ∙ p.copied i n o at (n + k) k refl less;
      }

  module _ (wide : (a : ℕ) → length (pointer a) ≡ 8) (realloc : List ℕ → ℕ → Option (List ℕ))
      (is : IsRealloc realloc) (grants : (old : List ℕ) (n : ℕ) → realloc old n ≢ none) where
    -- Objects are packed by calls of mar_append_p, with a realloc that succeeds and keeps the old bytes; none is
    -- empty, and each but the first names an object before it as its base. If the pointers to them, of eight
    -- bytes, stand inside the packet and do not overlap, then no call fails, and mar_finish and unmar give
    -- the objects back: each pointer, as far behind its base's copy as it was behind the base, holds the
    -- address of the copy of its object, and the objects' bytes outside the pointers are as they were.
    pub unmar-Restored :
        (os : List Object)
        → 0 < length os
        → IsCallable [] 0 os
        → IsInside (total os) (links [] 0 os)
        → IsApart (links [] 0 os)
        → Returns
            (λ x. (r : List ℕ) × (x ≡ some r) × Restored os r)
            (pack realloc os mar_create >>= λ m. mar_finish m.1 >>= λ p. unmar pointer obj p)
    unfolding mar_create unmar
    unmar-Restored [] some_ call inside apart = absurd (omega arith)
    unmar-Restored (o ∷ os) some_ call inside apart =
        Returns->>= (pack-Packed realloc is grants (o ∷ os) mar_create mar_create-IsPacked call)
          λ m p.
            let table : m.1.relocation_table ≡ links [] 0 (o ∷ os) = p.relents in
            let size = p.size in
            let some_bytes = call.0 in
            let room = p.inside 0 0 o refl in
            let packed = p.packed in
            let held = packed.inside in
            let long : length (take m.1.objsize m.1.object) ≡ total (o ∷ os) =
              let cut = length-take m.1.objsize m.1.object held in omega arith in
            Returns->>= (mar_finish-IsPacked m.1 packed) λ x at. elim at [
              | inl (e, z) ↦ absurd (omega arith)
              | inr e ↦ rw e (
                  Returns->>=
                    (relocate-Linked pointer obj wide m.1.relocation_table
                      (take m.1.objsize m.1.object) (rw (table, long) inside) (rw table apart))
                    λ r l. returned (r, refl, Linked-Restored (o ∷ os) m r p l))
            ]
