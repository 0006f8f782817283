-- ===== src/Marshal/Packed.antt =====
-- What a packet holds after a number of calls.
use getassoc.Common.{
  ℕ, zero, suc, ◌+◌, ◌≤◌, ◌<◌, ◌≡◌, ◌≢◌, refl, sym, ap, ◌∙◌, subst, Bool, true, Option, none, some,
  List, [], ◌∷◌, ◌++◌, arith, ◌==◌, append_assoc, append-nil, length, get_elem?, take, done,
  Returns, returned, Returns-value, Returns->>=, Returns-mono,
}
use getassoc.Common.Arrays.{get_elem?-take}
use getassoc.Nstring.Append.{IsRealloc}
use getassoc.Marshal.{Mar, padded, mar_append_p}
use getassoc.Marshal.Append.{IsPacked, Added, is_first, mar_append_p-Added}
use getassoc.Marshal.Linked.{own-at}
use getassoc.Marshal.Calls.{
  Object, placed, total, known_with, link, links, HasBase, IsCallable, pack, mar_append_p-entered,
  Entered, enter_tables-Entered,
}
unfoldable use getassoc.Marshal.Calls.{pack}

-- The packet holds the objects, behind what was in it, and the pointers to them.
pub record Packed (os : List Object) (m : Mar) (r : Bool × Mar) : Type 0 where
  pub ok : r.0 ≡ true
  pub packed : IsPacked r.1
  pub size : r.1.objsize ≡ m.objsize + total os
  pub relents : r.1.relocation_table ≡ m.relocation_table ++ links m.base_table m.objsize os
  pub before : (j : ℕ) → j < m.objsize → get_elem? r.1.object j ≡ get_elem? m.object j
  pub inside :
      (i n : ℕ) (o : Object)
      → get_elem? (placed m.objsize os) i ≡ some (n, o)
      → n + length o.bytes ≤ r.1.objsize
  pub copied :
      (i n : ℕ) (o : Object)
      → get_elem? (placed m.objsize os) i ≡ some (n, o)
      → (j k : ℕ) → j ≡ n + k
      → k < length o.bytes
      → get_elem? r.1.object j ≡ get_elem? o.bytes k

module _ (m : Mar) (o : Object) (r : Bool × Mar) (v : IsPacked m) (a : Added m o.bytes r)
    (ok : r.0 ≡ true) where
  kept_bytes : (j : ℕ) → j < m.objsize → get_elem? r.1.object j ≡ get_elem? m.object j
  kept_bytes j l =
      sym (get_elem?-take m.objsize r.1.object j l)
      ∙ ap (λ x. get_elem? x j) a.before
      ∙ get_elem?-take m.objsize m.object j l

  own_bytes :
      (j k : ℕ)
      → j ≡ m.objsize + k
      → k < length o.bytes
      → get_elem? r.1.object j ≡ get_elem? o.bytes k
  own_bytes j k e l =
      let inside = v.inside in
      sym (get_elem?-take (m.objsize + length o.bytes) r.1.object j (omega arith))
      ∙ ap (λ x. get_elem? x j)
          (a.copied ok ∙ ap (λ x. take m.objsize m.object ++ x) (sym (append-nil o.bytes)))
      ∙ own-at m.object o.bytes [] m.objsize j k inside e l

  module _ (g : Entered m o r) (os : List Object) (q : Bool × Mar) (p : Packed os r.1 q) where
    then-Packed : Packed (o ∷ os) m q
    then-Packed = record {
      ok = p.ok;
      packed = p.packed;
      size = let e = p.size in let f = g.size in omega arith;
      relents =
          let known = known_with m.base_table m.objsize o in
          p.relents
          ∙ ap (λ b. r.1.relocation_table ++ links b r.1.objsize os) g.bases
          ∙ ap (λ n. r.1.relocation_table ++ links known n os) g.size
          ∙ ap (λ t. t ++ links known (m.objsize + padded (length o.bytes)) os) g.relents
          ∙ append_assoc m.relocation_table (link known o.base o.ptr m.objsize)
              (links known (m.objsize + padded (length o.bytes)) os);
      before = λ j l. let s = a.size ok in p.before j (omega arith) ∙ kept_bytes j l;
      inside = inside;
      copied = copied;
    }
      where
        behind : placed r.1.objsize os ≡ placed (m.objsize + padded (length o.bytes)) os
        behind = ap (λ n. placed n os) g.size

        inside :
            (i n : ℕ) (x : Object)
            → get_elem? (placed m.objsize (o ∷ os)) i ≡ some (n, x)
            → n + length x.bytes ≤ q.1.objsize
        inside zero n x at =
            let place : m.objsize ≡ n = cc in
            let object : o ≡ x = cc in
            let long : length o.bytes ≡ length x.bytes = ap (λ y. length y.bytes) object in
            let s = a.size ok in let e = p.size in omega arith
        inside (suc i) n x at = p.inside i n x (ap (λ y. get_elem? y i) behind ∙ at)

        copied :
            (i n : ℕ) (x : Object)
            → get_elem? (placed m.objsize (o ∷ os)) i ≡ some (n, x)
            → (j k : ℕ) → j ≡ n + k
            → k < length x.bytes
            → get_elem? q.1.object j ≡ get_elem? x.bytes k
        copied zero n x at j k e l =
            let place : m.objsize ≡ n = cc in
            let object : o ≡ x = cc in
            let long : length o.bytes ≡ length x.bytes = ap (λ y. length y.bytes) object in
            let s = a.size ok in
            p.before j (omega arith)
            ∙ own_bytes j k (omega arith) (omega arith)
            ∙ ap (λ y. get_elem? y.bytes k) object
        copied (suc i) n x at j k e l = p.copied i n x (ap (λ y. get_elem? y i) behind ∙ at) j k e l

module _ (realloc : List ℕ → ℕ → Option (List ℕ)) (is : IsRealloc realloc)
    (grants : (old : List ℕ) (n : ℕ) → realloc old n ≢ none) where
  -- One call adds the object and its pointer.
  mar_append_p-Entered :
      (m : Mar) (o : Object)
      → IsPacked m
      → 0 < length o.bytes
      → is_first o.base ≡ (m.objsize == 0)
      → HasBase o.base (known_with m.base_table m.objsize o)
      → Returns
          (λ r. Entered m o r × Added m o.bytes r)
          (mar_append_p realloc true true m o.base o.ptr o.value o.bytes)
  mar_append_p-Entered m o v some_bytes first has =
      let (r, ran, (object, entry)) =
        Returns-value (mar_append_p-entered realloc is grants m o v first) in
      let (r', ran', added) = Returns-value (
        mar_append_p-Added realloc true true m o.base o.ptr o.value o.bytes is v first
          some_bytes) in
      let both : done r' ≡ done r = sym ran' ∙ ran in
      let same : r' ≡ r = cc in
      rw ran (
        returned (
          subst (Entered m o) (sym entry) (enter_tables-Entered m o object o.base refl has),
          subst (Added m o.bytes) same added,
        ))

  pub pack-Packed :
      (os : List Object) (m : Mar)
      → IsPacked m
      → IsCallable m.base_table m.objsize os
      → Returns (Packed os m) (pack realloc os m)
  unfolding pack
  pack-Packed [] m v call = returned (record {
    ok = refl;
    packed = v;
    size = omega arith;
    relents = sym (append-nil m.relocation_table);
    before = λ j l. refl;
    inside = λ i n o at. cc;
    copied = λ i n o at. cc;
  })
  pack-Packed (o ∷ os) m v (some_bytes, first, has, call) =
      Returns->>= (mar_append_p-Entered m o v some_bytes first has) λ r (g, a).
        let ok = g.ok in
        rw ok (
          Returns-mono (then-Packed m o r v a ok g os) (
            pack-Packed os r.1 (a.packed ok) (
              subst (λ b. IsCallable b r.1.objsize os) (sym g.bases)
                (subst (λ n. IsCallable (known_with m.base_table m.objsize o) n os) (sym g.size)
                  call))))
