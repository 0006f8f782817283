-- ===== src/Marshal/Samples.antt =====
-- Runs and examples for marshal.c.
use getassoc.Common.{
  ℕ, zero, suc, ◌/◌, ◌%◌, List, ap, ◌≡◌, refl, true, none, some, [], ◌∷◌, arith, length, done,
  Returns, ◌>>=◌, round_up,
}
use getassoc.Nstring.{write_at}
use getassoc.Nstring.Samples.{zeros_behind, zeros_behind-IsRealloc}
use getassoc.Marshal.{
  mar_create, mar_reset, find_base, padded, enter_tables, mar_append_p, mar_finish, relocate, unmar,
}
use getassoc.Marshal.Linked.{IsInside, IsApart}
use getassoc.Marshal.Calls.{Object, links, total, IsCallable, pack}
use getassoc.Marshal.Restored.{Restored, unmar-Restored}
use getassoc.Marshal.Append.{Added, mar_create-IsPacked, mar_append_p-Added}

-- An object at 100 of five bytes, with a pointer at 101 to an object at 200
two_objects :
    (mar_append_p zeros_behind true true (mar_reset mar_create) none 8 100 (1 ∷ 0 ∷ 0 ∷ 0 ∷ 2 ∷ [])
      >>= λ r. mar_append_p zeros_behind true true r.1 (some 100) 101 200 (3 ∷ []) >>= λ q.
          mar_finish q.1)
    ≡ done (
        some (
          1 ∷ 0 ∷ 0 ∷ 0 ∷ 2 ∷ 0 ∷ 0 ∷ 0 ∷ 3 ∷ 0 ∷ 0 ∷ 0 ∷ [],
          record { offset = 1; address = 8 } ∷ [],
        ))
unfolding mar_append_p mar_create mar_reset mar_finish enter_tables find_base padded write_at
    round_up
two_objects = refl

-- Without its base the second object is refused, but it has been entered: the packet is out of order.
no_base :
    (mar_append_p zeros_behind true true mar_create none 8 100 (1 ∷ []) >>= λ r.
    mar_append_p zeros_behind true true r.1 (some 99) 101 200 (3 ∷ []) >>= λ q.
    done (length q.1.base_table))
    ≡ done 2
unfolding mar_append_p mar_create enter_tables find_base padded write_at round_up
no_base = refl

mar_append_p-Added_example :
    Returns
      (Added mar_create (1 ∷ 2 ∷ []))
      (mar_append_p zeros_behind true true mar_create none 8 100 (1 ∷ 2 ∷ []))
unfolding mar_create
mar_append_p-Added_example =
    mar_append_p-Added zeros_behind true true mar_create none 8 100 (1 ∷ 2 ∷ [])
      zeros_behind-IsRealloc mar_create-IsPacked refl (omega arith)

-- The bytes of an address, the lowest first
abbrev little_endian : ℕ → List ℕ
little_endian a =
    a % 0x100
    ∷ a / 0x100 % 0x100
    ∷ a / 0x10000 % 0x100
    ∷ a / 0x1000000 % 0x100
    ∷ a / 0x100000000 % 0x100
    ∷ a / 0x10000000000 % 0x100
    ∷ a / 0x1000000000000 % 0x100
    ∷ a / 0x100000000000000 % 0x100
    ∷ []

-- An object at 100, with a pointer at 104 to an object at 200
abbrev linked : List Object
linked =
    record {
      base = none;
      ptr = 8;
      value = 100;
      bytes = 1 ∷ 0 ∷ 0 ∷ 0 ∷ 200 ∷ 0 ∷ 0 ∷ 0 ∷ 0 ∷ 0 ∷ 0 ∷ 0 ∷ [];
    }
    ∷ record { base = some 100; ptr = 104; value = 200; bytes = 3 ∷ 4 ∷ 5 ∷ [] }
    ∷ []

-- The packet is received at 4096.
linked_bytes :
    (pack zeros_behind linked mar_create >>= λ m.
    mar_finish m.1 >>= λ p. unmar little_endian 4096 p)
    ≡ done (some (1 ∷ 0 ∷ 0 ∷ 0 ∷ 12 ∷ 16 ∷ 0 ∷ 0 ∷ 0 ∷ 0 ∷ 0 ∷ 0 ∷ 3 ∷ 4 ∷ 5 ∷ 0 ∷ []))
unfolding pack mar_append_p mar_create mar_finish enter_tables find_base padded write_at round_up
    relocate unmar
linked_bytes = refl

linked-IsInside : IsInside (total linked) (links [] 0 linked)
unfolding find_base padded
linked-IsInside zero e at =
    let here : record { offset = 4; address = 12 } ≡ e = cc in
    let offset : 4 ≡ e.offset = ap (λ x. x.offset) here in omega arith
linked-IsInside (suc i) e at = cc

linked-IsApart : IsApart (links [] 0 linked)
unfolding find_base padded
linked-IsApart zero zero e f l at_i at_j = absurd (omega arith)
linked-IsApart zero (suc j) e f l at_i at_j = cc
linked-IsApart (suc i) j e f l at_i at_j = cc

linked-IsCallable : IsCallable [] 0 linked
unfolding find_base padded
linked-IsCallable = (omega arith, refl, tt, (omega arith, refl, (0, refl), tt))

unmar-Restored_example :
    Returns
      (λ x. (r : List ℕ) × (x ≡ some r) × Restored little_endian 4096 linked r)
      (pack zeros_behind linked mar_create >>= λ m.
        mar_finish m.1 >>= λ p. unmar little_endian 4096 p)
unmar-Restored_example =
    unmar-Restored little_endian 4096 (λ a. refl) zeros_behind zeros_behind-IsRealloc
      (λ old n e. cc) linked (omega arith) linked-IsCallable linked-IsInside linked-IsApart
