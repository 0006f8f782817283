-- ===== src/Marshal/Append.antt =====
-- What mar_append_p keeps of a packet, and what it adds.
use mathlib.Core.Logic.{◌⊎◌}
use getassoc.Common.{
  ℕ, ◌+◌, ◌-◌, ◌%◌, ◌≤◌, ◌<◌, ◌≡◌, refl, sym, ap, ◌∙◌, Bool, true, false, not, Option, none, some,
  List, [], ◌∷◌, ◌++◌, arith, ltb, ◌==◌, if◌then◌else◌, length, length-append, take, drop, inl, inr,
  Bool-cases, append_assoc, round_up, le-round_up, done, Returns, returned, ◌>>=◌,
}
use getassoc.Common.Arrays.{length-take}
use getassoc.Common.Cuts.{length-drop}
use getassoc.Nstring.{write_at}
use getassoc.Nstring.Append.{IsRealloc, write_at-inside, take-start, take-take}
use getassoc.Marshal.{
  Relent, Basemem, Mar, find_base, padded, enter_tables, mar_create, mar_append_p, mar_finish,
}

-- The packet is inside its storage, which is a number of blocks; objects are aligned, and each but the
-- first has a pointer to it.
pub record IsPacked (m : Mar) : Type 0 where
  pub inside : m.objsize ≤ length m.object
  pub blocks : length m.object % 1024 ≡ 0
  pub aligned : m.objsize % 4 ≡ 0
  pub pointers : 0 < m.objsize → length m.base_table ≡ length m.relocation_table + 1
  pub nothing : m.objsize ≡ 0 → length m.base_table + length m.relocation_table ≡ 0

pub mar_create-IsPacked : IsPacked mar_create
unfolding mar_create
mar_create-IsPacked = record {
  inside = omega arith;
  blocks = refl;
  aligned = refl;
  pointers = λ p. absurd (omega arith);
  nothing = λ z. refl;
}

-- What stands in the packet after a call
pub record Added (m : Mar) (bytes : List ℕ) (r : Bool × Mar) : Type 0 where
  pub within : r.1.objsize ≤ length r.1.object
  pub before : take m.objsize r.1.object ≡ take m.objsize m.object
  pub packed : r.0 ≡ true → IsPacked r.1
  pub copied :
      r.0 ≡ true → take (m.objsize + length bytes) r.1.object ≡ take m.objsize m.object ++ bytes
  pub size : r.0 ≡ true → m.objsize + length bytes ≤ r.1.objsize

round_up-blocks : (n : ℕ) → round_up n 1024 % 1024 ≡ 0
unfolding round_up
round_up-blocks n = ground arith

-- The test of the assertion
abbrev pub is_first : Option ℕ → Bool
is_first none = true
is_first (some b) = false

module _ (m : Mar) (v : IsPacked m) (bytes : List ℕ) (object : List ℕ)
    (wide : m.objsize + length bytes ≤ length object) (blocks : length object % 1024 ≡ 0)
    (same : take m.objsize object ≡ take m.objsize m.object) (some_bytes : 0 < length bytes) where
  abbrev copy : List ℕ
  copy = take m.objsize object ++ (bytes ++ drop (m.objsize + length bytes) object)

  length-copy : length copy ≡ length object
  length-copy = omega (
    arith,
    length-append (take m.objsize object) (bytes ++ drop (m.objsize + length bytes) object),
    length-append bytes (drop (m.objsize + length bytes) object),
    length-drop (m.objsize + length bytes) object,
    length-take m.objsize object (omega arith),
  )

  room : m.objsize + padded (length bytes) ≤ length object
  unfolding padded
  room = let a = v.aligned in ground arith

  stays-aligned : (m.objsize + padded (length bytes)) % 4 ≡ 0
  unfolding padded
  stays-aligned = let a = v.aligned in ground arith

  le-padded : length bytes ≤ padded (length bytes)
  unfolding padded
  le-padded = ground arith

  start : length (take m.objsize object) ≡ m.objsize
  start = length-take m.objsize object (omega arith)

  copy-before : take m.objsize copy ≡ take m.objsize m.object
  copy-before =
      take-start m.objsize (take m.objsize object) (bytes ++ drop (m.objsize + length bytes) object)
        start
      ∙ same

  copy-bytes : take (m.objsize + length bytes) copy ≡ take m.objsize m.object ++ bytes
  copy-bytes =
      let both : length (take m.objsize object ++ bytes) ≡ m.objsize + length bytes =
        omega (arith, length-append (take m.objsize object) bytes, start) in
      ap (take (m.objsize + length bytes))
        (sym (append_assoc (take m.objsize object) bytes (drop (m.objsize + length bytes) object)))
      ∙ take-start (m.objsize + length bytes) (take m.objsize object ++ bytes)
          (drop (m.objsize + length bytes) object) both
      ∙ ap (λ x. x ++ bytes) same

  -- The tables once an object is in
  grown :
      (ok : Bool) (bases : List Basemem) (table : List Relent)
      → (ok ≡ true → length bases ≡ length table + 1)
      → Added m bytes (
        ok,
        record {
          objsize = m.objsize + padded (length bytes);
          object = copy;
          relocation_table = table;
          base_table = bases;
        },
      )
  grown ok bases table tables = record {
    within = omega (arith, length-copy, room);
    before = copy-before;
    packed = λ e. record {
      inside = omega (arith, length-copy, room);
      blocks = ap (λ n. n % 1024) length-copy ∙ blocks;
      aligned = stays-aligned;
      pointers = λ p. tables e;
      nothing = λ z. absurd (omega (arith, le-padded));
    };
    copied = λ e. copy-bytes;
    size = λ e. omega (arith, le-padded);
  }

  enter_tables-Added :
      (granted_b granted_r : Bool) (base : Option ℕ) (ptr value : ℕ)
      → is_first base ≡ (m.objsize == 0)
      → Added m bytes (enter_tables granted_b granted_r m base ptr value (length bytes) copy)
  unfolding enter_tables
  enter_tables-Added false granted_r base ptr value first = record {
    within = let i = v.inside in omega (arith, length-copy, room);
    before = copy-before;
    packed = λ e. cc;
    copied = λ e. cc;
    size = λ e. cc;
  }
  enter_tables-Added true granted_r none ptr value first =
      let empty : m.objsize ≡ 0 = ground arith in
      let none_yet = v.nothing empty in
      grown true _ m.relocation_table (λ e.
        omega (arith, length-append m.base_table (record { ptr = value; offset = m.objsize } ∷ [])))
  enter_tables-Added true granted_r (some b) ptr value first =
      let more : 0 < m.objsize = ground arith in
      let before = v.pointers more in
      found granted_r (find_base b table) (
        omega (arith, length-append m.base_table (record { ptr = value; offset = m.objsize } ∷ [])))
    where
      table : List Basemem
      table = m.base_table ++ (record { ptr = value; offset = m.objsize } ∷ [])

      t : Mar
      t = record m {
        objsize = m.objsize + padded (length bytes);
        object = copy;
        base_table = table;
      }

      found :
          (granted_r : Bool) (o : Option ℕ)
          → length table ≡ length m.relocation_table + 2
          → Added m bytes (elim o [
            | none ↦ (false, t)
            | some base_o ↦ if not granted_r then (false, t) else (
              true,
              record t {
                relocation_table =
                    m.relocation_table
                    ++ (record {
                      offset = (base_o + (ptr + 0x10000000000000000 - b)) % 0x10000000000000000;
                      address = m.objsize;
                    }
                        ∷ []);
              },
            )
          ])
      found granted_r none count = grown false table m.relocation_table (λ e. cc)
      found false (some base_o) count = grown false table m.relocation_table (λ e. cc)
      found true (some base_o) count =
          grown true table _ (λ e. omega (arith, length-append m.relocation_table _, count))

-- A storage for the object: the old one, or one that realloc made of it
pub data Storage (m : Mar) (size : ℕ) : Option (List ℕ) → Type 0 where
  refused : Storage m size none
  there :
      {object : List ℕ}
      → m.objsize + size ≤ length object
      → length object % 1024 ≡ 0
      → take m.objsize object ≡ take m.objsize m.object
      → Storage m size (some object)

realloc-Storage :
    (realloc : List ℕ → ℕ → Option (List ℕ)) (m : Mar) (size : ℕ)
    → IsRealloc realloc
    → IsPacked m
    → length m.object ≤ m.objsize + size
    → (o : Option (List ℕ)) → realloc m.object (round_up (m.objsize + size) 1024) ≡ o
    → Storage m size o
realloc-Storage realloc m size is v full none was = refused
realloc-Storage realloc m size is v full (some object) was =
    let up = le-round_up (m.objsize + size) 1024 in
    let (long, old) = is m.object (round_up (m.objsize + size) 1024) object (omega arith) was in
    let i = v.inside in
    there (omega arith) (ap (λ n. n % 1024) long ∙ round_up-blocks (m.objsize + size))
      (sym (take-take m.objsize (length m.object) object i) ∙ ap (take m.objsize) old)

pub find-Storage :
    (realloc : List ℕ → ℕ → Option (List ℕ)) (m : Mar) (size : ℕ)
    → IsRealloc realloc
    → IsPacked m
    → Storage m size (
        if ltb (length m.object) (m.objsize + size)
        then realloc m.object (round_up (m.objsize + size) 1024)
        else some m.object)
find-Storage realloc m size is v = elim (Bool-cases (ltb (length m.object) (m.objsize + size))) [
  | inl full ↦ rw full (realloc-Storage realloc m size is v (ground arith) _ refl)
  | inr fits ↦ rw fits (there (ground arith) v.blocks refl)
]

copied-Added :
    (granted_b granted_r : Bool) (m : Mar) (base : Option ℕ) (ptr value : ℕ) (bytes : List ℕ)
    (o : Option (List ℕ))
    → IsPacked m
    → is_first base ≡ (m.objsize == 0)
    → 0 < length bytes
    → Storage m (length bytes) o
    → Returns (Added m bytes) (elim o [
      | none ↦ done (false, m)
      | some object ↦
          (write_at object m.objsize bytes >>= λ p.
          done (enter_tables granted_b granted_r m base ptr value (length bytes) p))
    ])
copied-Added granted_b granted_r m base ptr value bytes o v first some_bytes refused =
    returned (record {
      within = v.inside;
      before = refl;
      packed = λ e. cc;
      copied = λ e. cc;
      size = λ e. cc;
    })
copied-Added granted_b granted_r m base ptr value bytes o v first some_bytes
      (there {object} wide blocks same) =
    rw (write_at-inside object m.objsize bytes wide) (
      returned (
        enter_tables-Added m v bytes object wide blocks same some_bytes granted_b granted_r base ptr
          value first))

-- For a packet in order, an object of one byte or more, and a base exactly if it is not the first,
-- mar_append_p neither fails its assertions nor writes outside the storage, with a realloc that keeps the
-- old bytes. What was packed is kept; if the answer is 0 the object's bytes stand behind it and the
-- packet is in order: aligned, and with one pointer for each object but the first.
pub mar_append_p-Added :
    (realloc : List ℕ → ℕ → Option (List ℕ)) (granted_b granted_r : Bool) (m : Mar)
    (base : Option ℕ) (ptr value : ℕ) (bytes : List ℕ)
    → IsRealloc realloc
    → IsPacked m
    → is_first base ≡ (m.objsize == 0)
    → 0 < length bytes
    → Returns (Added m bytes) (mar_append_p realloc granted_b granted_r m base ptr value bytes)
unfolding mar_append_p
mar_append_p-Added realloc granted_b granted_r m none ptr value bytes is v first some_bytes =
    rw⁻¹ first (
      copied-Added granted_b granted_r m none ptr value bytes _ v first some_bytes
        (find-Storage realloc m (length bytes) is v))
mar_append_p-Added realloc granted_b granted_r m (some b) ptr value bytes is v first some_bytes =
    rw⁻¹ first (
      copied-Added granted_b granted_r m (some b) ptr value bytes _ v first some_bytes
        (find-Storage realloc m (length bytes) is v))

-- mar_finish of a packet in order does not fail its assertion: it gives the packed bytes and the table,
-- or NULL if nothing was packed.
pub mar_finish-IsPacked :
    (m : Mar)
    → IsPacked m
    → Returns
        (λ o. (o ≡ none × m.objsize ≡ 0) ⊎ (o ≡ some (take m.objsize m.object, m.relocation_table)))
        (mar_finish m)
unfolding mar_finish
mar_finish-IsPacked m v = elim (Bool-cases (m.objsize == 0)) [
  | inl e ↦ let empty : m.objsize ≡ 0 = ground arith in rw e (returned (inl (refl, empty)))
  | inr e ↦
      let more : 0 < m.objsize = ground arith in
      let count : (length m.base_table == length m.relocation_table + 1) ≡ true =
        let p = v.pointers more in ground arith in
      rw (e, count) (returned (inr refl))
]
