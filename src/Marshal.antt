-- ===== src/Marshal.antt =====
-- marshal.c: objects that point to each other, packed into one. The bytes that a pointer points to are
-- arguments; `realloc` is a parameter on the bytes of a storage.
pub mod Append
pub mod Linked
pub mod Calls
pub mod Packed
pub mod Restored
mod Samples
use getassoc.Common.{
  ℕ, zero, suc, ◌+◌, ◌-◌, ◌%◌, Bool, true, false, not, ◌&&◌, ◌||◌, Option, none, some, List, [],
  ◌∷◌, ◌++◌, ltb, leb, ◌==◌, if◌then◌else◌, length, take, round_up, Run, done, fault, ◌>>=◌,
}
use getassoc.Nstring.{write_at}

-- `struct relent_t`: where a pointer stands, and what it points to
pub record Relent : Type 0 where
  pub offset : ℕ
  pub address : ℕ

-- `struct basemem_t`: an object that was packed, by its pointer, and where it stands
pub record Basemem : Type 0 where
  pub ptr : ℕ
  pub offset : ℕ

-- `struct mar_t`. `object_size` is the length of `object`; `pkthdr.nrelent` and `nbases` are the lengths
-- of the tables.
pub record Mar : Type 0 where
  pub objsize : ℕ
  pub object : List ℕ
  pub relocation_table : List Relent
  pub base_table : List Basemem

unfoldable pub mar_create : Mar
mar_create = record { objsize = 0; object = []; relocation_table = []; base_table = [] }

unfoldable pub mar_reset : Mar → Mar
mar_reset m = record m { objsize = 0; relocation_table = []; base_table = [] }

-- The loop over the base table
unfoldable pub find_base : ℕ → List Basemem → Option ℕ
find_base base [] = none
find_base base (b ∷ bs) =
    let rest = find_base base bs in if b.ptr == base then some b.offset else rest

-- The size of an object, a multiple of 4
unfoldable pub padded : ℕ → ℕ
padded size = if size % 4 == 0 then size else size + (4 - size % 4)

-- mar_append_p once the object's bytes are copied to `object`. `ptr` is where the pointer `value` to it
-- stands; `granted_b` and `granted_r` are whether realloc succeeds for the tables.
unfoldable pub enter_tables : Bool → Bool → Mar → Option ℕ → ℕ → ℕ → ℕ → List ℕ → Bool × Mar
enter_tables granted_b granted_r m base ptr value size object =
    let table = m.base_table ++ (record { ptr = value; offset = m.objsize } ∷ []) in
    let t : Mar = record m {
      objsize = m.objsize + padded size;
      object = object;
      base_table = table;
    } in
    if not granted_b then (false, record m { object = object }) else elim base [
      | none ↦ (true, t)
      | some b ↦ elim (find_base b table) [
        | none ↦ (false, t)
        | some base_o ↦ if not granted_r then (false, t) else (
          true,
          record t {
            relocation_table =
                m.relocation_table
                ++ (record {
                  offset = (base_o + (ptr + 0x10000000000000000 - b)) % 0x10000000000000000;
                  address = m.objsize;
                }
                    ∷ []);
          },
        )
      ]
    ]

-- The answer is whether it is 0, not -1; `base` is `none` for NULL, an assertion that fails is a fault.
unfoldable pub mar_append_p :
    (List ℕ → ℕ → Option (List ℕ))
    → Bool
    → Bool
    → Mar
    → Option ℕ
    → ℕ
    → ℕ
    → List ℕ
    → Run (Bool × Mar)
mar_append_p realloc granted_b granted_r m base ptr value bytes =
    let size = length bytes in
    let need = m.objsize + size in
    let first : Bool = elim base [ none ↦ true | some b ↦ false ] in
    let room : Option (List ℕ) =
      if ltb (length m.object) need then realloc m.object (round_up need 1024) else some m.object in
    if (first && (m.objsize == 0)) || (not first && not (m.objsize == 0))
    then elim room [
      | none ↦ done (false, m)
      | some object ↦
          (write_at object m.objsize bytes >>= λ o.
          done (enter_tables granted_b granted_r m base ptr value size o))
    ]
    else fault

-- The bytes and the table behind the header of a packet, or NULL
unfoldable pub mar_finish : Mar → Run (Option (List ℕ × List Relent))
mar_finish m =
    if m.objsize == 0
    then done none
    else if length m.base_table == length m.relocation_table + 1
    then done (some (take m.objsize m.object, m.relocation_table))
    else fault

-- The packet stands behind its header at `obj`, the table behind the packet; `pointer` gives the bytes of
-- a pointer. A pointer that is not inside the packet is a fault.
module _ (pointer : ℕ → List ℕ) (obj : ℕ) where
  -- The loop of unmar
  unfoldable pub relocate : List Relent → List ℕ → Run (List ℕ)
  relocate [] bytes = done bytes
  relocate (e ∷ table) bytes =
      write_at bytes e.offset (pointer ((obj + e.address) % 0x10000000000000000)) >>= λ b.
      relocate table b

  unfoldable pub unmar : Option (List ℕ × List Relent) → Run (Option (List ℕ))
  unfolding relocate
  unmar none = done none
  unmar (some (bytes, table)) = relocate table bytes >>= λ b. done (some b)
