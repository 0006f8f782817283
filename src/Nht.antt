-- ===== src/Nht.antt =====
-- nht.c: the hash table of names. A cell of the index is 0, DIRTY1 or the offset of an entry; each
-- offset stands in one cell, so the cell holds the entry itself. The statistics are left out.
pub mod Probe
pub mod Search
pub mod Cells
pub mod Write
pub mod Lookup
pub mod Erase
pub mod Extend
pub mod Entries
pub mod Walk
mod Samples
use Prim.Native.Nat.{bit_xor}
use getassoc.Common.{
  ℕ, zero, suc, ◌+◌, ◌*◌, ◌-◌, ◌/◌, ◌%◌, Bool, true, false, not, ◌&&◌, Option, none, some, List, [],
  ◌∷◌, ◌++◌, ltb, leb, ◌==◌, if◌then◌else◌, length, map, get_elem?, set, take, drop, Run, done,
  fault, out_of_fuel, ◌>>=◌,
}
use getassoc.Common.Arrays.{load}
use getassoc.Sutil.{equal}

-- `struct hte`: the payload and the key
pub record Hte : Type 0 where
  pub payload : List ℕ
  pub name : List ℕ

-- A `fwptr_t` in the index: 0, DIRTY1, an offset, or an offset with the bit DIRTY1
pub data Cell : Type 0 where
  empty : Cell
  dirty1 : Cell
  held : Hte → Cell
  moving : Hte → Cell

-- `struct nht`; `ix.size` is the length of `ix`
pub record Nht : Type 0 where
  pub dsize : ℕ
  pub nentries : ℕ
  pub threshold : ℕ
  pub ix : List Cell
  pub seq_ptr : ℕ
  pub rdonly : Bool

abbrev pub ht_growsz : ℕ
ht_growsz = 512 * 1024

abbrev pub threshold_of : ℕ → ℕ
threshold_of t = t / 7 * 6

-- The entry in a cell that a loop has found
unfoldable pub entry : Cell → Run Hte
entry empty = fault
entry dirty1 = fault
entry (held vv) = done vv
entry (moving vv) = fault

-- The first pass of ht_extend over the old cells
unfoldable pub mark_cell : Cell → Cell
mark_cell empty = empty
mark_cell dirty1 = empty
mark_cell (held vv) = moving vv
mark_cell (moving vv) = moving vv

unfoldable pub count_moving : List Cell → ℕ
count_moving [] = 0
count_moving (moving vv ∷ ix) = suc (count_moving ix)
count_moving (empty ∷ ix) = count_moving ix
count_moving (dirty1 ∷ ix) = count_moving ix
count_moving (held vv ∷ ix) = count_moving ix

unfoldable pub fill_zero : ℕ → List Cell
fill_zero zero = []
fill_zero (suc n) = empty ∷ fill_zero n

-- How many probes see every cell, with `nelems` tables
abbrev pub probes : ℕ → ℕ → ℕ
probes nelems size = nelems + (size + size)

-- `tbls` and `nelems(tbls)` are the tables of pptbls.h.
module _ (tbls : ℕ → ℕ → ℕ) (nelems : ℕ) where
  unfoldable pub crc_loop : (ℕ → ℕ) → List ℕ → ℕ → ℕ
  crc_loop table [] r = r
  crc_loop table (d ∷ p) r =
      let x = bit_xor r (d % 0x100) in crc_loop table p (bit_xor (x / 0x100) (table (x % 0x100)))

  unfoldable pub cshash : List ℕ → ℕ → ℕ
  unfolding crc_loop
  cshash p k =
      let table : ℕ → ℕ = if ltb k nelems then tbls k else tbls 0 in
      bit_xor (crc_loop table p 0xffffffff) 0xffffffff % 0x100000000

  -- The sum is a `uint32_t`; `k` never comes near the bound of `int`.
  unfoldable pub nsxhash : ℕ → List ℕ → ℕ → ℕ
  unfolding cshash
  nsxhash size p k = (cshash p k + k) % 0x100000000 % size

  module _ (size : ℕ) (ix : List Cell) (p : List ℕ) where
    -- The loop of nht_enter, up to the cell that is new or the key's own
    unfoldable pub enter_loop : ℕ → ℕ → Run ℕ
    enter_loop zero c = out_of_fuel
    enter_loop (suc n) c =
        let s = nsxhash size p c in
        let conflict = enter_loop n (c + 1) in
        load ix s >>= λ e. elim e [
          | empty ↦ done s
          | dirty1 ↦ done s
          | held vv ↦ if equal vv.name p then done s else conflict
          | moving vv ↦ fault
        ]

    -- The loop of nht_retrieve and of nht_delete: the key's cell, if there is one
    unfoldable pub find_loop : ℕ → ℕ → Run (Option ℕ)
    find_loop zero c = out_of_fuel
    find_loop (suc n) c =
        let s = nsxhash size p c in
        let conflict = find_loop n (c + 1) in
        load ix s >>= λ e. elim e [
          | empty ↦ done none
          | dirty1 ↦ conflict
          | held vv ↦ if equal vv.name p then done (some s) else conflict
          | moving vv ↦ fault
        ]

  -- The payload
  unfoldable pub nht_retrieve : Nht → List ℕ → Run (Option (List ℕ))
  unfolding find_loop entry
  nht_retrieve h p =
      let size = length h.ix in
      if size == 0
      then done none
      else (find_loop size h.ix p (probes nelems size) 0 >>= λ o. elim o [
        | none ↦ done none
        | some s ↦ (load h.ix s >>= λ e. entry e >>= λ vv. done (some vv.payload))
      ])

  -- Whether the answer is 0, not -1
  unfoldable pub nht_delete : Nht → List ℕ → Run (Bool × Nht)
  unfolding find_loop
  nht_delete h p =
      let size = length h.ix in
      if h.rdonly
      then done (false, h)
      else if size == 0
      then done (false, h)
      else (find_loop size h.ix p (probes nelems size) 0 >>= λ o. elim o [
        | none ↦ done (false, h)
        | some s ↦ done (true, record h { ix = set h.ix s dirty1 })
      ])

  module _ (size : ℕ) where
    -- The inner loop of ht_extend, which finds a place for the entry `o` of the cell `i`: the index,
    -- and whether `i` goes on. An assertion that fails is a fault.
    unfoldable pub place_loop : ℕ → ℕ → Hte → List Cell → ℕ → Run (Bool × List Cell)
    place_loop zero i o ix c = out_of_fuel
    place_loop (suc n) i o ix c =
        let s = nsxhash size o.name c in
        let conflict = place_loop n i o ix (c + 1) in
        load ix s >>= λ e. elim e [
          | empty ↦ done (true, set (set ix s (held o)) i empty)
          | dirty1 ↦ fault
          | held vv ↦
              if equal vv.name o.name then (if i == s then done (true, ix) else fault) else conflict
          | moving vv ↦
              if ltb i s then done (false, set (set ix s (held o)) i (moving vv)) else fault
        ]

    -- The outer loop, on fuel; the second count is `m`.
    unfoldable pub rehash_loop : ℕ → ℕ → ℕ → ℕ → List Cell → Run (ℕ × List Cell)
    rehash_loop zero osize i m ix = out_of_fuel
    rehash_loop (suc n) osize i m ix =
        let place : Hte → Run (ℕ × List Cell) = λ o.
          place_loop (probes nelems size) i o (set ix i (held o)) 0 >>= λ r.
          rehash_loop n osize (if r.0 then i + 1 else i) (m + 1) r.1 in
        let pass = rehash_loop n osize (i + 1) m ix in
        if ltb i osize
        then (load ix i >>= λ e. elim e [
          | empty ↦ pass
          | dirty1 ↦ fault
          | held vv ↦ pass
          | moving o ↦ place o
        ])
        else done (m, ix)

  -- `extended` is whether nvmt_extend succeeds; `none` is -1.
  unfoldable pub ht_extend : Bool → Nht → Run (Option Nht)
  ht_extend extended h =
      let osize = length h.ix in
      let newsize = osize + ht_growsz in
      let marked = map mark_cell h.ix in
      if not extended
      then done none
      else if not (count_moving marked == h.nentries)
      then fault
      else (rehash_loop newsize (suc (osize + osize)) osize 0 0 (marked ++ fill_zero ht_growsz)
          >>= λ r.
              if not (r.0 == h.nentries)
              then fault
              else done (some (record h { ix = r.1; threshold = threshold_of newsize })))

  -- nht_enter, once there is room; `granted` is whether nvmt_alloc succeeds. The result is the payload,
  -- or NULL.
  unfoldable pub enter : Bool → Nht → List ℕ → List ℕ → Run (Option (List ℕ) × Nht)
  enter granted h p ptr =
      let size = length h.ix in
      let payload = take h.dsize ptr in
      let new : ℕ → Run (Option (List ℕ) × Nht) = λ s.
        if granted
        then done (
          some payload,
          record h {
            nentries = h.nentries + 1;
            ix = set h.ix s (held (record { payload = payload; name = p }));
          },
        )
        else done (none, h) in
      enter_loop size h.ix p (probes nelems size) 0 >>= λ s. load h.ix s >>= λ e. elim e [
        | empty ↦ new s
        | dirty1 ↦ new s
        | held vv ↦
            done
              (some payload, record h { ix = set h.ix s (held (record vv { payload = payload })) })
        | moving vv ↦ fault
      ]

  unfoldable pub nht_enter : Bool → Bool → Nht → List ℕ → List ℕ → Run (Option (List ℕ) × Nht)
  nht_enter extended granted h p ptr =
      let extend : Run (Option (List ℕ) × Nht) = ht_extend extended h >>= λ o. elim o [
        | none ↦ done (none, h)
        | some h' ↦ enter granted h' p ptr
      ] in
      if h.rdonly
      then done (none, h)
      else if leb h.threshold h.nentries
      then extend
      else enter granted h p ptr

-- The loop of nht_seq from a cell `s` on, whose cells and those behind are `ix`: the payload, if any,
-- and where the next call starts.
unfoldable pub seq_loop : List Cell → ℕ → Option (List ℕ) × ℕ
seq_loop [] s = (none, s)
seq_loop (empty ∷ ix) s = seq_loop ix (s + 1)
seq_loop (dirty1 ∷ ix) s = seq_loop ix (s + 1)
seq_loop (held vv ∷ ix) s = (some vv.payload, s + 1)
seq_loop (moving vv ∷ ix) s = (some vv.payload, s + 1)

unfoldable pub nht_seq : Nht → Option (List ℕ) × Nht
unfolding seq_loop
nht_seq h = let r = seq_loop (drop h.seq_ptr h.ix) h.seq_ptr in (r.0, record h { seq_ptr = r.1 })

unfoldable pub nht_rewind : Nht → Nht
nht_rewind h = record h { seq_ptr = 0 }
