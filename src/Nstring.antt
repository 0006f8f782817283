-- ===== src/Nstring.antt =====
-- nstring.c: strings that grow. `realloc` is a parameter on the bytes of a storage; NULL is the empty one.
pub mod Append
pub mod Samples
use getassoc.Common.{
  ℕ, zero, suc, ◌+◌, Bool, true, false, Option, none, some, List, [], ◌∷◌, ◌++◌, leb, if◌then◌else◌,
  length, take, drop, round_up, Run, done, fault, ◌>>=◌,
}

-- `size` is the length of `ptr`.
pub record Nstring : Type 0 where
  pub ptr : List ℕ
  pub len : ℕ

-- memmove of some bytes to an offset of a storage, which must hold them
unfoldable pub write_at : List ℕ → ℕ → List ℕ → Run (List ℕ)
write_at ptr i bytes =
    if leb (i + length bytes) (length ptr)
    then done (take i ptr ++ (bytes ++ drop (i + length bytes) ptr))
    else fault

-- The number of bytes before the NUL, which must be there
unfoldable pub strlen : List ℕ → Run ℕ
strlen [] = fault
strlen (zero ∷ s) = done 0
strlen (suc c ∷ s) = strlen s >>= λ n. done (n + 1)

-- ns_append of `len` bytes of `s`; the result is whether the answer is 0, not -1.
unfoldable pub append : (List ℕ → ℕ → Option (List ℕ)) → Nstring → List ℕ → ℕ → Run (Bool × Nstring)
append realloc a s len =
    let copy : List ℕ → Run (Bool × Nstring) = λ ptr. write_at ptr a.len (take len s) >>= λ p.
    write_at p (a.len + len) (0 ∷ []) >>= λ q. done (true, record { ptr = q; len = a.len + len }) in
    if leb (length a.ptr) (a.len + len)
    then elim (realloc a.ptr (round_up (a.len + len + 1) 1024)) [
      | none ↦ done (false, a)
      | some new ↦ copy new
    ]
    else copy a.ptr

-- The length `none` is -1.
unfoldable pub ns_append :
    (List ℕ → ℕ → Option (List ℕ)) → Nstring → List ℕ → Option ℕ → Run (Bool × Nstring)
ns_append realloc a s len = elim len [
  | none ↦ (strlen s >>= λ n. append realloc a s n)
  | some n ↦ if leb n (length s) then append realloc a s n else fault
]

-- `none` is -1.
unfoldable pub writefn_ns_append :
    (List ℕ → ℕ → Option (List ℕ)) → Nstring → List ℕ → ℕ → Run (Option ℕ × Nstring)
writefn_ns_append realloc cookie buf size =
    ns_append realloc cookie buf (some size) >>= λ r. done (if r.0 then some size else none, r.1)
