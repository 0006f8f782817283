-- ===== src/Nstring/Append.antt =====
-- What ns_append leaves.
use mathlib.Core.Logic.{◌⊎◌}
use mathlib.Core.List.{append_assoc}
use getassoc.Common.{
  ℕ, zero, suc, ◌+◌, ◌-◌, ◌≤◌, ◌<◌, ◌≡◌, refl, sym, ap, ◌∙◌, Bool, true, false, Option, none, some,
  List, [], ◌∷◌, ◌++◌, arith, leb, length, length-append, get_elem?, take, drop, inl, inr, round_up,
  le-round_up, append-nil, done, Returns, returned, Returns-if, ◌>>=◌,
}
use getassoc.Common.Arrays.{length-take}
use getassoc.Common.Cuts.{take-append, length-drop}
use getassoc.Nstring.{Nstring, write_at, append, ns_append}

-- The bytes before `len`
abbrev pub content : Nstring → List ℕ
content a = take a.len a.ptr

-- Without storage, or with a NUL behind the bytes
abbrev pub IsValid : Nstring → Type 0
IsValid a = ((a.len ≡ 0) × (a.ptr ≡ [])) ⊎ (get_elem? a.ptr a.len ≡ some 0)

-- realloc returns a storage of the size, which starts with the old bytes, or NULL.
abbrev pub IsRealloc : (List ℕ → ℕ → Option (List ℕ)) → Type 0
IsRealloc realloc =
    (old : List ℕ) (n : ℕ) (new : List ℕ)
    → length old ≤ n
    → realloc old n ≡ some new
    → (length new ≡ n) × (take (length old) new ≡ old)

pub take-start : (n : ℕ) (xs ys : List ℕ) → length xs ≡ n → take n (xs ++ ys) ≡ xs
take-start n xs ys e =
    let none_left : n - length xs ≡ 0 = omega arith in
    take-append n xs ys (omega arith) ∙ (rw none_left (append-nil xs))

get_elem?-behind :
    (n : ℕ) (xs ys : List ℕ) (c : ℕ) → length xs ≡ n → get_elem? (xs ++ (c ∷ ys)) n ≡ some c
get_elem?-behind zero [] ys c e = refl
get_elem?-behind (suc n) [] ys c e = absurd (omega arith)
get_elem?-behind zero (x ∷ xs) ys c e = absurd (omega arith)
get_elem?-behind (suc n) (x ∷ xs) ys c e = get_elem?-behind n xs ys c (omega arith)

pub take-take : (m n : ℕ) (xs : List ℕ) → m ≤ n → take m (take n xs) ≡ take m xs
take-take zero n xs h = refl
take-take (suc m) zero xs h = absurd (omega arith)
take-take (suc m) (suc n) [] h = refl
take-take (suc m) (suc n) (x ∷ xs) h = ap (◌∷◌ x) (take-take m n xs (omega arith))

inside : (ptr : List ℕ) (n c : ℕ) → get_elem? ptr n ≡ some c → n < length ptr
inside [] n c e = cc
inside (x ∷ ptr) zero c e = omega arith
inside (x ∷ ptr) (suc n) c e = omega (arith, inside ptr n c e)

IsValid-le : (a : Nstring) → IsValid a → a.len ≤ length a.ptr
IsValid-le a (inl (e, none_yet)) = omega arith
IsValid-le a (inr at) = omega (arith, inside a.ptr a.len 0 at)

-- The bytes are appended, or realloc returned NULL and nothing changes.
pub data Appended (realloc : List ℕ → ℕ → Option (List ℕ)) (a : Nstring) (bytes : List ℕ)
    : Bool × Nstring → Type 0 where
  appended :
      {r : Nstring}
      → content r ≡ content a ++ bytes
      → IsValid r
      → Appended realloc a bytes (true, r)
  refused : (n : ℕ) → realloc a.ptr n ≡ none → Appended realloc a bytes (false, a)

pub write_at-inside :
    (ptr : List ℕ) (i : ℕ) (bytes : List ℕ)
    → i + length bytes ≤ length ptr
    → write_at ptr i bytes ≡ done (take i ptr ++ (bytes ++ drop (i + length bytes) ptr))
unfolding write_at
write_at-inside ptr i bytes h =
    let fits : leb (i + length bytes) (length ptr) ≡ true = ground arith in rw fits refl

module _ (realloc : List ℕ → ℕ → Option (List ℕ)) (is : IsRealloc realloc) (a : Nstring)
    (v : IsValid a) where
  -- Both copies stay inside a storage with room for the bytes and the NUL.
  copy-Appended :
      (s : List ℕ) (len : ℕ) (ptr : List ℕ)
      → len ≤ length s
      → a.len + len < length ptr
      → take a.len ptr ≡ take a.len a.ptr
      → Returns (Appended realloc a (take len s)) (
          write_at ptr a.len (take len s) >>= λ p. write_at p (a.len + len) (0 ∷ []) >>= λ q.
          done (true, record { ptr = q; len = a.len + len }))
  copy-Appended s len ptr enough room same =
      let bytes = take len s in
      let long = length-take len s enough in
      let start = length-take a.len ptr (omega arith) in
      let rest = drop (a.len + length bytes) ptr in
      let p = take a.len ptr ++ (bytes ++ rest) in
      let wide : length p ≡ length ptr = omega (
        arith,
        length-append (take a.len ptr) (bytes ++ rest),
        length-append bytes rest,
        length-drop (a.len + length bytes) ptr,
      ) in
      let both : length (take a.len ptr ++ bytes) ≡ a.len + len =
        omega (arith, length-append (take a.len ptr) bytes) in
      let kept : take (a.len + len) p ≡ take a.len ptr ++ bytes =
        ap (take (a.len + len)) (sym (append_assoc (take a.len ptr) bytes rest))
        ∙ take-start (a.len + len) (take a.len ptr ++ bytes) rest both in
      let cut = length-take (a.len + len) p (omega arith) in
      let tail = drop (a.len + len + 1) p in
      rw
        (
          write_at-inside ptr a.len bytes (omega arith),
          write_at-inside p (a.len + len) (0 ∷ []) (omega arith),
        )
        (returned (
          appended
            (take-start (a.len + len) (take (a.len + len) p) (0 ∷ tail) cut
              ∙ kept
              ∙ ap (λ x. x ++ bytes) same)
            (inr (get_elem?-behind (a.len + len) (take (a.len + len) p) tail 0 cut))))

  append-Appended :
      (s : List ℕ) (len : ℕ)
      → len ≤ length s
      → Returns (Appended realloc a (take len s)) (append realloc a s len)
  unfolding append
  append-Appended s len enough =
      Returns-if (leb (length a.ptr) (a.len + len))
        (λ e. grown (realloc a.ptr (round_up (a.len + len + 1) 1024)) refl (ground arith))
        (λ e. copy-Appended s len a.ptr enough (ground arith) refl)
    where
      grown :
          (o : Option (List ℕ))
          → realloc a.ptr (round_up (a.len + len + 1) 1024) ≡ o
          → length a.ptr ≤ a.len + len
          → Returns (Appended realloc a (take len s)) (elim o [
            | none ↦ done (false, a)
            | some new ↦
                (write_at new a.len (take len s) >>= λ p. write_at p (a.len + len) (0 ∷ []) >>= λ q.
                done (true, record { ptr = q; len = a.len + len }))
          ])
      grown none was full = returned (refused _ was)
      grown (some new) was full =
          let up = le-round_up (a.len + len + 1) 1024 in
          let (wide, old) = is a.ptr (round_up (a.len + len + 1) 1024) new (omega arith) was in
          let same : take a.len new ≡ take a.len a.ptr =
            sym (take-take a.len (length a.ptr) new (IsValid-le a v)) ∙ ap (take a.len) old in
          copy-Appended s len new enough (omega arith) same

  -- With a realloc that keeps the old bytes, ns_append of `len` bytes of a string that has as many never
  -- writes outside the storage: the bytes are appended and a NUL stands behind them, or realloc
  -- returned NULL, the answer is -1 and nothing has changed.
  pub ns_append-Appended :
      (s : List ℕ) (len : ℕ)
      → len ≤ length s
      → Returns (Appended realloc a (take len s)) (ns_append realloc a s (some len))
  unfolding ns_append
  ns_append-Appended s len enough =
      let fits : leb len (length s) ≡ true = ground arith in rw fits (append-Appended s len enough)
