-- ===== src/Marshal/Linked.antt =====
-- What unmar writes into a packet.
use mathlib.Core.Logic.{◌⊎◌}
use getassoc.Common.{
  ℕ, zero, suc, ◌+◌, ◌%◌, ◌≤◌, ◌<◌, ◌≡◌, refl, sym, ap, ◌∙◌, some, List, [], ◌∷◌, ◌++◌, arith, inl,
  inr, length, length-append, get_elem?, take, drop, Returns, returned, Returns->>=, Returns-mono,
}
use getassoc.Common.Arrays.{length-take}
use getassoc.Common.Cuts.{length-drop}
use getassoc.Nstring.{write_at}
use getassoc.Nstring.Append.{write_at-inside}
use getassoc.Marshal.{Relent, relocate}

front-own : (b rest : List ℕ) (k : ℕ) → k < length b → get_elem? (b ++ rest) k ≡ get_elem? b k
front-own [] rest k l = absurd (omega arith)
front-own (y ∷ b) rest zero l = refl
front-own (y ∷ b) rest (suc k) l = front-own b rest k (omega arith)

-- The bytes behind `n`, when those before it are `b`
behind-own :
    (xs b : List ℕ) (n j : ℕ)
    → n ≡ length b
    → n ≤ length xs
    → n ≤ j
    → get_elem? (b ++ drop n xs) j ≡ get_elem? xs j
behind-own xs [] zero j e h l = refl
behind-own xs [] (suc n) j e h l = absurd (omega arith)
behind-own xs (y ∷ b) zero j e h l = absurd (omega arith)
behind-own [] (y ∷ b) (suc n) j e h l = absurd (omega arith)
behind-own (x ∷ xs) (y ∷ b) (suc n) zero e h l = absurd (omega arith)
behind-own (x ∷ xs) (y ∷ b) (suc n) (suc j) e h l =
    behind-own xs b n j (omega arith) (omega arith) (omega arith)

-- The bytes at an offset are replaced.
pub record IsWritten (xs : List ℕ) (i : ℕ) (b ys : List ℕ) : Type 0 where
  pub wide : length ys ≡ length xs
  pub own : (j k : ℕ) → j ≡ i + k → k < length b → get_elem? ys j ≡ get_elem? b k
  pub others : (j : ℕ) → (j < i) ⊎ (i + length b ≤ j) → get_elem? ys j ≡ get_elem? xs j

pub own-at :
    (xs b rest : List ℕ) (i j k : ℕ)
    → i ≤ length xs
    → j ≡ i + k
    → k < length b
    → get_elem? (take i xs ++ (b ++ rest)) j ≡ get_elem? b k
own-at xs b rest zero j k h e l = let same : j ≡ k = omega arith in rw same (front-own b rest k l)
own-at [] b rest (suc i) j k h e l = absurd (omega arith)
own-at (x ∷ xs) b rest (suc i) zero k h e l = absurd (omega arith)
own-at (x ∷ xs) b rest (suc i) (suc j) k h e l =
    own-at xs b rest i j k (omega arith) (omega arith) l

before-at :
    (xs rest : List ℕ) (i j : ℕ)
    → i ≤ length xs
    → j < i
    → get_elem? (take i xs ++ rest) j ≡ get_elem? xs j
before-at xs rest zero j h l = absurd (omega arith)
before-at [] rest (suc i) j h l = absurd (omega arith)
before-at (x ∷ xs) rest (suc i) zero h l = refl
before-at (x ∷ xs) rest (suc i) (suc j) h l = before-at xs rest i j (omega arith) (omega arith)

behind-at :
    (xs b : List ℕ) (i n j : ℕ)
    → n ≡ i + length b
    → n ≤ length xs
    → n ≤ j
    → get_elem? (take i xs ++ (b ++ drop n xs)) j ≡ get_elem? xs j
behind-at xs b zero n j e h l = behind-own xs b n j (omega arith) h l
behind-at xs b (suc i) zero j e h l = absurd (omega arith)
behind-at [] b (suc i) (suc n) j e h l = absurd (omega arith)
behind-at (x ∷ xs) b (suc i) (suc n) zero e h l = absurd (omega arith)
behind-at (x ∷ xs) b (suc i) (suc n) (suc j) e h l =
    behind-at xs b i n j (omega arith) (omega arith) (omega arith)

pub write_at-IsWritten :
    (xs : List ℕ) (i : ℕ) (b : List ℕ)
    → i + length b ≤ length xs
    → Returns (IsWritten xs i b) (write_at xs i b)
write_at-IsWritten xs i b h =
    let rest = drop (i + length b) xs in
    rw (write_at-inside xs i b h) (
      returned (record {
        wide = omega (
          arith,
          length-append (take i xs) (b ++ rest),
          length-append b rest,
          length-drop (i + length b) xs,
          length-take i xs (omega arith),
        );
        own = λ j k e l. own-at xs b rest i j k (omega arith) e l;
        others = λ j at. elim at [
          | inl l ↦ before-at xs (b ++ rest) i j (omega arith) l
          | inr l ↦ behind-at xs b i (i + length b) j refl h l
        ];
      }))

-- Two pointers do not overlap.
abbrev pub Apart : Relent → Relent → Type 0
Apart e f = (e.offset + 8 ≤ f.offset) ⊎ (f.offset + 8 ≤ e.offset)

abbrev pub IsApart : List Relent → Type 0
IsApart table =
    (i j : ℕ) (e f : Relent)
    → i < j
    → get_elem? table i ≡ some e
    → get_elem? table j ≡ some f
    → Apart e f

-- The pointers stand inside the packet.
abbrev pub IsInside : ℕ → List Relent → Type 0
IsInside size table = (i : ℕ) (e : Relent) → get_elem? table i ≡ some e → e.offset + 8 ≤ size

-- The byte is in none of the pointers.
abbrev pub IsFree : List Relent → ℕ → Type 0
IsFree table j =
    (i : ℕ) (e : Relent) → get_elem? table i ≡ some e → (j < e.offset) ⊎ (e.offset + 8 ≤ j)

module _ (pointer : ℕ → List ℕ) (obj : ℕ) where
  -- The pointers are written, and nothing else.
  pub record Linked (table : List Relent) (bytes r : List ℕ) : Type 0 where
    pub wide : length r ≡ length bytes
    pub pointed :
        (i : ℕ) (e : Relent)
        → get_elem? table i ≡ some e
        → (j k : ℕ) → j ≡ e.offset + k
        → k < 8
        → get_elem? r j ≡ get_elem? (pointer ((obj + e.address) % 0x10000000000000000)) k
    pub untouched : (j : ℕ) → IsFree table j → get_elem? r j ≡ get_elem? bytes j

  module _ (wide : (a : ℕ) → length (pointer a) ≡ 8) where
    pub relocate-Linked :
        (table : List Relent) (bytes : List ℕ)
        → IsInside (length bytes) table
        → IsApart table
        → Returns (Linked table bytes) (relocate pointer obj table bytes)
    unfolding relocate
    relocate-Linked [] bytes inside apart =
        returned (record { wide = refl; pointed = λ i e at. cc; untouched = λ j free. refl })
    relocate-Linked (e ∷ table) bytes inside apart =
        let p = pointer ((obj + e.address) % 0x10000000000000000) in
        let eight : length p ≡ 8 = wide ((obj + e.address) % 0x10000000000000000) in
        let fits = inside 0 e refl in
        Returns->>= (write_at-IsWritten bytes e.offset p (omega arith)) λ b w.
          let same = w.wide in
          Returns-mono (λ r l. both r b w l)
            (relocate-Linked table b (λ i f at. let h = inside (suc i) f at in omega arith)
              λ i j f g less at_i at_j. apart (suc i) (suc j) f g (omega arith) at_i at_j)
      where
        past : (j k : ℕ) → j ≡ e.offset + k → k < 8 → IsFree table j
        past j k is l i f at = elim (apart 0 (suc i) e f (omega arith) refl at) [
          | inl h ↦ inl (omega arith)
          | inr h ↦ inr (omega arith)
        ]

        outside :
            (j : ℕ)
            → IsFree (e ∷ table) j
            → (j < e.offset)
              ⊎ (e.offset + length (pointer ((obj + e.address) % 0x10000000000000000)) ≤ j)
        outside j free =
            let eight = wide ((obj + e.address) % 0x10000000000000000) in
            elim (free 0 e refl) [ inl h ↦ inl h | inr h ↦ inr (omega arith) ]

        both :
            (r b : List ℕ)
            → IsWritten bytes e.offset (pointer ((obj + e.address) % 0x10000000000000000)) b
            → Linked table b r
            → Linked (e ∷ table) bytes r
        both r b w l = record {
          wide = l.wide ∙ w.wide;
          pointed = pointed;
          untouched =
              λ j free. l.untouched j (λ i f at. free (suc i) f at) ∙ w.others j (outside j free);
        }
          where
            pointed :
                (i : ℕ) (f : Relent)
                → get_elem? (e ∷ table) i ≡ some f
                → (j k : ℕ) → j ≡ f.offset + k
                → k < 8
                → get_elem? r j ≡ get_elem? (pointer ((obj + f.address) % 0x10000000000000000)) k
            pointed zero f at j k is less =
                let same : e ≡ f = cc in
                let here : j ≡ e.offset + k = is ∙ ap (λ x. x.offset + k) (sym same) in
                let eight = wide ((obj + e.address) % 0x10000000000000000) in
                l.untouched j (past j k here less)
                ∙ w.own j k here (omega arith)
                ∙ ap (λ x. get_elem? (pointer ((obj + x.address) % 0x10000000000000000)) k) same
            pointed (suc i) f at j k is less = l.pointed i f at j k is less
