-- ===== src/Splitv/Fields.antt =====
-- The fields of splitv, joined again, are the string, and count_char counts them.
use getassoc.Common.{
  ℕ, zero, suc, ◌-◌, ◌%◌, ◌≤◌, ◌<◌, ◌≡◌, refl, ap, sym, append-nil, append_assoc, ◌∙◌, ◌⊎◌, inl,
  inr, true, false, none, some, List, [], ◌∷◌, ◌++◌, leb, ◌==◌, if◌then◌else◌, Bool-cases, arith,
  length, length-append, done,
}
use getassoc.Splitv.{break_at, skip_one, split_loop, splitv, behind_index, count_loop, count_char}

-- The fields, with a separator between each two
module _ (c : ℕ) where
  abbrev pub join : List (List ℕ) → List ℕ
  join [] = []
  join (f ∷ fs) = f ++ elim fs [ [] ↦ [] | g ∷ gs ↦ c ∷ join fs ]

module _ (c : ℕ) (some_char : 0 < c) (char : c < 0x100) where
  char_of : c % 0x100 ≡ c
  char_of = omega arith

  -- Where a string is cut
  data Cut : List ℕ → Type 0 where
    uncut : {s : List ℕ} → break_at c s ≡ (s, []) → behind_index c s ≡ done none → Cut s
    cut :
        {s : List ℕ} (f r : List ℕ)
        → break_at c s ≡ (f, c ∷ r)
        → behind_index c s ≡ done (some r)
        → s ≡ f ++ c ∷ r
        → Cut s

  divide : (s : List ℕ) → Cut s
  unfolding break_at behind_index
  divide [] = let not_end : (c % 0x100 == 0) ≡ false = ground arith in uncut refl (rw not_end refl)
  divide (x ∷ s) = elim (Bool-cases (x == c)) [
    | inl here ↦
        let same : x ≡ c = ground arith in
        let found : (x == c % 0x100) ≡ true = ground arith in
        cut [] s (rw (here, same) refl) (rw found refl) (rw same refl)
    | inr other ↦
        let passed : (x == c % 0x100) ≡ false = ground arith in
        elim (divide s) [
          | uncut p q ↦ uncut (rw (other, p) refl) (rw passed q)
          | cut f r p q e ↦ cut (x ∷ f) r (rw (other, p) refl) (rw passed q) (ap (λ l. x ∷ l) e)
        ]
  ]

  record Split (k n : ℕ) (s : List ℕ) : Type 0 where
    fields : List (List ℕ)
    count : ℕ
    ends : split_loop c false k n s ≡ done fields
    counts : count_loop c k s ≡ done count
    size : length fields ≡ (if leb n count then n else count)
    nonempty : 0 < length s → 0 < count
    joined : (s ≡ join c fields) ⊎ (s ≡ join c fields ++ c ∷ [])

  length-tail : (f r : List ℕ) {x : ℕ} {s : List ℕ} → x ∷ s ≡ f ++ c ∷ r → length r ≤ length s
  length-tail f r {x} {s} e =
      let size = length-append f (c ∷ r) in
      let same : length (x ∷ s) ≡ length (f ++ c ∷ r) = ap length e in omega arith

  join-behind :
      (f r : List ℕ) (fs : List (List ℕ)) (count n : ℕ)
      → length fs ≡ (if leb n count then n else count)
      → 0 < n
      → (0 < length r → 0 < count)
      → (r ≡ join c fs) ⊎ (r ≡ join c fs ++ c ∷ [])
      → ((f ++ c ∷ r) ≡ join c (f ∷ fs)) ⊎ ((f ++ c ∷ r) ≡ join c (f ∷ fs) ++ c ∷ [])
  join-behind f [] [] count n size pos full j = inr (ap (λ l. l ++ c ∷ []) (sym (append-nil f)))
  join-behind f (y ∷ r) [] count n size pos full j =
      let some_counted = full (omega arith) in absurd (ground arith)
  join-behind f r (g ∷ gs) count n size pos full (inl e) = inl (ap (λ l. f ++ c ∷ l) e)
  join-behind f r (g ∷ gs) count n size pos full (inr e) =
      inr (ap (λ l. f ++ c ∷ l) e ∙ sym (append_assoc f (c ∷ join c (g ∷ gs)) (c ∷ [])))

  split : (k n : ℕ) (s : List ℕ) → length s < k → 0 < n → Split k n s
  unfolding split_loop count_loop skip_one
  split zero n s h p = absurd (omega arith)
  split (suc k) n [] h p = record {
    fields = [];
    count = 0;
    ends = refl;
    counts = refl;
    size = ground arith;
    nonempty = λ q. absurd (omega arith);
    joined = inl refl;
  }
  split (suc zero) n (x ∷ s) h p = absurd (omega arith)
  split (suc (suc k)) n (x ∷ s) h p = elim (divide (x ∷ s)) [
    | uncut a b ↦ record {
      fields = (x ∷ s) ∷ [];
      count = 1;
      ends = elim (Bool-cases (leb n 1)) [ inl last ↦ rw last refl | inr more ↦ rw (more, a) refl ];
      counts = rw (count_loop, b) refl;
      size = ground arith;
      nonempty = λ q. omega arith;
      joined = inl (ap (λ l. x ∷ l) (sym (append-nil s)));
    }
    | cut f r a b e ↦
        let fits : length r < suc k = let t = length-tail f r e in omega arith in
        elim (Bool-cases (leb n 1)) [
          | inl last ↦
              let m = split (suc k) 1 r fits (omega arith) in
              record {
                fields = (x ∷ s) ∷ [];
                count = suc m.count;
                ends = rw last refl;
                counts = rw (count_loop, b, m.counts) refl;
                size = ground arith;
                nonempty = λ q. omega arith;
                joined = inl (ap (λ l. x ∷ l) (sym (append-nil s)));
              }
          | inr more ↦
              let enough : 0 < n - 1 = ground arith in
              let m = split (suc k) (n - 1) r fits enough in
              let size = m.size in
              record {
                fields = f ∷ m.fields;
                count = suc m.count;
                ends = rw (more, a, m.ends) refl;
                counts = rw (count_loop, b, m.counts) refl;
                size = ground arith;
                nonempty = λ q. omega arith;
                joined =
                    rw e
                      (join-behind f r m.fields m.count (n - 1) m.size enough m.nonempty m.joined);
              }
        ]
  ]

  -- With a separator from 1 to 255, room for at least one field and the separators not collapsed, splitv
  -- ends and so does count_char, which reads nothing behind the string: there are as many fields as count_char says, or as there is room for; and the fields,
  -- joined by the separator, are the string, but for a separator that may stand at its end.
  pub splitv-join :
      (n : ℕ) (s : List ℕ)
      → 0 < n
      → (fields : List (List ℕ)) × (count : ℕ) × (splitv c false n s ≡ done fields)
        × (count_char c (some s) ≡ done count)
        × (length fields ≡ (if leb n count then n else count))
        × ((s ≡ join c fields) ⊎ (s ≡ join c fields ++ c ∷ []))
  unfolding splitv count_char
  splitv-join n s p =
      let m = split (suc (length s)) n s (omega arith) p in
      let some_room : (n == 0) ≡ false = ground arith in
      (m.fields, m.count, rw some_room (m.ends), m.counts, m.size, m.joined)
