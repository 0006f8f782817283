-- ===== src/Sutil/Trim.antt =====
-- string_trim finds what stands between a prefix and a postfix.
use getassoc.Common.{
  ℕ, zero, suc, ◌+◌, ◌-◌, ◌<◌, ◌≡◌, refl, ap, sym, ◌∙◌, true, false, some, none, List, [], ◌∷◌,
  ◌++◌, leb, ◌==◌, Bool-cases, inl, inr, arith, ◌↔◌, length, length-append, append_assoc, take,
  drop,
}
use getassoc.Sutil.{equal, string_trim}

pub equal_refl : (s : List ℕ) → equal s s ≡ true
unfolding equal
equal_refl [] = refl
equal_refl (x ∷ s) = let rest = equal_refl s in ground arith

pub equal_sound : (a b : List ℕ) → equal a b ≡ true → a ≡ b
unfolding equal
equal_sound [] [] e = refl
equal_sound [] (y ∷ b) e = cc
equal_sound (x ∷ a) [] e = cc
equal_sound (x ∷ a) (y ∷ b) e = elim (Bool-cases (x == y)) [
  | inl same ↦
      let head : x ≡ y = ground arith in
      let tail : equal a b ≡ true = rw same at e in rw (head, equal_sound a b tail) refl
  | inr differ ↦ let wrong : false ≡ true = rw differ at e in cc
]

take-length : (a b : List ℕ) → take (length a) (a ++ b) ≡ a
take-length [] b = refl
take-length (x ∷ a) b = ap (λ l. x ∷ l) (take-length a b)

drop-length : (a b : List ℕ) → drop (length a) (a ++ b) ≡ b
drop-length [] b = refl
drop-length (x ∷ a) b = drop-length a b

take-drop : (n : ℕ) (s : List ℕ) → take n s ++ drop n s ≡ s
take-drop zero s = refl
take-drop (suc n) [] = refl
take-drop (suc n) (x ∷ s) = ap (λ l. x ∷ l) (take-drop n s)

drop-nil : (n : ℕ) → drop {A = ℕ} n [] ≡ []
drop-nil zero = refl
drop-nil (suc n) = refl

drop-drop : (n i j : ℕ) (s : List ℕ) → n ≡ i + j → drop n s ≡ drop j (drop i s)
drop-drop n zero j s e = ap (λ k. drop k s) (omega arith)
drop-drop n (suc i) j [] e = drop-nil n ∙ sym (drop-nil j)
drop-drop zero (suc i) j (x ∷ s) e = absurd (omega arith)
drop-drop (suc n) (suc i) j (x ∷ s) e = drop-drop n i j s (omega arith)

string_trim-between :
    (p q m : List ℕ) → 0 < length m → string_trim true (p ++ (m ++ q)) p q ≡ some m
unfolding string_trim
string_trim-between p q m pos =
    let size = length-append p (m ++ q) in
    let size' = length-append m q in
    let size'' = length-append p m in
    let long : leb (length (p ++ (m ++ q))) (length p + length q) ≡ false = ground arith in
    let cut : length (p ++ (m ++ q)) - length q ≡ length (p ++ m) = omega arith in
    let newl : length (p ++ (m ++ q)) - (length p + length q) ≡ length m = omega arith in
    let last : drop (length (p ++ m)) (p ++ (m ++ q)) ≡ q =
      ap (drop (length (p ++ m))) (sym (append_assoc p m q)) ∙ drop-length (p ++ m) q in
    rw
      (
        long,
        take-length p (m ++ q),
        equal_refl p,
        cut,
        last,
        equal_refl q,
        newl,
        drop-length p (m ++ q),
        take-length m q,
      )
      refl

string_trim_sound :
    (s p q m : List ℕ) → string_trim true s p q ≡ some m → (s ≡ p ++ (m ++ q)) × (0 < length m)
unfolding string_trim
string_trim_sound s p q m e = elim (Bool-cases (leb (length s) (length p + length q))) [
  | inl short ↦ let wrong : none ≡ some m = rw short at e in cc
  | inr long ↦ elim (Bool-cases (equal (take (length p) s) p)) [
    | inr other ↦ let wrong : none ≡ some m = rw (long, other) at e in cc
    | inl first ↦ elim (Bool-cases (equal (drop (length s - length q) s) q)) [
      | inr other ↦ let wrong : none ≡ some m = rw (long, first, other) at e in cc
      | inl last ↦
          let middle : some (take (length s - (length p + length q)) (drop (length p) s)) ≡ some m =
            rw (long, first, last) at e in
          let tail = drop (length p) s in
          let newl = length s - (length p + length q) in
          let enough : length p + length q < length s = ground arith in
          let m' : take newl tail ≡ m = cc in
          let p' = equal_sound (take (length p) s) p first in
          let q' : drop newl tail ≡ q =
            sym (drop-drop (length s - length q) (length p) newl s (omega arith))
            ∙ equal_sound (drop (length s - length q) s) q last in
          let inner : m ++ q ≡ tail = rw (m', q') at (take-drop newl tail) in
          let whole : p ++ tail ≡ s = rw p' at (take-drop (length p) s) in
          let size = length-append p tail in
          let size' = length-append m q in
          let same : length (p ++ tail) ≡ length s = ap length whole in
          let same' : length (m ++ q) ≡ length tail = ap length inner in
          (sym whole ∙ ap (λ l. p ++ l) (sym inner), omega arith)
    ]
  ]
]

-- If `malloc` succeeds, string_trim returns `m` exactly for the string that is the prefix, `m` and
-- the postfix, where `m` is not empty.
pub string_trim-eq_iff :
    (s p q m : List ℕ) → (string_trim true s p q ≡ some m) ↔ ((s ≡ p ++ (m ++ q)) × (0 < length m))
string_trim-eq_iff s p q m = (
  string_trim_sound s p q m,
  λ h. ap (λ t. string_trim true t p q) h.0 ∙ string_trim-between p q m h.1,
)
