-- ===== src/Csv/Strings.antt =====
-- The strings in `buf` at the offsets in `offs`.
use mathlib.Core.List.{append_assoc}
use getassoc.Common.{
  ℕ, ◌+◌, ◌≡◌, refl, ap, ◌∙◌, false, List, [], ◌∷◌, ◌++◌, arith, ◌==◌, All, length, length-append,
  map, drop,
}
use getassoc.Csv.{c_string}

-- The strings one behind the other, each with its NUL, and where each starts from `i` on
abbrev pub laid : List (List ℕ) → List ℕ
laid [] = []
laid (f ∷ fs) = f ++ (0 ∷ laid fs)

abbrev pub offsets : ℕ → List (List ℕ) → List ℕ
offsets i [] = []
offsets i (f ∷ fs) = i ∷ offsets (i + length f + 1) fs

abbrev pub IsString : List ℕ → Type 0
IsString f = All (λ c. (c == 0) ≡ false) f

c_string-append : (f rest : List ℕ) → IsString f → c_string (f ++ (0 ∷ rest)) ≡ f
unfolding c_string
c_string-append [] rest clear = refl
c_string-append (c ∷ f) rest (here, clear) = rw (here, c_string-append f rest clear) refl

drop-append : (p q : List ℕ) → drop (length p) (p ++ q) ≡ q
drop-append [] q = refl
drop-append (c ∷ p) q = drop-append p q

pub strings-laid :
    (p : List ℕ) (fs : List (List ℕ))
    → All IsString fs
    → map (λ i. c_string (drop i (p ++ laid fs))) (offsets (length p) fs) ≡ fs
strings-laid p [] clear = refl
strings-laid p (f ∷ fs) (here, clear) =
    let q = p ++ (f ++ (0 ∷ [])) in
    let long : length q ≡ length p + length f + 1 =
      omega (arith, length-append p (f ++ (0 ∷ [])), length-append f (0 ∷ [])) in
    let same : q ++ laid fs ≡ p ++ (f ++ (0 ∷ laid fs)) =
      append_assoc p (f ++ (0 ∷ [])) (laid fs) ∙ ap (◌++◌ p) (append_assoc f (0 ∷ []) (laid fs)) in
    let rest : map (λ i. c_string (drop i (p ++ (f ++ (0 ∷ laid fs)))))
          (offsets (length p + length f + 1) fs)
        ≡ fs =
      rw (long, same) at (strings-laid q fs clear) in
    rw (drop-append p (f ++ (0 ∷ laid fs)), c_string-append f (laid fs) here, rest) refl
