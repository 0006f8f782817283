-- ===== src/Csv/Line.antt =====
-- csvgetline on a line of text.
use mathlib.Core.List.{append_assoc}
use getassoc.Common.{
  ℕ, zero, suc, ◌+◌, ◌≤◌, ◌<◌, ◌≡◌, refl, ap, ◌∙◌, true, false, List, [], ◌∷◌, ◌++◌, arith, length,
  length-append, map, ◌==◌, All, Bool-cases, inl, inr, done,
}
use getassoc.Csv.{CsvState, eof, quote, put_char, ends, fields_loop}
use getassoc.Csv.Text.{
  Field, plain, quoted, value, doubled, text, inner_lines, IsField, line, line_lines, IsSep,
}
use getassoc.Csv.Read.{first, after, at, IsEnd, getc-behind, last_of, field-text}
use getassoc.Csv.Strings.{laid, offsets}

length-doubled : (f : List ℕ) → length f ≤ length (doubled f)
length-doubled [] = omega arith
length-doubled (c ∷ f) = elim (Bool-cases (c == quote)) [
  | inl same ↦ rw same (omega (arith, length-doubled f))
  | inr other ↦ rw other (omega (arith, length-doubled f))
]

length-text : (f : Field) → length (value f) ≤ length (text f)
length-text (plain f) = omega arith
length-text (quoted f g) =
    omega (arith, length-append f g, length-append (doubled f) (quote ∷ g), length-doubled f)

-- The state behind the fields of a line
abbrev pub got : List Field → CsvState → CsvState
got fs s = record s {
  offs = s.offs ++ offsets (length s.buf) (map value fs);
  buf = s.buf ++ laid (map value fs);
  plineno = s.plineno + line_lines fs;
}

-- The state behind one field
abbrev got_one : Field → CsvState → CsvState
got_one f s = record s {
  offs = s.offs ++ (length s.buf ∷ []);
  buf = (s.buf ++ value f) ++ (0 ∷ []);
  plineno = s.plineno + inner_lines f;
}

got-step : (f : Field) (fs : List Field) (s : CsvState) → got fs (got_one f s) ≡ got (f ∷ fs) s
got-step f fs s =
    let long : length ((s.buf ++ value f) ++ (0 ∷ [])) ≡ length s.buf + length (value f) + 1 =
      omega (arith, length-append (s.buf ++ value f) (0 ∷ []), length-append s.buf (value f)) in
    let chars : ((s.buf ++ value f) ++ (0 ∷ [])) ++ laid (map value fs)
        ≡ s.buf ++ (value f ++ (0 ∷ laid (map value fs))) =
      append_assoc (s.buf ++ value f) (0 ∷ []) (laid (map value fs))
      ∙ append_assoc s.buf (value f) (0 ∷ laid (map value fs)) in
    let places : (s.offs ++ (length s.buf ∷ []))
          ++ offsets (length s.buf + length (value f) + 1) (map value fs)
        ≡ s.offs ++ (length s.buf ∷ offsets (length s.buf + length (value f) + 1) (map value fs)) =
      append_assoc s.offs (length s.buf ∷ [])
        (offsets (length s.buf + length (value f) + 1) (map value fs)) in
    let lines : s.plineno + inner_lines f + line_lines fs
        ≡ s.plineno + (inner_lines f + line_lines fs) =
      omega arith in
    rw (long, chars, places, lines) refl

got-one : (f : Field) (s : CsvState) → got_one f s ≡ got (f ∷ []) s
got-one f s =
    let chars : (s.buf ++ value f) ++ (0 ∷ []) ≡ s.buf ++ (value f ++ (0 ∷ [])) =
      append_assoc s.buf (value f) (0 ∷ []) in
    let lines : s.plineno + inner_lines f ≡ s.plineno + (inner_lines f + 0) = omega arith in
    rw (chars, lines) refl

-- Where the line ends
abbrev pub IsLineEnd : ℕ → List ℕ → Type 0
IsLineEnd sep z = IsEnd sep z × ((first z == sep) ≡ false) × ((first z == quote) ≡ false)

separator-ends : (sep : ℕ) → ends sep sep ≡ true
unfolding ends
separator-ends sep =
    let same : (sep == sep) ≡ true = ground arith in
    elim (Bool-cases (sep == eof)) [ inl e ↦ rw e refl | inr e ↦ rw (e, same) refl ]

pub fields_loop-line :
    (f : Field) (fs : List Field) (z : List ℕ) (n b : ℕ) (s : CsvState)
    → IsSep s.sep
    → IsField s.sep f
    → All (IsField s.sep) fs
    → IsLineEnd s.sep z
    → length (line s.sep f fs) < n
    → (b' : ℕ) × (fields_loop n
          (first (line s.sep f fs ++ z))
          (record s { stream = after b (line s.sep f fs ++ z) })
        ≡ done (at b' z (got (f ∷ fs) s)))
unfolding fields_loop put_char
fields_loop-line f fs z zero b s sep is all end enough = absurd (omega arith)
fields_loop-line f [] z (suc n) b s sep is all (end, stop, free) enough =
    let s' = record s { offs = s.offs ++ (length s.buf ∷ []) } in
    (
      last_of b f,
      rw (field-text f z (suc n) b s' is end free (omega (arith, length-text f)), stop)
          (ap (λ t. done (at (last_of b f) z t)) (got-one f s)),
    )
fields_loop-line f (g ∷ fs) z (suc n) b s sep is (is', all) end enough =
    let s' = record s { offs = s.offs ++ (length s.buf ∷ []) } in
    let more = line s.sep g fs ++ z in
    let total = length-append (text f) (s.sep ∷ line s.sep g fs) in
    let (b', rest) =
      fields_loop-line g fs z n s.sep (got_one f s) sep is' all end (omega (arith, total)) in
    let again : (s.sep == s.sep) ≡ true = ground arith in
    let first_one =
      field-text f (s.sep ∷ more) (suc n) b s' is (separator-ends s.sep) sep.0
        (omega (arith, total, length-text f)) in
    (
      b',
      rw
          (
            append_assoc (text f) (s.sep ∷ line s.sep g fs) z,
            first_one,
            again,
            getc-behind (got_one f s) more s.sep,
          )
          (rest ∙ ap (λ t. done (at b' z t)) (got-step f (g ∷ fs) s)),
    )
