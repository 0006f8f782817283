-- ===== src/Csv/Whole.antt =====
-- csvgetline from the stream to the fields.
use getassoc.Common.{
  ℕ, ◌+◌, ◌≤◌, ◌≡◌, refl, ap, true, false, Option, none, some, List, [], ◌∷◌, ◌++◌, arith, length,
  length-append, map, ◌==◌, All, Returns, returned,
}
use getassoc.Csv.{
  CsvStream, CsvState, eof, filbuf, cgetc, cungetc, getc, cr_or_lf, ends, line_end, left,
  csvgetline,
}
use getassoc.Csv.Text.{Field, value, IsField, line, line_lines, IsSep}
use getassoc.Csv.Read.{over, first, after, getc-behind}
use getassoc.Csv.Strings.{IsString, strings-laid}
use getassoc.Csv.Line.{IsLineEnd, got, fields_loop-line}

-- The text that a stream still holds
pub data Holds : CsvStream → List ℕ → Type 0 where
  fresh :
      {b : ℕ} {t : List ℕ} → Holds (record { stream = t; pending = false; b = b; iseof = false }) t
  pushed :
      {c : ℕ} {t : List ℕ}
      → Holds (record { stream = t; pending = true; b = c; iseof = false }) (c ∷ t)
  ended : {b : ℕ} → Holds (over b) []

-- The end of a line, and the text behind it
pub data LineEnd : List ℕ → List ℕ → Type 0 where
  lf : {rest : List ℕ} → LineEnd (10 ∷ rest) rest
  crlf : {rest : List ℕ} → LineEnd (13 ∷ 10 ∷ rest) rest
  cr :
      {rest : List ℕ}
      → (first rest == 10) ≡ false
      → (first rest == eof) ≡ false
      → LineEnd (13 ∷ rest) rest
  last_cr : LineEnd (13 ∷ []) []
  file_end : LineEnd [] []

pub cgetc-Holds :
    {st : CsvStream} {t : List ℕ} → Holds st t → (b : ℕ) × (cgetc st ≡ (first t, after b t))
unfolding cgetc filbuf
cgetc-Holds (fresh {b} {t = []}) = (b, refl)
cgetc-Holds (fresh {b} {t = c ∷ t}) = (b, refl)
cgetc-Holds (pushed {c} {t}) = (c, refl)
cgetc-Holds (ended {b}) = (b, refl)

after-Holds : (b : ℕ) (c : ℕ) (t : List ℕ) → Holds (after b (c ∷ t)) t
after-Holds b c t = fresh

cungetc-Holds : (b : ℕ) (c : ℕ) (t : List ℕ) → Holds (cungetc (after b (c ∷ t))) (c ∷ t)
unfolding cungetc
cungetc-Holds b c t = pushed

LineEnd-ends : (sep : ℕ) {z rest : List ℕ} → IsSep sep → LineEnd z rest → IsLineEnd sep z
unfolding ends cr_or_lf
LineEnd-ends sep is lf = ground arith
LineEnd-ends sep is crlf = ground arith
LineEnd-ends sep is (cr differs goes) = ground arith
LineEnd-ends sep is last_cr = ground arith
LineEnd-ends sep is file_end = ground arith

line_end-Holds :
    (b : ℕ) {z rest : List ℕ} (s : CsvState)
    → LineEnd z rest
    → (st : CsvStream) × Holds st rest
      × (line_end (first z) (record s { stream = after b z }) ≡ record s { stream = st })
unfolding line_end
line_end-Holds b s (lf {rest}) = (after b (10 ∷ rest), fresh, refl)
line_end-Holds b s (crlf {rest}) =
    (after 13 (10 ∷ rest), fresh, rw (getc-behind s (10 ∷ rest) 13) refl)
line_end-Holds b s (cr {rest = []} differs goes) = absurd (ground arith)
line_end-Holds b s (cr {rest = c ∷ rest} differs goes) = (
  cungetc (after 13 (c ∷ rest)),
  cungetc-Holds 13 c rest,
  rw (getc-behind s (c ∷ rest) 13, differs, goes) refl,
)
line_end-Holds b s last_cr = (after 13 [], ended, rw (getc-behind s [] 13) refl)
line_end-Holds b s file_end = (after b [], ended, refl)

-- What csvgetline leaves
pub record Got (s : CsvState) (fs : List Field) (rest : List ℕ)
    (r : Option (List (List ℕ)) × CsvState) : Type 0 where
  pub fields : r.0 ≡ some (map value fs)
  pub stream : Holds r.1.stream rest
  pub lines : r.1.plineno ≡ s.plineno + line_lines fs + 1
  pub same_sep : r.1.sep ≡ s.sep

pub left-after : (b : ℕ) (t : List ℕ) → length t ≤ left (after b t) + 1
unfolding left
left-after b [] = omega arith
left-after b (c ∷ t) = omega arith

-- A line has one field or more, each plain or in quotes and then plain; fields have neither NULs nor the
-- byte 255, and no separator, line feed or carriage return outside of quotes, and plain text starts with
-- no quote. The line is not empty at the end of the input; it ends in a line feed, a carriage return, both
-- or at the end of the input, but a carriage return alone not before the byte 255. The separator is no
-- quote, line feed, carriage return or byte 255. Then csvgetline ends and returns the fields; it leaves
-- the stream behind the end of the line, and counts the line and the line feeds in quotes.
pub csvgetline-Got :
    (s : CsvState) (f : Field) (fs : List Field) (z rest : List ℕ)
    → IsSep s.sep
    → All (IsField s.sep) (f ∷ fs)
    → All IsString (map value (f ∷ fs))
    → LineEnd z rest
    → Holds s.stream (line s.sep f fs ++ z)
    → (first (line s.sep f fs ++ z) == eof) ≡ false
    → Returns (Got s (f ∷ fs) rest) (csvgetline s)
unfolding csvgetline getc
csvgetline-Got s f fs z rest sep (is, all) clear end holds goes =
    let text = line s.sep f fs ++ z in
    let (b, read) = cgetc-Holds holds in
    let start = record s { offs = []; buf = [] } in
    let long = length-append (line s.sep f fs) z in
    let (b', loop) =
      fields_loop-line f fs z (left (after b text) + 2) b start sep is all
        (LineEnd-ends s.sep sep end) (omega (arith, left-after b text, long)) in
    let (st, held, over) = line_end-Holds b' (got (f ∷ fs) start) end in
    rw (read, goes, loop, over)
      (returned (record {
        fields = ap some (strings-laid [] (map value (f ∷ fs)) clear);
        stream = held;
        lines = refl;
        same_sep = refl;
      }))

-- At the end of the input csvgetline returns -2, and stays there.
pub csvgetline-at_end :
    (s : CsvState)
    → Holds s.stream []
    → Returns (λ r. (r.0 ≡ none) × Holds r.1.stream []) (csvgetline s)
unfolding csvgetline getc
csvgetline-at_end s holds = let (b, read) = cgetc-Holds holds in rw read (returned (refl, ended))
