-- ===== src/Csv/Samples.antt =====
-- Runs and examples for csv.c.
use getassoc.Common.{◌≡◌, refl, none, some, [], ◌∷◌, ◌++◌, All, arith, map, done, ◌>>=◌, Returns}
use getassoc.Csv.{
  CsvState, csvinit, csvsetsep, filbuf, cgetc, getc, put_char, cr_or_lf, ends, rest_loop, field,
  fields_loop, line_end, c_string, left, csvgetline,
}
use getassoc.Csv.Text.{Field, plain, quoted, value, IsField, line}
use getassoc.Csv.Strings.{IsString}
use getassoc.Csv.Whole.{Got, Holds, LineEnd, csvgetline-Got}
use getassoc.Csv.Records.{IsText, read_records, csvgetline-records}
use getassoc.Csv.Ends.{Shorter, csvgetline-Shorter}
use mathlib.Core.Logic.{◌⊎◌}

abbrev one_byte : Field
one_byte = plain (97 ∷ [])

-- A line feed, a quote and a tail
abbrev two_lines : Field
two_lines = quoted (98 ∷ 10 ∷ 34 ∷ []) (99 ∷ [])

abbrev nothing : Field
nothing = plain []

-- The line of these fields, and another of one character, which ends with the text
abbrev reader : CsvState
reader = csvinit (line 44 one_byte (two_lines ∷ nothing ∷ []) ++ (13 ∷ 10 ∷ 120 ∷ []))

-- The byte 255 ends a line: the rest of it is read as another.
split_at_255 :
    (csvgetline (csvinit (97 ∷ 255 ∷ 98 ∷ 10 ∷ [])) >>= λ r. csvgetline r.1 >>= λ q. done q.0)
    ≡ done (some ((98 ∷ []) ∷ []))
unfolding csvinit filbuf cgetc getc put_char cr_or_lf ends rest_loop field fields_loop line_end
    c_string left csvgetline
split_at_255 = refl

tabs : (csvsetsep (csvinit []) 265).sep ≡ 9
unfolding csvinit csvsetsep
tabs = refl

are_fields : All (IsField 44) (one_byte ∷ two_lines ∷ nothing ∷ [])
unfolding ends cr_or_lf
are_fields =
    ((refl, (refl, tt)), (((refl, (refl, (refl, tt))), (refl, (refl, tt))), ((refl, tt), tt)))

are_strings : All IsString (map value (one_byte ∷ two_lines ∷ nothing ∷ []))
are_strings = ((refl, tt), ((refl, (refl, (refl, (refl, tt)))), (tt, tt)))

csvgetline-Got_example :
    Returns (Got reader (one_byte ∷ two_lines ∷ nothing ∷ []) (120 ∷ [])) (csvgetline reader)
unfolding csvinit
csvgetline-Got_example =
    csvgetline-Got reader one_byte (two_lines ∷ nothing ∷ []) (13 ∷ 10 ∷ 120 ∷ []) (120 ∷ [])
      (refl, refl, refl, refl) are_fields are_strings LineEnd.crlf Holds.fresh refl

csvgetline-Shorter_example :
    Returns (λ r. (r.0 ≡ none) ⊎ Shorter 3 44 r.1) (csvgetline (csvinit (34 ∷ 97 ∷ 44 ∷ [])))
unfolding csvinit
csvgetline-Shorter_example =
    csvgetline-Shorter (csvinit (34 ∷ 97 ∷ 44 ∷ [])) (34 ∷ 97 ∷ 44 ∷ []) Holds.fresh refl

csvgetline-records_example :
    read_records 3 reader
    ≡ done (map value (one_byte ∷ two_lines ∷ nothing ∷ []) ∷ ((120 ∷ []) ∷ []) ∷ [])
unfolding csvinit cr_or_lf ends
csvgetline-records_example =
    csvgetline-records 3 reader
      (line 44 one_byte (two_lines ∷ nothing ∷ []) ++ (13 ∷ 10 ∷ 120 ∷ []))
      (map value (one_byte ∷ two_lines ∷ nothing ∷ []) ∷ ((120 ∷ []) ∷ []) ∷ [])
      (refl, refl, refl, refl)
      (IsText.record_line one_byte (two_lines ∷ nothing ∷ []) are_fields are_strings LineEnd.crlf
        refl
        (IsText.record_line (plain (120 ∷ [])) [] ((refl, (refl, tt)), tt) ((refl, tt), tt)
          LineEnd.file_end refl IsText.over))
      Holds.fresh (omega arith)
