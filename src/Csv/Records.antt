-- ===== src/Csv/Records.antt =====
-- csvgetline called until it returns -2: the records of a whole text.
use getassoc.Common.{
  ℕ, zero, suc, ◌<◌, ◌≡◌, sym, ap, ◌∙◌, subst, false, Option, none, some, List, [], ◌∷◌, ◌++◌,
  arith, length, map, ◌==◌, All, Run, done, Returns-value, ◌>>=◌,
}
use getassoc.Csv.{CsvState, eof, csvgetline}
use getassoc.Csv.Text.{Field, value, IsField, line, IsSep}
use getassoc.Csv.Read.{first}
use getassoc.Csv.Strings.{IsString}
use getassoc.Csv.Whole.{Holds, LineEnd, csvgetline-Got, csvgetline-at_end}

-- A text that has these records, a line each
pub data IsText (sep : ℕ) : List (List (List ℕ)) → List ℕ → Type 0 where
  over : IsText sep [] []
  record_line :
      {records : List (List (List ℕ))} {z rest : List ℕ} (f : Field) (fs : List Field)
      → All (IsField sep) (f ∷ fs)
      → All IsString (map value (f ∷ fs))
      → LineEnd z rest
      → (first (line sep f fs ++ z) == eof) ≡ false
      → IsText sep records rest
      → IsText sep (map value (f ∷ fs) ∷ records) (line sep f fs ++ z)

abbrev pub collect :
    Option (List (List ℕ)) → Run (List (List (List ℕ))) → Run (List (List (List ℕ)))
collect none rest = done []
collect (some fields) rest = rest >>= λ records. done (fields ∷ records)

-- At most `n` calls, up to the first that returns -2
unfoldable pub read_records : ℕ → CsvState → Run (List (List (List ℕ)))
read_records zero s = done []
read_records (suc n) s = csvgetline s >>= λ r. collect r.0 (read_records n r.1)

-- A text in lines, held by a stream with a separator that is no quote, line feed, carriage return or byte
-- 255: csvgetline, called until it returns -2, returns the records in order, one for each line, and then
-- -2. A line has one field or more, each plain or in quotes and then plain; fields have neither NULs nor
-- the byte 255, and no separator, line feed or carriage return outside of quotes, and plain text starts
-- with no quote. A line ends in a line feed, a carriage return or both, but a carriage return alone not
-- before the byte 255; the last one can end with the text, if it is not empty.
pub csvgetline-records :
    (n : ℕ) (s : CsvState) (t : List ℕ) (records : List (List (List ℕ)))
    → IsSep s.sep
    → IsText s.sep records t
    → Holds s.stream t
    → length records < n
    → read_records n s ≡ done records
unfolding read_records
csvgetline-records zero s t records sep is holds enough = absurd (omega arith)
csvgetline-records (suc n) s t records sep over holds enough =
    let (r, ran, (stop, _)) = Returns-value (csvgetline-at_end s holds) in
    ap (λ run. run >>= λ r. collect r.0 (read_records n r.1)) ran
    ∙ ap (λ o. collect o (read_records n r.1)) stop
csvgetline-records (suc n) s t records sep
      (record_line {records = more} {rest} f fs fields clear end goes is) holds enough =
    let (r, ran, got) = Returns-value (csvgetline-Got s f fs _ _ sep fields clear end holds goes) in
    let same : s.sep ≡ r.1.sep = sym got.same_sep in
    let others =
      csvgetline-records n r.1 rest more (subst IsSep same sep)
        (subst (λ c. IsText c more rest) same is) got.stream (omega arith) in
    ap (λ run. run >>= λ r. collect r.0 (read_records n r.1)) ran
    ∙ ap (λ o. collect o (read_records n r.1)) got.fields
    ∙ ap (λ run. run >>= λ rs. done (map value (f ∷ fs) ∷ rs)) others
