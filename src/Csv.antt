-- ===== src/Csv.antt =====
-- csv.c, csv.h: the reader of records. A character is a byte; since `char` is signed, the byte 255 is
-- the value EOF. `realloc` is taken to succeed, so `buf` and `offs` are the cells written so far.
pub mod Text
pub mod Read
pub mod Line
pub mod Strings
pub mod Whole
pub mod Ends
pub mod Records
mod Samples
use getassoc.Common.{
  ℕ, zero, suc, ◌+◌, ◌%◌, Bool, true, false, not, ◌&&◌, ◌||◌, Option, none, some, List, [], ◌∷◌,
  ◌++◌, ◌==◌, if◌then◌else◌, length, map, drop, Run, done, out_of_fuel, ◌>>=◌,
}

-- The characters still to be read by `getc`, whether `p != e`, the cell `*b`, and the flag
pub record CsvStream : Type 0 where
  pub stream : List ℕ
  pub pending : Bool
  pub b : ℕ
  pub iseof : Bool

-- `n` is the length of `offs`, `i` that of `buf`.
pub record CsvState : Type 0 where
  pub stream : CsvStream
  pub sep : ℕ
  pub offs : List ℕ
  pub buf : List ℕ
  pub plineno : ℕ

abbrev pub eof : ℕ
eof = 255

abbrev pub quote : ℕ
quote = 34

unfoldable pub cr_or_lf : ℕ → Bool
cr_or_lf c = (c == 13) || (c == 10)

unfoldable pub csvinit : List ℕ → CsvState
csvinit input = record {
  stream = record { stream = input; pending = false; b = 0; iseof = false };
  sep = 44;
  offs = [];
  buf = [];
  plineno = 0;
}

unfoldable pub csvsetsep : CsvState → ℕ → CsvState
csvsetsep s sep = record s { sep = sep % 256 }

unfoldable pub csvtellplineno : CsvState → ℕ
csvtellplineno s = s.plineno

unfoldable pub filbuf : CsvStream → CsvStream
filbuf s = if s.iseof then s else elim s.stream [
  | [] ↦ record s { iseof = true }
  | c ∷ rest ↦ record s { stream = rest; b = c; pending = true }
]

unfoldable pub cgetc : CsvStream → ℕ × CsvStream
cgetc s =
    let t = if s.pending then s else filbuf s in
    if t.iseof then (eof, t) else (t.b, record t { pending = false })

unfoldable pub cungetc : CsvStream → CsvStream
cungetc s = record s { pending = true }

unfoldable pub getc : CsvState → ℕ × CsvState
getc s = let r = cgetc s.stream in (r.0, record s { stream = r.1 })

unfoldable pub put_char : ℕ → CsvState → CsvState
put_char c s = record s { buf = s.buf ++ c ∷ [] }

-- Whether the loop at `rest` ends
unfoldable pub ends : ℕ → ℕ → Bool
ends sep c = (c == eof) || (c == sep) || cr_or_lf c

unfoldable pub rest_loop : ℕ → ℕ → CsvState → Run (ℕ × CsvState)
rest_loop zero c s = out_of_fuel
rest_loop (suc n) c s =
    let next = getc (put_char c s) in
    let more = rest_loop n next.0 next.1 in if ends s.sep c then done (c, s) else more

-- Between quotes: a quote is read with the character behind it,
unfoldable pub unquoted : ℕ → CsvState → ℕ × CsvState
unquoted c s = if c == quote then getc s else (c, s)

-- and a character is kept.
unfoldable pub keep : ℕ → CsvState → CsvState
keep c s =
    let kept = put_char c s in
    record kept { plineno = if c == 10 then kept.plineno + 1 else kept.plineno }

-- The loop inside quotes, and what follows the closing one
unfoldable pub quoted_loop : ℕ → ℕ → CsvState → Run (ℕ × CsvState)
quoted_loop zero c s = out_of_fuel
quoted_loop (suc n) c s =
    let r = unquoted c s in
    let next = getc (keep r.0 r.1) in
    let more = quoted_loop n next.0 next.1 in
    if c == eof
    then done (c, s)
    else if (c == quote) && not (r.0 == quote)
    then rest_loop (suc n) r.0 r.1
    else more

-- A field from its first character on
unfoldable pub field : ℕ → ℕ → CsvState → Run (ℕ × CsvState)
field n c s = let q = getc s in if c == quote then quoted_loop n q.0 q.1 else rest_loop n c s

unfoldable pub fields_loop : ℕ → ℕ → CsvState → Run (ℕ × CsvState)
fields_loop zero c s = out_of_fuel
fields_loop (suc n) c s = field (suc n) c (record s { offs = s.offs ++ length s.buf ∷ [] }) >>= λ r.
    let kept = put_char 0 r.1 in
    let next = getc kept in
    let more = fields_loop n next.0 next.1 in if r.0 == kept.sep then more else done (r.0, kept)

-- The end of the line, once `c` is not the separator
unfoldable pub line_end : ℕ → CsvState → CsvState
line_end c s =
    let r = getc s in
    let back = record r.1 { stream = cungetc r.1.stream } in
    if c == 13 then (if not (r.0 == 10) && not (r.0 == eof) then back else r.1) else s

-- The string that starts at a cell of `buf`, up to its NUL
unfoldable pub c_string : List ℕ → List ℕ
c_string [] = []
c_string (c ∷ buf) = let rest = c_string buf in if c == 0 then [] else c ∷ rest

-- The number of characters that can still be read
unfoldable pub left : CsvStream → ℕ
left s = (if s.pending then 1 else 0) + length s.stream

-- `none` is -2; else the fields, whose number is returned.
unfoldable pub csvgetline : CsvState → Run (Option (List (List ℕ)) × CsvState)
csvgetline s =
    let r = getc s in
    let start = record r.1 { offs = []; buf = [] } in
    if r.0 == eof
    then done (none, r.1)
    else (fields_loop (left r.1.stream + 2) r.0 start >>= λ e.
        let t = line_end e.0 e.1 in
        let u = record t { plineno = t.plineno + 1 } in
        done (some (map (λ i. c_string (drop i u.buf)) u.offs), u))
