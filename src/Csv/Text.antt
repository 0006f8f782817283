-- ===== src/Csv/Text.antt =====
-- Records as text: the fields of a line, each plain or quoted.
use getassoc.Common.{ℕ, ◌+◌, ◌≡◌, Bool, false, List, [], ◌∷◌, ◌++◌, ◌==◌, if◌then◌else◌, All}
use getassoc.Csv.{eof, quote, ends}

-- A field as it is written: `plain f`, or `quoted f g`, where `g` follows the closing quote.
pub data Field : Type 0 where
  plain : List ℕ → Field
  quoted : List ℕ → List ℕ → Field

abbrev pub value : Field → List ℕ
value (plain f) = f
value (quoted f g) = f ++ g

-- Between quotes, a quote is written twice.
abbrev pub doubled : List ℕ → List ℕ
doubled [] = []
doubled (c ∷ f) = if c == quote then quote ∷ quote ∷ doubled f else c ∷ doubled f

abbrev pub text : Field → List ℕ
text (plain f) = f
text (quoted f g) = quote ∷ (doubled f ++ (quote ∷ g))

-- The line feeds, which a quoted field can contain
abbrev pub line_feeds : List ℕ → ℕ
line_feeds [] = 0
line_feeds (c ∷ f) = (if c == 10 then 1 else 0) + line_feeds f

abbrev pub inner_lines : Field → ℕ
inner_lines (plain f) = 0
inner_lines (quoted f g) = line_feeds f

abbrev pub starts_quoted : List ℕ → Bool
starts_quoted [] = false
starts_quoted (c ∷ f) = c == quote

-- The characters that do not end a field that is not quoted
abbrev pub IsPlain : ℕ → List ℕ → Type 0
IsPlain sep f = (starts_quoted f ≡ false) × All (λ c. ends sep c ≡ false) f

abbrev pub IsField : ℕ → Field → Type 0
IsField sep (plain f) = IsPlain sep f
IsField sep (quoted f g) = All (λ c. (c == eof) ≡ false) f × IsPlain sep g

-- A line: one field at least, separated
abbrev pub line : ℕ → Field → List Field → List ℕ
line sep f [] = text f
line sep f (g ∷ fs) = text f ++ (sep ∷ line sep g fs)

abbrev pub line_lines : List Field → ℕ
line_lines [] = 0
line_lines (f ∷ fs) = inner_lines f + line_lines fs

-- A separator that is no quote and ends no line
abbrev pub IsSep : ℕ → Type 0
IsSep sep =
    ((sep == quote) ≡ false)
    × ((sep == eof) ≡ false)
    × ((sep == 13) ≡ false)
    × ((sep == 10) ≡ false)
