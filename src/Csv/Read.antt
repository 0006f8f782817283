-- ===== src/Csv/Read.antt =====
-- What the loops of csvgetline read.
use mathlib.Core.List.{append_assoc}
use getassoc.Common.{
  ℕ, zero, suc, ◌+◌, ◌<◌, ◌≡◌, refl, sym, ap, ◌∙◌, true, false, List, [], ◌∷◌, ◌++◌, arith, ◌==◌,
  if◌then◌else◌, All, Bool-cases, inl, inr, length, length-append, Run, done, append-nil,
}
use getassoc.Csv.{
  CsvStream, CsvState, eof, quote, filbuf, cgetc, getc, put_char, ends, unquoted, keep, rest_loop,
  quoted_loop, field,
}
use getassoc.Csv.Text.{
  Field, plain, quoted, value, doubled, text, line_feeds, inner_lines, starts_quoted, IsPlain,
  IsField,
}

-- The stream behind the character `b`, and at the end of the input
abbrev pub behind : ℕ → List ℕ → CsvStream
behind b t = record { stream = t; pending = false; b = b; iseof = false }

abbrev pub over : ℕ → CsvStream
over b = record { stream = []; pending = false; b = b; iseof = true }

-- The character that is read from a text, or EOF, and the stream behind it; `b` is the one before.
abbrev pub first : List ℕ → ℕ
first [] = eof
first (c ∷ t) = c

abbrev pub after : ℕ → List ℕ → CsvStream
after b [] = over b
after b (c ∷ t) = behind c t

abbrev pub at : ℕ → List ℕ → CsvState → ℕ × CsvState
at b t s = (first t, record s { stream = after b t })

abbrev pub wrote : List ℕ → CsvState → CsvState
wrote f s = record s { buf = s.buf ++ f }

-- The last character read, `f` being read after `b`
abbrev pub last : ℕ → List ℕ → ℕ
last b [] = b
last b (c ∷ f) = last c f

pub cgetc-behind : (c : ℕ) (t : List ℕ) → cgetc (behind c t) ≡ (first t, after c t)
unfolding cgetc filbuf
cgetc-behind c [] = refl
cgetc-behind c (d ∷ t) = refl

-- The text ends a field here
abbrev pub IsEnd : ℕ → List ℕ → Type 0
IsEnd sep t = ends sep (first t) ≡ true

wrote_nothing : (s : CsvState) → wrote [] s ≡ s
wrote_nothing s = ap (λ x. record s { buf = x }) (append-nil s.buf)

wrote-put_char : (c : ℕ) (f : List ℕ) (s : CsvState) → wrote f (put_char c s) ≡ wrote (c ∷ f) s
unfolding put_char
wrote-put_char c f s = ap (λ x. record s { buf = x }) (append_assoc s.buf (c ∷ []) f)

pub rest_loop-plain :
    (f z : List ℕ) (n b : ℕ) (s : CsvState)
    → All (λ c. ends s.sep c ≡ false) f
    → IsEnd s.sep z
    → length f < n
    → rest_loop n (first (f ++ z)) (record s { stream = after b (f ++ z) })
      ≡ done (at (last b f) z (wrote f s))
unfolding rest_loop getc put_char
rest_loop-plain f z zero b s good end enough = absurd (omega arith)
rest_loop-plain [] z (suc n) b s good end enough =
    rw end (ap (λ t. done (at b z t)) (sym (wrote_nothing s)))
rest_loop-plain (c ∷ f) z (suc n) b s (goes, good) end enough =
    rw (goes, cgetc-behind c (f ++ z))
      (rest_loop-plain f z n c (put_char c s) good end (omega arith)
        ∙ ap (λ t. done (at (last c f) z t)) (wrote-put_char c f s))

module _ (s : CsvState) (t : List ℕ) where
  pub getc-behind :
      (c : ℕ) → getc (record s { stream = behind c t }) ≡ (first t, record s { stream = after c t })
  unfolding getc
  getc-behind c = ap (λ r. (r.0, record s { stream = r.1 })) (cgetc-behind c t)

  pub getc-keep :
      (c : ℕ)
      → getc (keep c (record s { stream = behind c t }))
        ≡ (first t, record (keep c s) { stream = after c t })
  unfolding getc keep put_char
  getc-keep c = ap (λ r. (r.0, record (keep c s) { stream = r.1 })) (cgetc-behind c t)

  unquoted-other :
      (c : ℕ)
      → (c == quote) ≡ false
      → unquoted c (record s { stream = behind c t }) ≡ (c, record s { stream = behind c t })
  unfolding unquoted
  unquoted-other c other = rw other refl

  unquoted-quote :
      unquoted quote (record s { stream = behind quote t })
      ≡ (first t, record s { stream = after quote t })
  unfolding unquoted
  unquoted-quote = getc-behind quote

  module _ (n : ℕ) where
    pub quoted_loop-other :
        (c : ℕ)
        → (c == eof) ≡ false
        → (c == quote) ≡ false
        → quoted_loop (suc n) c (record s { stream = behind c t })
          ≡ quoted_loop n (first t) (record (keep c s) { stream = after c t })
    unfolding quoted_loop
    quoted_loop-other c goes other = rw (goes, other, unquoted-other c other, getc-keep c) refl

    pub quoted_loop-close :
        (first t == quote) ≡ false
        → quoted_loop (suc n) quote (record s { stream = behind quote t })
          ≡ rest_loop (suc n) (first t) (record s { stream = after quote t })
    unfolding quoted_loop
    quoted_loop-close other = rw (unquoted-quote, other) refl

pub quoted_loop-twice :
    (s : CsvState) (t : List ℕ) (n : ℕ)
    → quoted_loop (suc n) quote (record s { stream = behind quote (quote ∷ t) })
      ≡ quoted_loop n (first t) (record (keep quote s) { stream = after quote t })
unfolding quoted_loop
quoted_loop-twice s t n = rw (unquoted-quote s (quote ∷ t), getc-keep s t quote) refl

first-append :
    (g z : List ℕ)
    → starts_quoted g ≡ false
    → (first z == quote) ≡ false
    → (first (g ++ z) == quote) ≡ false
first-append [] z opens free = free
first-append (c ∷ g) z opens free = opens

abbrev quoted_end : ℕ → List ℕ → List ℕ → List ℕ → CsvState → Run (ℕ × CsvState)
quoted_end b f g z s =
    done (at b z (record s { buf = s.buf ++ (f ++ g); plineno = s.plineno + line_feeds f }))

quoted_end-keep :
    (b c : ℕ) (f g z : List ℕ) (s : CsvState)
    → quoted_end b f g z (keep c s) ≡ quoted_end b (c ∷ f) g z s
unfolding keep put_char
quoted_end-keep b c f g z s =
    let lines : (if c == 10 then s.plineno + 1 else s.plineno) + line_feeds f
        ≡ s.plineno + ((if c == 10 then 1 else 0) + line_feeds f) =
      ground arith in
    let chars : (s.buf ++ (c ∷ [])) ++ (f ++ g) ≡ s.buf ++ (c ∷ (f ++ g)) =
      append_assoc s.buf (c ∷ []) (f ++ g) in
    rw (lines, chars) refl

-- Inside quotes, up to the closing one, and then to the end of the field
pub quoted_loop-doubled :
    (f g z : List ℕ) (n b : ℕ) (s : CsvState)
    → All (λ c. (c == eof) ≡ false) f
    → IsPlain s.sep g
    → IsEnd s.sep z
    → (first z == quote) ≡ false
    → length f + length g < n
    → quoted_loop n
        (first (doubled f ++ (quote ∷ (g ++ z))))
        (record s { stream = after b (doubled f ++ (quote ∷ (g ++ z))) })
      ≡ quoted_end (last quote g) f g z s
unfolding keep put_char
quoted_loop-doubled f g z zero b s inner good end free enough = absurd (omega arith)
quoted_loop-doubled [] g z (suc n) b s inner (opens, good) end free enough =
    let same : s.plineno + 0 ≡ s.plineno = omega arith in
    quoted_loop-close s (g ++ z) n (first-append g z opens free)
    ∙ rest_loop-plain g z (suc n) quote s good end (omega arith)
    ∙ (rw same refl)
quoted_loop-doubled (c ∷ f) g z (suc n) b s (goes, inner) good end free enough =
    elim (Bool-cases (c == quote)) [
      | inl same ↦
          let is : c ≡ quote = ground arith in
          rw (same, is)
            (quoted_loop-twice s (doubled f ++ (quote ∷ (g ++ z))) n
              ∙ quoted_loop-doubled f g z n quote (keep quote s) inner good end free (omega arith)
              ∙ quoted_end-keep (last quote g) quote f g z s)
      | inr other ↦ rw other (
          quoted_loop-other s (doubled f ++ (quote ∷ (g ++ z))) n c goes other
          ∙ quoted_loop-doubled f g z n c (keep c s) inner good end free (omega arith)
          ∙ quoted_end-keep (last quote g) c f g z s)
    ]

abbrev pub last_of : ℕ → Field → ℕ
last_of b (plain f) = last b f
last_of b (quoted f g) = last quote g

pub field-text :
    (f : Field) (z : List ℕ) (n b : ℕ) (s : CsvState)
    → IsField s.sep f
    → IsEnd s.sep z
    → (first z == quote) ≡ false
    → length (value f) < n
    → field n (first (text f ++ z)) (record s { stream = after b (text f ++ z) })
      ≡ done (
          at
            (last_of b f)
            z
            (record s { buf = s.buf ++ value f; plineno = s.plineno + inner_lines f }))
unfolding field
field-text (plain f) z n b s (opens, good) end free enough =
    let same : s.plineno + 0 ≡ s.plineno = omega arith in
    rw (first-append f z opens free, same) (rest_loop-plain f z n b s good end enough)
field-text (quoted f g) z n b s (inner, good) end free enough =
    let enough' : length f + length g < n = omega (arith, length-append f g) in
    rw
      (
        append_assoc (doubled f) (quote ∷ g) z,
        getc-behind s (doubled f ++ (quote ∷ (g ++ z))) quote,
      )
      (quoted_loop-doubled f g z n quote s inner good end free enough')
