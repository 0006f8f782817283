-- ===== src/Csv/Ends.antt =====
-- csvgetline ends on any input, and takes something off it.
use mathlib.Core.Logic.{◌⊎◌}
use getassoc.Common.{
  ℕ, zero, suc, ◌+◌, ◌++◌, ◌≤◌, ◌<◌, ◌≡◌, refl, subst, true, false, not, ◌&&◌, none, List, [], ◌∷◌,
  arith, length, ◌==◌, if◌then◌else◌, inl, inr, Bool-cases, Run, done, Returns, returned,
  Returns-if, Returns-mono, Returns->>=,
}
use getassoc.Csv.{
  CsvState, eof, quote, cungetc, getc, put_char, ends, rest_loop, keep, quoted_loop, field,
  fields_loop, line_end, left, csvgetline,
}
use getassoc.Csv.Read.{
  behind, first, after, at, getc-behind, quoted_loop-other, quoted_loop-close, quoted_loop-twice,
}
use getassoc.Csv.Whole.{Holds, cgetc-Holds, left-after}

-- A state in the middle of at most `k` characters, its first one read
data Within (k sep : ℕ) : ℕ × CsvState → Type 0 where
  within :
      (b : ℕ) (t : List ℕ) (s : CsvState) → length t ≤ k → s.sep ≡ sep → Within k sep (at b t s)

Within-le : {j k sep : ℕ} {r : ℕ × CsvState} → j ≤ k → Within j sep r → Within k sep r
Within-le le (within b t s l e) = within b t s (omega arith) e

getc-put_char :
    (x c : ℕ) (t : List ℕ) (s : CsvState)
    → getc (put_char x (record s { stream = behind c t })) ≡ at c t (put_char x s)
unfolding put_char
getc-put_char x c t s = getc-behind (put_char x s) t c

Returns-Within-le :
    {j k sep : ℕ} {run : Run (ℕ × CsvState)}
    → j ≤ k
    → Returns (Within j sep) run
    → Returns (Within k sep) run
Returns-Within-le le g = Returns-mono (λ r h. Within-le le h) g

eof_ends : (sep : ℕ) → ends sep eof ≡ true
unfolding ends
eof_ends sep = refl

rest_loop-Within :
    (n b : ℕ) (t : List ℕ) (s : CsvState)
    → length t < n
    → Returns (Within (length t) s.sep) (rest_loop n (first t) (record s { stream = after b t }))
unfolding rest_loop put_char
rest_loop-Within zero b t s enough = absurd (omega arith)
rest_loop-Within (suc n) b [] s enough =
    rw (eof_ends s.sep) (returned (within b [] s (omega arith) refl))
rest_loop-Within (suc n) b (c ∷ t) s enough =
    Returns-if (ends s.sep c) (λ e. returned (within b (c ∷ t) s (omega arith) refl))
      (λ e.
        rw (getc-put_char c c t s)
          (Returns-Within-le (omega arith) (rest_loop-Within n c t (put_char c s) (omega arith))))

-- A quote between quotes, and what follows it; `again` is the loop with less fuel.
quote-Within :
    (n : ℕ) (s : CsvState)
    → ((b : ℕ) (u : List ℕ) (s : CsvState)
        → length u < n
        → Returns
            (Within (length u) s.sep)
            (quoted_loop n (first u) (record s { stream = after b u })))
    → (t : List ℕ) → length t < n
    → Returns
        (Within (suc (length t)) s.sep)
        (quoted_loop (suc n) quote (record s { stream = behind quote t }))
unfolding keep put_char
quote-Within n s again [] l =
    rw (quoted_loop-close s [] n refl)
      (Returns-Within-le (omega arith) (rest_loop-Within (suc n) quote [] s (omega arith)))
quote-Within n s again (d ∷ u) l = elim (Bool-cases (d == quote)) [
  | inl q ↦
      let is : d ≡ quote = ground arith in
      rw (is, quoted_loop-twice s u n)
        (Returns-Within-le (omega arith) (again quote u (keep quote s) (omega arith)))
  | inr other ↦
      rw (quoted_loop-close s (d ∷ u) n other)
        (Returns-Within-le (omega arith) (rest_loop-Within (suc n) quote (d ∷ u) s (omega arith)))
]

quoted_loop-Within :
    (n b : ℕ) (t : List ℕ) (s : CsvState)
    → length t < n
    → Returns (Within (length t) s.sep) (quoted_loop n (first t) (record s { stream = after b t }))
unfolding keep put_char
quoted_loop-Within zero b t s enough = absurd (omega arith)
quoted_loop-Within (suc n) b [] s enough =
    unfold quoted_loop in returned (within b [] s (omega arith) refl)
quoted_loop-Within (suc n) b (c ∷ t) s enough = elim (Bool-cases (c == eof)) [
  | inl e ↦ unfold quoted_loop in rw e (returned (within b (c ∷ t) s (omega arith) refl))
  | inr goes ↦ elim (Bool-cases (c == quote)) [
    | inl q ↦
        let is : c ≡ quote = ground arith in
        rw is (quote-Within n s (quoted_loop-Within n) t (omega arith))
    | inr other ↦
        rw (quoted_loop-other s t n c goes other)
          (Returns-Within-le (omega arith) (quoted_loop-Within n c t (keep c s) (omega arith)))
  ]
]

field-Within :
    (n b : ℕ) (t : List ℕ) (s : CsvState)
    → length t < n
    → Returns (Within (length t) s.sep) (field n (first t) (record s { stream = after b t }))
unfolding field
field-Within n b [] s enough = rest_loop-Within n b [] s enough
field-Within n b (c ∷ t) s enough =
    Returns-if (c == quote)
      (λ e.
        rw (getc-behind s t c)
          (Returns-Within-le (omega arith) (quoted_loop-Within n c t s (omega arith))))
      (λ e. rest_loop-Within n b (c ∷ t) s enough)

-- What the loop over the fields does behind a field
next-Within :
    (n k sep : ℕ)
    → ((b : ℕ) (u : List ℕ) (s : CsvState)
        → s.sep ≡ sep
        → length u < k
        → Returns (Within k sep) (fields_loop n (first u) (record s { stream = after b u })))
    → (sep == eof) ≡ false
    → (r : ℕ × CsvState) → Within k sep r
    → Returns (Within k sep) (
        if r.0 == (put_char 0 r.1).sep
        then fields_loop n (getc (put_char 0 r.1)).0 (getc (put_char 0 r.1)).1
        else done (r.0, put_char 0 r.1))
unfolding put_char
next-Within n k sep again goes r (within b [] s le same) =
    let over : (eof == s.sep) ≡ false = ground arith in
    rw over (returned (within b [] (put_char 0 s) le same))
next-Within n k sep again goes r (within b (c ∷ u) s le same) =
    Returns-if (c == s.sep)
      (λ e. rw (getc-put_char 0 c u s) (again c u (put_char 0 s) same (omega arith)))
      (λ e. returned (within b (c ∷ u) (put_char 0 s) le same))

fields_loop-Within :
    (n b : ℕ) (t : List ℕ) (s : CsvState)
    → (s.sep == eof) ≡ false
    → length t < n
    → Returns (Within (length t) s.sep) (fields_loop n (first t) (record s { stream = after b t }))
unfolding fields_loop
fields_loop-Within zero b t s goes enough = absurd (omega arith)
fields_loop-Within (suc n) b t s goes enough =
    Returns->>=
      (field-Within (suc n) b t (record s { offs = s.offs ++ (length s.buf ∷ []) }) enough)
      (next-Within n (length t) s.sep
        (λ b u s' same l.
          let goes' : (s'.sep == eof) ≡ false = ground arith in
          subst
            (λ x.
              Returns (Within (length t) x)
                (fields_loop n (first u) (record s' { stream = after b u })))
            same
            (Returns-Within-le (omega arith) (fields_loop-Within n b u s' goes' (omega arith))))
        goes)

-- The text that a call leaves is shorter than the text it found.
pub data Shorter (k sep : ℕ) : CsvState → Type 0 where
  shorter :
      {s : CsvState} {t : List ℕ} → Holds s.stream t → length t < k → s.sep ≡ sep → Shorter k sep s

line_end-Shorter :
    (k sep : ℕ) (r : ℕ × CsvState) → Within k sep r → 0 < k → Shorter k sep (line_end r.0 r.1)
unfolding line_end cungetc
line_end-Shorter k sep r (within b [] s le same) l = shorter Holds.ended l same
line_end-Shorter k sep r (within b (c ∷ t) s le same) l = elim (Bool-cases (c == 13)) [
  | inr other ↦ rw other (shorter Holds.fresh (omega arith) same)
  | inl is ↦ rw (is, getc-behind s t c) (behind_cr t (omega arith))
]
  where
    behind_cr :
        (t : List ℕ)
        → length t < k
        → Shorter k sep (
            if not (first t == 10) && not (first t == eof)
            then record s { stream = record (after c t) { pending = true } }
            else record s { stream = after c t })
    behind_cr [] l = shorter Holds.ended (omega arith) same
    behind_cr (d ∷ t) l = elim (Bool-cases (not (d == 10) && not (d == eof))) [
      | inl back ↦ rw back (shorter Holds.pushed l same)
      | inr on ↦ rw on (shorter Holds.fresh (omega arith) same)
    ]

-- Whatever the stream holds, csvgetline ends, if the separator is not the byte 255: it either returns
-- -2, or it returns fields and leaves a shorter text than it found, with the same separator.
pub csvgetline-Shorter :
    (s : CsvState) (t : List ℕ)
    → Holds s.stream t
    → (s.sep == eof) ≡ false
    → Returns (λ r. (r.0 ≡ none) ⊎ Shorter (length t) s.sep r.1) (csvgetline s)
unfolding csvgetline getc
csvgetline-Shorter s t holds goes =
    let (b, read) = cgetc-Holds holds in
    let start = record s { offs = []; buf = [] } in
    rw read (
      Returns-if (first t == eof) (λ e. returned (inl refl))
        (λ e.
          Returns->>=
            (fields_loop-Within (left (after b t) + 2) b t start goes
              (omega (arith, left-after b t)))
            (λ r w. returned (inr (ended_line t e r w)))))
  where
    ended_line :
        (t : List ℕ)
        → (first t == eof) ≡ false
        → (r : ℕ × CsvState) → Within (length t) s.sep r
        → Shorter
            (length t)
            s.sep
            (record (line_end r.0 r.1) { plineno = (line_end r.0 r.1).plineno + 1 })
    ended_line [] e r w = cc
    ended_line (c ∷ t) e r w = elim (line_end-Shorter (suc (length t)) s.sep r w (omega arith)) [
      | shorter h l same ↦ shorter h l same
    ]
