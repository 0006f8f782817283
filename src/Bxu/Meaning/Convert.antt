-- ===== src/Bxu/Meaning/Convert.antt =====
-- `bxu_conv` on the expression of a condition: the tokens of the condition, word by word.
use getassoc.Common.{
  ℕ, ◌≡◌, refl, sym, ap, ◌∙◌, Bool, true, false, some, List, [], ◌∷◌, ◌++◌, ◌==◌, append_assoc,
  append-nil, arith, done, ◌<◌, zero, suc, set, length-set, if◌then◌else◌, leb, All, All-mono,
  Returns, returned, Returns-value, Returns-mono,
}
use mathlib.Core.Path.{fun_ext}
use getassoc.Common.{length, get_elem?}
use getassoc.Corpus.{Syminfo}
use getassoc.Bx.{Token, int_of, bx_exec}
use getassoc.Bx.Meaning.{holds, write, bx_exec-write}
use getassoc.Common.Arrays.{get_elem?-set}
use getassoc.Bxu.{
  BxueT, BxuT, slot, operator, conv_step, conv_loop, bxu_conv, cell_value, cleared, mark, read,
  bxu_eval,
}
use getassoc.Bxu.Slots.{IsEntryOf, find_slot-slot, find_slot-entry}
use getassoc.Bxu.Meaning.{
  Query, word, always, never, negated, both, either, satisfies, op, request, cell_of, cell_of-some,
  resolve, slots, slots-append, Found, slots-Found, resolve-slots, prepend, prepend-prepend,
  conv_loop-step, conv_loop-op,
}

-- The list of `e` is read as `ts`, which takes `qq` to `qq'`.
record Converts (us : List BxueT) (ts : List Token) (qq qq' : List Syminfo) : Type 0 where
  before : (e : List BxueT) → conv_loop (us ++ e) qq ≡ prepend ts (conv_loop e qq')

Converts-append :
    (us vs : List BxueT) (ts ws : List Token) {qq₁ qq₂ qq₃ : List Syminfo}
    → Converts us ts qq₁ qq₂
    → Converts vs ws qq₂ qq₃
    → Converts (us ++ vs) (ts ++ ws) qq₁ qq₃
Converts-append us vs ts ws {qq₁} {qq₂} {qq₃} p q = record {
  before = λ e.
      ap (λ (l : List BxueT). conv_loop l qq₁) (append_assoc us vs e)
      ∙ p.before (vs ++ e)
      ∙ ap (prepend ts) (q.before e)
      ∙ prepend-prepend ts ws (conv_loop e qq₃);
}

Converts-op :
    (c : ℕ) (t : Token) (qq : List Syminfo)
    → (c == b'"') ≡ false
    → operator c ≡ some t
    → Converts (op c ∷ []) (t ∷ []) qq qq
Converts-op c t qq h o = record { before = λ e. conv_loop-op c t e qq h o }

Converts-pair :
    (c : ℕ) (t : Token) (us vs : List BxueT) (ts ws : List Token) {qq₁ qq₂ qq₃ : List Syminfo}
    → (c == b'"') ≡ false
    → operator c ≡ some t
    → Converts us ts qq₁ qq₂
    → Converts vs ws qq₂ qq₃
    → Converts
        (op b'(' ∷ (us ++ op c ∷ (vs ++ op b')' ∷ [])))
        (Token.lpar ∷ (ts ++ t ∷ (ws ++ Token.rpar ∷ [])))
        qq₁
        qq₃
unfolding operator
Converts-pair c t us vs ts ws h o p q =
    Converts-append (op b'(' ∷ []) _ (Token.lpar ∷ []) _ (Converts-op b'(' Token.lpar _ refl refl) (
      Converts-append us _ ts _ p (
        Converts-append (op c ∷ []) _ (t ∷ []) _ (Converts-op c t _ h o)
          (Converts-append vs _ ws _ q (Converts-op b')' Token.rpar _ refl refl))))

request-Converts :
    (φ : Query) (qq : List Syminfo)
    → Converts (request φ) (write (resolve (slots φ qq) φ)) qq (slots φ qq)
unfolding request write resolve slots operator
request-Converts (word id) qq = record {
  before = λ e. conv_loop-step (record { type = b'"'; id = id }) _ e qq _ step;
}
  where
    step :
        conv_step (record { type = b'"'; id = id }) qq
        ≡ some (Token.var (cell_of (slot id qq).1 id), (slot id qq).1)
    step =
        unfold conv_step in
        ap (λ (k : ℕ). some (Token.var k, (slot id qq).1))
          (sym (cell_of-some _ id (find_slot-slot id qq)))
request-Converts always qq = Converts-op b'T' Token.var_t qq refl refl
request-Converts never qq = Converts-op b'F' Token.var_f qq refl refl
request-Converts (negated φ) qq =
    Converts-append (op b'(' ∷ []) _ (Token.lpar ∷ []) _ (Converts-op b'(' Token.lpar qq refl refl)
      (Converts-append (op b'!' ∷ []) _ (Token.not ∷ []) _ (Converts-op b'!' Token.not qq refl refl)
        (Converts-append (request φ) _ _ _ (request-Converts φ qq)
          (Converts-op b')' Token.rpar _ refl refl)))
request-Converts (both φ ψ) qq = rw (resolve-slots φ ψ (slots φ qq) (slots-Found φ qq)) (
    Converts-pair b'&' Token.and (request φ) (request ψ) _ _ refl refl (request-Converts φ qq)
      (request-Converts ψ (slots φ qq)))
request-Converts (either φ ψ) qq = rw (resolve-slots φ ψ (slots φ qq) (slots-Found φ qq)) (
    Converts-pair b'|' Token.or (request φ) (request ψ) _ _ refl refl (request-Converts φ qq)
      (request-Converts ψ (slots φ qq)))

pub member : ℕ → List ℕ → Bool
member k [] = false
member k (i ∷ h) = elim (i == k) [ true ↦ true | false ↦ member k h ]

read-cleared : (n k : ℕ) → read (cleared n) k ≡ 0
unfolding read cleared
read-cleared zero k = refl
read-cleared (suc n) zero = refl
read-cleared (suc n) (suc k) = read-cleared n k

length-cleared : (n : ℕ) → length (cleared n) ≡ n
unfolding cleared
length-cleared zero = refl
length-cleared (suc n) = ap suc (length-cleared n)

read-set :
    (vars : List ℕ) (i k : ℕ)
    → i < length vars
    → read (set vars i 1) k ≡ (if i == k then 1 else read vars k)
unfolding read
read-set vars i k h = ap cell_value (get_elem?-set vars i k 1 h) ∙ of_test (i == k)
  where
    of_test :
        (b : Bool)
        → cell_value (if b then some 1 else get_elem? vars k) ≡ (if b then 1 else read vars k)
    of_test true = refl
    of_test false = refl

-- The cells of the entries hit are set, and the others are as before.
mark-Marked :
    (h : List ℕ) (vars : List ℕ)
    → All (λ i. i < length vars) h
    → Returns (λ r. (k : ℕ) → read r k ≡ (if member k h then 1 else read vars k)) (mark vars h)
unfolding mark member
mark-Marked [] vars inside = returned (λ k. refl)
mark-Marked (i ∷ h) vars (here, inside) =
    let fits : leb (length vars) i ≡ false = ground arith in
    let same = length-set vars i 1 in
    rw fits (
      Returns-mono (λ r g k. g k ∙ step k)
        (mark-Marked h (set vars i 1) (All-mono h (λ j l. omega arith) inside)))
  where
    step :
        (k : ℕ)
        → (if member k h then 1 else read (set vars i 1) k)
          ≡ (if elim (i == k) [ true ↦ true | false ↦ member k h ] then 1 else read vars k)
    step k = rw (read-set vars i k here) (ground arith)

bxu_eval-marks :
    (u : BxuT) (h : List ℕ)
    → All (λ i. i < u.nvars) h
    → bxu_eval u h ≡ done (bx_exec (λ k. int_of (member k h)) u.expr)
unfolding bxu_eval
bxu_eval-marks u h inside =
    let size = length-cleared u.nvars in
    let (r, ran, cells) =
      Returns-value (mark-Marked h (cleared u.nvars) (All-mono h (λ i l. omega arith) inside)) in
    let each : (k : ℕ) → read r k ≡ int_of (member k h) =
      λ k. cells k ∙ (rw (read-cleared u.nvars k) (int_of-if (member k h))) in
    rw ran (ap (λ (vars : ℕ → ℕ). done (bx_exec vars u.expr)) (fun_ext each))
  where
    int_of-if : (b : Bool) → (if b then 1 else 0) ≡ int_of b
    int_of-if true = refl
    int_of-if false = refl

satisfies-resolve :
    (ρ : ℕ → Bool) (qq : List Syminfo) (φ : Query)
    → satisfies (λ id. ρ (cell_of qq id)) φ ≡ holds ρ (resolve qq φ)
unfolding satisfies holds resolve
satisfies-resolve ρ qq (word id) = refl
satisfies-resolve ρ qq always = refl
satisfies-resolve ρ qq never = refl
satisfies-resolve ρ qq (negated φ) = rw (satisfies-resolve ρ qq φ)
satisfies-resolve ρ qq (both φ ψ) = rw (satisfies-resolve ρ qq φ, satisfies-resolve ρ qq ψ)
satisfies-resolve ρ qq (either φ ψ) = rw (satisfies-resolve ρ qq φ, satisfies-resolve ρ qq ψ)

conv_loop-request :
    (q : List Syminfo) (φ : Query)
    → conv_loop (request φ) q ≡ some (write (resolve (slots φ q) φ), slots φ q)
unfolding conv_loop
conv_loop-request q φ =
    ap (λ (l : List BxueT). conv_loop l q) (sym (append-nil (request φ)))
    ∙ (request-Converts φ q).before []
    ∙ ap (λ (l : List Token). some (l, slots φ q)) (append-nil _)

-- Each word of a condition has an entry of its own, without a vector, at its cell.
abbrev pub HasCells : List Syminfo → Query → Type 0
HasCells qq (word id) = (s : Syminfo) × (get_elem? qq (cell_of qq id) ≡ some s) × IsEntryOf id s
HasCells qq always = Unit
HasCells qq never = Unit
HasCells qq (negated φ) = HasCells qq φ
HasCells qq (both φ ψ) = HasCells qq φ × HasCells qq ψ
HasCells qq (either φ ψ) = HasCells qq φ × HasCells qq ψ

Found-HasCells : (φ : Query) (qq : List Syminfo) → Found qq φ → HasCells qq φ
Found-HasCells (word id) qq (k, e) =
    let (j, s, p, q, r) = find_slot-entry id qq 0 e in
    let same : cell_of qq id ≡ j = cell_of-some qq id e ∙ (omega arith) in (s, rw same q, r)
Found-HasCells always qq f = tt
Found-HasCells never qq f = tt
Found-HasCells (negated φ) qq f = Found-HasCells φ qq f
Found-HasCells (both φ ψ) qq (f, g) = (Found-HasCells φ qq f, Found-HasCells ψ qq g)
Found-HasCells (either φ ψ) qq (f, g) = (Found-HasCells φ qq f, Found-HasCells ψ qq g)

-- `bxu_conv` takes every condition, written with all its parentheses, and gives an expression and a
-- query that the old one begins. For a document that hits the entries `h`, all of that query,
-- `bxu_eval` writes only to cells of `vars` and returns 1 if the document satisfies the condition,
-- and 0 if not, where a document has a word if it hits the word's cell; and the cell of a word of
-- the condition is one of the query's, and holds an entry for this word that has no vector.
pub bxu_eval-request :
    (q : List Syminfo) (φ : Query)
    → (u : BxuT) × (newq : List Syminfo) × (ext : List Syminfo) × (bxu_conv q (request φ)
        ≡ done (some (u, newq)))
      × (newq ≡ q ++ ext)
      × (u.nvars ≡ length newq)
      × HasCells newq φ
      × ((h : List ℕ)
          → All (λ i. i < length newq) h
          → bxu_eval u h ≡ done (int_of (satisfies (λ id. member (cell_of newq id) h) φ)))
unfolding bxu_conv
bxu_eval-request q φ =
    let (ext, extends) = slots-append φ q in
    let (a, compiled, decides) = bx_exec-write (resolve (slots φ q) φ) in
    (
      record { expr = a; nvars = length (slots φ q) },
      slots φ q,
      ext,
      rw (conv_loop-request q φ, bxu_conv, compiled),
      extends,
      refl,
      Found-HasCells φ (slots φ q) (slots-Found φ q),
      λ h inside.
          bxu_eval-marks (record { expr = a; nvars = length (slots φ q) }) h inside
          ∙ ap done (
              decides (λ k. member k h)
              ∙ ap int_of (sym (satisfies-resolve (λ k. member k h) (slots φ q) φ))),
    )
